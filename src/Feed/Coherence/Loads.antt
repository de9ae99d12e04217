-- ===== src/Feed/Coherence/Loads.antt =====
-- One load of a feed, followed by its update, seen from the cache.
use otus_highload.Base.{false, ℕ, String, ◌≡◌, refl, ap, ◌∙◌, List, Option, none, some, ◌==◌, arith}
use otus_highload.Base.Errors.{Error, Result, ok, err}
use otus_highload.Storage.{PostExtended, Db, Rows, whole, failing, cut, is_cut}
use otus_highload.Storage.Feed.{posts_feed, get_posts_feed_by_user_id}
use otus_highload.Cache.Load.{load}
use otus_highload.Cache.Cacher.{Reading, Serves, converted, reload_feed, feed_load}
use otus_highload.Cache.Fresh.{IsUserKey, RoundTrips}
use otus_highload.Cache.Renewed.{Renewed, load-Renewed}
use otus_highload.Feed.Updater.{Updater, Caches, after_feed_load, load_and_send}

pub converted_state : {S V : Type 0} (t : Option V × Option Error × S) → (converted t).1 ≡ t.2
converted_state (v, some e, s) = refl
converted_state (some v, none, s) = refl
converted_state (none, none, s) = refl

pub converted_ok :
    {S V : Type 0} (t : Option V × Option Error × S) (v : V)
    → (converted t).0 ≡ ok v
    → (t.1 ≡ none) × (t.0 ≡ some v)
converted_ok (w, some e, s) v h = cc
converted_ok (some w, none, s) v h = (refl, ground arith)
converted_ok (none, none, s) v h = cc

feed_query-ok :
    (rows : Rows) (limit : ℕ) (user : String) (db : Db) (posts : List PostExtended)
    → is_cut rows ≡ false
    → get_posts_feed_by_user_id rows limit 0 user db ≡ ok posts
    → posts ≡ posts_feed limit 0 db user
unfolding get_posts_feed_by_user_id
feed_query-ok (failing e) limit user db posts all h = cc
feed_query-ok whole limit user db posts all h = cc
feed_query-ok (cut n) limit user db posts all h = cc

module _ {S : Type 0} (u : Updater S) (reading : String → Reading) (db : Db) where
  after_feed_load_state :
      (user : String) (r : Result (List PostExtended) × S) (w : Caches S)
      → (after_feed_load u user r w).1.feed ≡ r.1
  unfolding after_feed_load
  after_feed_load_state user (ok posts, s) w = refl
  after_feed_load_state user (err e, s) w = refl

  after_feed_load-none :
      (user : String) (r : Result (List PostExtended) × S) (w : Caches S)
      → (after_feed_load u user r w).0 ≡ none
      → (posts : List PostExtended) × (r.0 ≡ ok posts)
  unfolding after_feed_load
  after_feed_load-none user (ok posts, s) w h = (posts, refl)
  after_feed_load-none user (err e, s) w h = cc

  pub reload_feed-served :
      (user : String) (posts : List PostExtended)
      → Serves (reading user) db
      → reload_feed u.feed_redis u.feed_converter u.max_feed_length (reading user) user ≡ ok posts
      → posts ≡ posts_feed u.max_feed_length 0 db user
  unfolding reload_feed
  reload_feed-served user posts at h =
      feed_query-ok (reading user).fault u.max_feed_length user (reading user).served posts at.1 h
      ∙ ap (λ d. posts_feed u.max_feed_length 0 d user) at.0

  module _ (round : RoundTrips u.feed_converter)
      (reads : (k : String) → Serves (reading k) db) where
    -- A load that is followed by an update leaves the user's feed fresh, and no other one staler.
    pub load_and_send-Renewed :
        (user : String) (w : Caches S)
        → (load_and_send u reading user w).0 ≡ none
        → (j : String) → IsUserKey j
        → Renewed u.feed_converter
            (user == j)
            (u.feed_redis.content w.feed j)
            (u.feed_redis.content (load_and_send u reading user w).1.feed j)
            (posts_feed u.max_feed_length 0 db j)
    unfolding load_and_send feed_load
    load_and_send-Renewed user w h j key =
        let source =
          reload_feed u.feed_redis u.feed_converter u.max_feed_length (reading user) user in
        let t = load u.feed_redis u.feed_converter w.feed user source in
        let (posts, loaded) = after_feed_load-none user (converted t) w h in
        rw (after_feed_load_state user (converted t) w, converted_state t)
          (load-Renewed u.feed_redis u.feed_converter round (posts_feed u.max_feed_length 0 db)
            w.feed user source (λ v p. reload_feed-served user v (reads user) p)
            (converted_ok t posts loaded).0 j key)
