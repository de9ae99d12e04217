-- ===== src/Feed/Coherence/Loop.antt =====
-- The loop of `processUpdateFeed` over the subscribers, seen from the caches.
use otus_highload.Base.{
  String, ◌≡◌, refl, ◌∙◌, ◌≢◌, inl, inr, List, [], ◌∷◌, Option, none, some, Option-cases, any, ◌==◌,
}
use otus_highload.Base.Errors.{Error, Result, ok, err}
use otus_highload.Storage.{PostExtended, Db}
use otus_highload.Cache.Cacher.{Serves, Reading, feed_load}
use otus_highload.Cache.Fresh.{IsUserKey, RoundTrips, Kept-refl}
use otus_highload.Cache.Renewed.{Renewed, Renewed-trans}
use otus_highload.Storage.Feed.{posts_feed}
use otus_highload.Feed.Updater.{
  Updater, Caches, load_and_send, after_feed_load, later_error, update_feeds,
}
use otus_highload.Feed.Coherence.Loads.{load_and_send-Renewed}

later_error-none : (e : Option Error) → later_error none e ≡ e
unfolding later_error
later_error-none e = refl

later_error-some : (e' : Error) (e : Option Error) → later_error (some e') e ≡ some e'
unfolding later_error
later_error-some e' e = refl

module _ {S : Type 0} (u : Updater S) (reading : String → Reading) (db : Db) where
  update_feeds-cons :
      (x : String) (xs : List String) (e : Option Error) (w : Caches S)
      → update_feeds u reading (x ∷ xs) e w
        ≡ update_feeds u reading xs
            (later_error (load_and_send u reading x w).0 e)
            (load_and_send u reading x w).1
  unfolding update_feeds
  update_feeds-cons x xs e w = refl

  update_feeds-nil : (e : Option Error) (w : Caches S) → update_feeds u reading [] e w ≡ (e, w)
  unfolding update_feeds
  update_feeds-nil e w = refl

  -- An error of one subscriber is never forgotten.
  update_feeds-some :
      (xs : List String) (e : Error) (w : Caches S)
      → (update_feeds u reading xs (some e) w).0 ≢ none
  update_feeds-some [] e w h = cc (update_feeds-nil (some e) w)
  update_feeds-some (x ∷ xs) e w h = elim (Option-cases (load_and_send u reading x w).0) [
    | inl p ↦
        update_feeds-some xs e (load_and_send u reading x w).1
          (rw (update_feeds-cons, p, later_error-none) at h)
    | inr (e', p) ↦
        update_feeds-some xs e' (load_and_send u reading x w).1
          (rw (update_feeds-cons, p, later_error-some) at h)
  ]

  after_feed_load_subscribers :
      (x : String) (r : Result (List PostExtended) × S) (w : Caches S)
      → (after_feed_load u x r w).1.subscribers ≡ w.subscribers
  unfolding after_feed_load
  after_feed_load_subscribers x (ok posts, s) w = refl
  after_feed_load_subscribers x (err e, s) w = refl

  pub load_and_send_subscribers :
      (x : String) (w : Caches S) → (load_and_send u reading x w).1.subscribers ≡ w.subscribers
  unfolding load_and_send
  load_and_send_subscribers x w =
      after_feed_load_subscribers x
        (feed_load u.feed_redis u.feed_converter u.max_feed_length (reading x) w.feed x) w

  pub update_feeds_subscribers :
      (xs : List String) (e : Option Error) (w : Caches S)
      → (update_feeds u reading xs e w).1.subscribers ≡ w.subscribers
  unfolding update_feeds
  update_feeds_subscribers [] e w = refl
  update_feeds_subscribers (x ∷ xs) e w =
      update_feeds_subscribers xs _ (load_and_send u reading x w).1 ∙ load_and_send_subscribers x w

  module _ (round : RoundTrips u.feed_converter)
      (reads : (k : String) → Serves (reading k) db) where
    -- The loop without an error leaves the feeds of the subscribers fresh, and no other one staler.
    pub update_feeds-Renewed :
        (xs : List String) (w : Caches S)
        → (update_feeds u reading xs none w).0 ≡ none
        → (j : String) → IsUserKey j
        → Renewed u.feed_converter
            (any (λ x. x == j) xs)
            (u.feed_redis.content w.feed j)
            (u.feed_redis.content (update_feeds u reading xs none w).1.feed j)
            (posts_feed u.max_feed_length 0 db j)
    update_feeds-Renewed [] w h j key = rw update_feeds-nil (inr (refl, Kept-refl _))
    update_feeds-Renewed (x ∷ xs) w h j key = elim (Option-cases (load_and_send u reading x w).0) [
      | inl p ↦
          rw (update_feeds-cons, p, later_error-none)
            (Renewed-trans u.feed_converter (x == j) (any (λ x. x == j) xs) _ _ _ _
              (load_and_send-Renewed u reading db round reads x w p j key)
              (update_feeds-Renewed xs (load_and_send u reading x w).1
                (rw (update_feeds-cons, p, later_error-none) at h) j key))
      | inr (e', p) ↦ absurd (
          update_feeds-some xs e' (load_and_send u reading x w).1
            (rw (update_feeds-cons, p, later_error-some) at h))
    ]
