-- ===== src/Feed/Coherence/Updates.antt =====
-- The caches of post_feed_updater.go against the database, and what a change of it can alter.
use otus_highload.Base.{ℕ, String, ◌≡◌, refl, ◌≢◌, false, List, none, any, ◌==◌}
use otus_highload.Base.Errors.{Result, ok, err}
use otus_highload.Storage.{Db, Rows, whole, failing, cut, is_cut}
use otus_highload.Storage.Friends.{user_ids_with_friend, get_user_ids_with_friend}
use otus_highload.Storage.Feed.{posts_feed}
use otus_highload.Cache.Cacher.{Reading}
use otus_highload.Cache.Fresh.{IsUserKey, FreshAt}
use otus_highload.Feed.Updater.{Updater, Caches, after_subscribers, after_subscribers_load}

pub subscribers-ok :
    (rows : Rows) (user : String) (db : Db) (ids : List String)
    → is_cut rows ≡ false
    → get_user_ids_with_friend rows user db ≡ ok ids
    → ids ≡ user_ids_with_friend db user
unfolding get_user_ids_with_friend
subscribers-ok (failing e) user db ids all h = cc
subscribers-ok whole user db ids all h = cc
subscribers-ok (cut n) user db ids all h = cc

-- What is cached under the identifier of a user is what the queries answer now.
pub record Coherent {S : Type 0} (u : Updater S) (db : Db) (w : Caches S) : Type 0 where
  pub subscribers :
      (user : String)
      → IsUserKey user
      → FreshAt u.subscribers_converter
          (u.subscribers_redis.content w.subscribers user)
          (user_ids_with_friend db user)
  pub feeds :
      (user : String)
      → IsUserKey user
      → FreshAt u.feed_converter
          (u.feed_redis.content w.feed user)
          (posts_feed u.max_feed_length 0 db user)

-- Creating, updating or deleting a post of `author` changes no subscriptions, and no feed but
-- those of its subscribers.
pub record PostsChanged (n : ℕ) (before db : Db) (author : String) : Type 0 where
  pub subscriptions : (k : String) → user_ids_with_friend db k ≡ user_ids_with_friend before k
  pub other_feeds :
      (k : String)
      → any (λ x. x == k) (user_ids_with_friend db author) ≡ false
      → posts_feed n 0 db k ≡ posts_feed n 0 before k

-- A friendship of `user` with `friend` changes the subscribers of `friend` and the feed of `user`.
pub record FriendsChanged (n : ℕ) (before db : Db) (user friend : String) : Type 0 where
  pub other_subscribers :
      (k : String) → friend ≢ k → user_ids_with_friend db k ≡ user_ids_with_friend before k
  pub other_feeds : (k : String) → user ≢ k → posts_feed n 0 db k ≡ posts_feed n 0 before k

pub after_subscribers_ok :
    {S : Type 0} (u : Updater S) (reading : String → Reading) (r : Result (List String) × S)
    (w : Caches S)
    → (after_subscribers u reading r w).0 ≡ none
    → (ids : List String) × (r.0 ≡ ok ids)
unfolding after_subscribers
after_subscribers_ok u reading (err e, s) w h = cc
after_subscribers_ok u reading (ok ids, s) w h = (ids, refl)

pub after_subscribers_load_ok :
    {S : Type 0} (u : Updater S) (reading : String → Reading) (user : String)
    (r : Result (List String) × S) (w : Caches S)
    → (after_subscribers_load u reading user r w).0 ≡ none
    → (ids : List String) × (r.0 ≡ ok ids)
unfolding after_subscribers_load
after_subscribers_load_ok u reading user (err e, s) w h = cc
after_subscribers_load_ok u reading user (ok ids, s) w h = (ids, refl)
