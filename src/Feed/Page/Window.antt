-- ===== src/Feed/Page/Window.antt =====
-- The page that a user gets against the query of the database with the same limit and offset.
use otus_highload.Base.{
  ℕ, suc, ◌+◌, ◌≤◌, ◌<◌, ◌^◌, String, ◌≡◌, ap, ◌∙◌, List, [], length, take, drop, take-drop-take,
  arith,
}
use otus_highload.Base.Int.{pos, add_int_in_range, add_int_overflow}
use otus_highload.Base.Errors.{Result, ok, post_feed_len_not_valid}
use otus_highload.Storage.{PostExtended, Db}
use otus_highload.Storage.Feed.{posts_feed}
use otus_highload.Cache.Load.{get_or_load}
use otus_highload.Cache.Cacher.{Serves, Reading, reload_feed, feed_get_or_load}
use otus_highload.Cache.Fresh.{IsUserKey, RoundTrips, FreshAt, get_or_load-Fresh}
use otus_highload.Feed.Updater.{Updater}
use otus_highload.Feed.Coherence.Loads.{converted_ok, reload_feed-served}
use otus_highload.Feed.Page.{posts, failed, get_user_posts, page_loop}
use otus_highload.Feed.Page.Loop.{page_from-window}

module _ {S : Type 0} (u : Updater S) (r : Reading) (s : S) (user : String) where
  -- A window that ends behind the longest feed, at a number of int64, is refused, and the cache is
  -- left as it is.
  pub get_user_posts_too_long :
      (limit offset : ℕ)
      → offset + limit < 2 ^ 63
      → u.max_feed_length < offset + limit
      → get_user_posts u r (pos limit) (pos offset) s user ≡ (failed post_feed_len_not_valid, s)
  unfolding get_user_posts
  get_user_posts_too_long limit offset fits long =
      rw (add_int_in_range offset limit fits) (ground arith)

  -- Where the sum of an offset and a limit of int64 leaves int64 it is negative: the length check
  -- passes, and the page of a cached or loaded feed is empty.
  pub get_user_posts_overflow :
      (limit offset : ℕ) (cached : List PostExtended)
      → limit < 2 ^ 63
      → offset < 2 ^ 63
      → 2 ^ 63 ≤ offset + limit
      → (feed_get_or_load u.feed_redis u.feed_converter u.max_feed_length r s user).0 ≡ ok cached
      → (get_user_posts u r (pos limit) (pos offset) s user).0 ≡ posts []
  unfolding get_user_posts page_loop
  get_user_posts_overflow limit offset cached p q over e =
      rw (add_int_overflow offset limit q p over) (ground arith)

  pub get_user_posts-window :
      (limit offset : ℕ) (cached : List PostExtended)
      → u.max_feed_length < 2 ^ 63
      → offset + limit ≤ u.max_feed_length
      → (feed_get_or_load u.feed_redis u.feed_converter u.max_feed_length r s user).0 ≡ ok cached
      → (get_user_posts u r (pos limit) (pos offset) s user).0
        ≡ posts (take limit (drop offset cached))
  unfolding get_user_posts page_loop
  get_user_posts-window limit offset cached small fits e =
      rw (add_int_in_range offset limit (omega arith))
        (ground (arith, page_from-window (suc (length cached)) offset limit cached))

  -- A page is what the query itself answers with that limit and offset, when the cache holds the
  -- user's feed of the database or none, the window ends within the longest feed, and the cache or
  -- the query, which sees that database, answers without an error. The converter reads back what it
  -- wrote, the user's identifier is not the name of a mutex, and the longest feed fits int64.
  pub get_user_posts-query :
      (limit offset : ℕ) (db : Db) (cached : List PostExtended)
      → RoundTrips u.feed_converter
      → IsUserKey user
      → Serves r db
      → FreshAt u.feed_converter
          (u.feed_redis.content s user)
          (posts_feed u.max_feed_length 0 db user)
      → u.max_feed_length < 2 ^ 63
      → offset + limit ≤ u.max_feed_length
      → (feed_get_or_load u.feed_redis u.feed_converter u.max_feed_length r s user).0 ≡ ok cached
      → (get_user_posts u r (pos limit) (pos offset) s user).0
        ≡ posts (posts_feed limit offset db user)
  unfolding feed_get_or_load posts_feed
  get_user_posts-query limit offset db cached round key at fresh small fits e =
      get_user_posts-window limit offset cached small fits e
      ∙ ap (λ c. posts (take limit (drop offset c))) whole
      ∙ ap posts (take-drop-take limit offset u.max_feed_length _ fits)
    where
      source : Result (List PostExtended)
      source = reload_feed u.feed_redis u.feed_converter u.max_feed_length r user

      whole : cached ≡ posts_feed u.max_feed_length 0 db user
      whole =
          let (q, same) =
            converted_ok (get_or_load u.feed_redis u.feed_converter s user source) cached e in
          cc (
            same,
            (get_or_load-Fresh u.feed_redis u.feed_converter round s user source _ key fresh
                (λ w p. reload_feed-served u (λ k. r) db user w at p) q).0,
          )
