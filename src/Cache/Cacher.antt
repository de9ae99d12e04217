-- ===== src/Cache/Cacher.antt =====
-- backend/social/internal/service/cache/post_feed_cacher.go and subscriber_cacher.go.
use otus_highload.Base.{◌≡◌, false, ℕ, String, List, Option, none, some}
use otus_highload.Base.Errors.{Error, Result, ok, err, not_valid_cache}
use otus_highload.Storage.{PostExtended, Db, Rows, is_cut}
use otus_highload.Storage.Friends.{get_user_ids_with_friend}
use otus_highload.Storage.Feed.{get_posts_feed_by_user_id}
use otus_highload.Cache.Redis.{RedisClient}
use otus_highload.Cache.Load.{ValueConverter, load, get_or_load, invalidate_all}

-- `if err != nil { return nil, err }`, and then the conversion of the value, which fails on an
-- absent one.
abbrev pub converted : {S V : Type 0} → Option V × Option Error × S → Result V × S
converted (v, some e, s) = (err e, s)
converted (some v, none, s) = (ok v, s)
converted (none, none, s) = (err not_valid_cache, s)

-- What the database answers when a cacher reloads: how the rows of the query arrive, and the state
-- that the chosen pool serves.
pub record Reading : Type 0 where
  pub fault : Rows
  pub served : Db

-- The query sees the database, and its rows are not cut short.
abbrev pub Serves : Reading → Db → Type 0
Serves r db = (r.served ≡ db) × (is_cut r.fault ≡ false)

module _ {S : Type 0} (redis : RedisClient S) (converter : ValueConverter (List PostExtended))
    (max_feed_length : ℕ) where
  unfoldable pub reload_feed : Reading → String → Result (List PostExtended)
  reload_feed r user = get_posts_feed_by_user_id r.fault max_feed_length 0 user r.served

  unfoldable pub feed_load : Reading → S → String → Result (List PostExtended) × S
  unfolding reload_feed
  feed_load r s user = converted (load redis converter s user (reload_feed r user))

  unfoldable pub feed_get_or_load : Reading → S → String → Result (List PostExtended) × S
  unfolding reload_feed
  feed_get_or_load r s user = converted (get_or_load redis converter s user (reload_feed r user))

module _ {S : Type 0} (redis : RedisClient S) (converter : ValueConverter (List String)) where
  unfoldable pub subscribers_load : Reading → S → String → Result (List String) × S
  subscribers_load r s user =
      converted (load redis converter s user (get_user_ids_with_friend r.fault user r.served))

  unfoldable pub subscribers_get_or_load : Reading → S → String → Result (List String) × S
  subscribers_get_or_load r s user =
      converted
        (get_or_load redis converter s user (get_user_ids_with_friend r.fault user r.served))

  unfoldable pub subscribers_invalidate_all : S → Option Error × S
  subscribers_invalidate_all s = invalidate_all redis converter s
