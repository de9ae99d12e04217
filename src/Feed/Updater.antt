-- ===== src/Feed/Updater.antt =====
-- backend/social/internal/service/feed/post_feed_updater.go
use otus_highload.Base.{ℕ, String, List, [], ◌∷◌, ◌++◌, Option, none, some}
use otus_highload.Base.Errors.{Error, Result, ok, err}
use otus_highload.Storage.{PostExtended}
use otus_highload.Cache.Redis.{RedisClient}
use otus_highload.Cache.Load.{ValueConverter, invalidate_all}
use otus_highload.Cache.Cacher.{
  Reading, feed_load, subscribers_load, subscribers_get_or_load, subscribers_invalidate_all,
}
use otus_highload.Feed.Notifier.{NotificationType, FeedJson}
use otus_highload.Feed.Notifier

-- The two caches with their converters, the length of a feed, and how an update is published.
pub record Updater (S : Type 0) : Type 0 where
  pub subscribers_redis : RedisClient S
  pub subscribers_converter : ValueConverter (List String)
  pub feed_redis : RedisClient S
  pub feed_converter : ValueConverter (List PostExtended)
  pub max_feed_length : ℕ
  -- fmt.Sprintf(s.userUpdateRoutingKey, userId)
  pub routing_key : String → String
  -- json.Marshal of a UserPostFeedNotification
  pub marshal_posts : List PostExtended → Result String

-- The servers of the two caches, and the calls of SendData so far: routing key and body.
pub record Caches (S : Type 0) : Type 0 where
  pub subscribers : S
  pub feed : S
  pub sent : List (String × String)

-- The error that the loop carries on with.
unfoldable pub later_error : Option Error → Option Error → Option Error
later_error (some e') e = some e'
later_error none e = e

module _ {S : Type 0} (u : Updater S) where
  sent_with : String → Result String → List (String × String) → List (String × String)
  sent_with user (err e) sent = sent
  sent_with user (ok body) sent = sent ++ (u.routing_key user, body) ∷ []

  -- An error of the broker is logged and nothing else, so that its answer is left out.
  unfoldable pub send_post_feed_update : String → List PostExtended → Caches S → Caches S
  unfolding sent_with
  send_post_feed_update user posts w = record w {
    sent = sent_with user (u.marshal_posts posts) w.sent;
  }

  -- The cache of feeds after a load, and the update that follows it.
  unfoldable pub after_feed_load :
      String → Result (List PostExtended) × S → Caches S → Option Error × Caches S
  unfolding send_post_feed_update
  after_feed_load user (err e, s) w = (some e, record w { feed = s })
  after_feed_load user (ok posts, s) w =
      (none, send_post_feed_update user posts (record w { feed = s }))

  unfoldable pub load_and_send : (String → Reading) → String → Caches S → Option Error × Caches S
  load_and_send reading user w =
      after_feed_load user
        (feed_load u.feed_redis u.feed_converter u.max_feed_length (reading user) w.feed user) w

  unfoldable pub after_subscribers_load :
      (String → Reading) → String → Result (List String) × S → Caches S → Option Error × Caches S
  after_subscribers_load reading user (err e, s) w = (some e, record w { subscribers = s })
  after_subscribers_load reading user (ok _, s) w =
      load_and_send reading user (record w { subscribers = s })

  unfoldable pub process_update_friend :
      (String → Reading) → String → String → Caches S → Option Error × Caches S
  process_update_friend reading user friend w =
      after_subscribers_load reading user
        (subscribers_load u.subscribers_redis u.subscribers_converter (reading friend) w.subscribers
          friend)
        w

  -- The loop over the subscribers: an error is remembered and the loop goes on.
  unfoldable pub update_feeds :
      (String → Reading) → List String → Option Error → Caches S → Option Error × Caches S
  update_feeds reading [] e w = (e, w)
  update_feeds reading (subscriber ∷ rest) e w =
      let (failure, w') = load_and_send reading subscriber w in
      update_feeds reading rest (later_error failure e) w'

  unfoldable pub after_subscribers :
      (String → Reading) → Result (List String) × S → Caches S → Option Error × Caches S
  after_subscribers reading (err e, s) w = (some e, record w { subscribers = s })
  after_subscribers reading (ok subscribers, s) w =
      update_feeds reading subscribers none (record w { subscribers = s })

  unfoldable pub process_update_feed :
      (String → Reading) → String → Caches S → Option Error × Caches S
  process_update_feed reading user w =
      after_subscribers reading
        (subscribers_get_or_load u.subscribers_redis u.subscribers_converter (reading user)
          w.subscribers user)
        w

  unfoldable pub flush_feed : Option Error × S → Caches S → Option Error × Caches S
  flush_feed (some e, s) w = (some e, record w { subscribers = s })
  flush_feed (none, s) w =
      let (e, feed) = invalidate_all u.feed_redis u.feed_converter w.feed in
      (e, record w { subscribers = s; feed = feed })

  unfoldable pub process_invalidate_all : Caches S → Option Error × Caches S
  unfolding flush_feed
  process_invalidate_all w =
      flush_feed
        (subscribers_invalidate_all u.subscribers_redis u.subscribers_converter w.subscribers) w

  -- A payload that is read, or the error of reading it.
  unfoldable pub on_payload :
      {A : Type 0}
      → Result A
      → (A → Caches S → Option Error × Caches S)
      → Caches S
      → Option Error × Caches S
  on_payload (err e) f w = (some e, w)
  on_payload (ok a) f w = f a w

  module _ {Raw : Type 0} (json : FeedJson Raw) (reading : String → Reading) where
    -- The switch of `processEvents`; a type that it does not name is passed over.
    unfoldable pub process_notification :
        NotificationType → Raw → Caches S → Option Error × Caches S
    unfolding on_payload
    process_notification Notifier.invalidate_all raw w = process_invalidate_all w
    process_notification Notifier.add_friend raw w =
        on_payload (json.friend.unmarshal raw)
          (λ p. process_update_friend reading p.user_id p.friend_id) w
    process_notification Notifier.delete_friend raw w =
        on_payload (json.friend.unmarshal raw)
          (λ p. process_update_friend reading p.user_id p.friend_id) w
    process_notification Notifier.create_post raw w =
        on_payload (json.post.unmarshal raw) (λ p. process_update_feed reading p.user_id) w
    process_notification Notifier.update_post raw w =
        on_payload (json.post.unmarshal raw) (λ p. process_update_feed reading p.user_id) w
    process_notification Notifier.delete_post raw w =
        on_payload (json.deleted.unmarshal raw) (λ p. process_update_feed reading p.user_id) w
    process_notification (Notifier.unknown type) raw w = (none, w)

    -- One message of the queue; the error is what is logged.
    unfoldable pub process_event : Raw → Caches S → Option Error × Caches S
    process_event body w = elim (json.envelope.unmarshal body) [
      | err e ↦ (some e, w)
      | ok (type, raw) ↦ process_notification type raw w
    ]
