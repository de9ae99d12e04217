-- ===== src/Feed/Notifier.antt =====
-- backend/social/internal/model/notifications.go and
-- backend/social/internal/service/feed/post_feed_notifier.go
use otus_highload.Base.{String, ◌≡◌, List, [], ◌∷◌, ◌++◌, Option, none, some}
use otus_highload.Base.Errors.{Error, Result, ok, err}
use otus_highload.Storage.{PostExtended}

pub data NotificationType : Type 0 where
  invalidate_all add_friend delete_friend create_post update_post delete_post : NotificationType
  -- Any other text in the field.
  unknown : String → NotificationType

-- AddFriendNotification and DeleteFriendNotification
pub record FriendNotification : Type 0 where
  pub user_id : String
  pub friend_id : String

-- CreatePostNotification and UpdatePostNotification
pub record PostNotification : Type 0 where
  pub user_id : String
  pub post : PostExtended

pub record DeletePostNotification : Type 0 where
  pub user_id : String
  pub post_id : String

-- encoding/json at one type: a value is read back as it was written.
pub record Codec (Raw A : Type 0) : Type 0 where
  pub marshal : A → Result Raw
  pub unmarshal : Raw → Result A
  pub round : (a : A) (raw : Raw) → marshal a ≡ ok raw → unmarshal raw ≡ ok a

-- The formats of the queue: an envelope with the type and the raw payload, and each payload.
pub record FeedJson (Raw : Type 0) : Type 0 where
  pub envelope : Codec Raw (NotificationType × Raw)
  pub nothing : Codec Raw (Unit {0})
  pub friend : Codec Raw FriendNotification
  pub post : Codec Raw PostNotification
  pub deleted : Codec Raw DeletePostNotification

module _ {Raw : Type 0} (json : FeedJson Raw) where
  -- json.Marshal of a Notification marshals its payload inside the envelope.
  unfoldable pub marshal_in : NotificationType → Result Raw → Result Raw
  marshal_in type (err e) = err e
  marshal_in type (ok raw) = json.envelope.marshal (type, raw)

  unfoldable pub marshal_notification :
      {A : Type 0} → NotificationType → Codec Raw A → A → Result Raw
  unfolding marshal_in
  marshal_notification type codec payload = marshal_in type (codec.marshal payload)

-- The queue of the service: what was accepted, in order. A send fails with the broker's error.
unfoldable pub sent : {Raw : Type 0} → Option Error → Raw → List Raw → Option Error × List Raw
sent (some e) raw queue = (some e, queue)
sent none raw queue = (none, queue ++ raw ∷ [])

unfoldable pub notify :
    {Raw : Type 0} → Option Error → Result Raw → List Raw → Option Error × List Raw
unfolding sent
notify fault (err e) queue = (some e, queue)
notify fault (ok raw) queue = sent fault raw queue

module _ {Raw : Type 0} (json : FeedJson Raw) (fault : Option Error) where
  unfoldable pub notify_invalidate_all : List Raw → Option Error × List Raw
  unfolding notify marshal_notification
  notify_invalidate_all = notify fault (marshal_notification json invalidate_all json.nothing tt)

  unfoldable pub notify_add_friend : String → String → List Raw → Option Error × List Raw
  unfolding notify marshal_notification
  notify_add_friend user friend = notify fault (
      marshal_notification json add_friend json.friend
        (record { user_id = user; friend_id = friend }))

  unfoldable pub notify_delete_friend : String → String → List Raw → Option Error × List Raw
  unfolding notify marshal_notification
  notify_delete_friend user friend = notify fault (
      marshal_notification json delete_friend json.friend
        (record { user_id = user; friend_id = friend }))

  unfoldable pub notify_create_post : PostExtended → List Raw → Option Error × List Raw
  unfolding notify marshal_notification
  notify_create_post post = notify fault (
      marshal_notification json create_post json.post
        (record { user_id = post.author_user_id; post = post }))

  unfoldable pub notify_update_post : PostExtended → List Raw → Option Error × List Raw
  unfolding notify marshal_notification
  notify_update_post post = notify fault (
      marshal_notification json update_post json.post
        (record { user_id = post.author_user_id; post = post }))

  unfoldable pub notify_delete_post : String → String → List Raw → Option Error × List Raw
  unfolding notify marshal_notification
  notify_delete_post post_id user = notify fault (
      marshal_notification json delete_post json.deleted
        (record { user_id = user; post_id = post_id }))
