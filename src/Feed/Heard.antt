-- ===== src/Feed/Heard.antt =====
-- What the updater makes of one message of the queue.
use otus_highload.Base.{
  String, ◌≡◌, refl, inl, inr, Bool, true, false, Option, none, any, ◌==◌, ◌&&◌,
}
use otus_highload.Base.Errors.{Error, Result, ok, err, Result-cases}
use otus_highload.Storage.{Db}
use otus_highload.Storage.Friends.{user_ids_with_friend}
use otus_highload.Cache.Cacher.{Reading}
use otus_highload.Feed.Notifier.{
  NotificationType, FriendNotification, PostNotification, DeletePostNotification, Codec, FeedJson,
  marshal_notification, marshal_in, notify, notify_invalidate_all, notify_add_friend,
  notify_delete_friend, notify_create_post, notify_update_post, notify_delete_post,
}
use otus_highload.Feed.Notifier as Notifier
use otus_highload.Feed.Updater.{
  Updater, Caches, process_event, process_notification, process_update_friend, process_update_feed,
  process_invalidate_all, on_payload,
}

-- A friendship of a user with another, a post of an author, all caches, or no change at all.
pub data Heard : Type 0 where
  of_friend : String → String → Heard
  of_author : String → Heard
  everything nothing : Heard

-- The message makes the updater load the subscribers of that user.
abbrev pub of_subscribers : String → Heard → Bool
of_subscribers a (of_friend user friend) = friend == a
of_subscribers a (of_author author) = false
of_subscribers a everything = true
of_subscribers a nothing = false

-- The message is about the friendship of the first user with the second.
abbrev pub of_membership : String → String → Heard → Bool
of_membership k a (of_friend user friend) = (user == k) && (friend == a)
of_membership k a (of_author author) = false
of_membership k a everything = true
of_membership k a nothing = false

-- The message makes the updater load the feed of that user, if its list of subscribers is the
-- database's.
abbrev pub of_feed : Db → String → Heard → Bool
of_feed db k (of_friend user friend) = user == k
of_feed db k (of_author author) = any (λ x. x == k) (user_ids_with_friend db author)
of_feed db k everything = true
of_feed db k nothing = false

abbrev heard_friend : Result FriendNotification → Heard
heard_friend (ok p) = of_friend p.user_id p.friend_id
heard_friend (err e) = nothing

abbrev heard_post : Result PostNotification → Heard
heard_post (ok p) = of_author p.user_id
heard_post (err e) = nothing

abbrev heard_deleted : Result DeletePostNotification → Heard
heard_deleted (ok p) = of_author p.user_id
heard_deleted (err e) = nothing

module _ {S : Type 0} (u : Updater S) (reading : String → Reading) where
  abbrev pub handle : Heard → Caches S → Option Error × Caches S
  handle (of_friend user friend) w = process_update_friend u reading user friend w
  handle (of_author author) w = process_update_feed u reading author w
  handle everything w = process_invalidate_all u w
  handle nothing w = (none, w)

  on_friend :
      (r : Result FriendNotification) (w : Caches S)
      → (on_payload u r (λ p. process_update_friend u reading p.user_id p.friend_id) w).0 ≡ none
      → on_payload u r (λ p. process_update_friend u reading p.user_id p.friend_id) w
        ≡ handle (heard_friend r) w
  unfolding on_payload
  on_friend (ok p) w h = refl
  on_friend (err e) w h = cc

  on_post :
      (r : Result PostNotification) (w : Caches S)
      → (on_payload u r (λ p. process_update_feed u reading p.user_id) w).0 ≡ none
      → on_payload u r (λ p. process_update_feed u reading p.user_id) w ≡ handle (heard_post r) w
  unfolding on_payload
  on_post (ok p) w h = refl
  on_post (err e) w h = cc

  on_deleted :
      (r : Result DeletePostNotification) (w : Caches S)
      → (on_payload u r (λ p. process_update_feed u reading p.user_id) w).0 ≡ none
      → on_payload u r (λ p. process_update_feed u reading p.user_id) w ≡ handle (heard_deleted r) w
  unfolding on_payload
  on_deleted (ok p) w h = refl
  on_deleted (err e) w h = cc

module _ {Raw : Type 0} (json : FeedJson Raw) where
  abbrev heard_in : Result (NotificationType × Raw) → Heard
  heard_in (err e) = nothing
  heard_in (ok (Notifier.invalidate_all, raw)) = everything
  heard_in (ok (Notifier.add_friend, raw)) = heard_friend (json.friend.unmarshal raw)
  heard_in (ok (Notifier.delete_friend, raw)) = heard_friend (json.friend.unmarshal raw)
  heard_in (ok (Notifier.create_post, raw)) = heard_post (json.post.unmarshal raw)
  heard_in (ok (Notifier.update_post, raw)) = heard_post (json.post.unmarshal raw)
  heard_in (ok (Notifier.delete_post, raw)) = heard_deleted (json.deleted.unmarshal raw)
  heard_in (ok (Notifier.unknown type, raw)) = nothing

  abbrev pub heard : Raw → Heard
  heard body = heard_in (json.envelope.unmarshal body)

  module _ {S : Type 0} (u : Updater S) (reading : String → Reading) where
    on_envelope :
        (type : NotificationType) (raw : Raw) (w : Caches S)
        → (process_notification u json reading type raw w).0 ≡ none
        → process_notification u json reading type raw w
          ≡ handle u reading (heard_in (ok (type, raw))) w
    unfolding process_notification
    on_envelope Notifier.invalidate_all raw w h = refl
    on_envelope Notifier.add_friend raw w h = on_friend u reading (json.friend.unmarshal raw) w h
    on_envelope Notifier.delete_friend raw w h = on_friend u reading (json.friend.unmarshal raw) w h
    on_envelope Notifier.create_post raw w h = on_post u reading (json.post.unmarshal raw) w h
    on_envelope Notifier.update_post raw w h = on_post u reading (json.post.unmarshal raw) w h
    on_envelope Notifier.delete_post raw w h = on_deleted u reading (json.deleted.unmarshal raw) w h
    on_envelope (Notifier.unknown type) raw w h = refl

    -- A message that is handled without an error is handled as what was heard.
    pub process_event-handle :
        (body : Raw) (w : Caches S)
        → (process_event u json reading body w).0 ≡ none
        → process_event u json reading body w ≡ handle u reading (heard body) w
    unfolding process_event
    process_event-handle body w h = elim (Result-cases (json.envelope.unmarshal body)) [
      | inl ((type, raw), p) ↦
          rw (process_event, p) (on_envelope type raw w (rw (process_event, p) at h))
      | inr (e, p) ↦ cc
    ]
