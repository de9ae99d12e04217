-- ===== src/Feed/Subscriber/Sending.antt =====
-- backend/social/internal/service/feed/post_feed_user_subscriber.go: what the goroutine of a consumer
-- does with one message. It takes no lock, so that the operations of other goroutines may come between
-- the sends.
use otus_highload.Base.{ℕ, suc, String, List, [], ◌∷◌, ◌++◌, map, any, eqb, if◌then◌else◌}
use otus_highload.Base.Errors.{Result, ok, err}
use otus_highload.Base.Maps.{lookup}
use otus_highload.Storage.{Post, PostExtended}
use otus_highload.Feed.Notifier.{Codec}
use otus_highload.Feed.Subscriber.{Hub, subscribers_or_new}

pub record UserPostFeedNotification : Type 0 where
  pub posts : List PostExtended

-- What the channels received, in order, when the message was handled, or until the send on a closed
-- channel.
pub data Sent : Type 0 where
  received : List (ℕ × List Post) → Sent
  crashed : List (ℕ × List Post) → Sent

-- The loop over the subscribers; `hubs i` are the maps at the send with the number i.
unfoldable pub send_all :
    List Post → (ℕ → Hub) → ℕ → List (String × ℕ) → List (ℕ × List Post) → Sent
send_all posts hubs i [] got = received got
send_all posts hubs i (s ∷ rest) got =
    let onwards = send_all posts hubs (suc i) rest (got ++ (s.1, posts) ∷ []) in
    if any (eqb s.1) (hubs i).closed then crashed got else onwards

-- The body of the loop over the messages, after json.Unmarshal. An unreadable message is logged.
unfoldable pub send_notification : Result UserPostFeedNotification → Hub → (ℕ → Hub) → String → Sent
unfolding send_all
send_notification (err e) h hubs user = received []
send_notification (ok notification) h hubs user =
    send_all (map (λ p. p.post) notification.posts) hubs 0
      (subscribers_or_new (lookup user h.active_subscribers)) []

unfoldable pub consume_update :
    {Raw : Type 0} → Codec Raw UserPostFeedNotification → Raw → Hub → (ℕ → Hub) → String → Sent
unfolding send_notification
consume_update json raw h hubs user = send_notification (json.unmarshal raw) h hubs user
