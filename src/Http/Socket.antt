-- ===== src/Http/Socket.antt =====
-- backend/social/internal/server/http/manual_routes.go: the route that invalidates the caches, and the
-- WebSocket on which a user receives the updates of its feed.
use otus_highload.Base.{
  ℕ, String, Bool, true, false, List, [], ◌∷◌, Option, none, some, if◌then◌else◌,
}
use otus_highload.Base.Errors.{Error, Result, ok, err}
use otus_highload.Storage.{Post}
use otus_highload.Auth.Authenticator.{Context}
use otus_highload.Auth.Jws.{Extracted, value, failed, panicked}
use otus_highload.Feed.Notifier.{FeedJson, notify_invalidate_all}
use otus_highload.Feed.Subscriber.{Hub, subscribe_post_feed, unsubscribe_post_feed}
use otus_highload.Http.{get_user_id}

abbrev pub status_of_error : Option Error → ℕ
status_of_error none = 200
status_of_error (some e) = 500

-- cacheInvalidateHandler: the status, and the queue of notifications.
unfoldable pub cache_invalidate :
    {Raw : Type 0} → FeedJson Raw → Option Error → List Raw → ℕ × List Raw
cache_invalidate json fault queue =
    let (e, rest) = notify_invalidate_all json fault queue in (status_of_error e, rest)

-- What the handler writes to an open connection: the posts of an update, or a close message with its
-- code. Errors of writing are ignored or logged.
pub data Frame : Type 0 where
  update : List Post → Frame
  close : ℕ → Frame

abbrev pub close_normal_closure : ℕ
close_normal_closure = 1000

abbrev pub close_abnormal_closure : ℕ
close_abnormal_closure = 1006

-- What `select` takes next: the end of the connection, the end of the channel, or an update from it.
pub data Event : Type 0 where
  connection_done : Event
  channel_closed : Event
  received : List Post → Event

-- The loop, on the events that it takes: the frames, and whether the handler has returned. With no
-- event left it waits.
unfoldable pub socket_loop : List Event → List Frame × Bool
socket_loop [] = ([], false)
socket_loop (connection_done ∷ events) = (close close_normal_closure ∷ [], true)
socket_loop (channel_closed ∷ events) = (close close_normal_closure ∷ [], true)
socket_loop (received posts ∷ events) =
    let (frames, returned) = socket_loop events in (update posts ∷ frames, returned)

-- A status without a connection, the panic of the authenticator, or a connection with its frames, and
-- whether the handler has returned.
pub data Outcome : Type 0 where
  refused : ℕ → Outcome
  stopped : Outcome
  served : List Frame → Bool → Outcome

-- What the environment does in the course of a connection: whether the upgrade succeeds, what
-- prepareConsumer returns if it is called, the fresh identifier and channel, the events, what other
-- operations make of the subscriptions while the loop runs, and the error of stopping the consumer.
pub record Course : Type 0 where
  pub upgraded : Bool
  pub prepared : Result ℕ
  pub fresh_id : String
  pub fresh_channel : ℕ
  pub events : List Event
  pub meanwhile : Hub → Hub
  pub fault : Option Error

-- The deferred call of UnsubscribePostFeed, once the handler returns.
abbrev pub finish : Course → String → String → List Frame × Bool → Hub → Outcome × Hub
finish c user id (frames, true) h =
    (served frames true, (unsubscribe_post_feed c.fault user id h).1)
finish c user id (frames, false) h = (served frames false, h)

unfoldable pub after_subscription : Course → String → Result (String × ℕ) × Hub → Outcome × Hub
unfolding socket_loop
after_subscription c user (err e, h) = (served (close close_abnormal_closure ∷ []) true, h)
after_subscription c user (ok (id, channel), h) =
    finish c user id (socket_loop c.events) (c.meanwhile h)

unfoldable pub on_connection : Course → Result String → Hub → Outcome × Hub
unfolding after_subscription
on_connection c (err e) h = (refused 401, h)
on_connection c (ok user) h =
    let connected =
      after_subscription c user
        (subscribe_post_feed c.prepared user c.fresh_id c.fresh_channel h) in
    if c.upgraded then connected else (refused 400, h)

-- postFeedWebSocketHandler, on what the authenticator made of the request.
unfoldable pub post_feed_socket : Course → Extracted Context → Hub → Outcome × Hub
unfolding on_connection
post_feed_socket c (failed e) h = (refused 401, h)
post_feed_socket c panicked h = (stopped, h)
post_feed_socket c (value context) h = on_connection c (get_user_id (some context.user_id)) h
