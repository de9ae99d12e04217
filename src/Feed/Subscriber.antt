-- ===== src/Feed/Subscriber.antt =====
-- backend/social/internal/service/feed/post_feed_user_subscriber.go: the operations that hold the
-- mutex. Consumers and channels are numbers.
pub mod Keys
pub mod Histories
mod Starting
pub mod Sending
pub mod Channels
pub mod Received
mod Tests
use otus_highload.Base.{
  ℕ, String, List, [], ◌∷◌, ◌++◌, map, Option, none, some, length, ltb, if◌then◌else◌,
}
use otus_highload.Base.Maps.{lookup, erase, assign}
use otus_highload.Base.Errors.{Error, Result, ok, err}

-- The two maps, and the channels that were closed and the consumers that were stopped so far.
pub record Hub : Type 0 where
  pub consumers : List (String × ℕ)
  pub active_subscribers : List (String × List (String × ℕ))
  pub closed : List ℕ
  pub stopped : List ℕ

abbrev pub subscribers_or_new : Option (List (String × ℕ)) → List (String × ℕ)
subscribers_or_new none = []
subscribers_or_new (some subscribers) = subscribers

-- The new channel under the new identifier.
unfoldable pub attach : String → String → ℕ → Hub → Result (String × ℕ) × Hub
attach user id channel h =
    let subscribers = subscribers_or_new (lookup user h.active_subscribers) in
    (
      ok (id, channel),
      record h {
        active_subscribers = assign user (assign id channel subscribers) h.active_subscribers;
      },
    )

unfoldable pub with_prepared : Result ℕ → String → String → ℕ → Hub → Result (String × ℕ) × Hub
unfolding attach
with_prepared (err e) user id channel h = (err e, h)
with_prepared (ok consumer) user id channel h =
    attach user id channel (record h { consumers = assign user consumer h.consumers })

unfoldable pub with_consumer :
    Option ℕ → Result ℕ → String → String → ℕ → Hub → Result (String × ℕ) × Hub
unfolding with_prepared
with_consumer none prepared user id channel h = with_prepared prepared user id channel h
with_consumer (some consumer) prepared user id channel h = attach user id channel h

-- `prepared` is what prepareConsumer returns if it is called.
unfoldable pub subscribe_post_feed :
    Result ℕ → String → String → ℕ → Hub → Result (String × ℕ) × Hub
unfolding with_consumer
subscribe_post_feed prepared user id channel h =
    with_consumer (lookup user h.consumers) prepared user id channel h

-- The error of the call, or the call of a method of a consumer that is nil.
pub data Unsubscribed : Type 0 where
  done : Option Error → Unsubscribed
  panicked : Unsubscribed

unfoldable pub stop_consumer : Option Error → Option ℕ → Hub → Unsubscribed × Hub
stop_consumer fault none h = (panicked, h)
stop_consumer fault (some consumer) h =
    (done fault, record h { stopped = h.stopped ++ consumer ∷ [] })

unfoldable pub after_close : Option Error → String → List (String × ℕ) → Hub → Unsubscribed × Hub
unfolding stop_consumer
after_close fault user rest h =
    if ltb 0 (length rest)
    then (done none, record h { active_subscribers = assign user rest h.active_subscribers })
    else stop_consumer fault (lookup user h.consumers) (record h {
      active_subscribers = erase user h.active_subscribers;
      consumers = erase user h.consumers;
    })

unfoldable pub close_channel :
    Option Error → String → String → List (String × ℕ) → Option ℕ → Hub → Unsubscribed × Hub
unfolding after_close
close_channel fault user id subscribers none h = (done none, h)
close_channel fault user id subscribers (some channel) h =
    after_close fault user (erase id subscribers) (record h { closed = h.closed ++ channel ∷ [] })

unfoldable pub with_subscribers :
    Option Error → String → String → Option (List (String × ℕ)) → Hub → Unsubscribed × Hub
unfolding close_channel
with_subscribers fault user id none h = (done none, h)
with_subscribers fault user id (some subscribers) h =
    close_channel fault user id subscribers (lookup id subscribers) h

-- `fault` is the error of stopping the consumer.
unfoldable pub unsubscribe_post_feed : Option Error → String → String → Hub → Unsubscribed × Hub
unfolding with_subscribers
unsubscribe_post_feed fault user id h =
    with_subscribers fault user id (lookup user h.active_subscribers) h

unfoldable pub close_all : String → Option (List (String × ℕ)) → Hub → Hub
close_all user none h = h
close_all user (some subscribers) h = record h {
  closed = h.closed ++ map (λ s. s.1) subscribers;
  active_subscribers = erase user h.active_subscribers;
}

unfoldable pub stop_own : ℕ → String → Option ℕ → Hub → Hub
stop_own consumer user none h = h
stop_own consumer user (some found) h = record h {
  stopped = h.stopped ++ consumer ∷ [];
  consumers = erase user h.consumers;
}

-- What the goroutine of a consumer does when its messages end.
unfoldable pub clean_up : ℕ → String → Hub → Hub
unfolding close_all stop_own
clean_up consumer user h =
    stop_own consumer user (lookup user h.consumers)
      (close_all user (lookup user h.active_subscribers) h)
