-- ===== src/Feed/Subscriber/Starting.antt =====
-- prepareConsumer of backend/social/internal/service/feed/post_feed_user_subscriber.go, and a
-- subscription that calls it.
use otus_highload.Base.{
  ℕ, String, ◌≡◌, refl, inl, inr, [], ◌∷◌, ◌++◌, Option, none, some, Option-cases,
}
use otus_highload.Base.Errors.{Error, Result, ok, err}
use otus_highload.Base.Maps.{lookup}
use otus_highload.Feed.Subscriber.{Hub, attach, with_prepared, subscribe_post_feed}

-- `starts` and `receives` are the errors of Start and ReceiveData of the new consumer, which is stopped
-- if it does not receive.
unfoldable pub prepare_consumer : Option Error → Option Error → ℕ → Hub → Result ℕ × Hub
prepare_consumer (some e) receives consumer h = (err e, h)
prepare_consumer none (some e) consumer h =
    (err e, record h { stopped = h.stopped ++ consumer ∷ [] })
prepare_consumer none none consumer h = (ok consumer, h)

unfoldable pub prepared_subscription :
    Option ℕ → Result ℕ × Hub → String → String → ℕ → Hub → Result (String × ℕ) × Hub
prepared_subscription none (prepared, after) user id channel h =
    with_prepared prepared user id channel after
prepared_subscription (some consumer) made user id channel h = attach user id channel h

unfoldable pub subscribe_starting :
    Option Error → Option Error → ℕ → String → String → ℕ → Hub → Result (String × ℕ) × Hub
unfolding prepare_consumer prepared_subscription
subscribe_starting starts receives consumer user id channel h =
    prepared_subscription (lookup user h.consumers) (prepare_consumer starts receives consumer h)
      user id channel h

-- A subscription that fails leaves both maps as they were.
subscribe_starting-maps :
    (starts receives : Option Error) (consumer : ℕ) (user id : String) (channel : ℕ) (h : Hub)
    (e : Error)
    → (subscribe_starting starts receives consumer user id channel h).0 ≡ err e
    → ((subscribe_starting starts receives consumer user id channel h).1.consumers ≡ h.consumers)
      × ((subscribe_starting starts receives consumer user id channel h).1.active_subscribers
          ≡ h.active_subscribers)
unfolding subscribe_starting prepared_subscription prepare_consumer with_prepared attach
subscribe_starting-maps starts receives consumer user id channel h e =
    found (lookup user h.consumers) starts receives
  where
    found :
        (c : Option ℕ) (starts receives : Option Error)
        → (prepared_subscription c
            (prepare_consumer starts receives consumer h)
            user
            id
            channel
            h).0
          ≡ err e
        → ((prepared_subscription c
              (prepare_consumer starts receives consumer h)
              user
              id
              channel
              h).1.consumers
            ≡ h.consumers)
          × ((prepared_subscription c
                (prepare_consumer starts receives consumer h)
                user
                id
                channel
                h).1.active_subscribers
              ≡ h.active_subscribers)
    found (some own) starts receives bad = absurd (cc bad)
    found none (some f) receives bad = (refl, refl)
    found none none (some f) bad = (refl, refl)
    found none none none bad = absurd (cc bad)

-- A subscription whose consumer starts and receives is the one of the histories.
subscribe_starting-subscribe_post_feed :
    (consumer : ℕ) (user id : String) (channel : ℕ) (h : Hub)
    → subscribe_starting none none consumer user id channel h
      ≡ subscribe_post_feed (ok consumer) user id channel h
unfolding subscribe_starting subscribe_post_feed prepare_consumer prepared_subscription
subscribe_starting-subscribe_post_feed consumer user id channel h =
    elim (Option-cases (lookup user h.consumers)) [
      | inl alone ↦ rw alone refl
      | inr (own, kept) ↦ rw kept refl
    ]
