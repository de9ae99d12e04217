-- ===== src/Http/Connection.antt =====
-- A connection from its subscription to its end.
use otus_highload.Base.{
  ℕ, String, ◌≡◌, ◌⊎◌, refl, ap, inl, inr, true, List, [], ◌∷◌, ◌++◌, map, Option, none, some,
  length, ltb, eq_refl, arith, Bool-cases,
}
use otus_highload.Base.Errors.{Error, Result, ok, err}
use otus_highload.Base.Maps.{lookup, erase, lookup-erase_self}
use otus_highload.Storage.{Post}
use otus_highload.Auth.Authenticator.{Context}
use otus_highload.Auth.Jws.{value}
use otus_highload.Feed.Subscriber.{
  Hub, subscribe_post_feed, unsubscribe_post_feed, with_subscribers, close_channel, after_close,
  stop_consumer,
}
use otus_highload.Http.{get_user_id}
use otus_highload.Http.Socket.{
  update, close, close_normal_closure, Event, connection_done, channel_closed, received,
  socket_loop, served, Course, after_subscription, on_connection, post_feed_socket,
}

abbrev channel_in : String → Option (List (String × ℕ)) → Option ℕ
channel_in id none = none
channel_in id (some subscribers) = lookup id subscribers

-- The channel of a subscription, if it is active.
abbrev pub subscription : String → String → Hub → Option ℕ
subscription user id h = channel_in id (lookup user h.active_subscribers)

stop_consumer-active :
    (fault : Option Error) (c : Option ℕ) (h : Hub)
    → (stop_consumer fault c h).1.active_subscribers ≡ h.active_subscribers
unfolding stop_consumer
stop_consumer-active fault none h = refl
stop_consumer-active fault (some consumer) h = refl

after_close-active :
    (fault : Option Error) (user id : String) (rest : List (String × ℕ)) (h : Hub)
    → lookup id rest ≡ none
    → subscription user id (after_close fault user rest h).1 ≡ none
unfolding after_close
after_close-active fault user id rest h gone = elim (Bool-cases (ltb 0 (length rest))) [
  | inl more ↦ rw (more, eq_refl user) gone
  | inr last ↦
      rw
        (
          last,
          stop_consumer-active fault (lookup user h.consumers) (record h {
            active_subscribers = erase user h.active_subscribers;
            consumers = erase user h.consumers;
          }),
          lookup-erase_self user h.active_subscribers,
        )
        refl
]

closed-active :
    (fault : Option Error) (user id : String) (subscribers : List (String × ℕ)) (o : Option ℕ)
    (h : Hub)
    → lookup user h.active_subscribers ≡ some subscribers
    → lookup id subscribers ≡ o
    → subscription user id (close_channel fault user id subscribers o h).1 ≡ none
unfolding close_channel
closed-active fault user id subscribers none h e p = rw e p
closed-active fault user id subscribers (some channel) h e p =
    after_close-active fault user id (erase id subscribers) _ (lookup-erase_self id subscribers)

unsubscribed-active :
    (fault : Option Error) (user id : String) (o : Option (List (String × ℕ))) (h : Hub)
    → lookup user h.active_subscribers ≡ o
    → subscription user id (with_subscribers fault user id o h).1 ≡ none
unfolding with_subscribers
unsubscribed-active fault user id none h e = rw e refl
unsubscribed-active fault user id (some subscribers) h e =
    closed-active fault user id subscribers (lookup id subscribers) h e refl

-- A subscription that was ended is not active.
pub unsubscribe-subscription :
    (fault : Option Error) (user id : String) (h : Hub)
    → subscription user id (unsubscribe_post_feed fault user id h).1 ≡ none
unfolding unsubscribe_post_feed
unsubscribe-subscription fault user id h =
    unsubscribed-active fault user id (lookup user h.active_subscribers) h refl

-- The events that end the loop.
abbrev pub Ending : Event → Type 0
Ending e = (e ≡ connection_done) ⊎ (e ≡ channel_closed)

loop_ended :
    (updates : List (List Post)) (e : Event) (rest : List Event)
    → Ending e
    → socket_loop (map (λ p. received p) updates ++ e ∷ rest)
      ≡ (map (λ p. update p) updates ++ close close_normal_closure ∷ [], true)
unfolding socket_loop
loop_ended [] e rest (inl p) = rw p refl
loop_ended [] e rest (inr p) = rw p refl
loop_ended (u ∷ updates) e rest h = ap (λ r. (update u ∷ r.0, r.1)) (loop_ended updates e rest h)

subscribed :
    (c : Course) (user id : String) (channel : ℕ) (r : Result (String × ℕ) × Hub)
    (updates : List (List Post)) (e : Event) (rest : List Event)
    → r.0 ≡ ok (id, channel)
    → c.events ≡ map (λ p. received p) updates ++ e ∷ rest
    → Ending e
    → after_subscription c user r ≡ (
      served (map (λ p. update p) updates ++ close close_normal_closure ∷ []) true,
      (unsubscribe_post_feed c.fault user id (c.meanwhile r.1)).1,
    )
unfolding after_subscription
subscribed c user id channel (err f, h) updates e rest p q ending = cc
subscribed c user id channel (ok (i, ch), h) updates e rest p q ending =
    let same : i ≡ id = ground arith in rw (q, loop_ended updates e rest ending, same) refl

-- Where an authenticated user's request is upgraded and the subscription succeeds, the handler writes
-- the updates that it takes from the channel before the connection or the channel ends, in their
-- order, then one normal close message, and returns; its subscription is then active no longer,
-- whatever other operations did while it waited.
pub post_feed_socket-ends :
    (c : Course) (context : Context) (user id : String) (channel : ℕ) (h : Hub)
    (updates : List (List Post)) (e : Event) (rest : List Event)
    → get_user_id (some context.user_id) ≡ ok user
    → c.upgraded ≡ true
    → (subscribe_post_feed c.prepared user c.fresh_id c.fresh_channel h).0 ≡ ok (id, channel)
    → c.events ≡ map (λ p. received p) updates ++ e ∷ rest
    → Ending e
    → ((post_feed_socket c (value context) h).0
        ≡ served (map (λ p. update p) updates ++ close close_normal_closure ∷ []) true)
      × (subscription user id (post_feed_socket c (value context) h).1 ≡ none)
unfolding post_feed_socket on_connection
post_feed_socket-ends c context user id channel h updates e rest known up subscribes events ending =
    let r = subscribe_post_feed c.prepared user c.fresh_id c.fresh_channel h in
    let done = subscribed c user id channel r updates e rest subscribes events ending in
    rw (known, up, done) (refl, unsubscribe-subscription c.fault user id (c.meanwhile r.1))
