-- ===== src/Feed/Subscriber/Histories.antt =====
-- The two maps in any history of the operations.
use otus_highload.Base.{
  ℕ, String, ◌≡◌, ◌≢◌, refl, ◌∙◌, inl, inr, true, List, [], Option, none, some, length, ltb,
  Bool-cases, Option-cases,
}
use otus_highload.Base.Errors.{Error, Result, ok, err}
use otus_highload.Base.Maps.{lookup, erase, assign, has_key, has_key-lookup, has_key_found}
use otus_highload.Feed.Subscriber.{
  Hub, subscribers_or_new, panicked, with_prepared, with_consumer, subscribe_post_feed,
  stop_consumer, after_close, close_channel, with_subscribers, unsubscribe_post_feed, clean_up,
}
use otus_highload.Feed.Subscriber.Keys.{
  SameKeys, SameKeys-erase, SameKeys-assign, SameKeys-assign_known, lookup-has_key,
}

-- A user has a consumer just when there are subscribers of its feed.
abbrev pub Matched : Hub → Type 0
Matched h = SameKeys h.consumers h.active_subscribers

subscribe-Matched :
    (prepared : Result ℕ) (user id : String) (channel : ℕ) (h : Hub)
    → Matched h
    → Matched (subscribe_post_feed prepared user id channel h).1
unfolding subscribe_post_feed
subscribe-Matched prepared user id channel h m = found (lookup user h.consumers) refl
  where
    started : (p : Result ℕ) → Matched (with_prepared p user id channel h).1
    started (err e) = m
    started (ok consumer) =
        SameKeys-assign h.consumers h.active_subscribers user m consumer
          (assign id channel (subscribers_or_new (lookup user h.active_subscribers)))

    found :
        (c : Option ℕ)
        → lookup user h.consumers ≡ c
        → Matched (with_consumer c prepared user id channel h).1
    found none e = started prepared
    found (some consumer) e =
        SameKeys-assign_known h.consumers h.active_subscribers user m
          (assign id channel (subscribers_or_new (lookup user h.active_subscribers)))
          (has_key_found user h.consumers consumer e)

stop_consumer-hub :
    (fault : Option Error) (c : Option ℕ) (h : Hub)
    → Matched h
    → Matched (stop_consumer fault c h).1
unfolding stop_consumer
stop_consumer-hub fault none h m = m
stop_consumer-hub fault (some consumer) h m = m

unsubscribe-Matched :
    (fault : Option Error) (user id : String) (h : Hub)
    → Matched h
    → Matched (unsubscribe_post_feed fault user id h).1
unfolding unsubscribe_post_feed
unsubscribe-Matched fault user id h m = listed (lookup user h.active_subscribers) refl
  where
    left :
        (rest : List (String × ℕ)) (closed : List ℕ)
        → has_key user h.consumers ≡ true
        → Matched (after_close fault user rest (record h { closed = closed })).1
    left rest closed known = elim (Bool-cases (ltb 0 (length rest))) [
      | inl more ↦
          rw (after_close, more)
            (SameKeys-assign_known h.consumers h.active_subscribers user m rest known)
      | inr last ↦
          rw (after_close, last)
            (stop_consumer-hub fault (lookup user h.consumers) _
              (SameKeys-erase h.consumers h.active_subscribers user m))
    ]

    closing :
        (subscribers : List (String × ℕ)) (channel : Option ℕ)
        → has_key user h.consumers ≡ true
        → Matched (close_channel fault user id subscribers channel h).1
    closing subscribers none known = m
    closing subscribers (some channel) known = left (erase id subscribers) _ known

    listed :
        (s : Option (List (String × ℕ)))
        → lookup user h.active_subscribers ≡ s
        → Matched (with_subscribers fault user id s h).1
    listed none e = m
    listed (some subscribers) e =
        closing subscribers (lookup id subscribers)
          (m user ∙ has_key_found user h.active_subscribers subscribers e)

clean_up-Matched :
    (consumer : ℕ) (user : String) (h : Hub) → Matched h → Matched (clean_up consumer user h)
unfolding clean_up
clean_up-Matched consumer user h m = elim (Option-cases (lookup user h.active_subscribers)) [
  | inl unheard ↦
      let alone : lookup user h.consumers ≡ none =
        lookup-has_key user h.consumers
          (m user ∙ has_key-lookup user h.active_subscribers unheard) in
      rw (clean_up, unheard, alone) m
  | inr (subscribers, heard) ↦ elim (Option-cases (lookup user h.consumers)) [
    | inl alone ↦ cc (
      m user,
      has_key-lookup user h.consumers alone,
      has_key_found user h.active_subscribers subscribers heard,
    )
    | inr (own, kept) ↦
        rw (clean_up, heard, kept) (SameKeys-erase h.consumers h.active_subscribers user m)
  ]
]

-- One operation, which holds the mutex: a subscription, its end, or the end of a consumer's messages,
-- at any time and of any consumer.
pub data Step (h : Hub) : Hub → Type 0 where
  subscribes :
      (prepared : Result ℕ) (user id : String) (channel : ℕ)
      → Step h (subscribe_post_feed prepared user id channel h).1
  unsubscribes :
      (fault : Option Error) (user id : String) → Step h (unsubscribe_post_feed fault user id h).1
  cleans_up : (consumer : ℕ) (user : String) → Step h (clean_up consumer user h)

pub data Reach (h : Hub) : Hub → Type 0 where
  here : Reach h h
  next : {g k : Hub} → Reach h g → Step g k → Reach h k

Step-Matched : {h g : Hub} → Step h g → Matched h → Matched g
Step-Matched {h} (subscribes prepared user id channel) m =
    subscribe-Matched prepared user id channel h m
Step-Matched {h} (unsubscribes fault user id) m = unsubscribe-Matched fault user id h m
Step-Matched {h} (cleans_up consumer user) m = clean_up-Matched consumer user h m

-- A user has a consumer just when its feed has subscribers, after any history of the operations that
-- starts from such a state.
pub Reach-Matched : {h g : Hub} → Reach h g → Matched h → Matched g
Reach-Matched here m = m
Reach-Matched (next {g} r s) m = Step-Matched s (Reach-Matched r m)

stop_consumer-done :
    (fault : Option Error) (c : Option ℕ) (h : Hub)
    → c ≢ none
    → (stop_consumer fault c h).0 ≢ panicked
unfolding stop_consumer
stop_consumer-done fault none h known = absurd (known refl)
stop_consumer-done fault (some consumer) h known = λ e. cc

-- After any history from the empty maps, the end of a subscription never stops a consumer that is
-- missing, whatever user and subscription it names.
pub unsubscribe-done :
    {h g : Hub} (fault : Option Error) (user id : String)
    → h.consumers ≡ []
    → h.active_subscribers ≡ []
    → Reach h g
    → (unsubscribe_post_feed fault user id g).0 ≢ panicked
unfolding unsubscribe_post_feed
unsubscribe-done {h} {g} fault user id p q r = listed (lookup user g.active_subscribers) refl
  where
    m : Matched g
    m = Reach-Matched r (λ k. rw (p, q) refl)

    left :
        (rest : List (String × ℕ)) (closed : List ℕ)
        → lookup user g.consumers ≢ none
        → (after_close fault user rest (record g { closed = closed })).0 ≢ panicked
    left rest closed known = elim (Bool-cases (ltb 0 (length rest))) [
      | inl more ↦ rw (after_close, more) (λ e. cc)
      | inr last ↦
          rw (after_close, last) (stop_consumer-done fault (lookup user g.consumers) _ known)
    ]

    closing :
        (subscribers : List (String × ℕ)) (channel : Option ℕ)
        → lookup user g.consumers ≢ none
        → (close_channel fault user id subscribers channel g).0 ≢ panicked
    closing subscribers none known = λ e. cc
    closing subscribers (some channel) known = left (erase id subscribers) _ known

    listed :
        (s : Option (List (String × ℕ)))
        → lookup user g.active_subscribers ≡ s
        → (with_subscribers fault user id s g).0 ≢ panicked
    listed none e = λ e. cc
    listed (some subscribers) e = closing subscribers (lookup id subscribers) (λ alone. cc (
      m user,
      has_key-lookup user g.consumers alone,
      has_key_found user g.active_subscribers subscribers e,
    ))
