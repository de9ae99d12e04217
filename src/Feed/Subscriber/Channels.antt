-- ===== src/Feed/Subscriber/Channels.antt =====
-- Whose channels are open: a channel belongs to one subscription, and is closed once.
use otus_highload.Base.{
  ℕ, ◌+◌, ◌≤◌, String, ◌≡◌, refl, inl, inr, List, [], ◌∷◌, ◌++◌, map, Option, none, some, eqb, ltb,
  length, if◌then◌else◌, Bool-cases, arith,
}
use otus_highload.Base.Errors.{Error, Result, ok, err}
use otus_highload.Base.Maps.{lookup, erase, assign}
use otus_highload.Feed.Subscriber.{
  Hub, subscribers_or_new, attach, with_prepared, with_consumer, stop_consumer, after_close,
  close_channel, with_subscribers, close_all, stop_own,
}

-- How often a channel stands in a list, among the subscriptions of a user, and among those of all.
abbrev pub count_of : ℕ → List ℕ → ℕ
count_of c [] = 0
count_of c (d ∷ ds) = (if eqb c d then 1 else 0) + count_of c ds

abbrev pub count_in : ℕ → List (String × ℕ) → ℕ
count_in c [] = 0
count_in c ((id, d) ∷ m) = (if eqb c d then 1 else 0) + count_in c m

abbrev pub count_active : ℕ → List (String × List (String × ℕ)) → ℕ
count_active c [] = 0
count_active c ((user, m) ∷ ms) = count_in c m + count_active c ms

abbrev pub uses : ℕ → Hub → ℕ
uses c h = count_active c h.active_subscribers + count_of c h.closed

count_of-append : (c : ℕ) (ds es : List ℕ) → count_of c (ds ++ es) ≡ count_of c ds + count_of c es
count_of-append c [] es = omega arith
count_of-append c (d ∷ ds) es = omega (arith, count_of-append c ds es)

count_of-map : (c : ℕ) (m : List (String × ℕ)) → count_of c (map (λ s. s.1) m) ≡ count_in c m
count_of-map c [] = refl
count_of-map c ((id, d) ∷ m) = omega (arith, count_of-map c m)

count_in-erase :
    (c : ℕ) (id : String) (m : List (String × ℕ)) → count_in c (erase id m) ≤ count_in c m
count_in-erase c id [] = omega arith
count_in-erase c id ((j, d) ∷ m) = ground (arith, count_in-erase c id m)

count_in-lookup :
    (c d : ℕ) (id : String) (m : List (String × ℕ))
    → lookup id m ≡ some d
    → count_in c (erase id m) + (if eqb c d then 1 else 0) ≤ count_in c m
count_in-lookup c d id [] h = cc
count_in-lookup c d id ((j, e) ∷ m) h =
    ground (arith, count_in-lookup c d id m, count_in-erase c id m)

pub count_active-erase :
    (c : ℕ) (user : String) (ms : List (String × List (String × ℕ)))
    → count_active c (erase user ms) + count_in c (subscribers_or_new (lookup user ms))
      ≤ count_active c ms
count_active-erase c user [] = omega arith
count_active-erase c user ((j, m) ∷ ms) = ground (arith, count_active-erase c user ms)

module _ (c : ℕ) where
  attach-uses :
      (user id : String) (channel : ℕ) (h : Hub)
      → uses c (attach user id channel h).1 ≤ uses c h + (if eqb c channel then 1 else 0)
  unfolding attach
  attach-uses user id channel h = omega (
    arith,
    count_in-erase c id (subscribers_or_new (lookup user h.active_subscribers)),
    count_active-erase c user h.active_subscribers,
  )

  pub with_consumer-uses :
      (found : Option ℕ) (prepared : Result ℕ) (user id : String) (channel : ℕ) (h : Hub)
      → uses c (with_consumer found prepared user id channel h).1
        ≤ uses c h + (if eqb c channel then 1 else 0)
  unfolding with_consumer with_prepared
  with_consumer-uses none (err e) user id channel h = ground arith
  with_consumer-uses none (ok consumer) user id channel h =
      attach-uses user id channel (record h { consumers = assign user consumer h.consumers })
  with_consumer-uses (some consumer) prepared user id channel h = attach-uses user id channel h

  stop_consumer-uses :
      (fault : Option Error) (found : Option ℕ) (h : Hub)
      → uses c (stop_consumer fault found h).1 ≡ uses c h
  unfolding stop_consumer
  stop_consumer-uses fault none h = refl
  stop_consumer-uses fault (some consumer) h = refl

  after_close-uses :
      (fault : Option Error) (user : String) (rest : List (String × ℕ)) (h : Hub)
      → uses c (after_close fault user rest h).1
        ≤ count_in c rest + count_active c (erase user h.active_subscribers) + count_of c h.closed
  unfolding after_close
  after_close-uses fault user rest h = elim (Bool-cases (ltb 0 (length rest))) [
    | inl more ↦ rw (after_close, more) (omega arith)
    | inr last ↦
        rw (after_close, last)
          (omega (
            arith,
            stop_consumer-uses fault (lookup user h.consumers) (record h {
              active_subscribers = erase user h.active_subscribers;
              consumers = erase user h.consumers;
            }),
          ))
  ]

  close_channel-uses :
      (fault : Option Error) (user id : String) (subscribers : List (String × ℕ))
      (channel : Option ℕ) (h : Hub)
      → lookup user h.active_subscribers ≡ some subscribers
      → lookup id subscribers ≡ channel
      → uses c (close_channel fault user id subscribers channel h).1 ≤ uses c h
  unfolding close_channel
  close_channel-uses fault user id subscribers none h listed e = omega arith
  close_channel-uses fault user id subscribers (some channel) h listed e =
      let erased : count_active c (erase user h.active_subscribers) + count_in c subscribers
          ≤ count_active c h.active_subscribers =
        rw listed at (count_active-erase c user h.active_subscribers) in
      omega (
        arith,
        after_close-uses fault user (erase id subscribers)
            (record h { closed = h.closed ++ channel ∷ [] }),
        count_in-lookup c channel id subscribers e,
        count_of-append c h.closed (channel ∷ []),
        erased,
      )

  pub with_subscribers-uses :
      (fault : Option Error) (user id : String) (found : Option (List (String × ℕ))) (h : Hub)
      → lookup user h.active_subscribers ≡ found
      → uses c (with_subscribers fault user id found h).1 ≤ uses c h
  unfolding with_subscribers
  with_subscribers-uses fault user id none h e = omega arith
  with_subscribers-uses fault user id (some subscribers) h e =
      close_channel-uses fault user id subscribers (lookup id subscribers) h e refl

  pub close_all-uses :
      (user : String) (found : Option (List (String × ℕ))) (h : Hub)
      → lookup user h.active_subscribers ≡ found
      → uses c (close_all user found h) ≤ uses c h
  unfolding close_all
  close_all-uses user none h e = omega arith
  close_all-uses user (some subscribers) h e =
      let erased : count_active c (erase user h.active_subscribers) + count_in c subscribers
          ≤ count_active c h.active_subscribers =
        rw e at (count_active-erase c user h.active_subscribers) in
      omega (
        arith,
        count_of-append c h.closed (map (λ s. s.1) subscribers),
        count_of-map c subscribers,
        erased,
      )

  pub stop_own-uses :
      (consumer : ℕ) (user : String) (found : Option ℕ) (h : Hub)
      → uses c (stop_own consumer user found h) ≡ uses c h
  unfolding stop_own
  stop_own-uses consumer user none h = refl
  stop_own-uses consumer user (some own) h = refl
