-- ===== src/Feed/Subscriber/Received.antt =====
-- What the subscribers of a user receive of an update.
use mathlib.Core.List.{append-nil, append_assoc}
use otus_highload.Base.{
  ℕ, suc, ◌≤◌, ◌<◌, String, ◌≡◌, refl, sym, ◌∙◌, ap, inl, inr, true, false, List, [], ◌∷◌, ◌++◌,
  map, any, Option, none, some, eqb, eq_refl, Bool-cases, Option-cases, arith, length, ltb,
}
use otus_highload.Base.Errors.{Error, ok}
use otus_highload.Base.Maps.{lookup, erase, assign, lookup-erase_self}
use otus_highload.Storage.{Post}
use otus_highload.Feed.Notifier.{Codec}
use otus_highload.Feed.Subscriber.{
  Hub, subscribers_or_new, attach, with_prepared, with_consumer, subscribe_post_feed,
  unsubscribe_post_feed, stop_consumer, after_close, close_channel, with_subscribers, close_all,
  stop_own, clean_up,
}
use otus_highload.Feed.Subscriber.Histories.{Reach, here, next, subscribes, unsubscribes, cleans_up}
use otus_highload.Feed.Subscriber.Sending.{
  UserPostFeedNotification, received, crashed, send_all, consume_update, send_notification,
}
use otus_highload.Feed.Subscriber.Channels.{
  count_of, count_in, uses, count_active-erase, with_consumer-uses, with_subscribers-uses,
  close_all-uses, stop_own-uses,
}

abbrev pub Single : Hub → Type 0
Single h = (c : ℕ) → uses c h ≤ 1

-- Every channel that a subscription of the history makes is a new one.
unfoldable pub NewChannels : {h g : Hub} → Reach h g → Type 0
NewChannels here = Unit
NewChannels (next {g} r (subscribes prepared user id channel)) =
    NewChannels r × (uses channel g ≡ 0)
NewChannels (next r (unsubscribes fault user id)) = NewChannels r
NewChannels (next r (cleans_up consumer user)) = NewChannels r

Reach-Single : {h g : Hub} (r : Reach h g) → NewChannels r → Single h → Single g
unfolding NewChannels subscribe_post_feed unsubscribe_post_feed clean_up
Reach-Single here new single = single
Reach-Single (next {g} r (subscribes prepared user id channel)) new single = λ c.
    let before : uses c g ≤ 1 = Reach-Single r new.0 single c in
    ground (arith, with_consumer-uses c (lookup user g.consumers) prepared user id channel g, new.1)
Reach-Single (next {g} r (unsubscribes fault user id)) new single = λ c. omega (
  arith,
  with_subscribers-uses c fault user id (lookup user g.active_subscribers) g refl,
  Reach-Single r new single c,
)
Reach-Single (next {g} r (cleans_up consumer user)) new single = λ c. omega (
  arith,
  stop_own-uses c consumer user (lookup user g.consumers)
      (close_all user (lookup user g.active_subscribers) g),
  close_all-uses c user (lookup user g.active_subscribers) g refl,
  Reach-Single r new single c,
)

any-count_of : (c : ℕ) (ds : List ℕ) → count_of c ds ≡ 0 → any (eqb c) ds ≡ false
any-count_of c [] h = refl
any-count_of c (d ∷ ds) h = ground (arith, any-count_of c ds)

-- Channels that are not closed, one and all.
abbrev Unclosed : Hub → List (String × ℕ) → Type 0
Unclosed h m = (c : ℕ) → 0 < count_in c m → count_of c h.closed ≡ 0

send_all-received :
    (posts : List Post) (h : Hub) (i : ℕ) (m : List (String × ℕ)) (got : List (ℕ × List Post))
    → Unclosed h m
    → send_all posts (λ _. h) i m got ≡ received (got ++ map (λ s. (s.1, posts)) m)
unfolding send_all
send_all-received posts h i [] got unclosed = ap received (sym (append-nil got))
send_all-received posts h i ((id, c) ∷ m) got unclosed =
    let whole : any (eqb c) h.closed ≡ false =
      any-count_of c h.closed (unclosed c (ground arith)) in
    rw whole (
      send_all-received posts h (suc i) m (got ++ (c, posts) ∷ [])
        (λ d used. unclosed d (ground arith))
      ∙ ap received (append_assoc got ((c, posts) ∷ []) (map (λ s. (s.1, posts)) m)))

active-Unclosed :
    (user : String) (h : Hub)
    → Single h
    → Unclosed h (subscribers_or_new (lookup user h.active_subscribers))
active-Unclosed user h single c used =
    omega (arith, single c, count_active-erase c user h.active_subscribers)

any-last : (c : ℕ) (ds : List ℕ) → any (eqb c) (ds ++ c ∷ []) ≡ true
any-last c [] = ground arith
any-last c (d ∷ ds) = ground (arith, any-last c ds)

after_close-closed :
    (fault : Option Error) (user : String) (rest : List (String × ℕ)) (h : Hub)
    → (after_close fault user rest h).1.closed ≡ h.closed
unfolding after_close stop_consumer
after_close-closed fault user rest h = elim (Bool-cases (ltb 0 (length rest))) [
  | inl more ↦ rw (after_close, more)
  | inr last ↦ elim (Option-cases (lookup user h.consumers)) [
    | inl alone ↦ rw (after_close, last, alone)
    | inr (own, kept) ↦ rw (after_close, last, kept)
  ]
]

unsubscribe-closed :
    (fault : Option Error) (h : Hub) (user id : String) (c : ℕ) (rest : List (String × ℕ))
    → lookup user h.active_subscribers ≡ some ((id, c) ∷ rest)
    → (unsubscribe_post_feed fault user id h).1.closed ≡ h.closed ++ c ∷ []
unfolding unsubscribe_post_feed with_subscribers close_channel
unsubscribe-closed fault h user id c rest listed =
    rw (listed, eq_refl id)
      (after_close-closed fault user (erase id ((id, c) ∷ rest))
        (record h { closed = h.closed ++ c ∷ [] }))

module _ {Raw : Type 0} (json : Codec Raw UserPostFeedNotification) where
  -- An update that was published for a user is sent once to every channel that subscribes to the
  -- feed of the user, and to no other, without a panic, if each subscription since the start has
  -- made a new channel and no operation comes between the sends.
  pub consume_update-received :
      {h g : Hub} (user : String) (n : UserPostFeedNotification) (raw : Raw) (r : Reach h g)
      → h.active_subscribers ≡ []
      → h.closed ≡ []
      → NewChannels r
      → json.marshal n ≡ ok raw
      → let subscribers = subscribers_or_new (lookup user g.active_subscribers) in
        let posts = map (λ p. p.post) n.posts in
        (consume_update json raw g (λ _. g) user ≡ received (map (λ s. (s.1, posts)) subscribers))
        × ((c : ℕ) → count_in c subscribers ≤ 1)
  unfolding consume_update
  consume_update-received {h} {g} user n raw r none_active none_closed new written =
      let single : Single g =
        Reach-Single r new (λ c. rw (none_active, none_closed) (omega arith)) in
      (
        rw (json.round n raw written) (
            send_all-received (map (λ p. p.post) n.posts) g 0
              (subscribers_or_new (lookup user g.active_subscribers)) []
              (active-Unclosed user g single)),
        λ c. omega (arith, single c, count_active-erase c user g.active_subscribers),
      )

  -- If the first subscription that the loop comes to ends before its send, then the goroutine
  -- panics before anybody has received the update.
  pub consume_update-crashed :
      (fault : Option Error) (g : Hub) (user id : String) (c : ℕ) (rest : List (String × ℕ))
      (n : UserPostFeedNotification) (raw : Raw)
      → lookup user g.active_subscribers ≡ some ((id, c) ∷ rest)
      → json.marshal n ≡ ok raw
      → consume_update json raw g (λ _. (unsubscribe_post_feed fault user id g).1) user ≡ crashed []
  unfolding consume_update
  consume_update-crashed fault g user id c rest n raw listed written =
      let closed : (unsubscribe_post_feed fault user id g).1.closed ≡ g.closed ++ c ∷ [] =
        unsubscribe-closed fault g user id c rest listed in
      rw (json.round n raw written, send_notification, listed, closed, any-last c g.closed) refl

-- The goroutine of a consumer that was stopped, when its messages end after the user has subscribed
-- again: it closes the channel of the new subscription, and forgets the new consumer without having
-- stopped it.
pub clean_up-late :
    (old new : ℕ) (user id : String) (channel : ℕ) (h : Hub)
    → lookup user h.consumers ≡ none
    → lookup user h.active_subscribers ≡ none
    → let g = clean_up old user (subscribe_post_feed (ok new) user id channel h).1 in
      (g.closed ≡ h.closed ++ channel ∷ [])
      × (g.stopped ≡ h.stopped ++ old ∷ [])
      × (lookup user g.consumers ≡ none)
      × (lookup user g.active_subscribers ≡ none)
unfolding clean_up subscribe_post_feed with_consumer with_prepared attach close_all stop_own
clean_up-late old new user id channel h idle unheard =
    rw (idle, unheard, eq_refl user)
      (
        refl,
        refl,
        lookup-erase_self user (assign user new h.consumers),
        lookup-erase_self user (assign user ((id, channel) ∷ []) h.active_subscribers),
      )
