-- ===== src/Queue/Draining.antt =====
-- What the two goroutines have done when they end, and that they end.
use otus_highload.Base.{
  ◌≡◌, refl, sym, ap, ◌∙◌, true, false, List, [], ◌∷◌, ◌++◌, inl, inr, Option, none, some,
  Option-cases,
}
use otus_highload.Queue.{Delivery, ConsumerMessage, get_message}
use otus_highload.Queue.Worker.{
  Pipe, Run, starts, delivers, ends, takes, handles, closes_result, closes_done, all_handled,
}

module _ {Body S : Type 0} (process : ConsumerMessage Body → S → S) where
  abbrev held_handled : Option (ConsumerMessage Body) → S → S
  held_handled none s = s
  held_handled (some m) s = process m s

  all_handled-append :
      (xs ys : List (Delivery Body)) (s : S)
      → all_handled process (xs ++ ys) s ≡ all_handled process ys (all_handled process xs s)
  all_handled-append [] ys s = refl
  all_handled-append (x ∷ xs) ys s = all_handled-append xs ys (process (get_message x) s)

  -- What waits in the two goroutines, handled now, gives what the deliveries give.
  abbrev finished : Pipe Body S → S
  finished p = all_handled process p.deliveries (held_handled p.held p.state)

  Run-finished :
      {s : S} {ds : List (Delivery Body)} {p : Pipe Body S}
      → Run process s ds p
      → finished p ≡ all_handled process ds s
  Run-finished starts = refl
  Run-finished {s} (delivers {ds} {p} d e r) =
      all_handled-append p.deliveries (d ∷ []) (held_handled p.held p.state)
      ∙ ap (λ t. process (get_message d) t) (Run-finished r)
      ∙ sym (all_handled-append ds (d ∷ []) s)
  Run-finished (ends r) = Run-finished r
  Run-finished (takes d rest e h r) = let old = Run-finished r in rw (e, h) at old
  Run-finished (handles m h r) = let old = Run-finished r in rw h at old
  Run-finished (closes_result e f h r) = Run-finished r
  Run-finished (closes_done h r) = Run-finished r

  -- A closed channel was emptied, and nothing reaches it any more.
  -- A closed channel was emptied, and nothing reaches it any more.
  record Drained (p : Pipe Body S) : Type 0 where
    shut : p.open_channel ≡ false
    taken : p.deliveries ≡ []
    sent : p.held ≡ none

  Run-Drained :
      {s : S} {ds : List (Delivery Body)} {p : Pipe Body S}
      → Run process s ds p
      → p.result_closed ≡ true
      → Drained p
  Run-Drained starts closed = cc
  Run-Drained (delivers d e r) closed = let old = Run-Drained r closed in cc (old.shut, e)
  Run-Drained (ends r) closed =
      let old = Run-Drained r closed in record { shut = refl; taken = old.taken; sent = old.sent }
  Run-Drained (takes d rest e h r) closed = let old = Run-Drained r closed in cc (old.taken, e)
  Run-Drained (handles m h r) closed = let old = Run-Drained r closed in cc (old.sent, h)
  Run-Drained (closes_result e f h r) closed = record { shut = e; taken = f; sent = h }
  Run-Drained (closes_done h r) closed =
      let old = Run-Drained r closed in
      record { shut = old.shut; taken = old.taken; sent = old.sent }

  Run-done :
      {s : S} {ds : List (Delivery Body)} {p : Pipe Body S}
      → Run process s ds p
      → p.done ≡ true
      → p.result_closed ≡ true
  Run-done starts done = cc
  Run-done (delivers d e r) done = Run-done r done
  Run-done (ends r) done = Run-done r done
  Run-done (takes d rest e h r) done = Run-done r done
  Run-done (handles m h r) done = Run-done r done
  Run-done (closes_result e f h r) done = refl
  Run-done (closes_done h r) done = h

  -- When `done` is closed, in whatever order the two goroutines and the broker moved, every delivered
  -- message was handled, once and in the order of delivery.
  pub done-all_handled :
      {s : S} {ds : List (Delivery Body)} {p : Pipe Body S}
      → Run process s ds p
      → p.done ≡ true
      → p.state ≡ all_handled process ds s
  done-all_handled {s} {ds} {p} r done =
      let drained = Run-Drained r (Run-done r done) in
      let all = Run-finished r in rw (drained.taken, drained.sent) at all

  -- The state in which the goroutines end.
  abbrev pub Ends : S → List (Delivery Body) → Type 0
  Ends s ds =
      (q : Pipe Body S) × Run process s ds q
      × (q.done ≡ true)
      × (q.state ≡ all_handled process ds s)

  ended :
      {s : S} {ds : List (Delivery Body)} {p : Pipe Body S}
      → Run process s ds p
      → p.done ≡ true
      → Ends s ds
  ended {s} {ds} {p} r done = (p, r, done, done-all_handled r done)

  taken_ends :
      (waiting : List (Delivery Body)) {s : S} {ds : List (Delivery Body)} {p : Pipe Body S}
      → p.deliveries ≡ waiting
      → p.open_channel ≡ false
      → p.held ≡ none
      → Run process s ds p
      → Ends s ds
  taken_ends [] e shut idle r = ended (closes_done refl (closes_result shut e idle r)) refl
  taken_ends (d ∷ waiting) e shut idle r =
      taken_ends waiting refl shut refl (handles (get_message d) refl (takes d waiting e idle r))

  -- Once the channel of the broker has ended, the two goroutines can go on until `done` is closed,
  -- with every delivered message handled, once and in the order of delivery.
  pub shut-Ends :
      {s : S} {ds : List (Delivery Body)} {p : Pipe Body S}
      → p.open_channel ≡ false
      → Run process s ds p
      → Ends s ds
  shut-Ends {s} {ds} {p} shut r = elim (Option-cases p.held) [
    | inl idle ↦ taken_ends p.deliveries refl shut idle r
    | inr (m, busy) ↦ taken_ends p.deliveries refl shut refl (handles m busy r)
  ]
