-- ===== src/Dialog/Refines.antt =====
-- The two storages of messages, side by side.
use Prim.Native.String as Text
use otus_highload.Base.{
  ℕ, String, ◌≡◌, refl, sym, ◌∙◌, Bool, List, [], ◌∷◌, map, Option, none, some, ◌==◌, ◌&&◌, any,
  count_if, SameElements, inl, inr, Bool-cases, arith,
}
use otus_highload.Base.Count.{any-count_if, any-map}
use otus_highload.Base.Errors.{Error, Result, ok, err}
use otus_highload.Storage.{after_commit}
use otus_highload.Dialog.{
  add_message, DialogMessageExtended, insert_message, insert_by_send_time, order_by_send_time,
}
use otus_highload.Dialog.Memory.{
  whole_second, TimeFormat, Row, Created, sent, Listed, listed, panicked, insert_row, tuple_of,
  insert_message_call, with_time, created_of, message_of, time_or_zero, put, messages_of,
  memory_create_message, text, array, before,
}
use otus_highload.Dialog.Memory as Memory

count_if-order :
    (p : DialogMessageExtended → Bool) (m : DialogMessageExtended) (ms : List DialogMessageExtended)
    → count_if p (insert_by_send_time m ms) ≡ count_if p (m ∷ ms)
unfolding insert_by_send_time
count_if-order p m [] = refl
count_if-order p m (r ∷ rs) = ground (arith, count_if-order p m rs)

pub order-SameElements : (ms : List DialogMessageExtended) → SameElements (order_by_send_time ms) ms
unfolding order_by_send_time
order-SameElements [] p = refl
order-SameElements (m ∷ ms) p =
    count_if-order p m (order_by_send_time ms) ∙ ground (arith, order-SameElements ms p)

pub count_if-insert_row :
    (p : Row → Bool) (r : Row) (rs : List Row) → count_if p (insert_row r rs) ≡ count_if p (r ∷ rs)
unfolding insert_row
count_if-insert_row p r [] = refl
count_if-insert_row p r (s ∷ rs) =
    elim (Bool-cases
      (before (Text.compare r.dialog_id s.dialog_id) (Text.compare r.message_id s.message_id))) [
        | inl first ↦ rw first refl
        | inr later ↦ rw later (ground (arith, count_if-insert_row p r rs))
      ]

-- A message that a storage is asked to keep, with the microsecond and the error of the call, if any.
pub record Sending : Type 0 where
  pub fault : Option Error
  pub now : ℕ
  pub message : DialogMessageExtended

abbrev pub in_tables : List Sending → List DialogMessageExtended → List DialogMessageExtended
in_tables [] rows = rows
in_tables (s ∷ rest) rows = in_tables rest (insert_message s.fault s.now s.message rows).1

-- A message with the second of its time.
abbrev pub in_second : DialogMessageExtended → DialogMessageExtended
in_second m = record m { send_time = whole_second m.send_time }

module _ (format : TimeFormat) where
  -- The tuple of a message, and the message of a tuple.
  abbrev pub stored : DialogMessageExtended → Row
  stored m = record {
    dialog_id = m.dialog_id;
    message_id = m.id;
    content = m.message.text;
    from_user_id = m.message.from;
    to_user_id = m.message.to;
    send_time = format.date m.send_time;
  }

  abbrev pub read_back : Row → DialogMessageExtended
  read_back r = record {
    message = record { from = r.from_user_id; to = r.to_user_id; text = r.content };
    id = r.message_id;
    dialog_id = r.dialog_id;
    send_time = time_or_zero (format.parse r.send_time);
  }

  pub read_back-stored : (m : DialogMessageExtended) → read_back (stored m) ≡ in_second m
  read_back-stored m = rw (format.round m.send_time) refl

  pub messages_of-tuples :
      (rs : List Row) → messages_of format (map tuple_of rs) ≡ listed (map read_back rs)
  unfolding messages_of message_of
  messages_of-tuples [] = refl
  messages_of-tuples (r ∷ rs) = rw (messages_of-tuples rs) refl

  -- The two storages hold the same messages.
  abbrev pub Same : List DialogMessageExtended → List Row → Type 0
  Same rows space = SameElements (map stored rows) space

  -- The answers of the two storages to one message: the message with its microsecond and with its
  -- second, or an error from both.
  abbrev pub Agree : Result DialogMessageExtended → Created → Type 0
  Agree (ok m) (sent n) = in_second m ≡ n
  Agree (err e) (Memory.failed f) = Unit
  Agree _ _ = ⊥

  pub known-Same :
      (m : DialogMessageExtended) (rows : List DialogMessageExtended) (space : List Row)
      → Same rows space
      → any (λ r. r.dialog_id == m.dialog_id && r.message_id == m.id) space
        ≡ any (λ r. r.dialog_id == m.dialog_id && r.id == m.id) rows
  known-Same m rows space same =
      sym (
        any-count_if (λ r. r.dialog_id == m.dialog_id && r.message_id == m.id) (map stored rows)
          space (same _))
      ∙ any-map (λ r. r.dialog_id == m.dialog_id && r.message_id == m.id) stored rows

  run-refines :
      (now : ℕ) (m : DialogMessageExtended) (rows : List DialogMessageExtended) (space : List Row)
      → Same rows space
      → Agree (insert_message none now m rows).0 (memory_create_message format none now m space).0
        × Same (insert_message none now m rows).1 (memory_create_message format none now m space).1
  unfolding insert_message add_message memory_create_message insert_message_call created_of
      with_time
  run-refines now m rows space same =
      elim (Bool-cases (any (λ r. r.dialog_id == m.dialog_id && r.id == m.id) rows)) [
        | inl taken ↦ rw (known-Same m rows space same, taken) (tt, same)
        | inr fresh ↦
            rw (known-Same m rows space same, fresh, format.round now)
              (
                refl,
                λ p. ground (
                  arith,
                  same p,
                  count_if-insert_row p (stored (record m { send_time = now })) space,
                ),
              )
      ]

  pub create-refines :
      (fault : Option Error) (now : ℕ) (m : DialogMessageExtended)
      (rows : List DialogMessageExtended) (space : List Row)
      → Same rows space
      → Agree (insert_message fault now m rows).0 (memory_create_message format fault now m space).0
        × Same
            (insert_message fault now m rows).1
            (memory_create_message format fault now m space).1
  unfolding insert_message add_message memory_create_message insert_message_call created_of
      with_time
  create-refines (some e) now m rows space same = elim (Bool-cases (after_commit (some e))) [
    | inl late ↦ rw late (tt, (run-refines now m rows space same).1)
    | inr early ↦ rw early (tt, same)
  ]
  create-refines none now m rows space same = run-refines now m rows space same

  abbrev pub in_space : List Sending → List Row → List Row
  in_space [] space = space
  in_space (s ∷ rest) space =
      in_space rest (memory_create_message format s.fault s.now s.message space).1
