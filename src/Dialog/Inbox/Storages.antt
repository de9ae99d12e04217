-- ===== src/Dialog/Inbox/Storages.antt =====
-- The two storages of messages as implementations of the interface.
use mathlib.Core.Quot
use otus_highload.Base.{
  String, ◌≡◌, refl, sym, ap, ◌∙◌, Bool, List, [], ◌∷◌, map, Option, none, some, ◌==◌, ◌&&◌, any,
  keep, count_if, inl, inr, Bool-cases, arith,
}
use otus_highload.Base.Count.{any-map, count_if-map}
use otus_highload.Base.Errors.{Error, Result, ok, err}
use otus_highload.Dialog.{DialogMessageExtended, add_message, insert_message, messages_in_dialog}
use otus_highload.Storage.{after_commit, whole}
use otus_highload.Dialog.Memory.{
  whole_second, TimeFormat, Row, Listed, listed, insert_row, insert_message_call, get_messages_call,
  listed_of, memory_create_message, memory_get_messages,
}
use otus_highload.Dialog.Refines.{
  Sending, stored, read_back, read_back-stored, messages_of-tuples, count_if-insert_row,
  order-SameElements,
}
use otus_highload.Dialog.Inbox.{inbox_of, in_dialog, kept_at, sent_at, DialogStorage}

abbrev pub rows_answered : Result (List DialogMessageExtended) → Option (List DialogMessageExtended)
rows_answered (ok ms) = some ms
rows_answered (err e) = none

abbrev pub messages_listed : Listed → Option (List DialogMessageExtended)
messages_listed (listed ms) = some ms
messages_listed _ = none

tables-kept_at :
    (s : Sending) (rows : List DialogMessageExtended)
    → inbox_of (insert_message none s.now s.message rows).1 ≡ kept_at (λ t. t) s (inbox_of rows)
unfolding insert_message add_message kept_at
tables-kept_at s rows =
    elim (Bool-cases (any (λ r. r.dialog_id == s.message.dialog_id && r.id == s.message.id) rows)) [
      | inl taken ↦ rw taken refl
      | inr fresh ↦ rw fresh refl
    ]

pub tables-sent_at :
    (fault : Option Error) (s : Sending) (rows : List DialogMessageExtended)
    → inbox_of (insert_message fault s.now s.message rows).1
      ≡ sent_at (λ t. t) fault s (inbox_of rows)
unfolding insert_message sent_at
tables-sent_at (some e) s rows = elim (Bool-cases (after_commit (some e))) [
  | inl late ↦ rw late (tables-kept_at s rows)
  | inr early ↦ rw early refl
]
tables-sent_at none s rows = tables-kept_at s rows

pub tables-in_dialog :
    (dialog : String) (rows : List DialogMessageExtended)
    → (ms : List DialogMessageExtended) × (rows_answered (messages_in_dialog whole dialog rows)
        ≡ some ms)
      × (inbox_of ms ≡ in_dialog dialog (inbox_of rows))
unfolding messages_in_dialog in_dialog
tables-in_dialog dialog rows =
    (_, refl, Quot.sound (order-SameElements (keep (λ m. m.dialog_id == dialog) rows)))

abbrev pub postgres : DialogStorage
postgres = record {
  State = List DialogMessageExtended;
  clock = λ t. t;
  create_message = λ s rows. (insert_message s.fault s.now s.message rows).1;
  get_messages_in_dialog = λ dialog rows. rows_answered (messages_in_dialog whole dialog rows);
  contents = inbox_of;
  contents-create_message = λ s rows. tables-sent_at s.fault s rows;
  contents-get_messages = tables-in_dialog;
}

keep-map {ℓ κ} :
    {A : Type ℓ} {B : Type κ} (p : B → Bool) (f : A → B) (xs : List A)
    → keep p (map f xs) ≡ map f (keep (λ x. p (f x)) xs)
keep-map p f [] = refl
keep-map p f (x ∷ xs) = ground (arith, keep-map p f xs)

module _ (format : TimeFormat) where
  space-kept_at :
      (s : Sending) (space : List Row)
      → inbox_of
          (map (read_back format) (memory_create_message format none s.now s.message space).1)
        ≡ kept_at whole_second s (inbox_of (map (read_back format) space))
  unfolding memory_create_message insert_message_call kept_at
  space-kept_at s space =
      let key = λ (r : Row). r.dialog_id == s.message.dialog_id && r.message_id == s.message.id in
      let kept : DialogMessageExtended = record s.message { send_time = s.now } in
      let row : Row = stored format kept in
      let same =
        any-map (λ r. r.dialog_id == s.message.dialog_id && r.id == s.message.id) (read_back format)
          space in
      elim (Bool-cases (any key space)) [
        | inl taken ↦ rw (same, taken) refl
        | inr fresh ↦
            rw (same, fresh)
              (Quot.sound (λ p.
                count_if-map p (read_back format) (insert_row row space)
                ∙ count_if-insert_row (λ r. p (read_back format r)) row space
                ∙ sym (count_if-map p (read_back format) (row ∷ space))
                ∙ ap (λ m. count_if p (m ∷ map (read_back format) space))
                    (read_back-stored format kept)))
      ]

  pub space-sent_at :
      (fault : Option Error) (s : Sending) (space : List Row)
      → inbox_of
          (map (read_back format) (memory_create_message format fault s.now s.message space).1)
        ≡ sent_at whole_second fault s (inbox_of (map (read_back format) space))
  unfolding memory_create_message sent_at
  space-sent_at none s space = space-kept_at s space
  space-sent_at (some e) s space = elim (Bool-cases (after_commit (some e))) [
    | inl late ↦ rw late (space-kept_at s space)
    | inr early ↦ rw early refl
  ]

  pub space-in_dialog :
      (dialog : String) (space : List Row)
      → (ms : List DialogMessageExtended) × (messages_listed
            (memory_get_messages format none dialog space)
          ≡ some ms)
        × (inbox_of ms ≡ in_dialog dialog (inbox_of (map (read_back format) space)))
  unfolding memory_get_messages get_messages_call listed_of in_dialog
  space-in_dialog dialog space = (
    map (read_back format) (keep (λ r. r.dialog_id == dialog) space),
    ap messages_listed (messages_of-tuples format (keep (λ r. r.dialog_id == dialog) space)),
    ap inbox_of (sym (keep-map (λ m. m.dialog_id == dialog) (read_back format) space)),
  )

  abbrev pub tarantool : DialogStorage
  tarantool = record {
    State = List Row;
    clock = whole_second;
    create_message = λ s space. (memory_create_message format s.fault s.now s.message space).1;
    get_messages_in_dialog =
        λ dialog space. messages_listed (memory_get_messages format none dialog space);
    contents = λ space. inbox_of (map (read_back format) space);
    contents-create_message = λ s space. space-sent_at s.fault s space;
    contents-get_messages = space-in_dialog;
  }
