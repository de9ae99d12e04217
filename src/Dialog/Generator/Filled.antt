-- ===== src/Dialog/Generator/Filled.antt =====
-- What the generator leaves in the two storages.
use otus_highload.Base.{
  ℕ, zero, suc, true, ◌+◌, ◌≡◌, refl, ap, Bool, String, List, [], ◌∷◌, map, Option, none, some, any,
  count_if, length, ◌⊎◌, inl, inr, Bool-cases, ◌==◌, ◌&&◌, arith,
}
use otus_highload.Base.Errors.{Error, Result, ok, err}
use otus_highload.Dialog.{DialogMessageExtended, insert_message}
use otus_highload.Dialog.Memory.{
  duplicate_key, text, TimeFormat, Row, Value, insert_message_call, insert_row,
}
use otus_highload.Dialog.Refines.{Same, stored, known-Same, count_if-insert_row}
use otus_highload.Dialog.Generator.{
  Texts, batch_of, run_batch, after_insert, first_result, batch_insert_messages, after_call,
  tarantool_call, Stores, Faults, after_batch, create_messages,
}

abbrev pub at_time : ℕ → DialogMessageExtended → DialogMessageExtended
at_time now m = record m { send_time = now }

module _ (format : TimeFormat) (now : ℕ) where
  abbrev call : DialogMessageExtended → List Row → Result (List Value) × List Row
  call m space =
      insert_message_call format now m.dialog_id m.id m.message.text m.message.from m.message.to
        space

  -- Both storages keep a message, or the space refuses it.
  step-Same :
      (m : DialogMessageExtended) (rows : List DialogMessageExtended) (space : List Row)
      → Same format rows space
      → ((e : Error) × (call m space ≡ (err e, space)))
        ⊎ ((values : List Value) × (after : List Row) × (insert_message none now m rows
              ≡ (ok (at_time now m), at_time now m ∷ rows))
            × (call m space ≡ (ok values, after))
            × Same format (at_time now m ∷ rows) after)
  unfolding insert_message insert_message_call
  step-Same m rows space same =
      elim (Bool-cases (any (λ r. r.dialog_id == m.dialog_id && r.id == m.id) rows)) [
        | inl taken ↦ inl (duplicate_key, rw (known-Same format m rows space same, taken) refl)
        | inr fresh ↦ inr (
          text (format.date now) ∷ [],
          insert_row (stored format (at_time now m)) space,
          rw fresh refl,
          rw (known-Same format m rows space same, fresh) refl,
          λ p. ground (arith, same p, count_if-insert_row p (stored format (at_time now m)) space),
        )
      ]

  run-Same :
      (i : ℕ) (faults : ℕ → Option Error) (ms rows : List DialogMessageExtended) (space : List Row)
      → ((j : ℕ) → faults j ≡ none)
      → Same format rows space
      → (batch_insert_messages format now ms space).0 ≡ none
      → (after : List DialogMessageExtended) × (run_batch faults now i ms rows ≡ ok after)
        × Same format after (batch_insert_messages format now ms space).1
        × ((p : DialogMessageExtended → Bool)
            → count_if p after ≡ count_if p (map (at_time now) ms) + count_if p rows)
  unfolding run_batch batch_insert_messages after_insert after_call
  run-Same i faults [] rows space sound same h = (rows, refl, same, λ p. omega arith)
  run-Same i faults (m ∷ ms) rows space sound same h = elim (step-Same m rows space same) [
    | inl (e, refused) ↦
        let bad : ◌≡◌ {A = Option Error} (some e) none = rw refused at h in absurd (cc bad)
    | inr (values, after, inserted, called, same') ↦
        let rest : (batch_insert_messages format now ms after).0 ≡ none = rw called at h in
        let (all, ran, same_all, counts) =
          run-Same (suc i) faults ms (at_time now m ∷ rows) after sound same' rest in
        rw (sound i, inserted, called) (all, ran, same_all, λ p. ground (arith, counts p))
  ]

  after_batch-none :
      (e : Option Error) (faults : Faults) (ms : List DialogMessageExtended) (f : Stores)
      → (after_batch e faults format now ms f).0 ≡ none
      → ((batch_insert_messages format now ms f.space).0 ≡ none)
        × ((after_batch e faults format now ms f).1
            ≡ record f { space = (batch_insert_messages format now ms f.space).1 })
  unfolding after_batch
  after_batch-none (some e) faults ms f h = absurd (cc h)
  after_batch-none none faults ms f h = called faults.call h
    where
      called :
          (c : Option Error)
          → (tarantool_call c format now ms f.space).0 ≡ none
          → ((batch_insert_messages format now ms f.space).0 ≡ none)
            × (record f { space = (tarantool_call c format now ms f.space).1 }
                ≡ record f { space = (batch_insert_messages format now ms f.space).1 })
      called (some e) h = absurd (cc h)
      called none h = (h, refl)

-- Both storages hold the same, so many messages more, and so many lines were written.
pub record Grown (format : TimeFormat) (messages lines : ℕ) (f g : Stores) : Type 0 where
  pub same : Same format g.rows g.space
  pub more : length g.rows ≡ messages + length f.rows
  pub written : length g.lines ≡ lines + length f.lines

count_if_all {ℓ} : {A : Type ℓ} (xs : List A) → count_if (λ _. true) xs ≡ length xs
count_if_all [] = refl
count_if_all (x ∷ xs) = ap suc (count_if_all xs)

length-map {ℓ κ} :
    {A : Type ℓ} {B : Type κ} (f : A → B) (xs : List A) → length (map f xs) ≡ length xs
length-map f [] = refl
length-map f (x ∷ xs) = ap suc (length-map f xs)

length-batch_of :
    (texts : Texts) (dialog first second : String) (n i : ℕ)
    → length (batch_of texts dialog first second n i) ≡ n
unfolding batch_of
length-batch_of texts dialog first second zero i = refl
length-batch_of texts dialog first second (suc n) i =
    ap suc (length-batch_of texts dialog first second n (suc i))

pub create_messages-Grown :
    (faults : Faults) (format : TimeFormat) (now : ℕ) (texts : Texts) (n : ℕ)
    (dialog first second : String) (f : Stores)
    → ((j : ℕ) → faults.statement j ≡ none)
    → Same format f.rows f.space
    → (create_messages faults format now texts n dialog first second f).0 ≡ none
    → Grown format n 0 f (create_messages faults format now texts n dialog first second f).1
unfolding create_messages
create_messages-Grown faults format now texts n dialog first second f sound same h =
    let ms = batch_of texts dialog first second n 0 in
    let (called, made) =
      after_batch-none format now (first_result faults.statement now ms f.rows) faults ms _ h in
    let (after, ran, same', counts) =
      run-Same format now 0 faults.statement ms f.rows f.space sound same called in
    let grown : Grown format n 0 f
        (record f { rows = after; space = (batch_insert_messages format now ms f.space).1 }) =
      record {
        same = same';
        more = omega (
          arith,
          counts (λ _. true),
          count_if_all after,
          count_if_all f.rows,
          count_if_all (map (at_time now) ms),
          length-map (at_time now) ms,
          length-batch_of texts dialog first second n 0,
        );
        written = omega arith;
      } in
    rw (made, ran) grown
