-- ===== src/Dialog/Inbox.antt =====
-- The interface DialogStorage of backend/dialog/internal/service/dialog_service.go, as what it promises:
-- a storage keeps messages, in no order, and refuses one whose dialog and identifier are taken.
pub mod Storages
mod Tests
use mathlib.Core.Bool.{Bool-set}
use mathlib.Core.Quot
use mathlib.Core.Quot.{Quot, Quot-set}
use otus_highload.Base.{
  ℕ, true, String, ◌≡◌, refl, sym, ap, ◌∙◌, Bool, List, [], ◌∷◌, Option, none, some, ◌==◌, ◌&&◌,
  any, keep, SameElements, if◌then◌else◌, arith,
}
use otus_highload.Base.Count.{any-count_if, count_if-keep}
use otus_highload.Base.Errors.{Error}
use otus_highload.Storage.{after_commit}
use otus_highload.Dialog.{DialogMessageExtended}
use otus_highload.Dialog.Refines.{Sending}

-- Messages in no order, each as often as it was kept.
abbrev pub Inbox : Type 0
Inbox = Quot (SameElements {A = DialogMessageExtended})

abbrev pub inbox_of : List DialogMessageExtended → Inbox
inbox_of ms = Quot.mk ms

abbrev same_key : DialogMessageExtended → DialogMessageExtended → Bool
same_key m r = r.dialog_id == m.dialog_id && r.id == m.id

holds : (DialogMessageExtended → Bool) → Inbox → Bool
holds p = Quot.lift Bool-set (any p) (λ xs ys h. any-count_if p xs ys (h p))

put : DialogMessageExtended → Inbox → Inbox
put m =
    Quot.lift Quot-set (λ xs. inbox_of (m ∷ xs)) (λ xs ys h. Quot.sound (λ p. ground (arith, h p)))

in_dialog-SameElements :
    (dialog : String) (xs ys : List DialogMessageExtended)
    → SameElements xs ys
    → SameElements (keep (λ m. m.dialog_id == dialog) xs) (keep (λ m. m.dialog_id == dialog) ys)
in_dialog-SameElements dialog xs ys h p =
    count_if-keep p (λ m. m.dialog_id == dialog) xs
    ∙ h (λ m. (m.dialog_id == dialog) && p m)
    ∙ sym (count_if-keep p (λ m. m.dialog_id == dialog) ys)

-- The messages of a dialog.
pub in_dialog : String → Inbox → Inbox
in_dialog dialog =
    Quot.lift Quot-set (λ xs. inbox_of (keep (λ m. m.dialog_id == dialog) xs))
      (λ xs ys h. Quot.sound (in_dialog-SameElements dialog xs ys h))

-- What becomes of the inbox when a storage is asked to keep a message.
-- `clock` is how exactly the storage keeps a time.
pub kept_at : (ℕ → ℕ) → Sending → Inbox → Inbox
unfolding holds put
kept_at clock s b =
    if holds (same_key s.message) b then b else put (record s.message { send_time = clock s.now }) b

-- A call that fails has reached the storage, or it has not.
abbrev pub reached : Option Error → Bool
reached none = true
reached (some e) = after_commit (some e)

pub sent_at : (ℕ → ℕ) → Option Error → Sending → Inbox → Inbox
sent_at clock fault s b = if reached fault then kept_at clock s b else b

abbrev pub all_sent : (ℕ → ℕ) → List Sending → Inbox → Inbox
all_sent clock [] b = b
all_sent clock (s ∷ rest) b = all_sent clock rest (sent_at clock s.fault s b)

pub record DialogStorage : Type 1 where
  pub State : Type 0
  pub clock : ℕ → ℕ
  pub create_message : Sending → State → State
  -- `none` is an error or a panic.
  pub get_messages_in_dialog : String → State → Option (List DialogMessageExtended)
  pub contents : State → Inbox
  pub contents-create_message :
      (s : Sending) (st : State)
      → contents (create_message s st) ≡ sent_at clock s.fault s (contents st)
  pub contents-get_messages :
      (dialog : String) (st : State)
      → (ms : List DialogMessageExtended) × (get_messages_in_dialog dialog st ≡ some ms)
        × (inbox_of ms ≡ in_dialog dialog (contents st))

-- A client of the interface.
module _ (storage : DialogStorage) where
  open storage use {State, clock, create_message, get_messages_in_dialog, contents}

  abbrev pub all_created : List Sending → State → State
  all_created [] st = st
  all_created (s ∷ rest) st = all_created rest (create_message s st)

  contents-all_created :
      (sends : List Sending) (st : State)
      → contents (all_created sends st) ≡ all_sent clock sends (contents st)
  contents-all_created [] st = refl
  contents-all_created (s ∷ rest) st =
      contents-all_created rest (create_message s st)
      ∙ ap (all_sent clock rest) (storage.contents-create_message s st)

  -- Whatever the storage, after any messages the list of a dialog is that of the inbox.
  pub get_messages-Inbox :
      (sends : List Sending) (dialog : String) (st : State)
      → (ms : List DialogMessageExtended) × (get_messages_in_dialog dialog (all_created sends st)
          ≡ some ms)
        × (inbox_of ms ≡ in_dialog dialog (all_sent clock sends (contents st)))
  get_messages-Inbox sends dialog st =
      let (ms, listed, same) = storage.contents-get_messages dialog (all_created sends st) in
      (ms, listed, same ∙ ap (in_dialog dialog) (contents-all_created sends st))
