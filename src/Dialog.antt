-- ===== src/Dialog.antt =====
-- backend/dialog/internal: the identifier of a dialog, its messages in PostgreSQL, the service and the
-- handlers.
pub mod Compare
pub mod Delivery
pub mod Memory
pub mod Refines
pub mod Remote
pub mod Relay
pub mod Generator
pub mod Inbox
mod Tests
use Prim.Native.Nat.{Ordering}
use Prim.Native.String as Text
use otus_highload.Base.{
  ℕ, String, Bool, List, [], ◌∷◌, Option, none, some, ◌==◌, ◌&&◌, any, keep, leb, map,
  if◌then◌else◌,
}
use otus_highload.Base.Errors.{Error, Result, ok, err, pg_error, user_not_found}
use otus_highload.Storage.{Rows, rows_of, run}
use otus_highload.Storage.Friends.{unique_violation}
use otus_highload.Http.{
  Response, success, not_found, internal_error, get_user_id, with_user, answer_if, with_response,
}

pub record DialogMessage : Type 0 where
  pub from : String
  pub to : String
  pub text : String

pub record DialogMessageExtended : Type 0 where
  pub message : DialogMessage
  pub id : String
  pub dialog_id : String
  pub send_time : ℕ

abbrev pub in_order : Ordering → String → String → String
in_order Ordering.gt first second = Text.◌++◌ second first
in_order _ first second = Text.◌++◌ first second

-- ObtainDialogId; `hash` is murmur3.Sum128, printed as two numbers of 16 digits.
unfoldable pub obtain_dialog_id : (String → String) → String → String → String
obtain_dialog_id hash first second = hash (in_order (Text.compare first second) first second)

-- createMessageSQL at the microsecond `now`, under the primary key of `messages`. The widths of the
-- columns are left to the fault.
unfoldable pub add_message :
    ℕ
    → DialogMessageExtended
    → List DialogMessageExtended
    → Result DialogMessageExtended × List DialogMessageExtended
add_message now m rows =
    if any (λ r. r.dialog_id == m.dialog_id && r.id == m.id) rows
    then (err (pg_error unique_violation), rows)
    else let sent : DialogMessageExtended = record m { send_time = now } in (ok sent, sent ∷ rows)

unfoldable pub insert_message :
    Option Error
    → ℕ
    → DialogMessageExtended
    → List DialogMessageExtended
    → Result DialogMessageExtended × List DialogMessageExtended
unfolding add_message
insert_message fault now m rows = run fault (add_message now m) rows

-- ORDER BY send_time DESC
unfoldable pub insert_by_send_time :
    DialogMessageExtended → List DialogMessageExtended → List DialogMessageExtended
insert_by_send_time m [] = m ∷ []
insert_by_send_time m (r ∷ rs) =
    if leb r.send_time m.send_time then m ∷ r ∷ rs else r ∷ insert_by_send_time m rs

unfoldable pub order_by_send_time : List DialogMessageExtended → List DialogMessageExtended
unfolding insert_by_send_time
order_by_send_time [] = []
order_by_send_time (m ∷ ms) = insert_by_send_time m (order_by_send_time ms)

-- getMessagesInDialogSQL
unfoldable pub messages_in_dialog :
    Rows → String → List DialogMessageExtended → Result (List DialogMessageExtended)
unfolding order_by_send_time
messages_in_dialog answer dialog rows =
    rows_of answer (order_by_send_time (keep (λ m. m.dialog_id == dialog) rows))

module _ (hash : String → String) where
  -- `id` is the fresh identifier of combuuid. The time of a message that is not stored yet is Go's
  -- zero time.
  unfoldable pub create_message :
      Option Error
      → String
      → ℕ
      → String
      → String
      → String
      → List DialogMessageExtended
      → Result DialogMessageExtended × List DialogMessageExtended
  unfolding insert_message obtain_dialog_id
  create_message fault id now from to text rows =
      insert_message fault now
        (record {
          message = record { from = from; to = to; text = text };
          id = id;
          dialog_id = obtain_dialog_id hash from to;
          send_time = 0;
        })
        rows

  unfoldable pub get_messages_between :
      Rows → String → String → List DialogMessageExtended → Result (List DialogMessageExtended)
  unfolding messages_in_dialog obtain_dialog_id
  get_messages_between fault first second rows =
      messages_in_dialog fault (obtain_dialog_id hash first second) rows

  abbrev pub messages_response : Result (List DialogMessageExtended) → Response (List DialogMessage)
  messages_response (ok ms) = success (map (λ m. m.message) ms)
  messages_response (err e) = internal_error (some e)

  unfoldable pub get_dialog_user_id_list :
      Rows
      → Option String
      → String
      → List DialogMessageExtended
      → Response (List DialogMessage) × List DialogMessageExtended
  get_dialog_user_id_list fault context other rows =
      with_user (get_user_id context)
        (λ user s. (messages_response (get_messages_between fault user other s), s)) rows

  abbrev pub sent_response : Result DialogMessageExtended → Response (Unit {0})
  sent_response (ok m) = success tt
  sent_response (err e) = answer_if user_not_found e not_found (internal_error (some e))

  unfoldable pub post_dialog_user_id_send :
      Option Error
      → String
      → ℕ
      → Option String
      → String
      → String
      → List DialogMessageExtended
      → Response (Unit {0}) × List DialogMessageExtended
  post_dialog_user_id_send fault id now context to text rows =
      with_user (get_user_id context)
        (λ user s. with_response sent_response (create_message fault id now user to text s)) rows
