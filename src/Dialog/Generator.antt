-- ===== src/Dialog/Generator.antt =====
-- backend/dialog/cmd/dialog-generator/main.go, and the procedure batch_insert_messages of
-- backend/tarantool/migrations/001_create_messages_space.lua: the generator fills both storages.
pub mod Filled
pub mod Rounds
mod Tests
use otus_highload.Base.{
  ℕ, zero, suc, ◌%◌, String, List, [], ◌∷◌, ◌++◌, Option, none, some, eqb, if◌then◌else◌,
}
use otus_highload.Base.Errors.{Error, Result, ok, err, other}
use otus_highload.Dialog.{DialogMessageExtended, insert_message, obtain_dialog_id}
use otus_highload.Dialog.Memory.{TimeFormat, Row, Value, insert_message_call}

abbrev pub messages_cnt : ℕ
messages_cnt = 100

-- What combuuid and fmt.Sprintf give for the message with the number i.
pub record Texts : Type 0 where
  pub message_id : ℕ → String
  pub content : ℕ → String

-- The message with the number i: the users send in turn.
unfoldable pub message_at : Texts → String → String → String → ℕ → DialogMessageExtended
message_at texts dialog first second i =
    let back = eqb (i % 2) 1 in
    record {
      message = record {
        from = if back then second else first;
        to = if back then first else second;
        text = texts.content i;
      };
      id = texts.message_id i;
      dialog_id = dialog;
      send_time = 0;
    }

-- The loop that fills both batches, from the number i on.
unfoldable pub batch_of : Texts → String → String → String → ℕ → ℕ → List DialogMessageExtended
unfolding message_at
batch_of texts dialog first second zero i = []
batch_of texts dialog first second (suc n) i =
    message_at texts dialog first second i ∷ batch_of texts dialog first second n (suc i)

abbrev pub failure_of : {A : Type 0} → Result A → Option Error
failure_of (ok a) = none
failure_of (err e) = some e

-- pgx runs the statements of a batch in one transaction: a statement that fails undoes the others.
unfoldable pub after_insert :
    (List DialogMessageExtended → Result (List DialogMessageExtended))
    → Result DialogMessageExtended × List DialogMessageExtended
    → Result (List DialogMessageExtended)
after_insert next (err e, rows) = err e
after_insert next (ok m, rows) = next rows

unfoldable pub run_batch :
    (ℕ → Option Error)
    → ℕ
    → ℕ
    → List DialogMessageExtended
    → List DialogMessageExtended
    → Result (List DialogMessageExtended)
unfolding after_insert insert_message
run_batch faults now i [] rows = ok rows
run_batch faults now i (m ∷ ms) rows =
    after_insert (run_batch faults now (suc i) ms) (insert_message (faults i) now m rows)

abbrev pub committed :
    Result (List DialogMessageExtended) → List DialogMessageExtended → List DialogMessageExtended
committed (ok after) rows = after
committed (err e) rows = rows

-- br.Exec reads the result of the first statement only; br.Close drops the others.
unfoldable pub first_result :
    (ℕ → Option Error) → ℕ → List DialogMessageExtended → List DialogMessageExtended → Option Error
unfolding insert_message
first_result faults now [] rows = none
first_result faults now (m ∷ ms) rows = failure_of (insert_message (faults 0) now m rows).0

-- batch_insert_messages: no transaction, so that the tuples before a failure stay.
unfoldable pub after_call :
    (List Row → Option Error × List Row) → Result (List Value) × List Row → Option Error × List Row
after_call next (err e, space) = (some e, space)
after_call next (ok values, space) = next space

unfoldable pub batch_insert_messages :
    TimeFormat → ℕ → List DialogMessageExtended → List Row → Option Error × List Row
unfolding after_call insert_message_call
batch_insert_messages format now [] space = (none, space)
batch_insert_messages format now (m ∷ ms) space = after_call (batch_insert_messages format now ms) (
    insert_message_call format now m.dialog_id m.id m.message.text m.message.from m.message.to
      space)

-- The error of a call of the procedure that does not reach the server comes first.
unfoldable pub tarantool_call :
    Option Error → TimeFormat → ℕ → List DialogMessageExtended → List Row → Option Error × List Row
unfolding batch_insert_messages
tarantool_call (some e) format now ms space = (some e, space)
tarantool_call none format now ms space = batch_insert_messages format now ms space

-- The two storages and the lines of dialogs.csv.
pub record Stores : Type 0 where
  pub rows : List DialogMessageExtended
  pub space : List Row
  pub lines : List (String × String × String)

-- The failures that the environment chooses for a dialog: of the statements of the batch, of the call
-- of Tarantool, and of the line.
pub record Faults : Type 0 where
  pub statement : ℕ → Option Error
  pub call : Option Error
  pub line : Option Error

unfoldable pub after_batch :
    Option Error
    → Faults
    → TimeFormat
    → ℕ
    → List DialogMessageExtended
    → Stores
    → Option Error × Stores
unfolding tarantool_call
after_batch (some e) faults format now ms f = (some e, f)
after_batch none faults format now ms f =
    let (e, space) = tarantool_call faults.call format now ms f.space in
    (e, record f { space = space })

-- createMessages of n messages; both servers are in the second `now`.
unfoldable pub create_messages :
    Faults → TimeFormat → ℕ → Texts → ℕ → String → String → String → Stores → Option Error × Stores
unfolding after_batch batch_of run_batch first_result
create_messages faults format now texts n dialog first second f =
    let ms = batch_of texts dialog first second n 0 in
    after_batch (first_result faults.statement now ms f.rows) faults format now ms
      (record f { rows = committed (run_batch faults.statement now 0 ms f.rows) f.rows })

-- selectRandomUsers, by what the query gives.
unfoldable pub select_random_users : Result (List String) → Result (String × String)
select_random_users (err e) = err e
select_random_users (ok (first ∷ second ∷ [])) = ok (first, second)
select_random_users (ok _) = err (other "failed to select two users")

-- One round of the loop: what the query gives, and what is fresh or fails in it.
pub record Round : Type 0 where
  pub users : Result (List String)
  pub faults : Faults
  pub now : ℕ
  pub texts : String → Texts

abbrev pub if_none :
    Option Error × Stores → (Stores → Option Error × Stores) → Option Error × Stores
if_none (some e, f) next = (some e, f)
if_none (none, f) next = next f

module _ (hash : String → String) (format : TimeFormat) where
  unfoldable pub after_line :
      Option Error → Round → String → String → String → Stores → Option Error × Stores
  unfolding create_messages
  after_line (some e) r dialog first second f = (some e, f)
  after_line none r dialog first second f =
      create_messages r.faults format r.now (r.texts dialog) messages_cnt dialog first second
        (record f { lines = f.lines ++ (first, second, dialog) ∷ [] })

  unfoldable pub after_selection : Result (String × String) → Round → Stores → Option Error × Stores
  unfolding after_line obtain_dialog_id
  after_selection (err e) r f = (some e, f)
  after_selection (ok (first, second)) r f =
      after_line r.faults.line r (obtain_dialog_id hash first second) first second f

  -- The loop of main over its rounds, which an error ends.
  unfoldable pub generate : List Round → Stores → Option Error × Stores
  unfolding after_selection select_random_users
  generate [] f = (none, f)
  generate (r ∷ rs) f = if_none (after_selection (select_random_users r.users) r f) (generate rs)
