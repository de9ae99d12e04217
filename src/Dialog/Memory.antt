-- ===== src/Dialog/Memory.antt =====
-- backend/dialog/internal/storage/memory/dialog_storage.go, and the procedures that it calls, of
-- backend/tarantool/migrations/001_create_messages_space.lua.
use Prim.Native.Nat.{Ordering}
use Prim.Native.String as Text
use otus_highload.Base.{
  ◌/◌, ◌*◌, ℕ, String, ◌≡◌, Bool, true, false, List, [], ◌∷◌, map, Option, none, some, ◌==◌, ◌&&◌,
  any, keep, if◌then◌else◌,
}
use otus_highload.Base.Errors.{Error, Result, ok, err, other}
use otus_highload.Storage.{run}
use otus_highload.Dialog.{DialogMessageExtended}

-- The microsecond with which the second of a microsecond begins.
abbrev pub whole_second : ℕ → ℕ
whole_second t = t / 1000000 * 1000000

-- The format TIME_FORMAT, in which os.date writes the second of a microsecond and time.Parse reads
-- it.
pub record TimeFormat : Type 0 where
  pub date : ℕ → String
  pub parse : String → Result ℕ
  pub round : (t : ℕ) → parse (date t) ≡ ok (whole_second t)

-- A tuple of the space `messages`.
pub record Row : Type 0 where
  pub dialog_id : String
  pub message_id : String
  pub content : String
  pub from_user_id : String
  pub to_user_id : String
  pub send_time : String

-- What go-tarantool decodes a response to: texts and lists, as far as the code asserts their types.
pub data Field : Type 0 where
  text_field : String → Field
  other_field : Field

pub data Item : Type 0 where
  tuple : List Field → Item
  other_item : Item

pub data Value : Type 0 where
  text : String → Value
  array : List Item → Value
  other_value : Value

abbrev pub duplicate_key : Error
duplicate_key = other "Duplicate key exists in unique index"

abbrev pub before : Ordering → Ordering → Bool
before Ordering.lt ids = true
before Ordering.eq Ordering.lt = true
before _ _ = false

-- The space keeps its tuples in the order of its primary index.
unfoldable pub insert_row : Row → List Row → List Row
insert_row r [] = r ∷ []
insert_row r (s ∷ rest) =
    let later = insert_row r rest in
    if before (Text.compare r.dialog_id s.dialog_id) (Text.compare r.message_id s.message_id)
    then r ∷ s ∷ rest
    else s ∷ later

-- insert_message, at the microsecond `now`.
unfoldable pub insert_message_call :
    TimeFormat
    → ℕ
    → String
    → String
    → String
    → String
    → String
    → List Row
    → Result (List Value) × List Row
unfolding insert_row
insert_message_call format now dialog id content from to space =
    if any (λ r. r.dialog_id == dialog && r.message_id == id) space
    then (err duplicate_key, space)
    else (
      ok (text (format.date now) ∷ []),
      insert_row
          (record {
            dialog_id = dialog;
            message_id = id;
            content = content;
            from_user_id = from;
            to_user_id = to;
            send_time = format.date now;
          })
          space,
    )

abbrev pub tuple_of : Row → Item
tuple_of r = tuple (
    text_field r.dialog_id
    ∷ text_field r.message_id
    ∷ text_field r.content
    ∷ text_field r.from_user_id
    ∷ text_field r.to_user_id
    ∷ text_field r.send_time
    ∷ [])

-- get_messages_by_dialog
unfoldable pub get_messages_call : String → List Row → Result (List Value)
get_messages_call dialog space =
    ok (array (map tuple_of (keep (λ r. r.dialog_id == dialog) space)) ∷ [])

-- What CreateMessage returns; `nothing` is a nil message beside a nil error.
pub data Created : Type 0 where
  sent : DialogMessageExtended → Created
  failed : Error → Created
  nothing : Created

-- What GetMessagesInDialog returns; an assertion without `ok` and an index out of range panic.
pub data Listed : Type 0 where
  listed : List DialogMessageExtended → Listed
  failed : Error → Listed
  panicked : Listed

unfoldable pub with_time : DialogMessageExtended → Result ℕ → Created
with_time m (ok t) = sent (record m { send_time = t })
with_time m (err e) = failed e

unfoldable pub created_of : TimeFormat → DialogMessageExtended → Result (List Value) → Created
unfolding with_time
created_of format m (err e) = failed e
created_of format m (ok []) = failed (other "failed to create message")
created_of format m (ok (text s ∷ rest)) = with_time m (format.parse s)
created_of format m (ok (array items ∷ rest)) = nothing
created_of format m (ok (other_value ∷ rest)) = nothing

-- A time that is not read is logged, and left as the zero time.
abbrev pub time_or_zero : Result ℕ → ℕ
time_or_zero (ok t) = t
time_or_zero (err e) = 0

unfoldable pub message_of : TimeFormat → List Field → Option DialogMessageExtended
message_of format
      (text_field dialog
        ∷ text_field id
        ∷ text_field content
        ∷ text_field from
        ∷ text_field to
        ∷ text_field time
        ∷ rest) =
    some (record {
      message = record { from = from; to = to; text = content };
      id = id;
      dialog_id = dialog;
      send_time = time_or_zero (format.parse time);
    })
message_of format _ = none

abbrev pub put : Option DialogMessageExtended → Listed → Listed
put none rest = panicked
put (some m) (listed ms) = listed (m ∷ ms)
put (some m) rest = rest

-- The loop over the items: the first one that is no list of fields fails, and a wrong field panics.
unfoldable pub messages_of : TimeFormat → List Item → Listed
unfolding message_of
messages_of format [] = listed []
messages_of format (tuple fields ∷ items) =
    put (message_of format fields) (messages_of format items)
messages_of format (other_item ∷ items) = failed (other "failed to parse messages")

unfoldable pub listed_of : TimeFormat → Result (List Value) → Listed
unfolding messages_of
listed_of format (err e) = failed e
listed_of format (ok (array items ∷ [])) = messages_of format items
listed_of format (ok (text s ∷ [])) = panicked
listed_of format (ok (other_value ∷ [])) = panicked
listed_of format (ok _) = failed (other "failed to parse messages")

-- DialogStorage.CreateMessage; a call may end with an error after the server has run it.
unfoldable pub memory_create_message :
    TimeFormat → Option Error → ℕ → DialogMessageExtended → List Row → Created × List Row
unfolding insert_message_call created_of
memory_create_message format fault now m space =
    let (response, after) =
      run fault
        (insert_message_call format now m.dialog_id m.id m.message.text m.message.from m.message.to)
        space in
    (created_of format m response, after)

-- DialogStorage.GetMessagesInDialog
unfoldable pub memory_get_messages : TimeFormat → Option Error → String → List Row → Listed
unfolding get_messages_call listed_of
memory_get_messages format (some e) dialog space = failed e
memory_get_messages format none dialog space = listed_of format (get_messages_call dialog space)
