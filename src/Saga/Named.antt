-- ===== src/Saga/Named.antt =====
-- Which events of the queues are about a user, and what the event of a result does to the users it is
-- not about.
use otus_highload.Base.{
  ℕ, String, ◌≡◌, refl, Bool, false, List, [], ◌∷◌, ◌<◌, Option, none, some, ◌==◌, eq_iff, any,
  arith,
}
use otus_highload.Base.Errors.{Result, ok, err}
use otus_highload.Storage.{User, UserRow, Db}
use otus_highload.Storage.Users.{set_status, update_user_status, find_user}
use otus_highload.Saga.{
  SagaJson, SagaEventType, user_created, user_verified, user_verification_failed, unknown,
}
use otus_highload.Saga.Status as Status

abbrev pub is_id : Option String → String → Bool
is_id none id = false
is_id (some x) id = x == id

abbrev names_user : Result User → String → Bool
names_user (err e) id = false
names_user (ok u) id = is_id u.id id

set_status-pending :
    (a : Option String) (x : ℕ) (us : List UserRow) (id : String) (row : UserRow)
    → 0 < x
    → find_user id (set_status a x us) ≡ some row
    → row.user_status ≡ 0
    → (find_user id us ≡ some row) × (is_id a id ≡ false)
unfolding find_user set_status
set_status-pending none x us id row pos found pending = (found, refl)
set_status-pending (some a) x [] id row pos found pending = cc
set_status-pending (some a) x (u ∷ us) id row pos found pending =
    ground (
      arith,
      set_status-pending (some a) x us id row pos,
      eq_iff u.id id,
      eq_iff u.id a,
      eq_iff a id,
    )

module _ {Raw : Type 0} (json : SagaJson Raw) where
  -- The payload of an event is the user with that identifier.
  abbrev pub names_created : Result (SagaEventType × Raw) → String → Bool
  names_created (err e) id = false
  names_created (ok (type, raw)) id = names_user (json.user.unmarshal raw) id

  -- The event is a result of the verification of that user.
  abbrev pub names_result : Result (SagaEventType × Raw) → String → Bool
  names_result (ok (user_verified, raw)) id = names_user (json.user.unmarshal raw) id
  names_result (ok (user_verification_failed, raw)) id = names_user (json.user.unmarshal raw) id
  names_result _ id = false

  abbrev pub created_about : String → List Raw → Bool
  created_about id queue = any (λ b. names_created (json.envelope.unmarshal b) id) queue

  abbrev pub result_about : String → List Raw → Bool
  result_about id queue = any (λ b. names_result (json.envelope.unmarshal b) id) queue

  with_payload-pending :
      (status : ℕ) (r : Result User) (db : Db) (id : String) (row : UserRow)
      → 0 < status
      → find_user id (Status.with_payload json none status r db).1.users ≡ some row
      → row.user_status ≡ 0
      → (find_user id db.users ≡ some row) × (names_user r id ≡ false)
  unfolding Status.with_payload update_user_status
  with_payload-pending status (err e) db id row pos found pending = (found, refl)
  with_payload-pending status (ok payload) db id row pos found pending =
      set_status-pending payload.id status db.users id row pos found pending

  -- A user that is pending after a result was pending before it, and is not the one it names.
  pub read_event-pending :
      (r : Result (SagaEventType × Raw)) (db : Db) (id : String) (row : UserRow)
      → find_user id (Status.read_event json none r db).1.users ≡ some row
      → row.user_status ≡ 0
      → (find_user id db.users ≡ some row) × (names_result r id ≡ false)
  unfolding Status.on_event Status.read_event
  read_event-pending (err e) db id row found pending = (found, refl)
  read_event-pending (ok (user_verified, raw)) db id row found pending =
      with_payload-pending 100 (json.user.unmarshal raw) db id row (omega arith) found pending
  read_event-pending (ok (user_verification_failed, raw)) db id row found pending =
      with_payload-pending 10 (json.user.unmarshal raw) db id row (omega arith) found pending
  read_event-pending (ok (user_created, raw)) db id row found pending = (found, refl)
  read_event-pending (ok (unknown type, raw)) db id row found pending = (found, refl)
