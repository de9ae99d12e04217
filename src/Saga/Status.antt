-- ===== src/Saga/Status.antt =====
-- backend/social/internal/service/user_status_service.go
use otus_highload.Base.{ℕ, Option}
use otus_highload.Base.Errors.{Error, Result, ok, err, other}
use otus_highload.Storage.{User, Db}
use otus_highload.Storage.Users.{update_user_status}
use otus_highload.Saga.{
  SagaJson, SagaEventType, user_created, user_verified, user_verification_failed, unknown,
  user_verification_failed_status, user_verification_succeeded,
}

module _ {Raw : Type 0} (json : SagaJson Raw) where
  unfoldable pub with_payload : Option Error → ℕ → Result User → Db → Result (Unit {0}) × Db
  with_payload storage status (err e) db = (err e, db)
  with_payload storage status (ok payload) db = update_user_status storage payload.id status db

  unfoldable pub on_event : Option Error → SagaEventType → Raw → Db → Result (Unit {0}) × Db
  unfolding with_payload
  on_event storage user_verified raw db =
      with_payload storage user_verification_succeeded (json.user.unmarshal raw) db
  on_event storage user_verification_failed raw db =
      with_payload storage user_verification_failed_status (json.user.unmarshal raw) db
  on_event storage user_created raw db = (err (other "unknown event type"), db)
  on_event storage (unknown type) raw db = (err (other "unknown event type"), db)

  unfoldable pub read_event :
      Option Error → Result (SagaEventType × Raw) → Db → Result (Unit {0}) × Db
  unfolding on_event
  read_event storage (err e) db = (err e, db)
  read_event storage (ok (type, raw)) db = on_event storage type raw db

  -- processEvent; the error is what it logs.
  unfoldable pub process_event : Option Error → Raw → Db → Result (Unit {0}) × Db
  unfolding read_event
  process_event storage body db = read_event storage (json.envelope.unmarshal body) db
