-- ===== src/Saga.antt =====
-- backend/pkg/model/saga.go and the formats of the two saga queues: registration publishes
-- `user_created`, the verifier answers with one of the other two.
pub mod Register
pub mod Verifier
pub mod Status
pub mod System
pub mod Cases
pub mod Monotone
pub mod Named
pub mod Flight
mod Tests
use otus_highload.Base.{ℕ, String, ◌≡◌, ◌++◌, List, [], ◌∷◌, Option, none, some}
use otus_highload.Base.Errors.{Error, Result, ok, err}
use otus_highload.Storage.{User}
use otus_highload.Feed.Notifier.{Codec}

pub data SagaEventType : Type 0 where
  user_created user_verified user_verification_failed : SagaEventType
  -- Any other text in the field.
  unknown : String → SagaEventType

abbrev pub absent_user : User
absent_user = record {
  id = none;
  first_name = none;
  second_name = none;
  city = none;
  gender = none;
  birthdate = none;
  biography = none;
}

-- SagaEvent and SagaEventJson: an envelope over a raw payload, which is a user, or the `null` that
-- stands for an absent payload and reads as a user with no field set.
pub record SagaJson (Raw : Type 0) : Type 0 where
  pub envelope : Codec Raw (SagaEventType × Raw)
  pub user : Codec Raw User
  pub null : Raw
  pub null_user : user.unmarshal null ≡ ok absent_user

-- model.UserStatus
abbrev pub user_pending_verification : ℕ
user_pending_verification = 0

abbrev pub user_verification_failed_status : ℕ
user_verification_failed_status = 10

abbrev pub user_verification_succeeded : ℕ
user_verification_succeeded = 100

-- json.Marshal and SendData; both errors are logged and dropped.
unfoldable pub publish : {Raw : Type 0} → Option Error → Result Raw → List Raw → List Raw
publish fault (err e) queue = queue
publish (some e) (ok body) queue = queue
publish none (ok body) queue = queue ++ body ∷ []
