-- ===== src/Saga/Register.antt =====
-- backend/social/internal/service/user_service.go and the hashing half of password_service.go
use otus_highload.Base.{ℕ, String, List, Option, none, some}
use otus_highload.Base.Errors.{Error, Result, ok, err, not_valid_password}
use otus_highload.Storage.{User, Db}
use otus_highload.Storage.Users.{create_user}
use otus_highload.Saga.{SagaJson, SagaEventType, user_created, user_pending_verification, publish}

-- model.PostUserRegisterJSONRequestBody
pub record RegisterBody : Type 0 where
  pub biography : Option String
  pub birthdate : Option ℕ
  pub city : Option String
  pub first_name : Option String
  pub gender : Option String
  pub password : Option String
  pub second_name : Option String

-- The dereference of an absent password stops the goroutine.
pub data Registration : Type 0 where
  registered : String → Registration
  refused : Error → Registration
  panicked : Registration

-- How the environment answers: the insert, and the publication of the event.
pub record Answers : Type 0 where
  pub storage : Option Error
  pub broker : Option Error

abbrev pub new_user : String → RegisterBody → User
new_user id body = record {
  id = some id;
  first_name = body.first_name;
  second_name = body.second_name;
  city = body.city;
  gender = body.gender;
  birthdate = body.birthdate;
  biography = body.biography;
}

module _ {Raw : Type 0} (json : SagaJson Raw) where
  unfoldable pub marshal_in : SagaEventType → Result Raw → Result Raw
  marshal_in type (err e) = err e
  marshal_in type (ok raw) = json.envelope.marshal (type, raw)

  -- sendUserCreated
  unfoldable pub send_user_created : Option Error → User → List Raw → List Raw
  unfolding marshal_in
  send_user_created broker user queue =
      publish broker (marshal_in user_created (json.user.marshal user)) queue

  unfoldable pub after_create :
      Option Error
      → String
      → User
      → Result (Unit {0}) × Db
      → List Raw
      → Registration × Db × List Raw
  after_create broker id user (err e, db) queue = (refused e, db, queue)
  after_create broker id user (ok _, db) queue =
      (registered id, db, send_user_created broker user queue)

  unfoldable pub after_hash :
      Answers
      → String
      → RegisterBody
      → Result (List ℕ)
      → Db
      → List Raw
      → Registration × Db × List Raw
  unfolding after_create
  after_hash answers id body (err e) db queue = (refused not_valid_password, db, queue)
  after_hash answers id body (ok hash) db queue =
      after_create answers.broker id (new_user id body)
        (create_user answers.storage
          (record {
            user = new_user id body;
            password_hash = hash;
            status = user_pending_verification;
          })
          db)
        queue

  unfoldable pub with_password :
      (String → Result (List ℕ))
      → Answers
      → String
      → RegisterBody
      → Option String
      → Db
      → List Raw
      → Registration × Db × List Raw
  unfolding after_hash
  with_password hash answers id body none db queue = (panicked, db, queue)
  with_password hash answers id body (some password) db queue =
      after_hash answers id body (hash password) db queue

  -- `hash` is bcrypt.GenerateFromPassword, and `id` the fresh identifier of combuuid.
  unfoldable pub register_user :
      (String → Result (List ℕ))
      → Answers
      → String
      → RegisterBody
      → Db
      → List Raw
      → Registration × Db × List Raw
  unfolding with_password
  register_user hash answers id body db queue =
      with_password hash answers id body body.password db queue
