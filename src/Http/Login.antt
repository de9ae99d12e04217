-- ===== src/Http/Login.antt =====
-- backend/social/internal/service/login_service.go, the comparing half of password_service.go, and
-- the handler of /login.
use otus_highload.Base.{ℕ, String, Bool, List, Option, none, some, ◌==◌, if◌then◌else◌}
use otus_highload.Base.Errors.{Error, Result, ok, err, user_not_found, not_valid_credentials}
use otus_highload.Storage.{Db}
use otus_highload.Storage.Users.{get_password_hash}
use otus_highload.Http.{
  Response, success, bad_request, not_found, internal_error, panicked, answer_if,
}

-- A token, an error, or the dereference of an absent password or identifier.
pub data Session : Type 0 where
  token : String → Session
  refused : Error → Session
  stopped : Session

abbrev of_result : Result String → Session
of_result (ok t) = token t
of_result (err e) = refused e

module _ (compares : List ℕ → String → Bool) (create_jws : String → Result String) where
  -- bcrypt.CompareHashAndPassword, whose errors are all one.
  unfoldable pub compare_hash_and_password : List ℕ → String → Result (Unit {0})
  compare_hash_and_password hash password =
      if compares hash password then ok tt else err not_valid_credentials

  unfoldable pub after_compare : Option String → Result (Unit {0}) → Session
  after_compare id (err e) = refused e
  after_compare none (ok t) = stopped
  after_compare (some id) (ok t) = of_result (create_jws id)

  unfoldable pub after_hash : Option String → Option String → Result (List ℕ) → Session
  unfolding compare_hash_and_password after_compare
  after_hash id password (err e) = refused e
  after_hash id none (ok hash) = stopped
  after_hash id (some password) (ok hash) =
      after_compare id (compare_hash_and_password hash password)

  unfoldable pub login : Option Error → Option String → Option String → Db → Session
  unfolding after_hash
  login fault id password db = after_hash id password (get_password_hash fault id db)

  abbrev pub session_response : Session → Response String
  session_response (token t) = if t == "" then internal_error none else success t
  session_response (refused e) =
      answer_if user_not_found e not_found
        (answer_if not_valid_credentials e bad_request (internal_error (some e)))
  session_response stopped = panicked

  unfoldable pub post_login : Option Error → Option String → Option String → Db → Response String
  post_login fault id password db = session_response (login fault id password db)
