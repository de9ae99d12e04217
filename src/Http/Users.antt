-- ===== src/Http/Users.antt =====
-- The handlers of /user that read or register one user.
use otus_highload.Base.{Bool, ℕ, String, List, Option, some}
use otus_highload.Base.Errors.{Error, Result, ok, err, user_not_found, not_valid_password}
use otus_highload.Storage.{User, Db, Rows}
use otus_highload.Service.Users.{get_user, search_by_name}
use otus_highload.Saga.{SagaJson}
use otus_highload.Saga.Register as Register
use otus_highload.Saga.Register.{RegisterBody, Registration, Answers, register_user}
use otus_highload.Http.{
  Response, success, bad_request, not_found, internal_error, panicked, get_user_id, with_user,
  answer_if,
}

abbrev user_response : Result User → Response User
user_response (ok u) = success u
user_response (err e) = answer_if user_not_found e not_found (internal_error (some e))

unfoldable pub get_user_get_id : Option Error → Option String → String → Db → Response User × Db
get_user_get_id fault context id db =
    with_user (get_user_id context) (λ user s. (user_response (get_user fault id s), s)) db

unfoldable pub get_user_me : Option Error → Option String → Db → Response User × Db
get_user_me fault context db =
    with_user (get_user_id context) (λ user s. (user_response (get_user fault user s), s)) db

abbrev users_response : Result (List User) → Response (List User)
users_response (ok us) = success us
users_response (err e) = internal_error (some e)

unfoldable pub get_user_search :
    (String → String → Bool)
    → Rows
    → Option String
    → String
    → String
    → Db
    → Response (List User) × Db
get_user_search like fault context first_name last_name db =
    with_user (get_user_id context)
      (λ user s. (users_response (search_by_name like fault first_name last_name s), s)) db

abbrev registration_response : Registration → Response String
registration_response (Register.registered id) = success id
registration_response (Register.refused e) =
    answer_if not_valid_password e bad_request (internal_error (some e))
registration_response Register.panicked = panicked

-- The only handler beside the login that needs no user.
unfoldable pub post_user_register :
    {Raw : Type 0}
    → SagaJson Raw
    → (String → Result (List ℕ))
    → Answers
    → String
    → RegisterBody
    → Db
    → List Raw
    → Response String × Db × List Raw
post_user_register json hash answers id body db queue =
    let (r, db', queue') = register_user json hash answers id body db queue in
    (registration_response r, db', queue')
