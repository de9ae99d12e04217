-- ===== src/Http.antt =====
-- backend/social/internal/server/http/server.go: the answer of every handler.
pub mod Users
pub mod Friends
pub mod Posts
pub mod Login
pub mod Requests
pub mod Answers
pub mod Window
pub mod Socket
pub mod Routes
pub mod Connection
mod Tests
use otus_highload.Base.{ℕ, String, Option, none, some, ◌==◌, if◌then◌else◌}
use otus_highload.Base.Errors.{Error, Result, ok, err, not_authorized, errors_is}

-- The answers of the generated interfaces: 200 with its body, 400, 401, 404, and 500 with the message
-- of an error or with none. A nil dereference stops the handler.
pub data Response (A : Type 0) : Type 0 where
  success : A → Response A
  bad_request unauthorized not_found : Response A
  internal_error : Option Error → Response A
  panicked : Response A

-- AuthService.GetUserId, on the value that the request's context holds.
unfoldable pub get_user_id : Option String → Result String
get_user_id none = err not_authorized
get_user_id (some id) = if id == "" then err not_authorized else ok id

-- A handler that first asks for the user, and answers 401 where there is none.
abbrev pub with_user :
    {S A : Type 0} → Result String → (String → S → Response A × S) → S → Response A × S
with_user (err e) handle s = (unauthorized, s)
with_user (ok user) handle s = handle user s

-- `if errors.Is(err, sentinel) { return answer }`, and what follows it.
abbrev pub answer_if : {A : Type 0} → Error → Error → Response A → Response A → Response A
answer_if sentinel e answer rest = if errors_is e sentinel then answer else rest

-- The answer to what a service returned.
abbrev pub with_response : {A B S : Type 0} → (A → B) → A × S → B × S
with_response f (a, s) = (f a, s)
