-- ===== src/Dialog/Remote.antt =====
-- backend/social/internal/service/dialog/dialog_service.go, backend/pkg/http/client/common.go and the
-- two dialog handlers of backend/social/internal/server/http/server.go: the social service asks the
-- service of dialogs.
use otus_highload.Base.{ℕ, String, Bool, List, Option, none, some, if◌then◌else◌}
use otus_highload.Base.Errors.{Error, Result, ok, err, other, user_not_found}
use otus_highload.Auth.Authenticator.{Context}
use otus_highload.Dialog.{DialogMessage}
use otus_highload.Http.{
  Response, success, not_found, internal_error, get_user_id, with_user, answer_if, with_response,
}

pub data Method : Type 0 where
  get post : Method

-- A request of resty: the headers that `execute` sets, the only path parameter, and the text of a
-- message where there is one.
pub record Outgoing : Type 0 where
  pub method : Method
  pub path : String
  pub user_id : String
  pub request_id : String
  pub trace_id : String
  pub span_id : String
  pub authorization : String
  pub text : Option String

-- What resty makes of a response: its status, IsError of it, the body, and the value that the
-- template holds afterwards.
pub record Incoming (A : Type 0) : Type 0 where
  pub status : ℕ
  pub is_error : Bool
  pub body : String
  pub decoded : A

-- The values of the context that a request is made in. `token` is absent where the context holds no
-- text for it.
pub record Caller : Type 0 where
  pub caller_id : Option String
  pub token : Option String
  pub request_id : String
  pub trace_id : String
  pub span_id : String

-- What the authenticator leaves in the context.
abbrev pub authenticated : Context → String → String → String → Caller
authenticated c request trace span = record {
  caller_id = some c.user_id;
  token = some c.token;
  request_id = request;
  trace_id = trace;
  span_id = span;
}

abbrev pub token_or_empty : Option String → String
token_or_empty none = ""
token_or_empty (some token) = token

-- HttpClient.execute, up to the request that it hands to resty.
unfoldable pub execute : Caller → Method → String → String → Option String → Outgoing
execute c method path user text = record {
  method = method;
  path = path;
  user_id = user;
  request_id = c.request_id;
  trace_id = c.trace_id;
  span_id = c.span_id;
  authorization = token_or_empty c.token;
  text = text;
}

abbrev pub create_message_url : String
create_message_url = "/dialog/{user_id}/send"

abbrev pub get_messages_url : String
get_messages_url = "/dialog/{user_id}/list"

-- fmt.Errorf("request error: …"); the status and the body in the text are left out.
abbrev pub request_error : Error
request_error = other "request error"

unfoldable pub message_created : Result (Incoming (Unit {0})) → Result (Unit {0})
message_created (err e) = err e
message_created (ok resp) = if resp.is_error then err request_error else ok tt

unfoldable pub messages_got : Result (Incoming (List DialogMessage)) → Result (List DialogMessage)
messages_got (err e) = err e
messages_got (ok resp) = if resp.is_error then err request_error else ok resp.decoded

-- The two ways in which resty executes a request, by the type that the answer is decoded to; `S` is
-- the state of the other service.
pub record Transport (S : Type 0) : Type 0 where
  pub send : Outgoing → S → Result (Incoming (Unit {0})) × S
  pub fetch : Outgoing → S → Result (Incoming (List DialogMessage)) × S

abbrev pub list_response : Result (List DialogMessage) → Response (List DialogMessage)
list_response (ok messages) = success messages
list_response (err e) = internal_error (some e)

abbrev pub send_response : Result (Unit {0}) → Response (Unit {0})
send_response (ok t) = success tt
send_response (err e) = answer_if user_not_found e not_found (internal_error (some e))

module _ {S : Type 0} (transport : Transport S) where
  -- The author of a message is known to the other service by the token only.
  unfoldable pub remote_create_message : Caller → String → String → S → Result (Unit {0}) × S
  unfolding message_created execute
  remote_create_message c to text s =
      with_response message_created
        (transport.send (execute c post create_message_url to (some text)) s)

  unfoldable pub remote_get_messages_between : Caller → String → S → Result (List DialogMessage) × S
  unfolding messages_got execute
  remote_get_messages_between c second s =
      with_response messages_got (transport.fetch (execute c get get_messages_url second none) s)

  unfoldable pub social_dialog_user_id_list :
      Caller → String → S → Response (List DialogMessage) × S
  social_dialog_user_id_list c second s =
      with_user (get_user_id c.caller_id)
        (λ user t. with_response list_response (remote_get_messages_between c second t)) s

  unfoldable pub social_dialog_user_id_send : Caller → String → String → S → Response (Unit {0}) × S
  social_dialog_user_id_send c to text s =
      with_user (get_user_id c.caller_id)
        (λ user t. with_response send_response (remote_create_message c to text t)) s
