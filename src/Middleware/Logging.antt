-- ===== src/Middleware/Logging.antt =====
-- backend/pkg/http/server/logging.go: the lines that both middlewares log.
use otus_highload.Base.{ℕ, ◌-◌, ◌≡◌, refl, String, Option, none, some, if◌then◌else◌}
use otus_highload.Base.Errors.{Result, ok, err}
use otus_highload.Middleware.{Exchange, is_websocket_request, recorded, status_of}

-- What a line says of the request; times are milliseconds.
pub record Requested : Type 0 where
  pub ip : String
  pub method : String
  pub path : String
  pub version : String
  pub user_agent : String

pub record LogLine : Type 0 where
  pub requested : Requested
  pub start_time : ℕ
  pub status_code : ℕ
  pub latency : ℕ

-- LoggingMiddleware, around a handler that runs from `start` to `stop`.
unfoldable pub logging_middleware : Requested → ℕ → ℕ → Exchange → LogLine
unfolding is_websocket_request recorded
logging_middleware requested start stop r =
    let status = if is_websocket_request r then 0 else recorded 200 r.written in
    record {
      requested = requested;
      start_time = start;
      status_code = status;
      latency = stop - start;
    }

pub record StrictLine : Type 0 where
  pub operation_id : String
  pub requested : Requested
  pub start_time : ℕ
  pub latency : ℕ
  pub error : String
  pub response : String

abbrev pub text_or_empty : Option String → String
text_or_empty none = ""
text_or_empty (some text) = text

abbrev pub text_or_nothing : Result String → String
text_or_nothing (ok text) = text
text_or_nothing (err e) = ""

-- json.Marshal of a response that is not nil; an error leaves the text empty.
abbrev pub marshalled : {Response : Type 0} → (Response → Result String) → Option Response → String
marshalled marshal none = ""
marshalled marshal (some response) = text_or_nothing (marshal response)

-- StrictLoggingMiddleware: the line, and what the handler returned, as it was.
unfoldable pub strict_logging_middleware :
    {Response : Type 0}
    → (Response → Result String)
    → String
    → Requested
    → ℕ
    → ℕ
    → Option Response × Option String
    → StrictLine × Option Response × Option String
strict_logging_middleware marshal operation requested start stop (response, error) = (
  record {
    operation_id = operation;
    requested = requested;
    start_time = start;
    latency = stop - start;
    error = text_or_empty error;
    response = marshalled marshal response;
  },
  response,
  error,
)

-- The line and the counters say the same status.
logging_middleware-status_of :
    (requested : Requested) (start stop : ℕ) (r : Exchange)
    → (logging_middleware requested start stop r).status_code ≡ status_of r
unfolding logging_middleware status_of
logging_middleware-status_of requested start stop r = refl
