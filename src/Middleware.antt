-- ===== src/Middleware.antt =====
-- backend/pkg/http/server/middleware.go, logging.go and metrics.go: the status that is recorded around
-- a handler, and what is counted by it.
pub mod Counting
pub mod Routing
mod Logging
use otus_highload.Base.{
  ℕ, suc, String, Bool, List, [], ◌∷◌, Option, none, some, ◌==◌, ◌&&◌, not, eqb, leb, if◌then◌else◌,
}

-- What the middleware reads of a request, and the codes that the handler behind it writes, in order.
pub record Exchange : Type 0 where
  pub template : Option String
  pub upgrade : String
  pub connection : String
  pub websocket_key : String
  pub websocket_version : String
  pub written : List ℕ

unfoldable pub is_websocket_request : Exchange → Bool
is_websocket_request r =
    r.upgrade == "websocket"
    && r.connection == "Upgrade"
    && not (r.websocket_key == "")
    && r.websocket_version == "13"

-- The statusRecorder after those calls of WriteHeader.
unfoldable pub recorded : ℕ → List ℕ → ℕ
recorded status [] = status
recorded status (code ∷ codes) = recorded code codes

-- The status around a handler; a WebSocket request is not recorded.
unfoldable pub status_of : Exchange → ℕ
unfolding recorded is_websocket_request
status_of r = if is_websocket_request r then 0 else recorded 200 r.written

abbrev pub path_of : Option String → String
path_of none = "unknown"
path_of (some template) = template

-- The counters by path and status.
pub record Metrics : Type 0 where
  pub requests : String → ℕ → ℕ
  pub errors : String → ℕ → ℕ
  pub observed : String → ℕ → ℕ

abbrev pub bump : String → ℕ → (String → ℕ → ℕ) → String → ℕ → ℕ
bump path status f p s = if (path == p) && eqb status s then suc (f p s) else f p s

-- MetricsMiddleware
unfoldable pub metrics_middleware : Exchange → Metrics → Metrics
unfolding status_of
metrics_middleware r m = record {
  requests = bump (path_of r.template) (status_of r) m.requests;
  errors =
      if leb 400 (status_of r) then bump (path_of r.template) (status_of r) m.errors else m.errors;
  observed = bump (path_of r.template) (status_of r) m.observed;
}
