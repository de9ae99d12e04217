-- ===== src/Server.antt =====
-- The main functions of backend/social/cmd/server, backend/dialog/cmd/server and
-- backend/verifier/cmd/server: what is started, what an error ends, and what is stopped. A server that
-- is up waits for a signal.
pub mod Order
mod Observer
mod Tests
use otus_highload.Base.{
  ℕ, String, Bool, true, false, ◌&&◌, List, [], ◌∷◌, Option, none, some, any, keep, not, eqb,
  if◌then◌else◌,
}
use otus_highload.Base.Errors.{Error}

-- What has a Start and a Stop, or a connection that is closed.
pub data Part : Type 0 where
  database tarantool : Part
  queue publisher saga_queue saga_publisher : Part
  post_feed_updater user_status zabbix : Part
  user_created_queue verifier_status_queue verifier_processor verifier : Part

abbrev pub number : Part → ℕ
number database = 0
number tarantool = 1
number queue = 2
number publisher = 3
number saga_queue = 4
number saga_publisher = 5
number post_feed_updater = 6
number user_status = 7
number zabbix = 8
number user_created_queue = 9
number verifier_status_queue = 10
number verifier_processor = 11
number verifier = 12

-- What a part calls when it starts or stops: the connection of the queue that made it, which is nil
-- before that queue has started.
abbrev pub uses : Part → List Part
uses publisher = queue ∷ []
uses saga_publisher = saga_queue ∷ []
uses post_feed_updater = queue ∷ []
uses user_status = saga_queue ∷ []
uses verifier_processor = verifier_status_queue ∷ []
uses verifier = user_created_queue ∷ []
uses part = []

-- A step of the start-up that may fail: one that only reads or parses, or one that starts a part.
pub data Setup : Type 0 where
  loads : String → Setup
  starts : Part → Setup

pub record Program : Type 0 where
  pub setups : List Setup
  pub stops : List Part
  -- What a deferred call closes.
  pub deferred : List Part

-- The failures of the setups, and whether the Stop of a part returns.
pub record Weather : Type 0 where
  pub load_fault : String → Option Error
  pub start_fault : Part → Option Error
  pub stop_returns : Part → Bool

-- What is up, and what was stopped after something that it uses.
pub record Process : Type 0 where
  pub up : List Part
  pub late : List Part

pub data End : Type 0 where
  -- An early return, the end of main, a nil pointer, and a Stop that does not return.
  returned : Process → End
  finished : Process → End
  crashed : End
  waiting : Process → End

abbrev pub is_in : Part → List Part → Bool
is_in part parts = any (λ p. eqb (number part) (number p)) parts

abbrev pub without : Part → List Part → List Part
without part parts = keep (λ p. not (eqb (number part) (number p))) parts

abbrev pub all_in : List Part → List Part → Bool
all_in [] up = true
all_in (p ∷ ps) up = is_in p up && all_in ps up

-- The deferred calls, of what was started.
abbrev pub closing : List Part → List Part → List Part
closing [] up = up
closing (part ∷ parts) up = closing parts (without part up)

abbrev pub leave : List Part → Process → Process
leave deferred p = record p { up = closing deferred p.up }

unfoldable pub stop_all : Weather → List Part → List Part → Process → End
stop_all weather deferred [] p = finished (leave deferred p)
stop_all weather deferred (part ∷ rest) p =
    let late = if all_in (uses part) p.up then p.late else part ∷ p.late in
    let onwards =
      stop_all weather deferred rest (record p { up = without part p.up; late = late }) in
    if is_in part p.up then if weather.stop_returns part then onwards else waiting p else crashed

abbrev pub unless : Option Error → End → End → End
unless none onwards early = onwards
unless (some e) onwards early = early

unfoldable pub start_all : Weather → Program → List Setup → Process → End
unfolding stop_all
start_all weather program [] p = stop_all weather program.deferred program.stops p
start_all weather program (loads name ∷ rest) p =
    unless (weather.load_fault name) (start_all weather program rest p)
      (returned (leave program.deferred p))
start_all weather program (starts part ∷ rest) p =
    let onwards = start_all weather program rest (record p { up = part ∷ p.up }) in
    if all_in (uses part) p.up
    then unless (weather.start_fault part) onwards (returned (leave program.deferred p))
    else crashed

unfoldable pub run : Weather → Program → End
unfolding start_all
run weather program = start_all weather program program.setups (record { up = []; late = [] })

-- The HTTP server, whose Shutdown runs beside main, and the consumers of subscriptions are no parts.
abbrev pub social : Program
social = record {
  setups =
      loads "config"
      ∷ loads "location"
      ∷ loads "logger"
      ∷ loads "tracer"
      ∷ loads "db"
      ∷ starts database
      ∷ starts queue
      ∷ starts publisher
      ∷ starts saga_queue
      ∷ starts saga_publisher
      ∷ loads "subscribers cache url"
      ∷ loads "subscribers cache"
      ∷ loads "post feed cache url"
      ∷ loads "post feed cache"
      ∷ starts post_feed_updater
      ∷ starts user_status
      ∷ loads "authenticator"
      ∷ starts zabbix
      ∷ loads "swagger spec"
      ∷ [];
  stops =
      user_status ∷ post_feed_updater ∷ saga_publisher ∷ publisher ∷ saga_queue ∷ queue ∷ zabbix
      ∷ [];
  deferred = database ∷ [];
}

-- `sql` is whether the type of the database is "SQL".
abbrev pub dialog_storage : Bool → Part
dialog_storage true = database
dialog_storage false = tarantool

abbrev pub load_storage : Bool → List Setup → List Setup
load_storage true rest = loads "db" ∷ rest
load_storage false rest = rest

abbrev pub dialog : Bool → Program
dialog sql = record {
  setups =
      loads "config"
      ∷ loads "location"
      ∷ loads "logger"
      ∷ loads "tracer"
      ∷ load_storage sql (
          starts (dialog_storage sql)
          ∷ loads "authenticator"
          ∷ starts zabbix
          ∷ loads "swagger spec"
          ∷ []);
  stops = zabbix ∷ [];
  deferred = dialog_storage sql ∷ [];
}

abbrev pub verifier_server : Program
verifier_server = record {
  setups =
      loads "config"
      ∷ loads "location"
      ∷ loads "logger"
      ∷ loads "tracer"
      ∷ starts user_created_queue
      ∷ starts verifier_status_queue
      ∷ starts verifier_processor
      ∷ starts verifier
      ∷ [];
  stops = verifier ∷ verifier_processor ∷ user_created_queue ∷ verifier_status_queue ∷ [];
  deferred = [];
}
