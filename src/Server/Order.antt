-- ===== src/Server/Order.antt =====
-- The order of the starts and the stops.
use otus_highload.Base.{
  ◌≡◌, ◌∙◌, ◌⊎◌, Bool, true, false, ◌&&◌, List, [], ◌∷◌, Option, none, some, arith,
}
use otus_highload.Base.Errors.{Error}
use otus_highload.Queue.Lifecycle.{Operation, Exchange, processor_start, stop_returns}
use otus_highload.Queue.Stopping.{processor-never_stops}
use otus_highload.Server.{
  Part, verifier, verifier_processor, verifier_status_queue, user_created_queue, verifier_server,
  waiting, uses, Setup, loads, starts, Program, Weather, End, returned, finished, is_in, without,
  all_in, closing, stop_all, start_all, run, social, dialog,
}

-- Every part is started after what it uses, and then stopped before it.
abbrev started_in_order : List Setup → List Part → Bool
started_in_order [] up = true
started_in_order (loads name ∷ rest) up = started_in_order rest up
started_in_order (starts part ∷ rest) up =
    all_in (uses part) up && started_in_order rest (part ∷ up)

abbrev started : List Setup → List Part → List Part
started [] up = up
started (loads name ∷ rest) up = started rest up
started (starts part ∷ rest) up = started rest (part ∷ up)

abbrev stopped_in_order : List Part → List Part → Bool
stopped_in_order [] up = true
stopped_in_order (part ∷ rest) up =
    is_in part up && all_in (uses part) up && stopped_in_order rest (without part up)

abbrev pub failed_or : Option Error → Bool → Bool
failed_or none later = later
failed_or (some e) later = true

-- A setup fails.
abbrev pub fails : Weather → List Setup → Bool
fails weather [] = false
fails weather (loads name ∷ rest) = failed_or (weather.load_fault name) (fails weather rest)
fails weather (starts part ∷ rest) = failed_or (weather.start_fault part) (fails weather rest)

module _ (weather : Weather) (returns : (part : Part) → weather.stop_returns part ≡ true) where
  -- An early return after a failure, with nothing stopped out of order, or the end of main.
  abbrev pub Ends : Program → List Setup → List Part → End → Type 0
  Ends program setups up end =
      ((fails weather setups ≡ true)
        × (left : List Part) × (end ≡ returned (record { up = left; late = [] })))
      ⊎ ((fails weather setups ≡ false)
          × (end
              ≡ finished (record {
                up = closing program.deferred (closing program.stops (started setups up));
                late = [];
              })))

pub data Server : Type 0 where
  social_server : Server
  dialog_server : (sql : Bool) → Server

abbrev pub program_of : Server → Program
program_of social_server = social
program_of (dialog_server sql) = dialog sql

-- The verifier does not end: once it is up, and its consumer has stopped, it waits for the Stop of its
-- processor, with both connections open, whatever becomes of the broker and of the signal.
pub verifier-waits :
    {T : Type 0} (amqp : Operation → T → Option Error × T) (x : Exchange) (t : T)
    (ctx_done done : Bool) (weather : Weather)
    → fails weather verifier_server.setups ≡ false
    → weather.stop_returns verifier ≡ true
    → weather.stop_returns verifier_processor
      ≡ stop_returns (processor_start amqp x t).1 ctx_done done
    → run weather verifier_server
      ≡ waiting (record {
        up = verifier_processor ∷ verifier_status_queue ∷ user_created_queue ∷ [];
        late = [];
      })
unfolding run start_all stop_all
verifier-waits amqp x t ctx_done done weather sound stopped waits =
    let never = waits ∙ processor-never_stops amqp x t ctx_done done in ground arith
