-- ===== src/Server/Tests.antt =====
-- Fair weather, and a cache whose URL is not read.
use otus_highload.Base.{
  ◌≡◌, refl, true, false, [], ◌∷◌, Option, none, some, ◌==◌, not, eqb, if◌then◌else◌,
}
use otus_highload.Base.Errors.{Error, other}
use otus_highload.Queue.Lifecycle.{Operation}
use otus_highload.Server.{
  number, verifier_processor, verifier_status_queue, user_created_queue, Weather, waiting, run,
  verifier_server,
}
use otus_highload.Server.Order.{verifier-waits}

abbrev stormy : Weather
stormy = record {
  load_fault = λ name. if name == "subscribers cache url" then some (other "url") else none;
  start_fault = λ part. none;
  stop_returns = λ part. true;
}

-- The Stop of the processor waits, as it always does.
abbrev real : Weather
real = record {
  load_fault = λ name. none;
  start_fault = λ part. none;
  stop_returns = λ part. not (eqb (number part) 11);
}

abbrev willing : Operation → Unit {0} → Option Error × Unit {0}
willing operation s = (none, s)

verifier-waits_example :
    run real verifier_server
    ≡ waiting (record {
      up = verifier_processor ∷ verifier_status_queue ∷ user_created_queue ∷ [];
      late = [];
    })
unfolding otus_highload.Queue.Lifecycle.stop_returns otus_highload.Queue.Lifecycle.processor_start
verifier-waits_example =
    verifier-waits willing (record { name = "saga"; kind = "direct" }) tt true false real refl refl
      refl
