-- ===== src/Saga/Verifier.antt =====
-- backend/verifier/internal/service/verifier_processor.go
use otus_highload.Base.{ℕ, ◌%◌, List, Option, eqb, if◌then◌else◌}
use otus_highload.Base.Errors.{Error, Result, ok, err}
use otus_highload.Saga.{SagaJson, SagaEventType, user_verified, user_verification_failed, publish}

module _ {Raw : Type 0} (json : SagaJson Raw) where
  -- processSagaEvent
  unfoldable pub process_saga_event : Option Error → SagaEventType → Raw → List Raw → List Raw
  process_saga_event broker type payload queue =
      publish broker (json.envelope.marshal (type, payload)) queue

  unfoldable pub answer : Option Error → ℕ → Result (SagaEventType × Raw) → List Raw → List Raw
  unfolding process_saga_event
  answer broker unix (err e) queue =
      process_saga_event broker user_verification_failed json.null queue
  answer broker unix (ok (type, payload)) queue =
      process_saga_event broker
        (if eqb (unix % 2) 0 then user_verification_failed else user_verified) payload queue

  -- ProcessEvent at the time `unix`, in seconds: the parity stands for the result.
  unfoldable pub process_event : Option Error → ℕ → Raw → List Raw → List Raw
  unfolding answer
  process_event broker unix body queue = answer broker unix (json.envelope.unmarshal body) queue
