-- ===== src/Saga/Tests.antt =====
-- One registration and its verification.
use otus_highload.Base.{ℕ, String, refl, ◌⊎◌, ◌<◌, List, [], ◌∷◌, none, some}
use otus_highload.Base.Errors.{Result, ok}
use otus_highload.Storage.{UserRow}
use otus_highload.Storage.Users.{set_status, find_user}
use otus_highload.Saga.Register.{RegisterBody, Answers, register_user}
use otus_highload.Saga.System.{Saga, register, verify, settle, Reach}
use otus_highload.Saga.System as System
use otus_highload.Saga.Cases.{Unregistered, Sent, Unheard, register_user-sends}
use otus_highload.Saga.Monotone.{Grown, Reach-Grown}
use otus_highload.Saga.Flight.{InFlight, CleanReach, reach-InFlight, settled_when_empty}
use otus_highload.Saga.Flight as Flight
use otus_highload.Samples.Formats.{SagaMessage, saga_json}
use otus_highload.Samples.Tables.{strangers}

abbrev eve : RegisterBody
eve = record {
  biography = none;
  birthdate = some 3;
  city = some "X";
  first_name = some "Eve";
  gender = none;
  password = some "secret";
  second_name = some "E";
}

abbrev hash : String → Result (List ℕ)
hash password = ok (1 ∷ 2 ∷ [])

abbrev up : Answers
up = record { storage = none; broker = none }

abbrev nobody : Saga SagaMessage
nobody = record { db = record strangers { users = [] }; created = []; verified = [] }

abbrev pending : Saga SagaMessage
pending = register saga_json hash up "eve" eve nobody

abbrev message_of : List SagaMessage → SagaMessage
message_of [] = SagaMessage.null
message_of (m ∷ ms) = m

abbrev judged : Saga SagaMessage
judged = verify saga_json hash none 1 (message_of pending.created) [] pending

abbrev settled : Saga SagaMessage
settled = settle saga_json hash none (message_of judged.verified) [] judged

history : CleanReach saga_json hash (λ e. (_, refl)) (λ u. (_, refl)) nobody settled
unfolding register register_user otus_highload.Storage.Users.create_user
    otus_highload.Saga.Register.send_user_created otus_highload.Saga.publish verify
    otus_highload.Saga.Verifier.process_event
history =
    Flight.next
      (Flight.next (Flight.next Flight.here (Flight.registers up "eve" eve refl refl refl))
        (Flight.verifies 1 (message_of pending.created) [] refl refl))
      (Flight.settles (message_of judged.verified) [] refl refl)

register_user-sends_example :
    Unregistered saga_json hash up "eve" eve strangers []
      (register_user saga_json hash up "eve" eve strangers [])
    ⊎ Sent saga_json hash up "eve" eve strangers []
        (register_user saga_json hash up "eve" eve strangers [])
    ⊎ Unheard saga_json hash up "eve" eve strangers []
        (register_user saga_json hash up "eve" eve strangers [])
register_user-sends_example =
    register_user-sends saga_json hash up "eve" eve strangers [] refl (λ e. (_, refl))
      (λ u. (_, refl))

nobody-InFlight : InFlight saga_json nobody
unfolding find_user
nobody-InFlight = λ id r found p. cc

deliveries : Reach saga_json hash pending settled
unfolding register register_user otus_highload.Storage.Users.create_user
    otus_highload.Saga.Register.send_user_created otus_highload.Saga.publish verify
    otus_highload.Saga.Verifier.process_event
deliveries =
    System.next {t = judged}
      (System.next {t = pending} System.here
        (System.verifies none 1 (message_of pending.created) [] refl refl))
      (System.settles none (message_of judged.verified) [] refl refl)

Reach-Grown_example : Grown pending.db.users settled.db.users
Reach-Grown_example = Reach-Grown saga_json hash deliveries

settled_when_empty_example : 0 < 100
unfolding settle verify find_user otus_highload.Saga.Status.process_event
    otus_highload.Saga.Verifier.process_event register register_user
    otus_highload.Storage.Users.create_user otus_highload.Saga.Register.send_user_created
    otus_highload.Saga.publish otus_highload.Storage.Users.update_user_status
settled_when_empty_example =
    settled_when_empty saga_json hash (λ e. (_, refl)) (λ u. (_, refl)) "eve" _ nobody-InFlight
      history refl refl refl
