-- ===== src/Saga/System.antt =====
-- The saga as a whole: the database of the social service, the queue of created users and the queue
-- of verification results. The consumers acknowledge a message when it is delivered, so that a
-- message is gone whatever its handler does.
use otus_highload.Base.{ℕ, String, ◌≡◌, List, ◌∷◌, Option}
use otus_highload.Base.Errors.{Error, Result}
use otus_highload.Storage.{Db}
use otus_highload.Saga.{SagaJson}
use otus_highload.Saga.Register.{RegisterBody, Answers, register_user}
use otus_highload.Saga.Verifier as Verifier
use otus_highload.Saga.Status as Status

pub record Saga (Raw : Type 0) : Type 0 where
  pub db : Db
  pub created : List Raw
  pub verified : List Raw

module _ {Raw : Type 0} (json : SagaJson Raw) (hash : String → Result (List ℕ)) where
  unfoldable pub register : Answers → String → RegisterBody → Saga Raw → Saga Raw
  register answers id body s =
      let (r, db, queue) = register_user json hash answers id body s.db s.created in
      record s { db = db; created = queue }

  unfoldable pub verify : Option Error → ℕ → Raw → List Raw → Saga Raw → Saga Raw
  verify broker unix body rest s = record s {
    created = rest;
    verified = Verifier.process_event json broker unix body s.verified;
  }

  unfoldable pub settle : Option Error → Raw → List Raw → Saga Raw → Saga Raw
  settle storage body rest s = record s {
    db = (Status.process_event json storage body s.db).1;
    verified = rest;
  }

  -- One operation of a service, with whatever answers the environment gives it.
  pub data Step (s t : Saga Raw) : Type 0 where
    registers :
        (answers : Answers) (id : String) (body : RegisterBody)
        → t ≡ register answers id body s
        → Step s t
    verifies :
        (broker : Option Error) (unix : ℕ) (body : Raw) (rest : List Raw)
        → s.created ≡ body ∷ rest
        → t ≡ verify broker unix body rest s
        → Step s t
    settles :
        (storage : Option Error) (body : Raw) (rest : List Raw)
        → s.verified ≡ body ∷ rest
        → t ≡ settle storage body rest s
        → Step s t

  pub data Reach (s : Saga Raw) : Saga Raw → Type 0 where
    here : Reach s s
    next : {t u : Saga Raw} → Reach s t → Step t u → Reach s u
