-- ===== src/Saga/Monotone.antt =====
-- The status of a user only grows, so that the order and the repetition of results do not matter.
use otus_highload.Base.{
  ℕ, String, ◌≡◌, refl, ap, ◌≤◌, inl, inr, true, false, List, [], ◌∷◌, Option, none, some, eq_iff,
  map, arith, Bool-cases,
}
use otus_highload.Base.Errors.{Error, Result, ok, err}
use otus_highload.Storage.{User, UserRow, Db, has_user, after_commit}
use otus_highload.Storage.Users.{raise_status, set_status, update_user_status, find_user}
use otus_highload.Saga.{
  SagaJson, SagaEventType, user_created, user_verified, user_verification_failed, unknown,
  user_verification_failed_status, user_verification_succeeded,
}
use otus_highload.Saga.Cases.{register_user_cases}
use otus_highload.Saga.Register.{RegisterBody, Answers}
use otus_highload.Saga.System.{
  Saga, register, verify, settle, Step, registers, verifies, settles, Reach, here, next,
}
use otus_highload.Saga.Status as Status

raise_status_comm :
    (a b : String) (x y : ℕ) (r : UserRow)
    → raise_status a x (raise_status b y r) ≡ raise_status b y (raise_status a x r)
raise_status_comm a b x y r = ground (arith, eq_iff r.id a, eq_iff r.id b)

-- Two results of verification, whatever users and statuses they name, may be applied in either
-- order.
pub set_status_comm :
    (a b : Option String) (x y : ℕ) (users : List UserRow)
    → set_status a x (set_status b y users) ≡ set_status b y (set_status a x users)
unfolding set_status
set_status_comm none b x y users = refl
set_status_comm (some a) none x y users = refl
set_status_comm (some a) (some b) x y [] = refl
set_status_comm (some a) (some b) x y (r ∷ users) =
    cc (raise_status_comm a b x y r, set_status_comm (some a) (some b) x y users)

-- A result that is applied twice is applied once.
pub set_status_idem :
    (a : Option String) (x : ℕ) (users : List UserRow)
    → set_status a x (set_status a x users) ≡ set_status a x users
unfolding set_status
set_status_idem none x users = refl
set_status_idem (some a) x [] = refl
set_status_idem (some a) x (r ∷ users) =
    ground (arith, set_status_idem (some a) x users, eq_iff r.id a)

-- Every user of the first table is in the second, with no lower status.
pub record Grown (us vs : List UserRow) : Type 0 where
  pub at :
      (id : String) (r : UserRow)
      → find_user id us ≡ some r
      → (r' : UserRow) × (find_user id vs ≡ some r') × (r.user_status ≤ r'.user_status)

pub Grown-refl : (us : List UserRow) → Grown us us
Grown-refl us = record { at = λ id r h. (r, h, omega arith) }

find_user-raise :
    (a : String) (x : ℕ) (us : List UserRow) (id : String) (r : UserRow)
    → find_user id us ≡ some r
    → find_user id (map (raise_status a x) us) ≡ some (raise_status a x r)
unfolding find_user
find_user-raise a x [] id r h = cc
find_user-raise a x (u ∷ us) id r h =
    ground (arith, find_user-raise a x us id r, eq_iff u.id id, eq_iff u.id a)

pub set_status-Grown :
    (a : Option String) (x : ℕ) (us : List UserRow) → Grown us (set_status a x us)
unfolding set_status
set_status-Grown none x us = Grown-refl us
set_status-Grown (some a) x us = record {
  at = λ id r h. (raise_status a x r, find_user-raise a x us id r h, ground arith);
}

pub Grown-trans : (us vs ws : List UserRow) → Grown us vs → Grown vs ws → Grown us ws
Grown-trans us vs ws g h = record {
  at = λ id r p.
      let (r', q, le) = g.at id r p in let (r'', q', le') = h.at id r' q in (r'', q', omega arith);
}

find_user-has_user :
    (id : String) (us : List UserRow) (r : UserRow)
    → find_user id us ≡ some r
    → has_user us id ≡ true
unfolding find_user
find_user-has_user id [] r h = cc
find_user-has_user id (u ∷ us) r h = ground (arith, find_user-has_user id us r)

insert-Grown : (r : UserRow) (us : List UserRow) → has_user us r.id ≡ false → Grown us (r ∷ us)
unfolding find_user
insert-Grown r us fresh = record {
  at = λ id x h. (x, ground (arith, find_user-has_user id us x, eq_iff r.id id), omega arith);
}

module _ {Raw : Type 0} (json : SagaJson Raw) (hash : String → Result (List ℕ)) where
  register-Grown :
      (answers : Answers) (id : String) (body : RegisterBody) (s : Saga Raw)
      → Grown s.db.users (register json hash answers id body s).db.users
  unfolding register
  register-Grown answers id body s =
      elim (register_user_cases json hash answers id body s.db s.created) [
        | inl (_, same, _) ↦ rw same (Grown-refl s.db.users)
        | inr (inl (hashed, row, _, fresh, e)) ↦ rw e (insert-Grown row s.db.users fresh)
        | inr (inr (hashed, row, _, fresh, _, _, e, _)) ↦ rw e (insert-Grown row s.db.users fresh)
      ]

  with_payload-Grown :
      (storage : Option Error) (status : ℕ) (r : Result User) (db : Db)
      → Grown db.users (Status.with_payload json storage status r db).1.users
  unfolding Status.with_payload update_user_status
  with_payload-Grown storage status (err e) db = Grown-refl db.users
  with_payload-Grown (some e) status (ok payload) db = elim (Bool-cases (after_commit (some e))) [
    | inl late ↦ rw late (set_status-Grown payload.id status db.users)
    | inr early ↦ rw early (Grown-refl db.users)
  ]
  with_payload-Grown none status (ok payload) db = set_status-Grown payload.id status db.users

  read_event-Grown :
      (storage : Option Error) (r : Result (SagaEventType × Raw)) (db : Db)
      → Grown db.users (Status.read_event json storage r db).1.users
  unfolding Status.on_event Status.read_event
  read_event-Grown storage (err e) db = Grown-refl db.users
  read_event-Grown storage (ok (user_verified, raw)) db =
      with_payload-Grown storage user_verification_succeeded (json.user.unmarshal raw) db
  read_event-Grown storage (ok (user_verification_failed, raw)) db =
      with_payload-Grown storage user_verification_failed_status (json.user.unmarshal raw) db
  read_event-Grown storage (ok (user_created, raw)) db = Grown-refl db.users
  read_event-Grown storage (ok (unknown type, raw)) db = Grown-refl db.users

  settle-Grown :
      (storage : Option Error) (body : Raw) (rest : List Raw) (s : Saga Raw)
      → Grown s.db.users (settle json hash storage body rest s).db.users
  unfolding settle Status.process_event
  settle-Grown storage body rest s = read_event-Grown storage (json.envelope.unmarshal body) s.db

  -- An operation of any service never lowers the status of a user, and forgets none.
  Step-Grown : {s t : Saga Raw} → Step json hash s t → Grown s.db.users t.db.users
  Step-Grown {s} (registers answers id body e) = rw e (register-Grown answers id body s)
  Step-Grown {s} (verifies broker unix body rest _ e) =
      rw (ap (λ (q : Saga Raw). q.db) e) (unfold verify in Grown-refl s.db.users)
  Step-Grown {s} (settles storage body rest _ e) = rw e (settle-Grown storage body rest s)

  -- Every user that is in the table before a history of operations is in it afterwards, with no lower
  -- status, whatever the faults of the environment and the order of the steps.
  pub Reach-Grown : {s t : Saga Raw} → Reach json hash s t → Grown s.db.users t.db.users
  Reach-Grown {s} here = Grown-refl s.db.users
  Reach-Grown {s} {t} (next {t = m} r st) =
      Grown-trans _ m.db.users _ (Reach-Grown r) (Step-Grown st)
