-- ===== src/Saga/Cases.antt =====
-- The ways in which a registration can end.
use otus_highload.Base.{
  ℕ, String, ◌≡◌, refl, ◌≢◌, ◌⊎◌, inl, inr, false, true, ap, ◌∙◌, ◌++◌, List, [], ◌∷◌, Option, none,
  some, arith, Option-cases, Bool-cases,
}
use otus_highload.Base.Errors.{Error, Result, ok, err, pg_error}
use otus_highload.Storage.{User, UserExtended, UserRow, Db, has_user, after_commit}
use otus_highload.Storage.Users.{not_null_violation, user_row, create_user}
use otus_highload.Storage.Friends.{unique_violation}
use otus_highload.Saga.{SagaJson, SagaEventType, user_created, publish, user_pending_verification}
use otus_highload.Saga.Register.{
  RegisterBody, Registration, registered, Answers, new_user, after_create, after_hash,
  with_password, marshal_in, send_user_created, register_user,
}

-- What the server makes of the insert of a user.
insert-users :
    (u : UserExtended) (db : Db)
    → ((e : Error) × (create_user none u db ≡ (err e, db)))
      ⊎ ((r : UserRow) × (user_row u ≡ some r)
          × (has_user db.users r.id ≡ false)
          × (create_user none u db ≡ (ok tt, record db { users = r ∷ db.users })))
unfolding create_user
insert-users u db = elim (Option-cases (user_row u)) [
  | inl p ↦ inl (pg_error not_null_violation, ground arith)
  | inr (r, p) ↦ elim (Bool-cases (has_user db.users r.id)) [
    | inl taken ↦ inl (pg_error unique_violation, ground arith)
    | inr fresh ↦ inr (r, p, fresh, ground arith)
  ]
]

-- A user is stored as one new row under an identifier that no user had, with success or with an error
-- that came after the insert, or the table stays.
pub create_user-users :
    (fault : Option Error) (u : UserExtended) (db : Db)
    → ((e : Error) × (create_user fault u db ≡ (err e, db)))
      ⊎ ((r : UserRow) × (user_row u ≡ some r)
          × (has_user db.users r.id ≡ false)
          × ((create_user fault u db ≡ (ok tt, record db { users = r ∷ db.users }))
              ⊎ ((e : Error) × (after_commit fault ≡ true)
                  × (create_user fault u db ≡ (err e, record db { users = r ∷ db.users })))))
unfolding create_user
create_user-users none u db = elim (insert-users u db) [
  | inl (e, p) ↦ inl (e, p)
  | inr (r, p, fresh, q) ↦ inr (r, p, fresh, inl q)
]
create_user-users (some e) u db = elim (Bool-cases (after_commit (some e))) [
  | inr early ↦ inl (e, rw early refl)
  | inl late ↦ elim (insert-users u db) [
    | inl (f, p) ↦ inl (e, rw late (ap (λ t. (err e, t.1)) p))
    | inr (r, p, fresh, q) ↦ inr (r, p, fresh, inr (e, late, rw late (ap (λ t. (err e, t.1)) q)))
  ]
]

abbrev pub pending_user : String → RegisterBody → List ℕ → UserExtended
pending_user id body hashed = record {
  user = new_user id body;
  password_hash = hashed;
  status = user_pending_verification;
}

pub pending_user-id :
    (id : String) (body : RegisterBody) (hashed : List ℕ) (row : UserRow)
    → user_row (pending_user id body hashed) ≡ some row
    → (row.id ≡ id) × (row.user_status ≡ 0) × (row.password_hash ≡ hashed)
unfolding user_row
pending_user-id id body hashed row h = ground arith

module _ {Raw : Type 0} (json : SagaJson Raw) (hash : String → Result (List ℕ)) (answers : Answers)
    (id : String) (body : RegisterBody) (db : Db) (queue : List Raw) where
  -- Nothing is stored and nothing is sent.
  abbrev pub Unregistered : Registration × Db × List Raw → Type 0
  Unregistered r = (r.0 ≢ registered id) × (r.1 ≡ db) × (r.2 ≡ queue)

  -- One user is stored, with the hashed password and a pending status, and one event is sent, which
  -- a broker without a fault has on the queue as soon as it can be written.
  abbrev pub Registered : Registration × Db × List Raw → Type 0
  Registered r =
      (hashed : List ℕ) × (row : UserRow) × (user_row (pending_user id body hashed) ≡ some row)
      × (has_user db.users row.id ≡ false)
      × (r ≡ (
        registered id,
        record db { users = row ∷ db.users },
        send_user_created json answers.broker (new_user id body) queue,
      ))

  -- The user is stored as above, but the connection ends before the answer: no success is reported and
  -- no event is sent.
  abbrev pub Unheard : Registration × Db × List Raw → Type 0
  Unheard r =
      (hashed : List ℕ) × (row : UserRow) × (user_row (pending_user id body hashed) ≡ some row)
      × (has_user db.users row.id ≡ false)
      × (after_commit answers.storage ≡ true)
      × (r.0 ≢ registered id)
      × (r.1 ≡ record db { users = row ∷ db.users })
      × (r.2 ≡ queue)

  abbrev pub Ends : Registration × Db × List Raw → Type 0
  Ends r = Unregistered r ⊎ Registered r ⊎ Unheard r

  after_create_cases :
      (hashed : List ℕ)
      → Ends (
          after_create json answers.broker id
            (new_user id body)
            (create_user answers.storage (pending_user id body hashed) db)
            queue)
  unfolding after_create
  after_create_cases hashed =
      elim (create_user-users answers.storage (pending_user id body hashed) db) [
        | inl (e, p) ↦ rw (p, after_create) (inl (λ q. cc, refl, refl))
        | inr (row, p, fresh, inl q) ↦
            rw (q, after_create) (inr (inl (hashed, row, p, fresh, refl)))
        | inr (row, p, fresh, inr (e, late, q)) ↦
            rw (q, after_create) (inr (inr (hashed, row, p, fresh, late, λ r. cc, refl, refl)))
      ]

  after_hash_cases : (h : Result (List ℕ)) → Ends (after_hash json answers id body h db queue)
  unfolding after_hash
  after_hash_cases (err e) = inl (λ p. cc, refl, refl)
  after_hash_cases (ok hashed) = after_create_cases hashed

  -- A registration ends in one of three ways.
  pub register_user_cases : Ends (register_user json hash answers id body db queue)
  unfolding register_user
  register_user_cases = with_password_cases body.password
    where
      with_password_cases :
          (p : Option String) → Ends (with_password json hash answers id body p db queue)
      with_password_cases none = inl (λ p. cc, refl, refl)
      with_password_cases (some password) = after_hash_cases (hash password)

  -- The event is on the queue.
  abbrev pub Sent : Registration × Db × List Raw → Type 0
  Sent r =
      (hashed : List ℕ) × (row : UserRow) × (user_row (pending_user id body hashed) ≡ some row)
      × (has_user db.users row.id ≡ false)
      × (raw : Raw) × (b : Raw) × (json.user.unmarshal raw ≡ ok (new_user id body))
      × (json.envelope.unmarshal b ≡ ok (user_created, raw))
      × (r ≡ (registered id, record db { users = row ∷ db.users }, queue ++ b ∷ []))

  -- A registration stores a new pending user under a fresh identifier, and its event, which reads back
  -- as that user, is the last message of the queue; or it does not report the user as registered, and
  -- leaves the tables and the queue as they were; or the connection to the database ended after the
  -- insert, and then the user is stored, and neither success nor an event tells of it. The broker
  -- has no fault, and the user and the event can be written as JSON.
  pub register_user-sends :
      answers.broker ≡ none
      → ((e : SagaEventType × Raw) → (b : Raw) × (json.envelope.marshal e ≡ ok b))
      → ((u : User) → (b : Raw) × (json.user.marshal u ≡ ok b))
      → Unregistered (register_user json hash answers id body db queue)
        ⊎ Sent (register_user json hash answers id body db queue)
        ⊎ Unheard (register_user json hash answers id body db queue)
  unfolding send_user_created marshal_in publish
  register_user-sends clean encodes_event encodes_user = elim register_user_cases [
    | inl nothing ↦ inl nothing
    | inr (inr unheard) ↦ inr (inr unheard)
    | inr (inl (hashed, row, p, fresh, e)) ↦
        let (raw, u) = encodes_user (new_user id body) in
        let (b, w) = encodes_event (user_created, raw) in
        inr (
          inl (
            hashed,
            row,
            p,
            fresh,
            raw,
            b,
            json.user.round _ raw u,
            json.envelope.round _ b w,
            e
                ∙ ap (λ q. (registered id, record db { users = row ∷ db.users }, q))
                    (rw (clean, u, w) refl),
          ))
  ]
