-- ===== src/Saga/Flight.antt =====
-- No registration is lost: while a user is pending, an event about it is in one of the queues.
use otus_highload.Base.{
  false, ℕ, ◌%◌, String, ◌≡◌, sym, ap, subst, ◌∙◌, inl, inr, Bool, true, List, [], ◌∷◌, ◌<◌, none,
  some, ◌||◌, eq_iff, any, any-append, arith, eqb, Bool-cases,
}
use otus_highload.Base.Errors.{Result, ok, err}
use otus_highload.Storage.{after_commit, User, UserRow}
use otus_highload.Storage.Users.{user_row, find_user}
use otus_highload.Saga.{
  SagaJson, SagaEventType, user_created, user_verified, user_verification_failed, publish,
}
use otus_highload.Saga.Register.{RegisterBody, Answers, new_user, send_user_created, marshal_in}
use otus_highload.Saga.Cases.{register_user_cases, pending_user, pending_user-id}
use otus_highload.Saga.Verifier as Verifier
use otus_highload.Saga.Status as Status
use otus_highload.Saga.System.{Saga, register, verify, settle}
use otus_highload.Saga.Named.{
  is_id, names_created, names_result, created_about, result_about, read_event-pending,
}

module _ {Raw : Type 0} (json : SagaJson Raw) where
  -- Every pending user has an event in flight.
  abbrev pub InFlight : Saga Raw → Type 0
  InFlight s =
      (id : String) (r : UserRow)
      → find_user id s.db.users ≡ some r
      → r.user_status ≡ 0
      → (created_about json id s.created || result_about json id s.verified) ≡ true

  module _ (hash : String → Result (List ℕ))
      (encodes_event : (e : SagaEventType × Raw) → (b : Raw) × (json.envelope.marshal e ≡ ok b))
      (encodes_user : (u : User) → (b : Raw) × (json.user.marshal u ≡ ok b)) where
    -- Publishing without a fault adds one message that reads back as the event.
    published-any :
        (p : Result (SagaEventType × Raw) → Bool) (type : SagaEventType) (raw : Raw)
        (queue : List Raw)
        → any
            (λ b. p (json.envelope.unmarshal b))
            (publish none (json.envelope.marshal (type, raw)) queue)
          ≡ (any (λ b. p (json.envelope.unmarshal b)) queue || p (ok (type, raw)))
    unfolding publish
    published-any p type raw queue =
        let (b, e) = encodes_event (type, raw) in
        rw
          (
            e,
            publish,
            any-append (λ b. p (json.envelope.unmarshal b)) queue (b ∷ []),
            json.envelope.round (type, raw) b e,
          )
          (ground arith)

    answer-about :
        (unix : ℕ) (r : Result (SagaEventType × Raw)) (id : String) (queue : List Raw)
        → result_about json id (Verifier.answer json none unix r queue)
          ≡ (result_about json id queue || names_created json r id)
    unfolding Verifier.answer
    answer-about unix (err e) id queue =
        published-any (λ r. names_result json r id) user_verification_failed json.null queue
        ∙ ground (arith, json.null_user)
    answer-about unix (ok (type, raw)) id queue = elim (Bool-cases (eqb (unix % 2) 0)) [
      | inl even ↦
          rw even (published-any (λ r. names_result json r id) user_verification_failed raw queue)
      | inr odd ↦ rw odd (published-any (λ r. names_result json r id) user_verified raw queue)
    ]

    verify-InFlight :
        (unix : ℕ) (body : Raw) (rest : List Raw) (s : Saga Raw)
        → s.created ≡ body ∷ rest
        → InFlight s
        → InFlight (verify json hash none unix body rest s)
    unfolding verify Verifier.process_event
    verify-InFlight unix body rest s e old id r found pending = ground (
      arith,
      old id r found pending,
      ap (created_about json id) e,
      answer-about unix (json.envelope.unmarshal body) id s.verified,
    )

    settle-InFlight :
        (body : Raw) (rest : List Raw) (s : Saga Raw)
        → s.verified ≡ body ∷ rest
        → InFlight s
        → InFlight (settle json hash none body rest s)
    unfolding settle Status.process_event
    settle-InFlight body rest s e old id r found pending =
        let (before, unnamed) =
          read_event-pending json (json.envelope.unmarshal body) s.db id r found pending in
        ground (arith, old id r before pending, ap (result_about json id) e, unnamed)

    -- What a registration publishes is about the new user.
    send-about :
        (u : User) (id : String) (queue : List Raw)
        → created_about json id (send_user_created json none u queue)
          ≡ (created_about json id queue || is_id u.id id)
    unfolding send_user_created marshal_in
    send-about u id queue =
        let (raw, e) = encodes_user u in
        rw (e, marshal_in)
          (published-any (λ r. names_created json r id) user_created raw queue
            ∙ ground (arith, json.user.round u raw e))

    flight_of_new :
        (new : String) (body : RegisterBody) (hashed : List ℕ) (row : UserRow) (s : Saga Raw)
        → user_row (pending_user new body hashed) ≡ some row
        → (id : String) (r : UserRow) → InFlight s
        → find_user id (row ∷ s.db.users) ≡ some r
        → r.user_status ≡ 0
        → (created_about json id (send_user_created json none (new_user new body) s.created)
            || result_about json id s.verified)
          ≡ true
    unfolding find_user
    flight_of_new new body hashed row s stored id r old found pending =
        rw (send-about (new_user new body) id s.created) (
          ground (
            arith,
            old id r,
            pending_user-id new body hashed row stored,
            eq_iff row.id id,
            eq_iff new id,
          ))

    register-InFlight :
        (answers : Answers) (new : String) (body : RegisterBody) (s : Saga Raw)
        → answers.broker ≡ none
        → after_commit answers.storage ≡ false
        → InFlight s
        → InFlight (register json hash answers new body s)
    unfolding register
    register-InFlight answers new body s clean early old id r found pending =
        elim (register_user_cases json hash answers new body s.db s.created) [
          | inl (_, same, unsent) ↦ rw unsent (old id r (rw same at found) pending)
          | inr (inr (_, _, _, _, late, _, _, _)) ↦ cc (early, late)
          | inr (inl (hashed, row, stored, _, e)) ↦
              rw (e, clean)
                (flight_of_new new body hashed row s stored id r old (rw e at found) pending)
        ]

    -- An operation of a service that the environment answers without a fault; a registration may
    -- still be refused.
    pub data CleanStep (s t : Saga Raw) : Type 0 where
      registers :
          (answers : Answers) (id : String) (body : RegisterBody)
          → answers.broker ≡ none
          → after_commit answers.storage ≡ false
          → t ≡ register json hash answers id body s
          → CleanStep s t
      verifies :
          (unix : ℕ) (body : Raw) (rest : List Raw)
          → s.created ≡ body ∷ rest
          → t ≡ verify json hash none unix body rest s
          → CleanStep s t
      settles :
          (body : Raw) (rest : List Raw)
          → s.verified ≡ body ∷ rest
          → t ≡ settle json hash none body rest s
          → CleanStep s t

    pub data CleanReach (s : Saga Raw) : Saga Raw → Type 0 where
      here : CleanReach s s
      next : {t u : Saga Raw} → CleanReach s t → CleanStep t u → CleanReach s u

    step-InFlight : {s t : Saga Raw} → CleanStep s t → InFlight s → InFlight t
    step-InFlight {s} {t} (registers answers id body clean early e) h =
        subst InFlight (sym e) (register-InFlight answers id body s clean early h)
    step-InFlight {s} {t} (verifies unix body rest p e) h =
        subst InFlight (sym e) (verify-InFlight unix body rest s p h)
    step-InFlight {s} {t} (settles body rest p e) h =
        subst InFlight (sym e) (settle-InFlight body rest s p h)

    -- Where every event and every user can be written as JSON, every pending user has an event in one
    -- of the queues after a history without faults that starts from such a state.
    pub reach-InFlight : {s t : Saga Raw} → InFlight s → CleanReach s t → InFlight t
    reach-InFlight h here = h
    reach-InFlight h (next r st) = step-InFlight st (reach-InFlight h r)

    -- A history without faults, from a state in which every pending user has an event in a queue to
    -- one whose queues are both empty, leaves no user pending, where every event and every user can
    -- be written as JSON.
    pub settled_when_empty :
        {s t : Saga Raw} (id : String) (r : UserRow)
        → InFlight s
        → CleanReach s t
        → t.created ≡ []
        → t.verified ≡ []
        → find_user id t.db.users ≡ some r
        → 0 < r.user_status
    settled_when_empty {s} {t} id r h steps p q found = grind (
      arith,
      reach-InFlight h steps id r found,
      ap (created_about json id) p,
      ap (result_about json id) q,
    )
