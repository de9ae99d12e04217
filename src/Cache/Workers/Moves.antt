-- ===== src/Cache/Workers/Moves.antt =====
-- What one move of a goroutine of Load keeps: who holds the mutex of a key, and what is still to come.
use otus_highload.Base.{
  ◌≢◌, ℕ, ◌<◌, ◌≡◌, ap, ◌⊎◌, inl, inr, Bool, true, false, Option, none, some, eqb, arith,
}
use otus_highload.Cache.Workers.{
  Place, idle, locking, holding, loaded, unlocking, Shared, put, stands, held_by,
}

-- Between LockContext and UnlockContext.
abbrev pub critical : {V : Type 0} → Place V → Bool
critical idle = false
critical (locking asked) = false
critical _ = true

-- A load for a notification that has still to query.
abbrev pub awaits : {V : Type 0} → Place V → Bool
awaits (locking asked) = asked
awaits (holding asked) = asked
awaits _ = false

-- A load for a notification that has not written yet.
abbrev pub for_update : {V : Type 0} → Place V → Bool
for_update (loaded asked v) = asked
for_update p = awaits p

module _ {V : Type 0} where
  abbrev pub Owned : Shared V → Type 0
  Owned s = (i : ℕ) → critical (s.places i) ≡ true → s.mutex ≡ some i

  -- Something will query after the last change.
  abbrev pub Owed : ℕ → ℕ → (ℕ → Place V) → Type 0
  Owed unsent queue places = (0 < unsent) ⊎ (0 < queue) ⊎ ((i : ℕ) × (awaits (places i) ≡ true))

  abbrev pub IsFresh : Option V → V → Type 0
  IsFresh value answer = (value ≡ none) ⊎ (value ≡ some answer)

  -- What was queried is true still, and so is the value, unless a load is about to replace it.
  abbrev pub Good : Option V → V → (ℕ → Place V) → Type 0
  Good value answer places =
      ((i : ℕ) (asked : Bool) (v : V) → places i ≡ loaded asked v → v ≡ answer)
      × (IsFresh value answer ⊎ ((i : ℕ) × (v : V) × (places i ≡ loaded true v)))

  pub Owned-stands :
      (i : ℕ) (p : Place V) (s : Shared V)
      → Owned s
      → (critical p ≡ true → critical (s.places i) ≡ true)
      → Owned (stands i p s)
  Owned-stands i p s h keep j c = ground (arith, h i, h j, keep)

  Owed-put :
      (i : ℕ) (p : Place V) (unsent queue : ℕ) (places : ℕ → Place V)
      → (awaits (places i) ≡ true → awaits p ≡ true)
      → Owed unsent queue places
      → Owed unsent queue (put i p places)
  Owed-put i p unsent queue places keep (inl h) = inl h
  Owed-put i p unsent queue places keep (inr (inl h)) = inr (inl h)
  Owed-put i p unsent queue places keep (inr (inr (j, h))) = inr (inr (j, ground (arith, keep)))

  pending_put :
      (i : ℕ) (p : Place V) (value : Option V) (answer : V) (places : ℕ → Place V)
      → ((v : V) → places i ≢ loaded true v)
      → (IsFresh value answer ⊎ ((i : ℕ) × (v : V) × (places i ≡ loaded true v)))
      → IsFresh value answer ⊎ ((j : ℕ) × (v : V) × (put i p places j ≡ loaded true v))
  pending_put i p value answer places apart (inl h) = inl h
  pending_put i p value answer places apart (inr (j, v, h)) = inr (j, v, ground (arith, apart v))

  true_put :
      (i : ℕ) (p : Place V) (answer : V) (places : ℕ → Place V)
      → ((asked : Bool) (v : V) → p ≡ loaded asked v → v ≡ answer)
      → ((i : ℕ) (asked : Bool) (v : V) → places i ≡ loaded asked v → v ≡ answer)
      → (j : ℕ) (asked : Bool) (v : V) → put i p places j ≡ loaded asked v
      → v ≡ answer
  true_put i p answer places new old j asked v h = ground (arith, new asked v, old j asked v)

  pub put_self : (i : ℕ) (p : Place V) (places : ℕ → Place V) → put i p places i ≡ p
  put_self i p places = ground arith

  abbrev pub Cover : ℕ → ℕ → Option V → V → (ℕ → Place V) → Type 0
  Cover unsent queue value answer places = Owed unsent queue places ⊎ Good value answer places

  -- A move that neither queries nor writes.
  pub Cover-put :
      (i : ℕ) (p : Place V) (s : Shared V)
      → (awaits (s.places i) ≡ true → awaits p ≡ true)
      → ((asked : Bool) (v : V) → p ≢ loaded asked v)
      → ((v : V) → s.places i ≢ loaded true v)
      → Cover s.unsent s.queue s.value s.answer s.places
      → Cover s.unsent s.queue s.value s.answer (put i p s.places)
  Cover-put i p s keep new apart (inl owed) = inl (Owed-put i p s.unsent s.queue s.places keep owed)
  Cover-put i p s keep new apart (inr good) = inr (
    true_put i p s.answer s.places (λ asked v e. absurd (new asked v e)) good.0,
    pending_put i p s.value s.answer s.places apart good.1,
  )

  -- The holder of the mutex is the only goroutine that has queried.
  alone :
      (i : ℕ) (s : Shared V)
      → Owned s
      → critical (s.places i) ≡ true
      → (j : ℕ) (asked : Bool) (v : V) → s.places j ≡ loaded asked v
      → eqb i j ≡ true
  alone i s owned inside j asked v h = ground (arith, owned i, owned j)

  Good-loads :
      (i : ℕ) (s : Shared V)
      → Owned s
      → s.places i ≡ holding true
      → Good s.value s.answer (put i (loaded true s.answer) s.places)
  Good-loads i s owned at = (
    λ j asked v h. ground (arith, alone i s owned (ap critical at) j asked v),
    inr (i, s.answer, put_self i (loaded true s.answer) s.places),
  )

  pub Cover-loads :
      (i : ℕ) (asked : Bool) (s : Shared V)
      → Owned s
      → s.places i ≡ holding asked
      → Cover s.unsent s.queue s.value s.answer s.places
      → Cover s.unsent s.queue s.value s.answer (put i (loaded asked s.answer) s.places)
  Cover-loads i true s owned at cover = inr (Good-loads i s owned at)
  Cover-loads i false s owned at (inl owed) =
      inl (Owed-put i (loaded false s.answer) s.unsent s.queue s.places (cc) owed)
  Cover-loads i false s owned at (inr good) = inr (
    true_put i (loaded false s.answer) s.answer s.places (λ asked v e. cc) good.0,
    pending_put i (loaded false s.answer) s.value s.answer s.places (λ v. cc) good.1,
  )

  pub Cover-adds :
      (i : ℕ) (asked : Bool) (v : V) (s : Shared V)
      → s.places i ≡ loaded asked v
      → Cover s.unsent s.queue s.value s.answer s.places
      → Cover s.unsent s.queue (some v) s.answer (put i (unlocking asked) s.places)
  Cover-adds i asked v s at (inl owed) =
      inl (Owed-put i (unlocking asked) s.unsent s.queue s.places (cc) owed)
  Cover-adds i asked v s at (inr good) = inr (
    true_put i (unlocking asked) s.answer s.places (λ asked v e. cc) good.0,
    inl (inr (ap some (good.0 i asked v at))),
  )

  pub locks-Owned :
      (i : ℕ) (p : Place V) (s : Shared V)
      → Owned s
      → s.mutex ≡ none
      → Owned (stands i p (record s { mutex = some i }))
  locks-Owned i p s h free j c = ground (arith, h j)

  pub unlocks-Owned :
      (i : ℕ) (asked : Bool) (s : Shared V)
      → Owned s
      → s.places i ≡ unlocking asked
      → Owned (stands i idle (record s { mutex = held_by i s.mutex }))
  unlocks-Owned i asked s h at j c = ground (arith, h i, h j)
