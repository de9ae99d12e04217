-- ===== src/Cache/Workers/Settled.antt =====
-- What the mutex of a key is good for: no value that was loaded before a change outlives the load for
-- its notification.
use otus_highload.Base.{ℕ, ◌≡◌, ◌⊎◌, false}
use otus_highload.Cache.Workers.{idle, Shared}
use otus_highload.Cache.Workers.Moves.{for_update, Owned, Owed, IsFresh, Good}

module _ {V : Type 0} where
  record Inv (s : Shared V) : Type 0 where
    owned : Owned s
    cover : Owed s.unsent s.queue s.places ⊎ Good s.value s.answer s.places

  abbrev pub Quiet : Shared V → Type 0
  Quiet s = (s.unsent ≡ 0) × (s.queue ≡ 0) × ((i : ℕ) → for_update (s.places i) ≡ false)

  -- Nobody stands in Load, nothing waits, and the value is absent or what the query answers.
  abbrev pub Starts : Shared V → Type 0
  Starts s = ((i : ℕ) → s.places i ≡ idle) × IsFresh s.value s.answer
