-- ===== src/Cache/Workers.antt =====
-- Load and GetOrLoad of backend/social/internal/service/cache/redis/redis.go for one key, call by
-- call: the goroutines of all servers share the key, its mutex, the table that is queried and the
-- queue. `asked` is whether a goroutine loads for a notification, as post_feed_updater.go does, or
-- for a reader.
mod Moves
pub mod Settled
pub mod Lost
mod Tests
use otus_highload.Base.{ℕ, suc, ◌≡◌, Bool, true, false, Option, none, some, eqb, not, if◌then◌else◌}

-- Where a goroutine stands in Load.
pub data Place (V : Type 0) : Type 0 where
  idle : Place V
  locking : (asked : Bool) → Place V
  holding : (asked : Bool) → Place V
  loaded : (asked : Bool) → V → Place V
  unlocking : (asked : Bool) → Place V

pub record Shared (V : Type 0) : Type 0 where
  -- What loadFunc returns for the key now.
  pub answer : V
  -- Changes of the table whose notification is not sent yet, and notifications on the queue.
  pub unsent : ℕ
  pub queue : ℕ
  -- What the server keeps for the key and for its mutex.
  pub value : Option V
  pub mutex : Option ℕ
  pub places : ℕ → Place V

-- UnlockContext deletes the mutex only of the one that set it.
abbrev pub held_by : ℕ → Option ℕ → Option ℕ
held_by i none = none
held_by i (some j) = if eqb i j then none else some j

module _ {V : Type 0} where
  abbrev pub put : ℕ → Place V → (ℕ → Place V) → ℕ → Place V
  put i p places j = if eqb i j then p else places j

  abbrev pub stands : ℕ → Place V → Shared V → Shared V
  stands i p s = record s { places = put i p s.places }

  abbrev pub change : V → Shared V → Shared V
  change v s = record s { answer = v; unsent = suc s.unsent }

  abbrev pub send : ℕ → Shared V → Shared V
  send n s = record s { unsent = n; queue = suc s.queue }

  abbrev pub take_notification : ℕ → ℕ → Shared V → Shared V
  take_notification i n s = stands i (locking true) (record s { queue = n })

  abbrev pub lock_context : ℕ → Bool → Shared V → Shared V
  lock_context i asked s = stands i (holding asked) (record s { mutex = some i })

  abbrev pub load_func : ℕ → Bool → Shared V → Shared V
  load_func i asked s = stands i (loaded asked s.answer) s

  abbrev pub add_value : ℕ → Bool → V → Shared V → Shared V
  add_value i asked v s = stands i (unlocking asked) (record s { value = some v })

  abbrev pub unlock_context : ℕ → Shared V → Shared V
  unlock_context i s = stands i idle (record s { mutex = held_by i s.mutex })

  -- One call, or what the server does to its keys.
  pub data Step : Shared V → Shared V → Type 0 where
    changes : {s : Shared V} (v : V) → Step s (change v s)
    sends : {s : Shared V} (n : ℕ) → s.unsent ≡ suc n → Step s (send n s)
    takes :
        {s : Shared V} (i n : ℕ)
        → s.places i ≡ idle
        → s.queue ≡ suc n
        → Step s (take_notification i n s)
    misses :
        {s : Shared V} (i : ℕ)
        → s.places i ≡ idle
        → s.value ≡ none
        → Step s (stands i (locking false) s)
    locks :
        {s : Shared V} (i : ℕ) (asked : Bool)
        → s.places i ≡ locking asked
        → s.mutex ≡ none
        → Step s (lock_context i asked s)
    gives_up :
        {s : Shared V} (i : ℕ) (asked : Bool)
        → s.places i ≡ locking asked
        → Step s (stands i idle s)
    loads :
        {s : Shared V} (i : ℕ) (asked : Bool)
        → s.places i ≡ holding asked
        → Step s (load_func i asked s)
    load_fails :
        {s : Shared V} (i : ℕ) (asked : Bool)
        → s.places i ≡ holding asked
        → Step s (stands i (unlocking asked) s)
    adds :
        {s : Shared V} (i : ℕ) (asked : Bool) (v : V)
        → s.places i ≡ loaded asked v
        → Step s (add_value i asked v s)
    add_fails :
        {s : Shared V} (i : ℕ) (asked : Bool) (v : V)
        → s.places i ≡ loaded asked v
        → Step s (stands i (unlocking asked) s)
    unlocks :
        {s : Shared V} (i : ℕ) (asked : Bool)
        → s.places i ≡ unlocking asked
        → Step s (unlock_context i s)
    -- The value expires or is evicted.
    drops : {s : Shared V} → Step s (record s { value = none })
    -- FLUSHDB drops the mutex with the value, and a mutex expires after five seconds.
    flushes : {s : Shared V} → Step s (record s { value = none; mutex = none })
    mutex_expires : {s : Shared V} → Step s (record s { mutex = none })

  pub data Reach (s : Shared V) : Shared V → Type 0 where
    here : Reach s s
    next : {t u : Shared V} → Reach s t → Step t u → Reach s u

  -- A step that is no failure of a load for a notification and no loss of a mutex.
  abbrev pub is_steady : {s t : Shared V} → Step s t → Bool
  is_steady (gives_up i asked at) = not asked
  is_steady (load_fails i asked at) = not asked
  is_steady (add_fails i asked v at) = not asked
  is_steady flushes = false
  is_steady mutex_expires = false
  is_steady _ = true

  pub data SteadyReach (s : Shared V) : Shared V → Type 0 where
    start : SteadyReach s s
    then_step :
        {t u : Shared V} → SteadyReach s t → (st : Step t u) → is_steady st ≡ true → SteadyReach s u
