-- ===== src/Cache/Redis.antt =====
-- What redis.go uses of go-redis and redsync, which the repository does not hold: the calls, and
-- what their documentation says of the values that the server keeps.
use otus_highload.Base.{String, ◌≡◌, ◌≢◌, ◌⊎◌, Option, none, some}
use otus_highload.Base.Errors.{Error}

-- The reply of GET: redis.Nil, another error, or the value.
pub data Reply : Type 0 where
  nil : Reply
  failed : Error → Reply
  found : String → Reply

-- A key that is not written keeps its value or expires.
abbrev pub Kept : Option String → Option String → Type 0
Kept before after = (after ≡ before) ⊎ (after ≡ none)

pub record RedisClient (S : Type 0) : Type 0 where
  -- The value that the server keeps for a key.
  pub content : S → String → Option String
  pub get : S → String → Reply
  pub set : S → String → String → Option Error × S
  pub flush_db : S → Option Error × S
  -- redsync's LockContext and UnlockContext of the mutex with that name.
  pub lock : S → String → Option Error × S
  pub unlock : S → String → S
  pub get_found : (s : S) (k v : String) → get s k ≡ found v → content s k ≡ some v
  pub set_self : (s : S) (k v : String) → (set s k v).0 ≡ none → content (set s k v).1 k ≡ some v
  pub set_other : (s : S) (k v j : String) → k ≢ j → Kept (content s j) (content (set s k v).1 j)
  pub flush_all : (s : S) (k : String) → (flush_db s).0 ≡ none → content (flush_db s).1 k ≡ none
  pub flush_other : (s : S) (k : String) → Kept (content s k) (content (flush_db s).1 k)
  pub lock_other : (s : S) (m k : String) → m ≢ k → Kept (content s k) (content (lock s m).1 k)
  pub unlock_other : (s : S) (m k : String) → m ≢ k → Kept (content s k) (content (unlock s m) k)
