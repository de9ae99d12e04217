-- ===== src/Storage/Replicated.antt =====
-- backend/pkg/storage/sql/replicated_db.go: statements that write go to the master, queries to a
-- replica if there is one.
use otus_highload.Base.{ℕ, List, [], ◌∷◌, ◌++◌, Option, none, some, length, take, get_elem?}

-- What the server behind a pool holds now is how many of the master's writes it has applied, since a
-- replica of PostgreSQL applies the writes of the master in their order. A pool may stand for a
-- balancer over several replicas, and its number may go up and down from one query to the next.
pub record Cluster (S : Type 0) : Type 0 where
  pub initial : S
  pub log : List (S → S)
  pub replicas : List ℕ

-- The number of writes behind a pool; an index out of range panics.
abbrev pub chosen : ℕ → List ℕ → ℕ → Option ℕ
chosen all [] idx = some all
chosen all (r ∷ rs) idx = get_elem? (r ∷ rs) idx

module _ {S : Type 0} where
  abbrev pub applied : List (S → S) → S → S
  applied [] s = s
  applied (w ∷ ws) s = applied ws (w s)

  -- What a server with that many writes holds.
  abbrev pub state_at : ℕ → Cluster S → S
  state_at n c = applied (take n c.log) c.initial

  -- connRead, for the index that rand.Intn gives.
  unfoldable pub conn_read : ℕ → Cluster S → Option ℕ
  conn_read idx c = chosen (length c.log) c.replicas idx

  unfoldable pub conn_write : Cluster S → ℕ
  conn_write c = length c.log

  -- Write and WriteReturn, of a statement with its answer and its effect.
  unfoldable pub write : {A : Type 0} → (S → A × S) → Cluster S → A × Cluster S
  unfolding conn_write
  write statement c = (
    (statement (state_at (conn_write c) c)).0,
    record c { log = c.log ++ (λ s. (statement s).1) ∷ [] },
  )

  abbrev pub answer : {A : Type 0} → (S → A) → Cluster S → Option ℕ → Option A
  answer statement c none = none
  answer statement c (some n) = some (statement (state_at n c))

  -- QueryRows and QueryRow.
  unfoldable pub query : {A : Type 0} → ℕ → (S → A) → Cluster S → Option A
  unfolding conn_read
  query idx statement c = answer statement c (conn_read idx c)
