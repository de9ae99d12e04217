-- ===== src/Storage/Pools.antt =====
-- NewReplicatedDb, initPool and Close of backend/pkg/storage/sql/replicated_db.go, and the list of
-- replicas that the main functions read from the configuration.
use mathlib.Core.List.{append-nil, append_assoc}
use otus_highload.Base.{
  ℕ, suc, String, ◌≡◌, refl, sym, ap, ◌∙◌, List, [], ◌∷◌, ◌++◌, map, length, ◌==◌, arith,
  if◌then◌else◌,
}
use otus_highload.Base.Errors.{Result, ok, err}

-- Durations are numbers.
pub record DbConfig : Type 0 where
  pub uri : String
  pub max_conns : ℕ
  pub max_conn_lifetime : ℕ
  pub max_conn_idle_time : ℕ

-- The settings that the configuration gives to all replicas.
pub record ConnectParams : Type 0 where
  pub max_conns : ℕ
  pub max_conn_lifetime : ℕ
  pub max_conn_idle_time : ℕ

abbrev pub parse_db_config : ConnectParams → String → DbConfig
parse_db_config params uri = record {
  uri = uri;
  max_conns = params.max_conns;
  max_conn_lifetime = params.max_conn_lifetime;
  max_conn_idle_time = params.max_conn_idle_time;
}

-- `split` is strings.Split at the commas.
unfoldable pub replica_configs : (String → List String) → ConnectParams → String → List DbConfig
replica_configs split params uris =
    if uris == "" then [] else map (parse_db_config params) (split uris)

pub record ReplicatedDb (Pool : Type 0) : Type 0 where
  pub master : Pool
  pub replicas : List Pool

-- What a step has made, beside the pools that are open now.
abbrev pub Opened : Type 0 → Type 0 → Type 0
Opened Pool A = Result A × List Pool

ok-inj : {A : Type 0} {a b : A} → ok a ≡ ok b → a ≡ b
ok-inj h = ground arith

module _ {Parsed Pool : Type 0} (parse : String → Result Parsed)
    (open_pool : Parsed → DbConfig → Result Pool) where
  abbrev pub opened : Result Pool → List Pool → Opened Pool Pool
  opened (err e) pools = (err e, pools)
  opened (ok pool) pools = (ok pool, pools ++ pool ∷ [])

  -- pgxpool.NewWithConfig, with the three limits of the configuration.
  abbrev pub after_parse : Result Parsed → DbConfig → List Pool → Opened Pool Pool
  after_parse (err e) config pools = (err e, pools)
  after_parse (ok parsed) config pools = opened (open_pool parsed config) pools

  unfoldable pub init_pool : DbConfig → List Pool → Opened Pool Pool
  init_pool config pools = after_parse (parse config.uri) config pools

  abbrev pub and_then :
      {A B : Type 0} → Opened Pool A → (A → List Pool → Opened Pool B) → Opened Pool B
  and_then (err e, pools) next = (err e, pools)
  and_then (ok a, pools) next = next a pools

  unfoldable pub init_replicas : List DbConfig → List Pool → Opened Pool (List Pool)
  unfolding init_pool
  init_replicas [] pools = (ok [], pools)
  init_replicas (config ∷ configs) pools =
      and_then (init_pool config pools) (λ pool pools'.
        and_then (init_replicas configs pools') (λ rest all. (ok (pool ∷ rest), all)))

  -- A failure leaves the pools before it open.
  unfoldable pub new_replicated_db :
      DbConfig → List DbConfig → List Pool → Opened Pool (ReplicatedDb Pool)
  unfolding init_replicas
  new_replicated_db master replicas pools = and_then (init_pool master pools) (λ pool pools'.
      and_then (init_replicas replicas pools')
        (λ rest all. (ok (record { master = pool; replicas = rest }), all)))

  -- The pools that Close closes.
  unfoldable pub closed_by : ReplicatedDb Pool → List Pool
  closed_by db = db.master ∷ db.replicas

  opened-pools :
      (r : Result Pool) (pools : List Pool) (p : Pool)
      → (opened r pools).0 ≡ ok p
      → (opened r pools).1 ≡ pools ++ p ∷ []
  opened-pools (err e) pools p h = cc
  opened-pools (ok q) pools p h = ground arith

  init_pool-pools :
      (config : DbConfig) (pools : List Pool) (p : Pool)
      → (init_pool config pools).0 ≡ ok p
      → (init_pool config pools).1 ≡ pools ++ p ∷ []
  unfolding init_pool
  init_pool-pools config pools p = parsed (parse config.uri)
    where
      parsed :
          (r : Result Parsed)
          → (after_parse r config pools).0 ≡ ok p
          → (after_parse r config pools).1 ≡ pools ++ p ∷ []
      parsed (err e) h = cc
      parsed (ok c) h = opened-pools (open_pool c config) pools p h

  -- A chain that succeeds has both parts succeed.
  and_then-ok :
      {A B : Type 0} (m : Opened Pool A) (next : A → List Pool → Opened Pool B) (b : B)
      → (and_then m next).0 ≡ ok b
      → (a : A) × (m.0 ≡ ok a) × ((next a m.1).0 ≡ ok b) × (and_then m next ≡ next a m.1)
  and_then-ok (err e, pools) next b h = absurd (cc h)
  and_then-ok (ok a, pools) next b h = (a, refl, h, refl)

  init_replicas-pools :
      (configs : List DbConfig) (pools rest : List Pool)
      → (init_replicas configs pools).0 ≡ ok rest
      → ((init_replicas configs pools).1 ≡ pools ++ rest) × (length rest ≡ length configs)
  unfolding init_replicas
  init_replicas-pools [] pools rest h =
      let e : [] ≡ rest = ok-inj h in
      (sym (append-nil pools) ∙ ap (λ r. pools ++ r) e, ap length (sym e))
  init_replicas-pools (config ∷ configs) pools rest h =
      let (p, one, more, same) = and_then-ok (init_pool config pools) _ rest h in
      let (others, all, last, same') =
        and_then-ok (init_replicas configs (init_pool config pools).1) _ rest more in
      let (kept, as_many) = init_replicas-pools configs (init_pool config pools).1 others all in
      let e : p ∷ others ≡ rest = ok-inj last in
      (
        ap (λ r. r.1) (same ∙ same')
            ∙ kept
            ∙ ap (λ ps. ps ++ others) (init_pool-pools config pools p one)
            ∙ append_assoc pools (p ∷ []) others
            ∙ ap (λ r. pools ++ r) e,
        ap length (sym e) ∙ ap suc as_many,
      )

  -- What NewReplicatedDb returns has a replica for each configuration, and Close closes every pool
  -- that was opened.
  new_replicated_db-closed_by :
      (master : DbConfig) (replicas : List DbConfig) (db : ReplicatedDb Pool)
      → (new_replicated_db master replicas []).0 ≡ ok db
      → (closed_by db ≡ (new_replicated_db master replicas []).1)
        × (length db.replicas ≡ length replicas)
  unfolding new_replicated_db closed_by
  new_replicated_db-closed_by master replicas db h =
      let (p, one, more, same) = and_then-ok (init_pool master []) _ db h in
      let (others, all, last, same') =
        and_then-ok (init_replicas replicas (init_pool master []).1) _ db more in
      let (kept, as_many) = init_replicas-pools replicas (init_pool master []).1 others all in
      let first = init_pool-pools master [] p one in
      let e : record { master = p; replicas = others } ≡ db = ok-inj last in
      (
        sym (
            ap (λ r. r.1) (same ∙ same')
            ∙ kept
            ∙ ap (λ ps. ps ++ others) first
            ∙ ap (λ d. d.master ∷ d.replicas) e),
        ap (λ d. length d.replicas) (sym e) ∙ as_many,
      )
