-- ===== src/Cache/Renewed.antt =====
-- What one call of redis.go without an error does to the value of every user's key: it is the one
-- that the loader stands for, or it is as it was or expired.
use otus_highload.Base.{
  String, ◌≡◌, refl, sym, subst, ◌⊎◌, inl, inr, Bool, false, Option, none, some, ◌==◌, ◌||◌, eq_iff,
  Bool-cases, arith,
}
use otus_highload.Base.Errors.{Result, ok, err}
use otus_highload.Cache.Redis.{Reply, nil, failed, found, Kept, RedisClient}
use otus_highload.Cache.Load.{ValueConverter, load, cached, or_load, get_cached, get_or_load}
use otus_highload.Cache.Fresh.{
  IsUserKey, RoundTrips, FreshAt, Kept-refl, Kept-trans, FreshAt-Kept, load-other, load-Fresh,
}

-- Fresh for `v` after a call, or else not named by the call, and as it was or expired.
abbrev pub Renewed :
    {V : Type 0} → ValueConverter V → Bool → Option String → Option String → V → Type 0
Renewed c named before after v = FreshAt c after v ⊎ ((named ≡ false) × Kept before after)

pub Renewed-Fresh :
    {V : Type 0} (c : ValueConverter V) (named : Bool) (before after : Option String) (v : V)
    → Renewed c named before after v
    → (named ≡ false → FreshAt c before v)
    → FreshAt c after v
Renewed-Fresh c named before after v (inl fresh) old = fresh
Renewed-Fresh c named before after v (inr (unnamed, kept)) old =
    FreshAt-Kept c before after v kept (old unnamed)

pub Renewed-trans :
    {V : Type 0} (c : ValueConverter V) (p q : Bool) (before between after : Option String) (v : V)
    → Renewed c p before between v
    → Renewed c q between after v
    → Renewed c (p || q) before after v
Renewed-trans c p q before between after v first (inl fresh) = inl fresh
Renewed-trans c p q before between after v (inl fresh) (inr (unnamed, kept)) =
    inl (FreshAt-Kept c between after v kept fresh)
Renewed-trans c p q before between after v (inr (out, held)) (inr (unnamed, kept)) =
    inr (ground arith, Kept-trans before between after held kept)

-- What a cached text stands for.
abbrev pub Cached : {V : Type 0} → ValueConverter V → Option String → V → Type 0
Cached c kept v = (text : String) × (kept ≡ some text) × (c.convert_from_string text ≡ ok v)

module _ {S V : Type 0} (redis : RedisClient S) (converter : ValueConverter V)
    (round : RoundTrips converter) (value : String → V) where
  open redis use {content}

  -- `Load` of a key, where the loader returns nothing but the key's value.
  pub load-Renewed :
      (s : S) (key : String) (loaded : Result V)
      → ((v : V) → loaded ≡ ok v → v ≡ value key)
      → (load redis converter s key loaded).1 ≡ none
      → (j : String) → IsUserKey j
      → Renewed converter
          (key == j)
          (content s j)
          (content (load redis converter s key loaded).2 j)
          (value j)
  load-Renewed s key loaded source done j user = elim (Bool-cases (key == j)) [
    | inl same ↦
        let e : key ≡ j = (eq_iff key j).0 same in
        let (v, p, q, f) =
          load-Fresh redis converter round s key loaded (subst IsUserKey (sym e) user) done in
        inl (
          subst (λ k. FreshAt converter (content (load redis converter s key loaded).2 k) (value k))
            e
            (subst (FreshAt converter (content (load redis converter s key loaded).2 key))
              (source v p) f))
    | inr differs ↦
        inr (differs, load-other redis converter s key loaded j user (λ e. cc ((eq_iff key j).1 e)))
  ]

  cached-Cached :
      (reply : Reply) (s : S) (key : String) (v : V)
      → redis.get s key ≡ reply
      → cached redis converter reply ≡ ok (some v)
      → Cached converter (content s key) v
  unfolding cached
  cached-Cached nil s key v p q = cc
  cached-Cached (failed e) s key v p q = cc
  cached-Cached (found text) s key v p q = (text, redis.get_found s key text p, ground arith)

  or_load-Renewed :
      (c : Result (Option V)) (s : S) (key : String) (loaded : Result V)
      → ((v : V) → c ≡ ok (some v) → Cached converter (content s key) v)
      → ((v : V) → loaded ≡ ok v → v ≡ value key)
      → IsUserKey key
      → (or_load redis converter c s key loaded).1 ≡ none
      → (v : V) × ((or_load redis converter c s key loaded).0 ≡ some v)
        × (Cached converter (content s key) v ⊎ (v ≡ value key))
        × ((j : String)
            → IsUserKey j
            → Renewed converter false
                (content s j)
                (content (or_load redis converter c s key loaded).2 j)
                (value j))
  unfolding or_load
  or_load-Renewed (err e) s key loaded hit source user done = cc
  or_load-Renewed (ok (some v)) s key loaded hit source user done =
      (v, refl, inl (hit v refl), λ j h. inr (refl, Kept-refl _))
  or_load-Renewed (ok none) s key loaded hit source user done =
      let (v, p, q, f) = load-Fresh redis converter round s key loaded user done in
      (
        v,
        q,
        inr (source v p),
        λ j h. elim (load-Renewed s key loaded source done j h) [
          | inl fresh ↦ inl fresh
          | inr (unnamed, kept) ↦ inr (refl, kept)
        ],
      )

  -- `GetOrLoad` of a key returns the cached value, or else the key's.
  pub get_or_load-Renewed :
      (s : S) (key : String) (loaded : Result V)
      → ((v : V) → loaded ≡ ok v → v ≡ value key)
      → IsUserKey key
      → (get_or_load redis converter s key loaded).1 ≡ none
      → (v : V) × ((get_or_load redis converter s key loaded).0 ≡ some v)
        × (Cached converter (content s key) v ⊎ (v ≡ value key))
        × ((j : String)
            → IsUserKey j
            → Renewed converter false
                (content s j)
                (content (get_or_load redis converter s key loaded).2 j)
                (value j))
  unfolding get_or_load
  get_or_load-Renewed s key loaded source user done =
      or_load-Renewed (get_cached redis converter s key) s key loaded
        (λ v h. unfold get_cached in cached-Cached (redis.get s key) s key v refl h) source user
        done
