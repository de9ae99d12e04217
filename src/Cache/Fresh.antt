-- ===== src/Cache/Fresh.antt =====
-- What loading leaves in the cache: the value of the loader under its key, and every other key as
-- it was or expired.
use otus_highload.Base.{
  String, ◌≡◌, refl, sym, ap, subst, ◌∙◌, ◌≢◌, inl, inr, Option, none, some, arith,
}
use otus_highload.Base.Errors.{Error, Result, ok, err}
use otus_highload.Cache.Redis.{Reply, nil, failed, found, Kept, RedisClient}
use otus_highload.Cache.Load.{
  ValueConverter, lock_name, add_string, add, store_loaded, load_locked, load, cached, or_load,
  get_cached, get_or_load,
}

-- Keys that are no mutex names, such as the identifiers of users.
abbrev pub IsUserKey : String → Type 0
IsUserKey key = (other : String) → lock_name other ≢ key

-- encoding/json reads back what it wrote.
abbrev pub RoundTrips : {V : Type 0} → ValueConverter V → Type 0
RoundTrips {V} c =
    (v : V) (text : String) → c.convert_to_string v ≡ ok text → c.convert_from_string text ≡ ok v

-- A value that is kept for a key, if any, reads as `v`.
abbrev pub FreshAt : {V : Type 0} → ValueConverter V → Option String → V → Type 0
FreshAt c kept v = (text : String) → kept ≡ some text → c.convert_from_string text ≡ ok v

pub Kept-refl : (o : Option String) → Kept o o
Kept-refl o = inl refl

pub Kept-trans : (a b c : Option String) → Kept a b → Kept b c → Kept a c
Kept-trans a b c (inl p) (inl q) = inl (q ∙ p)
Kept-trans a b c (inr p) (inl q) = inr (q ∙ p)
Kept-trans a b c h (inr q) = inr q

pub FreshAt-Kept :
    {V : Type 0} (c : ValueConverter V) (a b : Option String) (v : V)
    → Kept a b
    → FreshAt c a v
    → FreshAt c b v
FreshAt-Kept c a b v (inl p) h text e = h text (sym p ∙ e)
FreshAt-Kept c a b v (inr p) h text e = cc

module _ {S V : Type 0} (redis : RedisClient S) (converter : ValueConverter V) where
  open redis use {content, set, lock, unlock}

  add_string-other :
      (s : S) (key : String) (r : Result String) (j : String)
      → key ≢ j
      → Kept (content s j) (content (add_string redis converter s key r).1 j)
  unfolding add_string
  add_string-other s key (err e) j h = Kept-refl _
  add_string-other s key (ok text) j h = redis.set_other s key text j h

  store_loaded-other :
      (s : S) (key : String) (loaded : Result V) (j : String)
      → IsUserKey j
      → key ≢ j
      → Kept (content s j) (content (store_loaded redis converter s key loaded).2 j)
  unfolding store_loaded
  store_loaded-other s key (err e) j u h = redis.unlock_other s (lock_name key) j (u key)
  store_loaded-other s key (ok v) j u h =
      Kept-trans _ _ _ (unfold add in add_string-other s key (converter.convert_to_string v) j h)
        (redis.unlock_other _ (lock_name key) j (u key))

  load_locked-other :
      (locked : Option Error × S) (key : String) (loaded : Result V) (j : String)
      → IsUserKey j
      → key ≢ j
      → Kept (content locked.1 j) (content (load_locked redis converter locked key loaded).2 j)
  unfolding load_locked
  load_locked-other (some e, s) key loaded j u h = Kept-refl _
  load_locked-other (none, s) key loaded j u h = store_loaded-other s key loaded j u h

  -- Loading a key leaves the value under the key of any other user as it was, or expired, whatever
  -- fails.
  pub load-other :
      (s : S) (key : String) (loaded : Result V) (j : String)
      → IsUserKey j
      → key ≢ j
      → Kept (content s j) (content (load redis converter s key loaded).2 j)
  unfolding load
  load-other s key loaded j u h =
      Kept-trans _ _ _ (redis.lock_other s (lock_name key) j (u key))
        (load_locked-other (lock s (lock_name key)) key loaded j u h)

  or_load-other :
      (c : Result (Option V)) (s : S) (key : String) (loaded : Result V) (j : String)
      → IsUserKey j
      → key ≢ j
      → Kept (content s j) (content (or_load redis converter c s key loaded).2 j)
  unfolding or_load
  or_load-other (err e) s key loaded j u h = Kept-refl _
  or_load-other (ok (some v)) s key loaded j u h = Kept-refl _
  or_load-other (ok none) s key loaded j u h = load-other s key loaded j u h

  pub get_or_load-other :
      (s : S) (key : String) (loaded : Result V) (j : String)
      → IsUserKey j
      → key ≢ j
      → Kept (content s j) (content (get_or_load redis converter s key loaded).2 j)
  unfolding get_or_load
  get_or_load-other s key loaded j u h =
      or_load-other (get_cached redis converter s key) s key loaded j u h

  module _ (round : RoundTrips converter) where
    add_string-Fresh :
        (s : S) (key : String) (r : Result String) (v : V)
        → converter.convert_to_string v ≡ r
        → (add_string redis converter s key r).0 ≡ none
        → FreshAt converter (content (add_string redis converter s key r).1 key) v
    unfolding add_string
    add_string-Fresh s key (err e) v p q = cc
    add_string-Fresh s key (ok text) v p q =
        λ kept h. ground (arith, redis.set_self s key text q, round v text p)

    store_loaded-Fresh :
        (s : S) (key : String) (loaded : Result V)
        → IsUserKey key
        → (store_loaded redis converter s key loaded).1 ≡ none
        → (v : V) × (loaded ≡ ok v)
          × ((store_loaded redis converter s key loaded).0 ≡ some v)
          × FreshAt converter (content (store_loaded redis converter s key loaded).2 key) v
    unfolding store_loaded
    store_loaded-Fresh s key (err e) u q = cc
    store_loaded-Fresh s key (ok v) u q = (
      v,
      refl,
      refl,
      FreshAt-Kept converter _ _ v (redis.unlock_other _ (lock_name key) key (u key)) (
          unfold add in
          add_string-Fresh s key (converter.convert_to_string v) v refl (unfold add in q)),
    )

    load_locked-Fresh :
        (locked : Option Error × S) (key : String) (loaded : Result V)
        → IsUserKey key
        → (load_locked redis converter locked key loaded).1 ≡ none
        → (v : V) × (loaded ≡ ok v)
          × ((load_locked redis converter locked key loaded).0 ≡ some v)
          × FreshAt converter (content (load_locked redis converter locked key loaded).2 key) v
    unfolding load_locked
    load_locked-Fresh (some e, s) key loaded u q = cc
    load_locked-Fresh (none, s) key loaded u q = store_loaded-Fresh s key loaded u q

    -- `Load` of a user's key without an error returns what the loader returned, and leaves nothing
    -- else under the key, when the converter reads back what it wrote.
    pub load-Fresh :
        (s : S) (key : String) (loaded : Result V)
        → IsUserKey key
        → (load redis converter s key loaded).1 ≡ none
        → (v : V) × (loaded ≡ ok v)
          × ((load redis converter s key loaded).0 ≡ some v)
          × FreshAt converter (content (load redis converter s key loaded).2 key) v
    unfolding load
    load-Fresh s key loaded u q = load_locked-Fresh (lock s (lock_name key)) key loaded u q

    -- A value that `get` returns is the one that a fresh key stands for.
    cached-FreshAt :
        (reply : Reply) (s : S) (key : String) (v w : V)
        → redis.get s key ≡ reply
        → FreshAt converter (content s key) v
        → cached redis converter reply ≡ ok (some w)
        → w ≡ v
    unfolding cached
    cached-FreshAt nil s key v w p f q = cc
    cached-FreshAt (failed e) s key v w p f q = cc
    cached-FreshAt (found text) s key v w p f q =
        let read = f text (redis.get_found s key text p) in ground arith

    or_load-Fresh :
        (c : Result (Option V)) (s : S) (key : String) (loaded : Result V) (v : V)
        → IsUserKey key
        → ((w : V) → c ≡ ok (some w) → w ≡ v)
        → FreshAt converter (content s key) v
        → ((w : V) → loaded ≡ ok w → w ≡ v)
        → (or_load redis converter c s key loaded).1 ≡ none
        → ((or_load redis converter c s key loaded).0 ≡ some v)
          × FreshAt converter (content (or_load redis converter c s key loaded).2 key) v
    unfolding or_load
    or_load-Fresh (err e) s key loaded v u hit f src q = cc
    or_load-Fresh (ok (some w)) s key loaded v u hit f src q = (ap some (hit w refl), f)
    or_load-Fresh (ok none) s key loaded v u hit f src q =
        let (w, p, r, g) = load-Fresh s key loaded u q in
        let same : w ≡ v = src w p in
        (cc, subst (FreshAt converter (content (load redis converter s key loaded).2 key)) same g)

    -- `GetOrLoad` without an error on a user's key that is fresh for a value returns that value and
    -- leaves the key fresh for it, when the loader returns no other value and the converter reads
    -- back what it wrote.
    pub get_or_load-Fresh :
        (s : S) (key : String) (loaded : Result V) (v : V)
        → IsUserKey key
        → FreshAt converter (content s key) v
        → ((w : V) → loaded ≡ ok w → w ≡ v)
        → (get_or_load redis converter s key loaded).1 ≡ none
        → ((get_or_load redis converter s key loaded).0 ≡ some v)
          × FreshAt converter (content (get_or_load redis converter s key loaded).2 key) v
    unfolding get_or_load
    get_or_load-Fresh s key loaded v u f src q =
        or_load-Fresh (get_cached redis converter s key) s key loaded v u
          (λ w h. unfold get_cached in cached-FreshAt (redis.get s key) s key v w refl f h) f src q
