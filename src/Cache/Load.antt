-- ===== src/Cache/Load.antt =====
-- backend/social/internal/service/cache/redis/redis.go, over any client and any converter.
use Prim.Native.String as Text
use otus_highload.Base.{String, Option, none, some}
use otus_highload.Base.Errors.{Error, Result, ok, err}
use otus_highload.Cache.Redis.{Reply, nil, failed, found, RedisClient}

-- ValueConverter, at the type of the values that the loader returns.
pub record ValueConverter (V : Type 0) : Type 0 where
  pub convert_to_string : V → Result String
  pub convert_from_string : String → Result V

-- The mutex of a key.
abbrev pub lock_name : String → String
lock_name key = Text.◌++◌ key "-lock"

module _ {S V : Type 0} (redis : RedisClient S) (converter : ValueConverter V) where
  open redis use {get, set, flush_db, lock, unlock}
  open converter use {convert_to_string, convert_from_string}

  unfoldable pub invalidate_all : S → Option Error × S
  invalidate_all s = flush_db s

  unfoldable pub add_string : S → String → Result String → Option Error × S
  add_string s key (err e) = (some e, s)
  add_string s key (ok text) = set s key text

  unfoldable pub add : S → String → V → Option Error × S
  unfolding add_string
  add s key value = add_string s key (convert_to_string value)

  -- The value is returned beside the error of `add`.
  unfoldable pub store_loaded : S → String → Result V → Option V × Option Error × S
  unfolding add
  store_loaded s key (err e) = (none, some e, unlock s (lock_name key))
  store_loaded s key (ok value) =
      let (e, s') = add s key value in (some value, e, unlock s' (lock_name key))

  unfoldable pub load_locked : Option Error × S → String → Result V → Option V × Option Error × S
  unfolding store_loaded
  load_locked (some e, s) key loaded = (none, some e, s)
  load_locked (none, s) key loaded = store_loaded s key loaded

  -- `loaded` is what `loadFunc(ctx, key)` returns if it is called.
  unfoldable pub load : S → String → Result V → Option V × Option Error × S
  unfolding load_locked
  load s key loaded = load_locked (lock s (lock_name key)) key loaded

  -- The parts of `get`: absent, an error, or the value that the text stands for.
  unfoldable pub cached_value : Result V → Result (Option V)
  cached_value (err e) = err e
  cached_value (ok value) = ok (some value)

  unfoldable pub cached : Reply → Result (Option V)
  unfolding cached_value
  cached nil = ok none
  cached (failed e) = err e
  cached (found text) = cached_value (convert_from_string text)

  unfoldable pub get_cached : S → String → Result (Option V)
  unfolding cached
  get_cached s key = cached (get s key)

  unfoldable pub or_load : Result (Option V) → S → String → Result V → Option V × Option Error × S
  unfolding load
  or_load (err e) s key loaded = (none, some e, s)
  or_load (ok (some value)) s key loaded = (some value, none, s)
  or_load (ok none) s key loaded = load s key loaded

  unfoldable pub get_or_load : S → String → Result V → Option V × Option Error × S
  unfolding get_cached or_load
  get_or_load s key loaded = or_load (get_cached s key) s key loaded
