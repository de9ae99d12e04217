-- ===== src/Samples/Server.antt =====
-- A server of a cache that never fails and never expires a value.
use text.Mathlib.TextLemmas as Lemmas
use Prim.Native.String.{count}
use otus_highload.Base.{
  String, ◌≡◌, refl, ap, ◌≢◌, inl, inr, List, [], ◌∷◌, Option, none, some, ◌==◌, ◌<◌, if◌then◌else◌,
  eq_iff, eq_refl, arith,
}
use otus_highload.Cache.Redis.{Reply, nil, found, RedisClient}
use otus_highload.Cache.Fresh.{IsUserKey}

abbrev pub Entries : Type 0
Entries = List (String × String)

abbrev value_of : Entries → String → Option String
value_of [] k = none
value_of ((j, v) ∷ es) k = if j == k then some v else value_of es k

abbrev reply_of : Option String → Reply
reply_of none = nil
reply_of (some v) = found v

pub reply_of_found : (o : Option String) (v : String) → reply_of o ≡ found v → o ≡ some v
reply_of_found none v h = cc
reply_of_found (some w) v h = ground arith

pub value_of-other : (s : Entries) (k v j : String) → k ≢ j → value_of ((k, v) ∷ s) j ≡ value_of s j
value_of-other s k v j h = ground (arith, eq_iff k j)

abbrev pub list_client : RedisClient Entries
list_client = record {
  content = value_of;
  get = λ s k. reply_of (value_of s k);
  set = λ s k v. (none, (k, v) ∷ s);
  flush_db = λ s. (none, []);
  lock = λ s m. (none, s);
  unlock = λ s m. s;
  get_found = λ s k v h. reply_of_found (value_of s k) v h;
  set_self = λ s k v h. rw (eq_refl k) refl;
  set_other = λ s k v j h. inl (value_of-other s k v j h);
  flush_all = λ s k h. refl;
  flush_other = λ s k. inr refl;
  lock_other = λ s m k h. inl refl;
  unlock_other = λ s m k h. inl refl;
}

-- A key that is shorter than `-lock` is no mutex name.
pub short-IsUserKey : (key : String) → count key < 5 → IsUserKey key
short-IsUserKey key short other e = omega (arith, Lemmas.length-append other "-lock", ap count e)
