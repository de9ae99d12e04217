-- ===== src/Base/Maps.antt =====
-- Go's maps with text keys, as lists of pairs.
use mathlib.Core.Path.{◌≡◌, refl}
use mathlib.Core.Logic.{◌≢◌}
use mathlib.Core.Bool.{Bool, true, false}
use mathlib.Core.Option.{Option, none, some}
use mathlib.Core.List.{List, [], ◌∷◌}
use native.Mathlib.Omega.{arith}
use text.Mathlib.Text.{◌==◌}
use text.Mathlib.TextEquality.{eq_iff}
use Prim.Native.String.{String}
use otus_highload.Base.Tests.{if◌then◌else◌}

module _ {V : Type 0} where
  abbrev pub lookup : String → List (String × V) → Option V
  lookup k [] = none
  lookup k ((j, v) ∷ m) = if j == k then some v else lookup k m

  -- delete(m, k)
  abbrev pub erase : String → List (String × V) → List (String × V)
  erase k [] = []
  erase k ((j, v) ∷ m) = let rest = erase k m in if j == k then rest else (j, v) ∷ rest

  -- m[k] = v
  abbrev pub assign : String → V → List (String × V) → List (String × V)
  assign k v m = (k, v) ∷ erase k m

  abbrev pub has_key : String → List (String × V) → Bool
  has_key k [] = false
  has_key k ((j, v) ∷ m) = if j == k then true else has_key k m

  pub has_key-erase_self : (k : String) (m : List (String × V)) → has_key k (erase k m) ≡ false
  has_key-erase_self k [] = refl
  has_key-erase_self k ((j, v) ∷ m) = ground (arith, has_key-erase_self k m)

  pub has_key-erase_other :
      (k j : String) (m : List (String × V)) → k ≢ j → has_key j (erase k m) ≡ has_key j m
  has_key-erase_other k j [] h = refl
  has_key-erase_other k j ((i, v) ∷ m) h =
      ground (arith, has_key-erase_other k j m h, eq_iff i k, eq_iff i j)

  pub lookup-erase_self : (k : String) (m : List (String × V)) → lookup k (erase k m) ≡ none
  lookup-erase_self k [] = refl
  lookup-erase_self k ((j, v) ∷ m) = ground (arith, lookup-erase_self k m)

  pub lookup-erase_other :
      (k j : String) (m : List (String × V)) → k ≢ j → lookup j (erase k m) ≡ lookup j m
  lookup-erase_other k j [] h = refl
  lookup-erase_other k j ((i, v) ∷ m) h =
      ground (arith, lookup-erase_other k j m h, eq_iff i k, eq_iff i j)

  pub has_key-lookup :
      (k : String) (m : List (String × V)) → lookup k m ≡ none → has_key k m ≡ false
  has_key-lookup k [] h = refl
  has_key-lookup k ((j, v) ∷ m) h = ground (arith, has_key-lookup k m)

  pub has_key_found :
      (k : String) (m : List (String × V)) (v : V) → lookup k m ≡ some v → has_key k m ≡ true
  has_key_found k [] v h = cc
  has_key_found k ((j, w) ∷ m) v h = ground (arith, has_key_found k m v)
