-- ===== src/Base/Lists.antt =====
-- Lists measured and cut by native numbers, and Boolean searches over lists.
use Prim.Native.Nat.{ℕ, zero, suc, ◌+◌, ◌≤◌}
use mathlib.Core.Path.{◌≡◌, refl, ap}
use mathlib.Core.Bool.{Bool, false, ◌||◌}
use mathlib.Core.List.{List, [], ◌∷◌, ◌++◌}
use mathlib.Core.Option.{Option, none, some}
use native.Mathlib.Omega.{arith}
use otus_highload.Base.Tests.{if◌then◌else◌}

module _ {ℓ} {A : Type ℓ} where
  abbrev pub length : List A → ℕ
  length [] = 0
  length (x ∷ xs) = suc (length xs)

  abbrev pub take : ℕ → List A → List A
  take zero xs = []
  take (suc n) [] = []
  take (suc n) (x ∷ xs) = x ∷ take n xs

  abbrev pub drop : ℕ → List A → List A
  drop zero xs = xs
  drop (suc n) [] = []
  drop (suc n) (x ∷ xs) = drop n xs

  abbrev pub get_elem? : List A → ℕ → Option A
  get_elem? [] i = none
  get_elem? (x ∷ xs) zero = some x
  get_elem? (x ∷ xs) (suc i) = get_elem? xs i

  -- The rows that pass a Boolean test.
  abbrev pub keep : (A → Bool) → List A → List A
  keep p [] = []
  keep p (x ∷ xs) = let rest = keep p xs in if p x then x ∷ rest else rest

  abbrev pub any : (A → Bool) → List A → Bool
  any p [] = false
  any p (x ∷ xs) = p x || any p xs

  -- How many elements pass a test.
  abbrev pub count_if : (A → Bool) → List A → ℕ
  count_if p [] = 0
  count_if p (x ∷ xs) = if p x then suc (count_if p xs) else count_if p xs

  -- The same elements, each as often, in any order.
  abbrev pub SameElements : List A → List A → Type ℓ
  SameElements xs ys = (p : A → Bool) → count_if p xs ≡ count_if p ys

  abbrev pub All {κ} : (A → Type κ) → List A → Type κ
  All P [] = Unit
  All P (x ∷ xs) = P x × All P xs

  pub length-append : (xs ys : List A) → length (xs ++ ys) ≡ length xs + length ys
  length-append [] ys = omega arith
  length-append (x ∷ xs) ys = omega (arith, length-append xs ys)

  pub drop_zero : (xs : List A) → drop 0 xs ≡ xs
  drop_zero xs = refl

  pub take-nil : (n : ℕ) → take n [] ≡ []
  take-nil zero = refl
  take-nil (suc n) = refl

  pub drop-nil : (n : ℕ) → drop n [] ≡ []
  drop-nil zero = refl
  drop-nil (suc n) = refl

  -- A window inside a prefix is a window of the whole.
  pub take-drop-take :
      (limit offset n : ℕ) (xs : List A)
      → offset + limit ≤ n
      → take limit (drop offset (take n xs)) ≡ take limit (drop offset xs)
  take-drop-take zero offset n xs h = refl
  take-drop-take (suc limit) zero zero xs h = absurd (omega arith)
  take-drop-take (suc limit) zero (suc n) [] h = refl
  take-drop-take (suc limit) zero (suc n) (x ∷ xs) h =
      ap (◌∷◌ x) (take-drop-take limit zero n xs (omega arith))
  take-drop-take (suc limit) (suc offset) zero xs h = absurd (omega arith)
  take-drop-take (suc limit) (suc offset) (suc n) [] h = refl
  take-drop-take (suc limit) (suc offset) (suc n) (x ∷ xs) h =
      take-drop-take (suc limit) offset n xs (omega arith)

  pub any-append : (p : A → Bool) (xs ys : List A) → any p (xs ++ ys) ≡ any p xs || any p ys
  any-append p [] ys = refl
  any-append p (x ∷ xs) ys = ground (arith, any-append p xs ys)
