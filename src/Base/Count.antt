-- ===== src/Base/Count.antt =====
-- Counting the elements of a list that pass a test.
use Prim.Native.Nat.{◌<◌}
use mathlib.Core.Path.{◌≡◌, refl, sym, ap, ◌∙◌}
use mathlib.Core.Logic.{inl, inr}
use mathlib.Core.Bool.{Bool, true, false, ◌&&◌, ◌||◌}
use mathlib.Core.List.{List, [], ◌∷◌, map}
use native.Mathlib.Omega.{arith}
use otus_highload.Base.Tests.{Bool-cases}
use otus_highload.Base.Lists.{keep, any, count_if}

module _ {ℓ} {A : Type ℓ} where
  pub count_if-keep :
      (p q : A → Bool) (xs : List A) → count_if p (keep q xs) ≡ count_if (λ x. q x && p x) xs
  count_if-keep p q [] = refl
  count_if-keep p q (x ∷ xs) = ground (arith, count_if-keep p q xs)

  no-count_if : (p : A → Bool) (xs : List A) → any p xs ≡ false → count_if p xs ≡ 0
  no-count_if p [] h = refl
  no-count_if p (x ∷ xs) h = ground (arith, no-count_if p xs)

  any-positive : (p : A → Bool) (xs : List A) → any p xs ≡ true → 0 < count_if p xs
  any-positive p [] h = cc
  any-positive p (x ∷ xs) h = ground (arith, any-positive p xs)

  pub any-count_if :
      (p : A → Bool) (xs ys : List A) → count_if p xs ≡ count_if p ys → any p xs ≡ any p ys
  any-count_if p xs ys h = elim (Bool-cases (any p xs)) [
    | inl some_x ↦ elim (Bool-cases (any p ys)) [
      | inl some_y ↦ some_x ∙ sym some_y
      | inr no_y ↦ absurd (omega (arith, any-positive p xs some_x, no-count_if p ys no_y, h))
    ]
    | inr no_x ↦ elim (Bool-cases (any p ys)) [
      | inl some_y ↦ absurd (omega (arith, any-positive p ys some_y, no-count_if p xs no_x, h))
      | inr no_y ↦ no_x ∙ sym no_y
    ]
  ]

  pub count_if_eq :
      (p q : A → Bool) (xs : List A) → ((x : A) → p x ≡ q x) → count_if p xs ≡ count_if q xs
  count_if_eq p q [] h = refl
  count_if_eq p q (x ∷ xs) h = ground (arith, h x, count_if_eq p q xs h)

pub any-map {ℓ κ} :
    {A : Type ℓ} {B : Type κ} (p : B → Bool) (f : A → B) (xs : List A)
    → any p (map f xs) ≡ any (λ x. p (f x)) xs
any-map p f [] = refl
any-map p f (x ∷ xs) = ap (λ b. p (f x) || b) (any-map p f xs)

pub count_if-map {ℓ κ} :
    {A : Type ℓ} {B : Type κ} (p : B → Bool) (f : A → B) (xs : List A)
    → count_if p (map f xs) ≡ count_if (λ x. p (f x)) xs
count_if-map p f [] = refl
count_if-map p f (x ∷ xs) = ground (arith, count_if-map p f xs)
