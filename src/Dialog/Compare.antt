-- ===== src/Dialog/Compare.antt =====
-- The order of texts from both sides.
use Prim.Native.Nat.{ℕ, Ordering}
use Prim.Native.Nat as Nat
use Prim.Native.Char.{code}
use Prim.Native.String.{String, [], ◌∷◌, then, compare}
use Prim.Native.String.compare
use text.Mathlib.TextEquality.{path_by_compare}
use otus_highload.Base.{◌≡◌, refl, sym, ap, ◌∙◌, arith}
use otus_highload.Dialog.{in_order, obtain_dialog_id}

abbrev swap : Ordering → Ordering
swap Ordering.lt = Ordering.gt
swap Ordering.eq = Ordering.eq
swap Ordering.gt = Ordering.lt

swap-compare : (a b : ℕ) → Nat.compare b a ≡ swap (Nat.compare a b)
swap-compare a b = ground arith

swap-then : (o p : Ordering) → then (swap o) (swap p) ≡ swap (then o p)
swap-then Ordering.lt p = refl
swap-then Ordering.eq p = refl
swap-then Ordering.gt p = refl

compare-swap : (s t : String) → compare t s ≡ swap (compare s t)
compare-swap [] [] = rw compare.nil-nil refl
compare-swap [] (d ∷ t) = rw (compare.nil-cons d t, compare.cons-nil d t) refl
compare-swap (c ∷ s) [] = rw (compare.nil-cons c s, compare.cons-nil c s) refl
compare-swap (c ∷ s) (d ∷ t) =
    rw
      (
        compare.cons-cons c d s t,
        compare.cons-cons d c t s,
        compare-swap s t,
        swap-compare (code c) (code d),
      )
      (swap-then (Nat.compare (code c) (code d)) (compare s t))

in_order-swap :
    (o : Ordering) (first second : String)
    → compare first second ≡ o
    → in_order (swap o) second first ≡ in_order o first second
in_order-swap Ordering.lt first second h = refl
in_order-swap Ordering.gt first second h = refl
in_order-swap Ordering.eq first second h =
    let same : first ≡ second = path_by_compare first second h in rw same refl

-- A dialog has the same identifier from both sides.
pub obtain_dialog_id_comm :
    (hash : String → String) (first second : String)
    → obtain_dialog_id hash first second ≡ obtain_dialog_id hash second first
unfolding obtain_dialog_id
obtain_dialog_id_comm hash first second = ap hash (
    sym (in_order-swap (compare first second) first second refl)
    ∙ ap (λ o. in_order o second first) (sym (compare-swap first second)))
