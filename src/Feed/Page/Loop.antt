-- ===== src/Feed/Page/Loop.antt =====
-- The loop of GetUserPosts is a window of the list, and its fuel is enough.
use native.Mathlib.Decide.{dec_lt}
use otus_highload.Base.{
  ℕ, suc, zero, ◌+◌, ◌≤◌, ◌<◌, ◌≡◌, refl, List, [], ◌∷◌, some, length, take, drop, get_elem?, arith,
  Bool-cases, inl, inr,
}
use otus_highload.Base.Int.{ℤ, pos, ltz}
use otus_highload.Storage.{PostExtended}
use otus_highload.Feed.Page.{posts, page_from}

drop-elem :
    (i : ℕ) (ps : List PostExtended)
    → i < length ps
    → (p : PostExtended) × (get_elem? ps i ≡ some p) × (drop i ps ≡ p ∷ drop (suc i) ps)
drop-elem i [] h = elim h [ ]
drop-elem zero (p ∷ ps) h = (p, refl, refl)
drop-elem (suc i) (p ∷ ps) h = drop-elem i ps (omega arith)

drop_all : (i : ℕ) (ps : List PostExtended) → length ps ≤ i → drop i ps ≡ []
drop_all zero [] h = refl
drop_all zero (p ∷ ps) h = absurd (omega arith)
drop_all (suc i) [] h = refl
drop_all (suc i) (p ∷ ps) h = drop_all i ps (omega arith)

pub page_from-window :
    (fuel i n : ℕ) (ps : List PostExtended)
    → 0 < fuel
    → length ps < fuel + i
    → page_from fuel i (pos (i + n)) ps ≡ posts (take n (drop i ps))
unfolding page_from
page_from-window zero i n ps f h = absurd (omega arith)
page_from-window (suc fuel) i zero ps f h = ground arith
page_from-window (suc fuel) i (suc n) ps f h = elim (dec_lt i (length ps)) [
  | yes inside ↦
      let (p, e, d) = drop-elem i ps inside in
      let step : i + suc n ≡ suc i + n = omega arith in
      let rest = page_from-window fuel (suc i) n ps (omega arith) (omega arith) in
      rw (d, step, e, rest) (ground arith)
  | no outside ↦ rw (drop_all i ps (omega arith)) (ground arith)
]

-- From an index that is not negative the loop ends with a page, wherever it is told to end.
pub page_from-posts :
    (fuel i : ℕ) (end : ℤ) (ps : List PostExtended)
    → 0 < fuel
    → length ps < fuel + i
    → (qs : List PostExtended) × (page_from fuel i end ps ≡ posts qs)
unfolding page_from
page_from-posts zero i end ps f h = absurd (omega arith)
page_from-posts (suc fuel) i end ps f h = elim (dec_lt i (length ps)) [
  | no outside ↦ ([], ground arith)
  | yes inside ↦ elim (Bool-cases (ltz (pos i) end)) [
    | inr over ↦ ([], ground (arith, over))
    | inl going ↦
        let (p, e, d) = drop-elem i ps inside in
        let (qs, rest) = page_from-posts fuel (suc i) end ps (omega arith) (omega arith) in
        (p ∷ qs, ground (arith, going, e, rest))
  ]
]
