-- ===== src/Feed/Subscriber/Keys.antt =====
-- The keys of two maps that are changed together.
use otus_highload.Base.{
  String, ◌≡◌, ◌≢◌, sym, ◌∙◌, inl, inr, true, false, List, none, ◌==◌, eq_iff, arith, Bool-cases,
  Option-cases,
}
use otus_highload.Base.Maps.{
  lookup, erase, assign, has_key, has_key-erase_self, has_key-erase_other, has_key_found,
}

-- Two maps with the same keys.
abbrev pub SameKeys : {V W : Type 0} → List (String × V) → List (String × W) → Type 0
SameKeys c a = (k : String) → has_key k c ≡ has_key k a

module _ {V W : Type 0} (c : List (String × V)) (a : List (String × W)) (user : String)
    (same : SameKeys c a) where
  pub SameKeys-erase : SameKeys (erase user c) (erase user a)
  SameKeys-erase k = elim (Bool-cases (user == k)) [
    | inl here ↦
        let e : user ≡ k = (eq_iff user k).0 here in
        rw (sym e) (has_key-erase_self user c ∙ sym (has_key-erase_self user a))
    | inr there ↦
        let apart : user ≢ k = λ e. ground (arith, there, eq_iff user k, e) in
        has_key-erase_other user k c apart ∙ same k ∙ sym (has_key-erase_other user k a apart)
  ]

  pub SameKeys-assign : (v : V) (w : W) → SameKeys (assign user v c) (assign user w a)
  SameKeys-assign v w k = ground (arith, SameKeys-erase k)

  pub SameKeys-assign_known : (w : W) → has_key user c ≡ true → SameKeys c (assign user w a)
  SameKeys-assign_known w known k = elim (Bool-cases (user == k)) [
    | inl here ↦ let e : user ≡ k = (eq_iff user k).0 here in rw (sym e) (known ∙ ground arith)
    | inr there ↦
        let apart : user ≢ k = λ e. ground (arith, there, eq_iff user k, e) in
        ground (arith, there, same k, has_key-erase_other user k a apart)
  ]

pub lookup-has_key :
    {V : Type 0} (k : String) (m : List (String × V)) → has_key k m ≡ false → lookup k m ≡ none
lookup-has_key k m h = elim (Option-cases (lookup k m)) [
  | inl absent ↦ absent
  | inr (v, found) ↦ cc (has_key_found k m v found)
]
