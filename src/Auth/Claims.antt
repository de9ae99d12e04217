-- ===== src/Auth/Claims.antt =====
-- Which tokens pass the check of their claims.
use otus_highload.Base.{
  String, ◌≡◌, ◌↔◌, refl, inl, inr, true, List, [], ◌∷◌, any, ◌==◌, All, arith, Bool-cases,
}
use otus_highload.Base.Errors.{ok}
use otus_highload.Auth.{Jwt}
use otus_highload.Auth.Jws.{all_present, get_claims_from_token, check_token_claims}

abbrev pub Held : List String → String → Type 0
Held claims e = any (λ c. c == e) claims ≡ true

all_present-Held :
    (expected claims : List String)
    → all_present expected claims ≡ ok tt
    → All (Held claims) expected
unfolding all_present
all_present-Held [] claims h = tt
all_present-Held (e ∷ es) claims h = elim (Bool-cases (any (λ c. c == e) claims)) [
  | inl held ↦ (held, all_present-Held es claims (ground (arith, held, h)))
  | inr absent ↦ ground (arith, absent, h)
]

Held-all_present :
    (expected claims : List String)
    → All (Held claims) expected
    → all_present expected claims ≡ ok tt
unfolding all_present
Held-all_present [] claims h = refl
Held-all_present (e ∷ es) claims (held, rest) = rw (held, Held-all_present es claims rest) refl

-- A token whose permissions read as a list of texts passes the check just when it has every expected one.
pub check_token_claims-Held :
    {Token : Type 0} (jwt : Jwt Token) (expected claims : List String) (t : Token)
    → get_claims_from_token jwt t ≡ ok claims
    → (check_token_claims jwt expected t ≡ ok tt) ↔ All (Held claims) expected
unfolding check_token_claims
check_token_claims-Held jwt expected claims t read = (
  λ h. all_present-Held expected claims (ground (arith, read, h)),
  λ h. rw read (Held-all_present expected claims h),
)
