-- ===== src/Samples/Tokens.antt =====
-- Tokens with three claims, which are signed with the user's name.
use otus_highload.Base.{
  String, ◌≡◌, ◌≢◌, refl, Option, none, some, ◌==◌, eq_iff, arith, if◌then◌else◌,
}
use otus_highload.Base.Errors.{Result, ok, err, other}
use otus_highload.Auth.{Claim, word, words, other_claim, Jwt}

pub record Token : Type 0 where
  pub issuer : Option Claim
  pub audience : Option Claim
  pub user : Option Claim

abbrev claim_of : Token → String → Option Claim
claim_of t k =
    if k == "iss"
    then t.issuer
    else if k == "aud"
    then t.audience
    else if k == "user-id"
    then t.user
    else none

abbrev with_claim : Token → String → Claim → Result Token
with_claim t k c =
    if k == "iss"
    then ok (record t { issuer = some c })
    else if k == "aud"
    then ok (record t { audience = some c })
    else if k == "user-id"
    then ok (record t { user = some c })
    else err (other "claim")

abbrev name_of : Option Claim → Result String
name_of (some (word user)) = ok user
name_of _ = err (other "sign")

abbrev parsed : String → String → String → Token
parsed issuer audience jws = record {
  issuer = some (word issuer);
  audience = some (word audience);
  user = some (word jws);
}

pub claim_of-with_claim :
    (t t' : Token) (k : String) (c : Claim) → with_claim t k c ≡ ok t' → claim_of t' k ≡ some c
claim_of-with_claim t t' k c h = ground arith

pub claim_of-with_other :
    (t t' : Token) (k j : String) (c : Claim)
    → with_claim t k c ≡ ok t'
    → k ≢ j
    → claim_of t' j ≡ claim_of t j
claim_of-with_other t t' k j c h apart = ground (
  arith,
  eq_iff k "iss",
  eq_iff j "iss",
  eq_iff k "aud",
  eq_iff j "aud",
  eq_iff k "user-id",
  eq_iff j "user-id",
)

name_of-word : (c : Option Claim) (jws : String) → name_of c ≡ ok jws → c ≡ some (word jws)
name_of-word none jws h = cc
name_of-word (some (word user)) jws h = ground arith
name_of-word (some (words list)) jws h = cc
name_of-word (some other_claim) jws h = cc

pub claim_of-parsed :
    (t : Token) (jws issuer audience : String)
    → name_of t.user ≡ ok jws
    → (k : String) → k ≢ "iss"
    → k ≢ "aud"
    → claim_of (parsed issuer audience jws) k ≡ claim_of t k
claim_of-parsed t jws issuer audience h k p q =
    ground (arith, name_of-word t.user jws h, eq_iff k "iss", eq_iff k "aud")

abbrev no_claims : Token
no_claims = record { issuer = none; audience = none; user = none }

pub claim_of-new : (k : String) → claim_of no_claims k ≡ none
claim_of-new k = ground arith

abbrev pub token_jwt : Jwt Token
token_jwt = record {
  new = no_claims;
  get = claim_of;
  set = with_claim;
  sign = λ t. name_of t.user;
  parse = λ issuer audience jws. ok (parsed issuer audience jws);
  get-new = claim_of-new;
  set_self = claim_of-with_claim;
  set_other = claim_of-with_other;
  sign-parse = λ t jws issuer audience h p q.
      (parsed issuer audience jws, refl, claim_of-parsed t jws issuer audience h);
}
