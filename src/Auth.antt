-- ===== src/Auth.antt =====
-- backend/pkg/service/auth and backend/pkg/http/server/jwt_authenticator.go: tokens and requests.
pub mod Jws
pub mod Authenticator
pub mod Claims
pub mod Results
pub mod Keys
pub mod Session
mod Tests
use otus_highload.Base.{String, ◌≡◌, ◌≢◌, List, [], ◌∷◌, Option, none, some}
use otus_highload.Base.Errors.{Error, Result, ok}

-- An element of a list in a token: a text or anything else.
pub data Item : Type 0 where
  text : String → Item
  no_text : Item

-- A claim, as far as the code looks into it.
pub data Claim : Type 0 where
  word : String → Claim
  words : List Item → Claim
  other_claim : Claim

abbrev pub fake_issuer : String
fake_issuer = "fake-issuer"

abbrev pub fake_audience : String
fake_audience = "example-users"

abbrev pub permissions_claim : String
permissions_claim = "perm"

abbrev pub user_id_claim : String
user_id_claim = "user-id"

-- What the code uses of the package jwx, which the repository does not hold. A token that was signed
-- with the issuer and the audience that `parse` demands is parsed, with the same private claims.
pub record Jwt (Token : Type 0) : Type 0 where
  pub new : Token
  pub get : Token → String → Option Claim
  pub set : Token → String → Claim → Result Token
  -- jwt.Sign with the private key and the headers of SignToken.
  pub sign : Token → Result String
  -- jwt.Parse with the key set, WithIssuer and WithAudience.
  pub parse : String → String → String → Result Token
  pub get-new : (k : String) → get new k ≡ none
  pub set_self : (t t' : Token) (k : String) (c : Claim) → set t k c ≡ ok t' → get t' k ≡ some c
  pub set_other :
      (t t' : Token) (k j : String) (c : Claim) → set t k c ≡ ok t' → k ≢ j → get t' j ≡ get t j
  pub sign-parse :
      (t : Token) (jws issuer audience : String)
      → sign t ≡ ok jws
      → get t "iss" ≡ some (word issuer)
      → get t "aud" ≡ some (word audience)
      → (t' : Token) × (parse issuer audience jws ≡ ok t')
        × ((k : String) → k ≢ "iss" → k ≢ "aud" → get t' k ≡ get t k)
