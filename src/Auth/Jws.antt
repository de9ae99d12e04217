-- ===== src/Auth/Jws.antt =====
-- backend/pkg/service/auth/jws_service.go
use otus_highload.Base.{String, List, [], ◌∷◌, map, Option, none, some, ◌==◌, any, if◌then◌else◌}
use otus_highload.Base.Errors.{Error, Result, ok, err, claims_invalid, wrapped, other}
use otus_highload.Auth.{
  Item, text, no_text, Claim, word, words, other_claim, fake_issuer, fake_audience,
  permissions_claim, user_id_claim, Jwt,
}

-- A value, an error, or the failed type assertion that stops the handler.
pub data Extracted (A : Type 0) : Type 0 where
  value : A → Extracted A
  failed : Error → Extracted A
  panicked : Extracted A

-- `if err != nil { return err }` before the next step.
abbrev pub and_then : {A B : Type 0} → Result A → (A → Result B) → Result B
and_then (err e) f = err e
and_then (ok a) f = f a

abbrev pub named : {A : Type 0} → String → Result A → Result A
named message (ok a) = ok a
named message (err e) = err (wrapped message e)

abbrev pub add_text : Item → Result (List String) → Result (List String)
add_text (text s) (ok rest) = ok (s ∷ rest)
add_text (text s) (err e) = err e
add_text no_text rest = err (other "claim is not a string")

-- The conversion of the raw list; which element is named by the error is left out.
unfoldable pub strings_of : List Item → Result (List String)
strings_of [] = ok []
strings_of (i ∷ is) = add_text i (strings_of is)

unfoldable pub claims_of : Option Claim → Result (List String)
unfolding strings_of
claims_of none = ok []
claims_of (some (words list)) = strings_of list
claims_of (some (word s)) = err (other "claim is unexpected type")
claims_of (some other_claim) = err (other "claim is unexpected type")

-- The loop over the expected claims.
unfoldable pub all_present : List String → List String → Result (Unit {0})
all_present [] claims = ok tt
all_present (e ∷ es) claims =
    let rest = all_present es claims in
    if any (λ c. c == e) claims then rest else err claims_invalid

unfoldable pub user_of : Option Claim → Extracted String
user_of none = failed (other "userId not found")
user_of (some (word user)) = value user
user_of (some (words list)) = panicked
user_of (some other_claim) = panicked

module _ {Token : Type 0} (jwt : Jwt Token) where
  open jwt use {new, get, set, sign, parse}

  unfoldable pub validate_jws : String → Result Token
  validate_jws jws = parse fake_issuer fake_audience jws

  abbrev pub set_permissions : Option (List String) → Token → Result Token
  set_permissions none t = ok t
  set_permissions (some claims) t = set t permissions_claim (words (map text claims))

  unfoldable pub create_jws_with_claims : String → Option (List String) → Result String
  create_jws_with_claims user claims =
      and_then (named "setting issuer" (set new "iss" (word fake_issuer))) (λ issued.
        and_then (named "setting audience" (set issued "aud" (word fake_audience))) (λ addressed.
          and_then (named "setting permissions" (set_permissions claims addressed)) (λ permitted.
            and_then (named "setting userId" (set permitted user_id_claim (word user))) sign)))

  unfoldable pub create_jws : String → Result String
  unfolding create_jws_with_claims
  create_jws user = create_jws_with_claims user none

  unfoldable pub get_claims_from_token : Token → Result (List String)
  unfolding claims_of
  get_claims_from_token t = claims_of (get t permissions_claim)

  unfoldable pub check_token_claims : List String → Token → Result (Unit {0})
  unfolding get_claims_from_token all_present
  check_token_claims expected t =
      and_then (named "getting claims from token" (get_claims_from_token t)) (all_present expected)

  unfoldable pub extract_user_id : Token → Extracted String
  unfolding user_of
  extract_user_id t = user_of (get t user_id_claim)
