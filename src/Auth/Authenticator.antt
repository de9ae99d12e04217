-- ===== src/Auth/Authenticator.antt =====
-- backend/pkg/http/server/jwt_authenticator.go
use Prim.Native.String.{slice, len}
use text.Mathlib.Text.{starts_with}
use otus_highload.Base.{String, List, ◌==◌, if◌then◌else◌}
use otus_highload.Base.Errors.{Result, ok, err, wrapped, other}
use otus_highload.Auth.{Jwt}
use otus_highload.Auth.Jws.{
  Extracted, value, failed, panicked, validate_jws, check_token_claims, extract_user_id,
}

abbrev pub security_scheme : String
security_scheme = "bearerAuth"

abbrev pub prefix : String
prefix = "Bearer "

-- The header of a request, empty where it is missing.
unfoldable pub get_jws_from_request : String → Result String
get_jws_from_request header =
    if header == ""
    then err (other "authorization header is missing")
    else if starts_with header prefix
    then ok (slice header (len prefix) (len header))
    else err (other "authorization header is malformed")

-- The context of an authenticated request: the user and the header for requests to other services.
pub record Context : Type 0 where
  pub user_id : String
  pub token : String

module _ {Token : Type 0} (jwt : Jwt Token) (header : String) (scopes : List String) where
  unfoldable pub after_extract : Extracted String → Extracted Context
  after_extract (value user) = value (record { user_id = user; token = header })
  after_extract (failed e) = failed (wrapped "token doesn't contain claim" e)
  after_extract panicked = panicked

  unfoldable pub after_check : Token → Result (Unit {0}) → Extracted Context
  unfolding after_extract
  after_check token (err e) = failed (wrapped "token claims don't match" e)
  after_check token (ok t) = after_extract (extract_user_id jwt token)

  unfoldable pub after_validate : Result Token → Extracted Context
  unfolding after_check
  after_validate (err e) = failed (wrapped "validating JWS" e)
  after_validate (ok token) = after_check token (check_token_claims jwt scopes token)

  unfoldable pub after_header : Result String → Extracted Context
  unfolding after_validate
  after_header (err e) = failed (wrapped "getting jws" e)
  after_header (ok jws) = after_validate (validate_jws jwt jws)

  unfoldable pub authenticate : String → Extracted Context
  unfolding after_header
  authenticate scheme =
      if scheme == security_scheme
      then after_header (get_jws_from_request header)
      else failed (other "security scheme")
