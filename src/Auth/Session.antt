-- ===== src/Auth/Session.antt =====
-- From a login to an authenticated request.
use Prim.Native.String.{slice, len}
use Prim.Native.String as Text
use text.Mathlib.TextPositions.{len-append, slice-append_left, slice-append_right}
use otus_highload.Base.{
  ℕ, String, ◌≡◌, refl, sym, ap, ◌∙◌, inl, inr, Bool, List, [], Option, none, some, ◌==◌, arith,
  eq_iff, Bool-cases,
}
use otus_highload.Base.Errors.{Error, Result, ok, err}
use otus_highload.Storage.{Db}
use otus_highload.Auth.{word, Jwt, fake_issuer, fake_audience, user_id_claim, permissions_claim}
use otus_highload.Auth.Results.{apart, and_then-ok, named-ok}
use otus_highload.Auth.Jws.{
  Extracted, value, failed, panicked, named, validate_jws, create_jws, check_token_claims,
  extract_user_id,
}
use otus_highload.Auth.Authenticator.{
  Context, prefix, security_scheme, get_jws_from_request, authenticate, after_validate,
  after_extract, after_check, after_header,
}
use otus_highload.Http.{success}
use otus_highload.Http.Login.{post_login}
use otus_highload.Http.Answers.{post_login-success}

-- A header that was made of the prefix and a text gives back the text.
pub get_jws-prefix : (jws : String) → get_jws_from_request (Text.◌++◌ prefix jws) ≡ ok jws
unfolding get_jws_from_request
get_jws-prefix jws = elim (Bool-cases (Text.◌++◌ prefix jws == "")) [
  | inl empty ↦
      absurd
        (omega (arith, ap len ((eq_iff (Text.◌++◌ prefix jws) "").0 empty), len-append prefix jws))
  | inr full ↦
      rw (full, slice-append_left prefix jws, len-append prefix jws, slice-append_right prefix jws)
        refl
]

module _ {Token : Type 0} (jwt : Jwt Token) where
  -- A created token is valid, holds the user, and has no permissions.
  validate_jws-create_jws :
      (user jws : String)
      → create_jws jwt user ≡ ok jws
      → (t : Token) × (validate_jws jwt jws ≡ ok t)
        × (jwt.get t permissions_claim ≡ none)
        × (jwt.get t user_id_claim ≡ some (word user))
  unfolding create_jws validate_jws
  validate_jws-create_jws user jws h =
      let (issued, p₁, h₁) =
        and_then-ok (named "setting issuer" (jwt.set jwt.new "iss" (word fake_issuer))) _ jws h in
      let (addressed, p₂, h₂) =
        and_then-ok (named "setting audience" (jwt.set issued "aud" (word fake_audience))) _ jws
          h₁ in
      let (t, p₃, signed) =
        and_then-ok (named "setting userId" (jwt.set addressed user_id_claim (word user))) _ jws
          h₂ in
      let q₁ = named-ok "setting issuer" _ issued p₁ in
      let q₂ = named-ok "setting audience" _ addressed p₂ in
      let q₃ = named-ok "setting userId" _ t p₃ in
      let issuer : jwt.get t "iss" ≡ some (word fake_issuer) =
        jwt.set_other addressed t user_id_claim "iss" _ q₃ (apart refl)
        ∙ jwt.set_other issued addressed "aud" "iss" _ q₂ (apart refl)
        ∙ jwt.set_self jwt.new issued "iss" _ q₁ in
      let audience : jwt.get t "aud" ≡ some (word fake_audience) =
        jwt.set_other addressed t user_id_claim "aud" _ q₃ (apart refl)
        ∙ jwt.set_self issued addressed "aud" _ q₂ in
      let permissions : jwt.get t permissions_claim ≡ none =
        jwt.set_other addressed t user_id_claim permissions_claim _ q₃ (apart refl)
        ∙ jwt.set_other issued addressed "aud" permissions_claim _ q₂ (apart refl)
        ∙ jwt.set_other jwt.new issued "iss" permissions_claim _ q₁ (apart refl)
        ∙ jwt.get-new permissions_claim in
      let (parsed, valid, same) =
        jwt.sign-parse t jws fake_issuer fake_audience signed issuer audience in
      (
        parsed,
        valid,
        same permissions_claim (apart refl) (apart refl) ∙ permissions,
        same user_id_claim (apart refl) (apart refl) ∙ jwt.set_self addressed t user_id_claim _ q₃,
      )

  -- A token that a login answered authenticates, in the header of a request without scopes, the
  -- user who logged in, and the request hands on that header.
  pub authenticate-post_login :
      (compares : List ℕ → String → Bool) (fault : Option Error) (id password : Option String)
      (db : Db) (jws : String)
      → post_login compares (create_jws jwt) fault id password db ≡ success jws
      → (user : String) × (id ≡ some user)
        × (authenticate jwt (Text.◌++◌ prefix jws) [] security_scheme
            ≡ value (record { user_id = user; token = Text.◌++◌ prefix jws }))
  unfolding authenticate after_validate check_token_claims extract_user_id
  authenticate-post_login compares fault id password db jws h =
      let (user, _, _, p, _, _, _, made, _) =
        post_login-success compares (create_jws jwt) fault id password db jws h in
      let (t, valid, permissions, name) = validate_jws-create_jws user jws made in
      (user, p, rw (get_jws-prefix jws, valid, permissions, name) refl)

module _ {Token : Type 0} (jwt : Jwt Token) (header : String) (scopes : List String) where
  token_in : Extracted Context → String
  token_in (value c) = c.token
  token_in (failed e) = header
  token_in panicked = header

  after_extract_token :
      (e : Extracted String) (c : Context)
      → after_extract jwt header scopes e ≡ value c
      → c.token ≡ header
  unfolding after_extract token_in
  after_extract_token (value user) c h = sym (ap token_in h)
  after_extract_token (failed e) c h = cc
  after_extract_token panicked c h = cc

  after_check_token :
      (t : Token) (r : Result (Unit {0})) (c : Context)
      → after_check jwt header scopes t r ≡ value c
      → c.token ≡ header
  unfolding after_check
  after_check_token t (ok u) c h = after_extract_token (extract_user_id jwt t) c h
  after_check_token t (err e) c h = cc

  after_validate_token :
      (r : Result Token) (c : Context)
      → after_validate jwt header scopes r ≡ value c
      → c.token ≡ header
  unfolding after_validate
  after_validate_token (ok t) c h = after_check_token t (check_token_claims jwt scopes t) c h
  after_validate_token (err e) c h = cc

  after_header_token :
      (r : Result String) (c : Context)
      → after_header jwt header scopes r ≡ value c
      → c.token ≡ header
  unfolding after_header
  after_header_token (ok jws) c h = after_validate_token (validate_jws jwt jws) c h
  after_header_token (err e) c h = cc

  -- What is handed on to other services is the header that was authenticated.
  pub authenticate_token :
      (c : Context) → authenticate jwt header scopes security_scheme ≡ value c → c.token ≡ header
  unfolding authenticate
  authenticate_token c h = after_header_token (get_jws_from_request header) c h
