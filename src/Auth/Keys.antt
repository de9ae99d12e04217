-- ===== src/Auth/Keys.antt =====
-- NewFakeAuthenticator and SignToken of backend/pkg/service/auth/jws_service.go: the key pair behind
-- the operations on tokens.
use otus_highload.Base.{String, ◌≡◌, ◌≢◌, refl, ◌∙◌, List, [], ◌∷◌, Option, none, some}
use otus_highload.Base.Errors.{Result, ok}
use otus_highload.Auth.{Claim, word, Jwt}
use otus_highload.Auth.Jws.{and_then, named}
use otus_highload.Auth.Results.{and_then-ok, named-ok, apart}

abbrev key_id : String
key_id = "fake-key-id"

abbrev es256 : String
es256 = "ES256"

-- What the code uses of ecdsafile, jwk, jws and jwt, which the repository does not hold. A point is the
-- public half of a private key. A text that was signed under a key identifier verifies against a set
-- whose only key has that identifier, the algorithm and the public half of the signing key.
pub record Jwx (Private Point Public Headers Token : Type 0) : Type 0 where
  pub load_private_key : String → Result Private
  pub point_of : Private → Point
  pub from_raw : Point → Result Public
  pub point : Public → Point
  pub attribute : Public → String → Option String
  pub set_attribute : Public → String → String → Result Public
  pub new_headers : Headers
  pub header : Headers → String → Option String
  pub set_header : Headers → String → String → Result Headers
  pub new : Token
  pub get : Token → String → Option Claim
  pub set : Token → String → Claim → Result Token
  pub sign : Private → Headers → Token → Result String
  pub parse : List Public → String → String → String → Result Token
  pub from_raw-point : (p : Point) (k : Public) → from_raw p ≡ ok k → point k ≡ p
  pub attribute_point :
      (k k' : Public) (name v : String) → set_attribute k name v ≡ ok k' → point k' ≡ point k
  pub attribute_self :
      (k k' : Public) (name v : String)
      → set_attribute k name v ≡ ok k'
      → attribute k' name ≡ some v
  pub attribute_other :
      (k k' : Public) (name v other : String)
      → set_attribute k name v ≡ ok k'
      → name ≢ other
      → attribute k' other ≡ attribute k other
  pub header_self :
      (h h' : Headers) (name v : String) → set_header h name v ≡ ok h' → header h' name ≡ some v
  pub get-new : (k : String) → get new k ≡ none
  pub set_self : (t t' : Token) (k : String) (c : Claim) → set t k c ≡ ok t' → get t' k ≡ some c
  pub set_other :
      (t t' : Token) (k j : String) (c : Claim) → set t k c ≡ ok t' → k ≢ j → get t' j ≡ get t j
  pub sign-parse :
      (p : Private) (k : Public) (h : Headers) (t : Token) (id jws issuer audience : String)
      → point k ≡ point_of p
      → attribute k "alg" ≡ some "ES256"
      → attribute k "kid" ≡ some id
      → header h "kid" ≡ some id
      → sign p h t ≡ ok jws
      → get t "iss" ≡ some (word issuer)
      → get t "aud" ≡ some (word audience)
      → (t' : Token) × (parse (k ∷ []) issuer audience jws ≡ ok t')
        × ((k : String) → k ≢ "iss" → k ≢ "aud" → get t' k ≡ get t k)

pub record FakeAuthenticator (Private Public : Type 0) : Type 0 where
  pub private_key : Private
  pub key_set : List Public

module _ {Private Point Public Headers Token : Type 0}
    (jwx : Jwx Private Point Public Headers Token) where
  open jwx use {
    load_private_key, point_of, from_raw, point, attribute, set_attribute, new_headers, header,
    set_header, sign, parse,
  }

  -- The public key of the set, with its algorithm and its identifier.
  unfoldable pub public_key : Private → Result Public
  public_key p = and_then (named "parsing jwk key" (from_raw (point_of p))) (λ raw.
      and_then (named "setting key algorithm" (set_attribute raw "alg" es256))
        (λ k. named "setting key ID" (set_attribute k "kid" key_id)))

  unfoldable pub new_fake_authenticator : String → Result (FakeAuthenticator Private Public)
  unfolding public_key
  new_fake_authenticator pem =
      and_then (named "loading PEM private key" (load_private_key pem))
        (λ p. and_then (public_key p) (λ k. ok (record { private_key = p; key_set = k ∷ [] })))

  unfoldable pub sign_token : FakeAuthenticator Private Public → Token → Result String
  sign_token f t = and_then (named "setting algorithm" (set_header new_headers "alg" es256)) (λ h.
      and_then (named "setting type" (set_header h "typ" "JWT")) (λ h.
        and_then (named "setting Key ID" (set_header h "kid" key_id))
          (λ h. sign f.private_key h t)))

  public_key-attributes :
      (p : Private) (k : Public)
      → public_key p ≡ ok k
      → (point k ≡ point_of p)
        × (attribute k "alg" ≡ some es256)
        × (attribute k "kid" ≡ some key_id)
  unfolding public_key
  public_key-attributes p k h =
      let (raw, p₁, h₁) = and_then-ok (named "parsing jwk key" (from_raw (point_of p))) _ k h in
      let (a, p₂, h₂) =
        and_then-ok (named "setting key algorithm" (set_attribute raw "alg" es256)) _ k h₁ in
      let q₁ = named-ok "parsing jwk key" _ raw p₁ in
      let q₂ = named-ok "setting key algorithm" _ a p₂ in
      let q₃ = named-ok "setting key ID" _ k h₂ in
      (
        jwx.attribute_point a k "kid" key_id q₃
            ∙ jwx.attribute_point raw a "alg" es256 q₂
            ∙ jwx.from_raw-point (point_of p) raw q₁,
        jwx.attribute_other a k "kid" key_id "alg" q₃ (apart refl)
            ∙ jwx.attribute_self raw a "alg" es256 q₂,
        jwx.attribute_self a k "kid" key_id q₃,
      )

  sign_token-parse :
      (f : FakeAuthenticator Private Public) (k : Public) (t : Token) (jws issuer audience : String)
      → public_key f.private_key ≡ ok k
      → sign_token f t ≡ ok jws
      → jwx.get t "iss" ≡ some (word issuer)
      → jwx.get t "aud" ≡ some (word audience)
      → (t' : Token) × (parse (k ∷ []) issuer audience jws ≡ ok t')
        × ((j : String) → j ≢ "iss" → j ≢ "aud" → jwx.get t' j ≡ jwx.get t j)
  unfolding sign_token
  sign_token-parse f k t jws issuer audience made signed iss aud =
      let (h, p₁, s₁) =
        and_then-ok (named "setting algorithm" (set_header new_headers "alg" es256)) _ jws signed in
      let (typed, p₂, s₂) =
        and_then-ok (named "setting type" (set_header h "typ" "JWT")) _ jws s₁ in
      let (full, p₃, s₃) =
        and_then-ok (named "setting Key ID" (set_header typed "kid" key_id)) _ jws s₂ in
      let (same, alg, kid) = public_key-attributes f.private_key k made in
      jwx.sign-parse f.private_key k full t key_id jws issuer audience same alg kid
        (jwx.header_self typed full "kid" key_id (named-ok "setting Key ID" _ full p₃)) s₃ iss aud

  -- An authenticator holds the private key of the text and one public key, which is its other half.
  new_fake_authenticator-keys :
      (pem : String) (f : FakeAuthenticator Private Public)
      → new_fake_authenticator pem ≡ ok f
      → (k : Public) × (load_private_key pem ≡ ok f.private_key)
        × (public_key f.private_key ≡ ok k)
        × (f.key_set ≡ k ∷ [])
  unfolding new_fake_authenticator
  new_fake_authenticator-keys pem f h =
      let (p, p₁, h₁) =
        and_then-ok (named "loading PEM private key" (load_private_key pem)) _ f h in
      let (k, p₂, h₂) = and_then-ok (public_key p) _ f h₁ in
      let q = named-ok "loading PEM private key" _ p p₁ in (k, cc (q, h₂), cc (p₂, h₂), cc h₂)

  pub key_set-parse :
      (pem : String) (f : FakeAuthenticator Private Public) (t : Token)
      (jws issuer audience : String)
      → new_fake_authenticator pem ≡ ok f
      → sign_token f t ≡ ok jws
      → jwx.get t "iss" ≡ some (word issuer)
      → jwx.get t "aud" ≡ some (word audience)
      → (t' : Token) × (parse f.key_set issuer audience jws ≡ ok t')
        × ((j : String) → j ≢ "iss" → j ≢ "aud" → jwx.get t' j ≡ jwx.get t j)
  key_set-parse pem f t jws issuer audience h signed iss aud =
      let (k, _, made, only) = new_fake_authenticator-keys pem f h in
      rw only (sign_token-parse f k t jws issuer audience made signed iss aud)

  -- The operations on tokens of an authenticator that was made without an error.
  abbrev pub jwt_of :
      (pem : String) (f : FakeAuthenticator Private Public)
      → new_fake_authenticator pem ≡ ok f
      → Jwt Token
  jwt_of pem f h = record {
    new = jwx.new;
    get = jwx.get;
    set = jwx.set;
    sign = sign_token f;
    parse = parse f.key_set;
    get-new = jwx.get-new;
    set_self = jwx.set_self;
    set_other = jwx.set_other;
    sign-parse = λ t jws issuer audience. key_set-parse pem f t jws issuer audience h;
  }
