-- ===== src/Samples/Keys.antt =====
-- Key pairs that are numbers, with keys and headers that are association functions.
use otus_highload.Base.{
  ℕ, String, List, [], ◌∷◌, ◌≡◌, ◌≢◌, Option, none, some, ◌==◌, eq_iff, arith, if◌then◌else◌,
}
use otus_highload.Base.Errors.{Result, ok, err, other}
use otus_highload.Auth.Keys.{Jwx}
use otus_highload.Samples.Tokens.{Token, token_jwt}

pub record Key : Type 0 where
  pub half : ℕ
  pub attributes : String → Option String

abbrev assigned : (String → Option String) → String → String → String → Option String
assigned f name v = λ asked. if name == asked then some v else f asked

abbrev pub with_attribute : Key → String → String → Key
with_attribute k name v = record k { attributes = assigned k.attributes name v }

abbrev loaded_key : String → Result ℕ
loaded_key pem = if pem == "" then err (other "pem") else ok 7

abbrev verified : List Key → String → String → String → Result Token
verified [] issuer audience jws = err (other "key")
verified (k ∷ ks) issuer audience jws = token_jwt.parse issuer audience jws

assigned_self : (f : String → Option String) (name v : String) → assigned f name v name ≡ some v
assigned_self f name v = ground (arith, eq_iff name name)

assigned_other :
    (f : String → Option String) (name v asked : String)
    → name ≢ asked
    → assigned f name v asked ≡ f asked
assigned_other f name v asked h = ground (arith, eq_iff name asked)

pub attribute_self :
    (k k' : Key) (name v : String)
    → ok (with_attribute k name v) ≡ ok k'
    → k'.attributes name ≡ some v
attribute_self k k' name v h = cc (h, assigned_self k.attributes name v)

pub attribute_other :
    (k k' : Key) (name v asked : String)
    → ok (with_attribute k name v) ≡ ok k'
    → name ≢ asked
    → k'.attributes asked ≡ k.attributes asked
attribute_other k k' name v asked h apart = cc (h, assigned_other k.attributes name v asked apart)

pub attribute_half :
    (k k' : Key) (name v : String) → ok (with_attribute k name v) ≡ ok k' → k'.half ≡ k.half
attribute_half k k' name v h = cc h

abbrev pub raw_key : ℕ → Key
raw_key half = record { half = half; attributes = λ name. none }

pub raw_key-half : (p : ℕ) (k : Key) → ok (raw_key p) ≡ ok k → k.half ≡ p
raw_key-half p k h = cc h

abbrev pub number_jwx : Jwx ℕ ℕ Key Key Token
number_jwx = record {
  load_private_key = loaded_key;
  point_of = λ p. p;
  from_raw = λ p. ok (raw_key p);
  point = λ k. k.half;
  attribute = λ k. k.attributes;
  set_attribute = λ k name v. ok (with_attribute k name v);
  new_headers = raw_key 0;
  header = λ h. h.attributes;
  set_header = λ h name v. ok (with_attribute h name v);
  new = token_jwt.new;
  get = token_jwt.get;
  set = token_jwt.set;
  sign = λ p h t. token_jwt.sign t;
  parse = verified;
  from_raw-point = raw_key-half;
  attribute_point = attribute_half;
  attribute_self = attribute_self;
  attribute_other = attribute_other;
  header_self = attribute_self;
  get-new = token_jwt.get-new;
  set_self = token_jwt.set_self;
  set_other = token_jwt.set_other;
  sign-parse = λ p k h t id jws issuer audience same alg kid named.
      token_jwt.sign-parse t jws issuer audience;
}
