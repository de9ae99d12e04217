-- ===== src/Auth/Tests.antt =====
-- A login, a request with its token, and the same with the keys of an authenticator.
use Prim.Native.String as Text
use otus_highload.Base.{ℕ, ◌∷◌, String, ◌≡◌, refl, true, [], none, some}
use otus_highload.Base.Errors.{ok}
use otus_highload.Auth.Jws.{value, create_jws}
use otus_highload.Auth.Authenticator.{prefix, security_scheme, authenticate}
use otus_highload.Auth.Keys.{
  FakeAuthenticator, new_fake_authenticator, public_key, sign_token, jwt_of,
}
use otus_highload.Auth.Session.{authenticate-post_login}
use otus_highload.Samples.Tables.{strangers}
use otus_highload.Samples.Keys.{Key, number_jwx, raw_key, with_attribute}
use otus_highload.Samples.Tokens.{token_jwt}

authenticate-post_login_example :
    (user : String) × (some "ann" ≡ some user)
    × (authenticate token_jwt (Text.◌++◌ prefix "ann") [] security_scheme
        ≡ value (record { user_id = user; token = Text.◌++◌ prefix "ann" }))
unfolding otus_highload.Http.Login.post_login otus_highload.Http.Login.login
    otus_highload.Storage.Users.get_password_hash create_jws
authenticate-post_login_example =
    authenticate-post_login token_jwt (λ hash password. true) none (some "ann") (some "pw")
      strangers "ann" refl

abbrev seven : FakeAuthenticator ℕ Key
seven = record {
  private_key = 7;
  key_set = with_attribute (with_attribute (raw_key 7) "alg" "ES256") "kid" "fake-key-id" ∷ [];
}

seven_made : new_fake_authenticator number_jwx "pem" ≡ ok seven
unfolding new_fake_authenticator public_key
seven_made = refl

authenticate_with_keys :
    (user : String) × (some "ann" ≡ some user)
    × (authenticate
          (jwt_of number_jwx "pem" seven seven_made)
          (Text.◌++◌ prefix "ann")
          []
          security_scheme
        ≡ value (record { user_id = user; token = Text.◌++◌ prefix "ann" }))
unfolding otus_highload.Http.Login.post_login otus_highload.Http.Login.login
    otus_highload.Storage.Users.get_password_hash create_jws sign_token
authenticate_with_keys =
    authenticate-post_login (jwt_of number_jwx "pem" seven seven_made) (λ hash password. true) none
      (some "ann") (some "pw") strangers "ann" refl
