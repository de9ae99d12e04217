-- ===== src/Http/Routes/Tests.antt =====
-- A validator that authenticates every request, and a request without a token.
use otus_highload.Base.{String, ◌≡◌, refl, true, [], none}
use otus_highload.Base.Errors.{ok, wrapped, other}
use otus_highload.Auth.Jws.{Extracted, value, failed, panicked}
use otus_highload.Auth.Authenticator.{Context}
use otus_highload.Auth.Results.{apart}
use otus_highload.Http.Routes.{
  Request, World, Answer, status, aborted, Meets, Handler, authenticate_request, Validates,
  social_routes, social_routes-unauthorized,
}
use otus_highload.Samples.Formats.{FeedMessage, feed_json}
use otus_highload.Samples.Tokens.{token_jwt}

abbrev allow :
    Extracted Context
    → Answer × World FeedMessage (Unit {0})
    → World FeedMessage (Unit {0})
    → Answer × World FeedMessage (Unit {0})
allow (value c) answered w = answered
allow (failed e) answered w = (status 401, w)
allow panicked answered w = (aborted, w)

abbrev strict : Handler FeedMessage String (Unit {0}) → Handler FeedMessage String (Unit {0})
strict next r w = allow (authenticate_request token_jwt r) (next r w) w

strict-Validates : Validates token_jwt (λ r. true) strict
strict-Validates next r w e needed bad = rw bad refl

abbrev me : Request String
me = record { method = "GET"; path = "/user/me"; authorization = ""; content = "" }

abbrev quiet : World FeedMessage (Unit {0})
quiet = record {
  queue = [];
  hub = record { consumers = []; active_subscribers = []; closed = []; stopped = [] };
  rest = tt;
}

abbrev plain : Meets
plain = record {
  fault = none;
  course = record {
    upgraded = true;
    prepared = ok 1;
    fresh_id = "s";
    fresh_channel = 5;
    events = [];
    meanwhile = λ h. h;
    fault = none;
  };
}

social_routes-unauthorized_example :
    social_routes token_jwt feed_json strict plain (λ r w. (status 200, w)) me quiet
    ≡ (status 401, quiet)
unfolding authenticate_request otus_highload.Auth.Authenticator.authenticate
    otus_highload.Auth.Authenticator.get_jws_from_request
social_routes-unauthorized_example =
    social_routes-unauthorized token_jwt feed_json (λ r. true) strict plain (λ r w. (status 200, w))
      me quiet (wrapped "getting jws" (other "authorization header is missing")) strict-Validates
      refl (apart refl) (apart refl) (λ h. refl)
