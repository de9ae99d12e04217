-- ===== src/Http/Routes.antt =====
-- The router of backend/social/cmd/server/main.go: NewManualRouter and authenticate of
-- backend/social/internal/server/http/manual_routes.go behind the validator, which the listed routes
-- pass by.
mod Tests
use otus_highload.Base.{
  ℕ, String, ◌≡◌, ◌≢◌, refl, sym, ap, ◌∙◌, Bool, true, false, List, [], ◌∷◌, Option, any, ◌==◌,
  eq_iff, inl, inr, Bool-cases, if◌then◌else◌, arith,
}
use otus_highload.Base.Errors.{Error}
use otus_highload.Auth.{Jwt}
use otus_highload.Auth.Jws.{Extracted, failed}
use otus_highload.Auth.Authenticator.{Context, authenticate, security_scheme}
use otus_highload.Feed.Notifier.{FeedJson}
use otus_highload.Feed.Subscriber.{Hub}
use otus_highload.Http.Socket.{
  Outcome, refused, stopped, served, Frame, Course, cache_invalidate, post_feed_socket,
}
use otus_highload.Middleware.Routing.{skip_validator_for_manual_routes, skip_validator-any}

abbrev pub metrics_route : String
metrics_route = "/metrics"

abbrev pub cache_invalidate_route : String
cache_invalidate_route = "/internal/cache/invalidate"

abbrev pub post_feed_route : String
post_feed_route = "/post/feed/posted"

abbrev pub skipped_routes : List String
skipped_routes = metrics_route ∷ cache_invalidate_route ∷ post_feed_route ∷ []

-- What the routes read of a request; `content` is the rest, for the generated handlers.
pub record Request (Content : Type 0) : Type 0 where
  pub method : String
  pub path : String
  pub authorization : String
  pub content : Content

-- The queue of notifications, the subscriptions, and what the other handlers work on.
pub record World (Raw Rest : Type 0) : Type 0 where
  pub queue : List Raw
  pub hub : Hub
  pub rest : Rest

pub data Answer : Type 0 where
  status : ℕ → Answer
  metrics : Answer
  aborted : Answer
  connection : List Frame → Bool → Answer

abbrev pub socket_answer : Outcome → Answer
socket_answer (refused code) = status code
socket_answer stopped = aborted
socket_answer (served frames returned) = connection frames returned

-- What a request meets: the failures of the broker, and the course of a WebSocket.
pub record Meets : Type 0 where
  pub fault : Option Error
  pub course : Course

abbrev pub Handler : Type 0 → Type 0 → Type 0 → Type 0
Handler Raw Content Rest = Request Content → World Raw Rest → Answer × World Raw Rest

-- The authentication of a request without a validator, with no scopes.
unfoldable pub authenticate_request :
    {Token Content : Type 0} → Jwt Token → Request Content → Extracted Context
authenticate_request jwt r = authenticate jwt r.authorization [] security_scheme

-- What the documentation says of the validator: a request whose operation has a security requirement
-- is refused unless the authentication succeeds.
abbrev pub Validates :
    {Token Raw Content Rest : Type 0}
    → Jwt Token
    → (Request Content → Bool)
    → (Handler Raw Content Rest → Handler Raw Content Rest)
    → Type 0
Validates {Raw = Raw} {Content} {Rest} jwt secured validator =
    (next : Handler Raw Content Rest) (r : Request Content) (w : World Raw Rest) (e : Error)
    → secured r ≡ true
    → authenticate_request jwt r ≡ failed e
    → validator next r w ≡ (status 401, w)

any_skipped :
    (path : String)
    → path ≢ metrics_route
    → path ≢ cache_invalidate_route
    → any (λ v. v == path) skipped_routes ≡ (post_feed_route == path)
any_skipped path no_metrics no_invalidation =
    ground (arith, eq_iff metrics_route path, eq_iff cache_invalidate_route path)

module _ {Token Raw Content Rest : Type 0} (jwt : Jwt Token) (json : FeedJson Raw) where
  unfoldable pub manual_router : Meets → Handler Raw Content Rest → Handler Raw Content Rest
  unfolding authenticate_request
  manual_router meets generated r w =
      let (code, queue) = cache_invalidate json meets.fault w.queue in
      let (outcome, hub) = post_feed_socket meets.course (authenticate_request jwt r) w.hub in
      if r.path == metrics_route
      then (if r.method == "GET" then (metrics, w) else (status 405, w))
      else if r.path == cache_invalidate_route
      then (if r.method == "POST"
          then (status code, record w { queue = queue })
          else (status 405, w))
      else if r.path == post_feed_route
      then (socket_answer outcome, record w { hub = hub })
      else generated r w

  -- The routes with their middleware. `validator` is that of oapi-codegen.
  unfoldable pub social_routes :
      (Handler Raw Content Rest → Handler Raw Content Rest)
      → Meets
      → Handler Raw Content Rest
      → Handler Raw Content Rest
  unfolding manual_router
  social_routes validator meets generated =
      skip_validator_for_manual_routes (λ r. r.path) validator (manual_router meets generated)
        skipped_routes

  socket-unauthorized :
      (meets : Meets) (generated : Handler Raw Content Rest) (r : Request Content)
      (w : World Raw Rest) (e : Error)
      → authenticate_request jwt r ≡ failed e
      → r.path ≡ post_feed_route
      → manual_router meets generated r w ≡ (status 401, w)
  unfolding manual_router post_feed_socket
  socket-unauthorized meets generated r w e bad socket = rw (socket, bad) refl

  -- A request that fails the authentication is answered with 401 and changes nothing, unless it goes
  -- to the metrics, to the invalidation of the caches, or to an operation without a security
  -- requirement, if the validator does what it promises.
  pub social_routes-unauthorized :
      (secured : Request Content → Bool)
      (validator : Handler Raw Content Rest → Handler Raw Content Rest) (meets : Meets)
      (generated : Handler Raw Content Rest) (r : Request Content) (w : World Raw Rest) (e : Error)
      → Validates jwt secured validator
      → authenticate_request jwt r ≡ failed e
      → r.path ≢ metrics_route
      → r.path ≢ cache_invalidate_route
      → (r.path ≢ post_feed_route → secured r ≡ true)
      → social_routes validator meets generated r w ≡ (status 401, w)
  unfolding social_routes
  social_routes-unauthorized secured validator meets generated r w e validates bad no_metrics
        no_invalidation needs =
      ap (λ h. h w)
        (skip_validator-any (λ r. r.path) validator (manual_router meets generated) skipped_routes
          r)
      ∙ elim (Bool-cases (post_feed_route == r.path)) [
        | inl socket ↦
            let listed : any (λ v. v == r.path) skipped_routes ≡ true =
              any_skipped r.path no_metrics no_invalidation ∙ socket in
            rw listed (
              socket-unauthorized meets generated r w e bad
                (sym ((eq_iff post_feed_route r.path).0 socket)))
        | inr other ↦
            let listed : any (λ v. v == r.path) skipped_routes ≡ false =
              any_skipped r.path no_metrics no_invalidation ∙ other in
            rw listed (
              validates (manual_router meets generated) r w e
                (needs (λ same. cc ((eq_iff post_feed_route r.path).1 (sym same), other))) bad)
      ]
