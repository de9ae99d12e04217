-- ===== src/Middleware/Routing.antt =====
-- backend/pkg/http/server/skip_validator.go: the requests that reach a handler without the validator.
use otus_highload.Base.{
  String, ◌≡◌, refl, ◌||◌, List, [], ◌∷◌, any, ◌==◌, eq_iff, arith, if◌then◌else◌,
}
use otus_highload.Base.Maps.{assign, has_key, has_key-erase_other}

-- The loop that fills the set.
unfoldable skipped_routes_set : List String → List (String × Unit {0}) → List (String × Unit {0})
skipped_routes_set [] set = set
skipped_routes_set (v ∷ routes) set = skipped_routes_set routes (assign v tt set)

module _ {Request Answer : Type 0} (path : Request → String) where
  unfoldable pub skip_validator_for_manual_routes :
      ((Request → Answer) → Request → Answer) → (Request → Answer) → List String → Request → Answer
  unfolding skipped_routes_set
  skip_validator_for_manual_routes validator next routes r =
      if has_key (path r) (skipped_routes_set routes []) then next r else validator next r

has_key-assign :
    (k v : String) (set : List (String × Unit {0}))
    → has_key k (assign v tt set) ≡ ((v == k) || has_key k set)
has_key-assign k v set = ground (arith, has_key-erase_other v k set, eq_iff v k)

has_key-skipped_routes_set :
    (k : String) (routes : List String) (set : List (String × Unit {0}))
    → has_key k (skipped_routes_set routes set) ≡ (any (λ v. v == k) routes || has_key k set)
unfolding skipped_routes_set
has_key-skipped_routes_set k [] set = refl
has_key-skipped_routes_set k (v ∷ routes) set =
    ground (arith, has_key-skipped_routes_set k routes (assign v tt set), has_key-assign k v set)

-- A request goes past the validator if and only if its path is one of the listed routes.
pub skip_validator-any :
    {Request Answer : Type 0} (path : Request → String)
    (validator : (Request → Answer) → Request → Answer) (next : Request → Answer)
    (routes : List String) (r : Request)
    → skip_validator_for_manual_routes path validator next routes r
      ≡ (if any (λ v. v == path r) routes then next r else validator next r)
unfolding skip_validator_for_manual_routes
skip_validator-any path validator next routes r =
    ground (arith, has_key-skipped_routes_set (path r) routes [])
