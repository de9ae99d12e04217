-- ===== src/Base/Errors.antt =====
-- pkg/model/errors.go, and Go's error values as the services test them.
use Prim.Native.Nat.{ℕ}
use Prim.Native.String.{String}
use mathlib.Core.Path.{◌≡◌, refl}
use mathlib.Core.Logic.{◌⊎◌, inl, inr}
use mathlib.Core.Bool.{Bool}
use otus_highload.Base.Tests.{eqb}

-- The sentinels of pkg/model, the two kinds of pgx errors that the storages tell apart, any other
-- error, the one of a connection that ends after the server has run a statement, and `fmt.Errorf("…: %w", err)`.
pub data Error : Type 0 where
  user_not_found user_already_exists not_valid_password not_valid_credentials : Error
  not_authorized claims_invalid post_not_found post_feed_len_not_valid : Error
  not_valid_cache not_valid_dialog : Error
  no_rows : Error
  pg_error : String → Error
  other : String → Error
  lost : Error
  wrapped : String → Error → Error

pub data Result {ℓ} (A : Type ℓ) : Type ℓ where
  ok : A → Result A
  err : Error → Result A

-- The identity of a sentinel, under any number of wrappers.
unfoldable pub tag : Error → ℕ
tag user_not_found = 1
tag user_already_exists = 2
tag not_valid_password = 3
tag not_valid_credentials = 4
tag not_authorized = 5
tag claims_invalid = 6
tag post_not_found = 7
tag post_feed_len_not_valid = 8
tag not_valid_cache = 9
tag not_valid_dialog = 10
tag no_rows = 11
tag (pg_error code) = 12
tag (other message) = 13
tag lost = 14
tag (wrapped message e) = tag e

-- errors.Is(e, target), for a target that is one of the sentinels.
unfoldable pub errors_is : Error → Error → Bool
unfolding tag
errors_is e target = eqb (tag e) (tag target)

pub Result-cases {ℓ} :
    {A : Type ℓ} (r : Result A) → ((a : A) × (r ≡ ok a)) ⊎ ((e : Error) × (r ≡ err e))
Result-cases (ok a) = inl (a, refl)
Result-cases (err e) = inr (e, refl)
