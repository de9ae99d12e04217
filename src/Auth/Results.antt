-- ===== src/Auth/Results.antt =====
-- Steps of Auth/Jws that returned no error, and texts that differ.
use otus_highload.Base.{String, ◌≡◌, ◌≢◌, refl, false, ◌==◌, arith, eq_iff}
use otus_highload.Base.Errors.{Result, ok, err}
use otus_highload.Auth.Jws.{and_then, named}

pub apart : {s t : String} → (s == t) ≡ false → s ≢ t
apart {s} {t} h = λ e. ground (arith, h, eq_iff s t, e)

pub and_then-ok :
    {A B : Type 0} (r : Result A) (f : A → Result B) (b : B)
    → and_then r f ≡ ok b
    → (a : A) × (r ≡ ok a) × (f a ≡ ok b)
and_then-ok (ok a) f b h = (a, refl, h)
and_then-ok (err e) f b h = cc

pub named-ok :
    {A : Type 0} (message : String) (r : Result A) (a : A) → named message r ≡ ok a → r ≡ ok a
named-ok message (ok b) a h = h
named-ok message (err e) a h = cc
