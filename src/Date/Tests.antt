-- ===== src/Date/Tests.antt =====
-- The last day of a February.
use otus_highload.Base.{ℕ, ◌≡◌, refl, List, [], ◌∷◌}
use otus_highload.Date.{Date, parse, format}
use otus_highload.Date.RoundTrip.{IsDay, format-parse}

abbrev leap_day : Date
leap_day = record { year = 2024; month = 2; day = 29 }

-- 2024-02-29
abbrev written : List ℕ
written = 50 ∷ 48 ∷ 50 ∷ 52 ∷ 45 ∷ 48 ∷ 50 ∷ 45 ∷ 50 ∷ 57 ∷ []

format-parse_example : IsDay leap_day × (format leap_day ≡ written)
unfolding parse
format-parse_example = format-parse written leap_day refl
