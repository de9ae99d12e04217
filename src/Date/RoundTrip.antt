-- ===== src/Date/RoundTrip.antt =====
-- Dates are read back as they were written, and nothing else is read as a date.
use otus_highload.Base.{
  ℕ, ◌/◌, ◌%◌, ◌<◌, ◌≡◌, refl, sym, true, List, [], ◌∷◌, Option, none, some, arith, ltb, inl, inr,
  Bool-cases,
}
use otus_highload.Base.Errors.{Result, ok, err}
use otus_highload.Feed.Notifier.{Codec}
use otus_highload.Date.{
  Date, digit, hyphen, append_year, append_two, format, days_in, is_date, two_digits, four_digits,
  parse_error, date_of, parse, marshal_json, unmarshal_json,
}
use otus_highload.Date.Digits.{
  two_digits-digit, digit-two_digits, four_digits-digit, digit-four_digits,
}

-- A day of the calendar in a year of at most four digits.
abbrev pub IsDay : Date → Type 0
IsDay d = (d.year < 10000) × (is_date d.year d.month d.day ≡ true)

days_in-bound : (m y : ℕ) → days_in m y < 32
unfolding days_in
days_in-bound m y = ground arith

is_date-bounds : (y m d : ℕ) → is_date y m d ≡ true → (m < 100) × (d < 100)
unfolding is_date
is_date-bounds y m d h = ground (arith, days_in-bound m y)

date_of-is_date :
    (y m d : ℕ)
    → is_date y m d ≡ true
    → date_of (some y) (some m) (some d) ≡ ok (record { year = y; month = m; day = d })
unfolding date_of
date_of-is_date y m d h = rw h refl

append_year-short :
    (y : ℕ) (rest : List ℕ)
    → y < 10000
    → append_year y rest
      ≡ digit (y / 1000) ∷ digit (y / 100 % 10) ∷ digit (y / 10 % 10) ∷ digit (y % 10) ∷ rest
unfolding append_year
append_year-short y rest h = let small : ltb y 10000 ≡ true = ground arith in rw small refl

parse-format : (d : Date) → IsDay d → parse (format d) ≡ ok d
unfolding parse format append_two
parse-format d (short, day) =
    let (m, n) = is_date-bounds d.year d.month d.day day in
    rw
      (
        append_year-short d.year (hyphen ∷ append_two d.month (hyphen ∷ append_two d.day [])) short,
        four_digits-digit d.year short,
        two_digits-digit d.month m,
        two_digits-digit d.day n,
      )
      (date_of-is_date d.year d.month d.day day)

abbrev read_error : Result Date
read_error = err parse_error

-- What the three parts of a date were read from.
date_of-ok :
    (y m n : Option ℕ) (d : Date)
    → date_of y m n ≡ ok d
    → (y ≡ some d.year)
      × (m ≡ some d.month)
      × (n ≡ some d.day)
      × (is_date d.year d.month d.day ≡ true)
unfolding date_of
date_of-ok none m n d h = cc
date_of-ok (some y) none n d h = cc
date_of-ok (some y) (some m) none d h = cc
date_of-ok (some y) (some m) (some n) d h = elim (Bool-cases (is_date y m n)) [
  | inl day ↦
      let same : ok (record { year = y; month = m; day = n }) ≡ ok d = rw day at h in
      let date : record { year = y; month = m; day = n } ≡ d = ground arith in
      rw (sym date) (refl, refl, refl, day)
  | inr invalid ↦ let bad : read_error ≡ ok d = rw invalid at h in cc
]

parse_parts :
    (a b c e h₁ m n h₂ x y : ℕ) (d : Date)
    → parse (a ∷ b ∷ c ∷ e ∷ h₁ ∷ m ∷ n ∷ h₂ ∷ x ∷ y ∷ []) ≡ ok d
    → (h₁ ≡ hyphen)
      × (h₂ ≡ hyphen)
      × (date_of (four_digits a b c e) (two_digits m n) (two_digits x y) ≡ ok d)
unfolding parse
parse_parts a b c e h₁ m n h₂ x y d h = ground arith

-- A text of bytes that parses as a date is what the date is formatted as, and the date is a day of
-- the calendar in a year of at most four digits.
pub format-parse : (s : List ℕ) (d : Date) → parse s ≡ ok d → IsDay d × (format d ≡ s)
unfolding parse format append_two
format-parse [] d h = cc
format-parse (a ∷ []) d h = cc
format-parse (a ∷ b ∷ []) d h = cc
format-parse (a ∷ b ∷ c ∷ []) d h = cc
format-parse (a ∷ b ∷ c ∷ e ∷ []) d h = cc
format-parse (a ∷ b ∷ c ∷ e ∷ f ∷ []) d h = cc
format-parse (a ∷ b ∷ c ∷ e ∷ f ∷ m ∷ []) d h = cc
format-parse (a ∷ b ∷ c ∷ e ∷ f ∷ m ∷ n ∷ []) d h = cc
format-parse (a ∷ b ∷ c ∷ e ∷ f ∷ m ∷ n ∷ g ∷ []) d h = cc
format-parse (a ∷ b ∷ c ∷ e ∷ f ∷ m ∷ n ∷ g ∷ x ∷ []) d h = cc
format-parse (a ∷ b ∷ c ∷ e ∷ f ∷ m ∷ n ∷ g ∷ x ∷ y ∷ z ∷ rest) d h = cc
format-parse (a ∷ b ∷ c ∷ e ∷ f ∷ m ∷ n ∷ g ∷ x ∷ y ∷ []) d h =
    let (p, q, parts) = parse_parts a b c e f m n g x y d h in
    let (year, month, day, valid) = date_of-ok _ _ _ d parts in
    let (short, y₁, y₂, y₃, y₄) = digit-four_digits a b c e d.year year in
    let (_, m₁, m₂) = digit-two_digits m n d.month month in
    let (_, d₁, d₂) = digit-two_digits x y d.day day in
    (
      (short, valid),
      rw
          (
            append_year-short d.year (hyphen ∷ append_two d.month (hyphen ∷ append_two d.day []))
                short,
            y₁,
            y₂,
            y₃,
            y₄,
            m₁,
            m₂,
            d₁,
            d₂,
            p,
            q,
          )
          refl,
    )

-- A day of the calendar in a year of at most four digits that is marshalled is what the bytes are
-- unmarshalled as, if the JSON of a text is read back as it was written.
pub unmarshal_json-marshal_json :
    {Raw : Type 0} (json : Codec Raw (List ℕ)) (d : Date) (raw : Raw)
    → IsDay d
    → marshal_json json d ≡ ok raw
    → unmarshal_json json raw ≡ ok d
unfolding marshal_json unmarshal_json
unmarshal_json-marshal_json json d raw valid h =
    rw (json.round (format d) raw h) (parse-format d valid)
