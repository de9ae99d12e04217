-- ===== src/Date.antt =====
-- backend/social/internal/model/date.go, with the layout "2006-01-02" of the package time. Texts are
-- lists of bytes, years are not negative, and the time of day and the zone of a time.Time are left
-- out.
pub mod Digits
pub mod RoundTrip
mod Tests
use otus_highload.Base.{
  ℕ, zero, suc, ◌+◌, ◌-◌, ◌*◌, ◌/◌, ◌%◌, Bool, true, false, ◌&&◌, ◌||◌, not, List, [], ◌∷◌, Option,
  none, some, eqb, leb, ltb, if◌then◌else◌,
}
use otus_highload.Base.Errors.{Error, Result, ok, err, other}
use otus_highload.Feed.Notifier.{Codec}

pub record Date : Type 0 where
  pub year : ℕ
  pub month : ℕ
  pub day : ℕ

abbrev pub digit : ℕ → ℕ
digit n = 48 + n

abbrev pub hyphen : ℕ
hyphen = 45

-- The digits of a number in front of others; `fuel` is at least the number.
unfoldable pub decimal : ℕ → ℕ → List ℕ → List ℕ
decimal zero n rest = digit n ∷ rest
decimal (suc fuel) n rest =
    let longer = decimal fuel (n / 10) (digit (n % 10) ∷ rest) in
    if ltb n 10 then digit n ∷ rest else longer

-- A year has four digits, or as many as it needs.
unfoldable pub append_year : ℕ → List ℕ → List ℕ
unfolding decimal
append_year y rest =
    if ltb y 10000
    then digit (y / 1000) ∷ digit (y / 100 % 10) ∷ digit (y / 10 % 10) ∷ digit (y % 10) ∷ rest
    else decimal y y rest

-- A month or a day.
unfoldable pub append_two : ℕ → List ℕ → List ℕ
append_two n rest = digit (n / 10) ∷ digit (n % 10) ∷ rest

-- Time.Format(DateFormat)
unfoldable pub format : Date → List ℕ
unfolding append_year append_two
format d = append_year d.year (hyphen ∷ append_two d.month (hyphen ∷ append_two d.day []))

unfoldable pub is_leap : ℕ → Bool
is_leap y = eqb (y % 4) 0 && (not (eqb (y % 100) 0) || eqb (y % 400) 0)

unfoldable pub days_in : ℕ → ℕ → ℕ
unfolding is_leap
days_in m y =
    if eqb m 2
    then (if is_leap y then 29 else 28)
    else if eqb m 4 || eqb m 6 || eqb m 9 || eqb m 11
    then 30
    else 31

unfoldable pub is_date : ℕ → ℕ → ℕ → Bool
unfolding days_in
is_date y m d = leb 1 m && leb m 12 && leb 1 d && leb d (days_in m y)

abbrev pub is_digit : ℕ → Bool
is_digit b = leb 48 b && leb b 57

unfoldable pub two_digits : ℕ → ℕ → Option ℕ
two_digits a b = if is_digit a && is_digit b then some (10 * (a - 48) + (b - 48)) else none

unfoldable pub four_digits : ℕ → ℕ → ℕ → ℕ → Option ℕ
four_digits a b c d =
    if is_digit a && is_digit b && is_digit c && is_digit d
    then some (1000 * (a - 48) + 100 * (b - 48) + 10 * (c - 48) + (d - 48))
    else none

-- Any *time.ParseError.
abbrev pub parse_error : Error
parse_error = other "parsing time"

unfoldable pub date_of : Option ℕ → Option ℕ → Option ℕ → Result Date
unfolding is_date
date_of (some y) (some m) (some d) =
    if is_date y m d then ok (record { year = y; month = m; day = d }) else err parse_error
date_of _ _ _ = err parse_error

-- time.Parse(DateFormat, …): every part has a fixed width, so that a text of another length fails.
unfoldable pub parse : List ℕ → Result Date
unfolding date_of two_digits four_digits
parse (y₁ ∷ y₂ ∷ y₃ ∷ y₄ ∷ h₁ ∷ m₁ ∷ m₂ ∷ h₂ ∷ d₁ ∷ d₂ ∷ []) =
    if eqb h₁ hyphen && eqb h₂ hyphen
    then date_of (four_digits y₁ y₂ y₃ y₄) (two_digits m₁ m₂) (two_digits d₁ d₂)
    else err parse_error
parse _ = err parse_error

-- Date.UnmarshalText
unfoldable pub unmarshal_text : List ℕ → Result Date
unfolding parse
unmarshal_text bytes = parse bytes

-- encoding/json of a text.
module _ {Raw : Type 0} (json : Codec Raw (List ℕ)) where
  unfoldable pub marshal_json : Date → Result Raw
  unfolding format
  marshal_json d = json.marshal (format d)

  abbrev pub parsed : Result (List ℕ) → Result Date
  parsed (err e) = err e
  parsed (ok text) = parse text

  unfoldable pub unmarshal_json : Raw → Result Date
  unfolding parse
  unmarshal_json raw = parsed (json.unmarshal raw)

-- What the driver of the database hands to Scan: a time or anything else.
pub data DriverValue : Type 0 where
  time : Date → DriverValue
  no_time : DriverValue

unfoldable pub scan : DriverValue → Result Date
scan (time d) = ok d
scan no_time = err (other "unsupported Scan")

-- Date.Value
unfoldable pub value : Date → DriverValue
value d = time d
