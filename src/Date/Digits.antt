-- ===== src/Date/Digits.antt =====
-- Digits and numbers.
use otus_highload.Base.{ℕ, ◌/◌, ◌%◌, ◌<◌, ◌≡◌, some, arith}
use otus_highload.Date.{digit, two_digits, four_digits}

pub two_digits-digit : (n : ℕ) → n < 100 → two_digits (digit (n / 10)) (digit (n % 10)) ≡ some n
unfolding two_digits
two_digits-digit n h = ground arith

pub digit-two_digits :
    (a b n : ℕ) → two_digits a b ≡ some n → (n < 100) × (digit (n / 10) ≡ a) × (digit (n % 10) ≡ b)
unfolding two_digits
digit-two_digits a b n h = ground arith

pub four_digits-digit :
    (n : ℕ)
    → n < 10000
    → four_digits (digit (n / 1000)) (digit (n / 100 % 10)) (digit (n / 10 % 10)) (digit (n % 10))
      ≡ some n
unfolding four_digits
four_digits-digit n h = ground arith

pub digit-four_digits :
    (a b c d n : ℕ)
    → four_digits a b c d ≡ some n
    → (n < 10000)
      × (digit (n / 1000) ≡ a)
      × (digit (n / 100 % 10) ≡ b)
      × (digit (n / 10 % 10) ≡ c)
      × (digit (n % 10) ≡ d)
unfolding four_digits
digit-four_digits a b c d n h = ground arith
