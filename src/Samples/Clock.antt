-- ===== src/Samples/Clock.antt =====
-- A format of times that is read back.
use Prim.Native.String as Text
use Prim.Native.String.{len}
use text.Mathlib.TextPositions.{len-append}
use otus_highload.Base.{ℕ, zero, suc, ap, String, ◌≡◌, refl, arith}
use otus_highload.Base.Errors.{ok}
use otus_highload.Dialog.Memory.{whole_second, TimeFormat}

-- A clock that writes the second of a microsecond as an unary number of microseconds.
abbrev pub ticks : ℕ → String
ticks zero = ""
ticks (suc n) = Text.◌++◌ "." (ticks n)

pub ticks-len : (n : ℕ) → len (ticks n) ≡ n
ticks-len zero = refl
ticks-len (suc n) = omega (arith, len-append "." (ticks n), ticks-len n)

abbrev pub clock : TimeFormat
clock = record {
  date = λ t. ticks (whole_second t);
  parse = λ s. ok (len s);
  round = λ t. ap ok (ticks-len (whole_second t));
}
