-- ===== src/Base/Int.antt =====
-- Go's `int` on a 64-bit machine: two's complement, with wrap-around.
use Prim.Native.Nat.{ℕ, ◌+◌, ◌-◌, ◌%◌, ◌^◌, ◌<◌, ◌≤◌}
use mathlib.Core.Path.{◌≡◌}
use mathlib.Core.Bool.{Bool, true, false}
use native.Mathlib.Omega.{arith}
use otus_highload.Base.Tests.{ltb, if◌then◌else◌}

-- `negsuc n` is -(n + 1).
pub data ℤ : Type 0 where
  pos : ℕ → ℤ
  negsuc : ℕ → ℤ

abbrev pub ltz : ℤ → ℤ → Bool
ltz (pos a) (pos b) = ltb a b
ltz (pos a) (negsuc b) = false
ltz (negsuc a) (pos b) = true
ltz (negsuc a) (negsuc b) = ltb b a

-- The 64 bits of a value, and the value of 64 bits.
abbrev bits : ℤ → ℕ
bits (pos n) = n % 2 ^ 64
bits (negsuc n) = 2 ^ 64 - 1 - n % 2 ^ 64

abbrev of_bits : ℕ → ℤ
of_bits n = if ltb n (2 ^ 63) then pos n else negsuc (2 ^ 64 - 1 - n)

-- a + b on int64.
unfoldable pub add_int : ℤ → ℤ → ℤ
add_int a b = of_bits ((bits a + bits b) % 2 ^ 64)

pub add_int_in_range : (a b : ℕ) → a + b < 2 ^ 63 → add_int (pos a) (pos b) ≡ pos (a + b)
unfolding add_int
add_int_in_range a b h = ground arith

-- The sum of two positive values that leaves the range is negative.
pub add_int_overflow :
    (a b : ℕ)
    → a < 2 ^ 63
    → b < 2 ^ 63
    → 2 ^ 63 ≤ a + b
    → add_int (pos a) (pos b) ≡ negsuc (2 ^ 64 - 1 - (a + b))
unfolding add_int
add_int_overflow a b p q h = ground arith
