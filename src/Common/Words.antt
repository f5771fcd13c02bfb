-- ===== src/Common/Words.antt =====
-- Machine integers. A `size_t` is a number below 2 ^ 64, an `int64_t` is kept as its bit pattern
-- where it is computed with, and every conversion of the source is one function here.
use Prim.Native.Nat.{ℕ, ◌+◌, ◌-◌, ◌%◌, ◌^◌, ◌<◌}
use mathlib.Core.Path.{◌≡◌}
use native.Mathlib.Omega.{arith}
use mathlib.Core.Bool.{Bool, false}
use cross_plaform_serial.Common.Tests.{ltb, if◌then◌else◌}

-- `negsuc n` is -(n + 1).
pub data ℤ : Type 0 where
  pos : ℕ → ℤ
  negsuc : ℕ → ℤ

abbrev pub minus_one : ℤ
minus_one = negsuc 0

abbrev pub is_positive : ℤ → Bool
is_positive (pos n) = ltb 0 n
is_positive (negsuc n) = false

-- `int64_t` addition and subtraction, as the atomic `fetch_add` and `fetch_sub` wrap.
abbrev pub add64 : ℕ → ℕ → ℕ
add64 a b = (a + b) % 2 ^ 64

abbrev pub sub64 : ℕ → ℕ → ℕ
sub64 a b = (a + 2 ^ 64 - b % 2 ^ 64) % 2 ^ 64

-- The integer that a 64-bit pattern stands for: `static_cast<std::int64_t>` of a `size_t`.
abbrev pub signed64 : ℕ → ℤ
signed64 w = if ltb w (2 ^ 63) then pos w else negsuc (2 ^ 64 - w - 1)

-- `static_cast<std::int32_t>` of a `size_t`.
abbrev pub signed32 : ℕ → ℤ
signed32 n = let w = n % 2 ^ 32 in if ltb w (2 ^ 31) then pos w else negsuc (2 ^ 32 - w - 1)

-- `static_cast<std::size_t>` of a signed integer.
abbrev pub to_size : ℤ → ℕ
to_size (pos n) = n % 2 ^ 64
to_size (negsuc n) = 2 ^ 64 - 1 - n % 2 ^ 64

-- `static_cast<unsigned>` of an `int32_t`.
abbrev pub to_unsigned : ℤ → ℕ
to_unsigned (pos n) = n % 2 ^ 32
to_unsigned (negsuc n) = 2 ^ 32 - 1 - n % 2 ^ 32

pub signed64-pos : (n : ℕ) → n < 2 ^ 63 → signed64 n ≡ pos n
signed64-pos n h = ground arith

pub to_size-signed64 : (n : ℕ) → n < 2 ^ 64 → to_size (signed64 n) ≡ n
to_size-signed64 n h = ground arith

pub sub64-add64 : (a b : ℕ) → a < 2 ^ 64 → b < 2 ^ 64 → sub64 (add64 a b) b ≡ a
sub64-add64 a b h k = omega arith
