-- ===== src/Common/Int.antt =====
-- Go's signed 64-bit `int` over the native numbers, and its conversions from and to uint64.
use realtime_go.Common.{ℕ, ◌-◌, ◌^◌, ◌<◌, ◌≡◌, arith, ltb, if◌then◌else◌}

-- `negsuc n` is -(n + 1).
pub data ℤ : Type 0 where
  pos : ℕ → ℤ
  negsuc : ℕ → ℤ

abbrev pub IsI64 : ℤ → Type 0
IsI64 (pos n) = n < 2 ^ 63
IsI64 (negsuc n) = n < 2 ^ 63

-- int(w): the two's complement reading of 64 bits.
unfoldable pub int_of_u64 : ℕ → ℤ
int_of_u64 w = if ltb w (2 ^ 63) then pos w else negsuc (2 ^ 64 - 1 - w)

-- uint64(i).
unfoldable pub u64_of_int : ℤ → ℕ
u64_of_int (pos n) = n
u64_of_int (negsuc n) = 2 ^ 64 - 1 - n

pub u64_of_int-lt : (i : ℤ) → IsI64 i → u64_of_int i < 2 ^ 64
unfolding u64_of_int
u64_of_int-lt (pos n) h = omega arith
u64_of_int-lt (negsuc n) h = omega arith

pub int_of_u64-u64_of_int : (i : ℤ) → IsI64 i → int_of_u64 (u64_of_int i) ≡ i
unfolding int_of_u64 u64_of_int
int_of_u64-u64_of_int (pos n) h = ground arith
int_of_u64-u64_of_int (negsuc n) h = ground arith
