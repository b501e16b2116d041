-- ===== src/Prelude/Int.antt =====
-- Signed integers over the native numbers, and Go's conversions between `int32` and `uint32`.
use cosnet.Prelude.{ℕ, suc, ◌+◌, ◌-◌, ◌%◌, ◌^◌, ◌<◌, ◌≤◌, ◌≡◌, Bool, arith, ltb, leb, if◌then◌else◌}

-- `negsuc n` is -(n + 1).
pub data ℤ : Type 0 where
  pos : ℕ → ℤ
  negsuc : ℕ → ℤ

abbrev pub pos_part : ℤ → ℕ
pos_part (pos n) = n
pos_part (negsuc n) = 0

abbrev pub neg_part : ℤ → ℕ
neg_part (pos n) = 0
neg_part (negsuc n) = suc n

-- a - b, as an integer.
abbrev pub sub_ℕ : ℕ → ℕ → ℤ
sub_ℕ a b = if leb b a then pos (a - b) else negsuc (b - a - 1)

infix 50 ◌<ℤ◌ ◌≤ℤ◌
abbrev pub ◌≤ℤ◌ : ℤ → ℤ → Type 0
a ≤ℤ b = pos_part a + neg_part b ≤ pos_part b + neg_part a

abbrev pub ◌<ℤ◌ : ℤ → ℤ → Type 0
a <ℤ b = pos_part a + neg_part b < pos_part b + neg_part a

abbrev pub ltb_ℤ : ℤ → ℤ → Bool
ltb_ℤ a b = ltb (pos_part a + neg_part b) (pos_part b + neg_part a)

abbrev pub leb_ℤ : ℤ → ℤ → Bool
leb_ℤ a b = leb (pos_part a + neg_part b) (pos_part b + neg_part a)

-- The values that an int32 can hold.
abbrev pub IsInt32 : ℤ → Type 0
IsInt32 (pos n) = n < 2 ^ 31
IsInt32 (negsuc n) = n < 2 ^ 31

-- `uint32(z)` keeps the low 32 bits of the two's complement.
abbrev pub to_uint32 : ℤ → ℕ
to_uint32 (pos n) = n % 2 ^ 32
to_uint32 (negsuc n) = 2 ^ 32 - 1 - n % 2 ^ 32

-- `int32(u)` of a uint32.
abbrev pub to_int32 : ℕ → ℤ
to_int32 u = if ltb u (2 ^ 31) then pos u else negsuc (2 ^ 32 - 1 - u)

-- `int32(z)` of a wider integer.
abbrev pub int32 : ℤ → ℤ
int32 z = to_int32 (to_uint32 z)

-- Addition and multiplication of int32 wrap around.
abbrev pub add_int32 : ℤ → ℤ → ℤ
add_int32 a b = to_int32 ((to_uint32 a + to_uint32 b) % 2 ^ 32)

abbrev pub sub_int32 : ℤ → ℤ → ℤ
sub_int32 a b = to_int32 ((to_uint32 a + (2 ^ 32 - to_uint32 b)) % 2 ^ 32)

pub int32_of_IsInt32 : (z : ℤ) → IsInt32 z → int32 z ≡ z
int32_of_IsInt32 (pos n) h = ground arith
int32_of_IsInt32 (negsuc n) h = ground arith

pub to_uint32-lt : (z : ℤ) → to_uint32 z < 2 ^ 32
to_uint32-lt (pos n) = omega arith
to_uint32-lt (negsuc n) = omega arith

pub to_int32-IsInt32 : (u : ℕ) → u < 2 ^ 32 → IsInt32 (to_int32 u)
to_int32-IsInt32 u h = ground arith

pub int32-int32 : (z : ℤ) → int32 (int32 z) ≡ int32 z
int32-int32 z = int32_of_IsInt32 (int32 z) (to_int32-IsInt32 (to_uint32 z) (to_uint32-lt z))
