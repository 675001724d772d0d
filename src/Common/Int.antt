-- ===== src/Common/Int.antt =====
-- Go's `int` where it may be negative: integers over the native numbers, under the library's
-- names (its ℤ stands on the unary ℕ), and the two's complement patterns of 16 and 32 bits.
use phantom_proxy.Common.{
  ℕ, suc, ◌+◌, ◌-◌, ◌%◌, ◌^◌, ◌≤◌, ◌<◌, ◌≡◌, Bool, arith, ltb, leb, if◌then◌else◌,
}

-- `negsuc n` is -(n + 1).
pub data ℤ : Type 0 where
  pos : ℕ → ℤ
  negsuc : ℕ → ℤ

abbrev pub pos_part : ℤ → ℕ
pos_part (pos n) = n
pos_part (negsuc n) = 0

abbrev pub neg_part : ℤ → ℕ
neg_part (pos n) = 0
neg_part (negsuc n) = suc n

-- a - b, as an integer.
abbrev pub sub_ℕ : ℕ → ℕ → ℤ
sub_ℕ a b = if leb b a then pos (a - b) else negsuc (b - a - 1)

infixl 65 ◌+ℤ◌ ◌-ℤ◌
infix 50 ◌≤ℤ◌
unfoldable pub ◌+ℤ◌ : ℤ → ℤ → ℤ
a +ℤ b = sub_ℕ (pos_part a + pos_part b) (neg_part a + neg_part b)

unfoldable pub ◌-ℤ◌ : ℤ → ℤ → ℤ
a -ℤ b = sub_ℕ (pos_part a + neg_part b) (neg_part a + pos_part b)

abbrev pub ◌≤ℤ◌ : ℤ → ℤ → Type 0
a ≤ℤ b = pos_part a + neg_part b ≤ pos_part b + neg_part a

abbrev pub ltb_ℤ : ℤ → ℤ → Bool
ltb_ℤ a b = ltb (pos_part a + neg_part b) (pos_part b + neg_part a)

abbrev pub leb_ℤ : ℤ → ℤ → Bool
leb_ℤ a b = leb (pos_part a + neg_part b) (pos_part b + neg_part a)

-- `x <= 0`
abbrev pub is_not_pos : ℤ → Bool
is_not_pos a = leb (pos_part a) 0

-- `uint16(int16(x))` and `int(int16(w))` for a pattern `w` below 2 ^ 16.
unfoldable pub wrap16 : ℤ → ℕ
wrap16 (pos n) = n % 2 ^ 16
wrap16 (negsuc n) = 2 ^ 16 - 1 - n % 2 ^ 16

unfoldable pub signed16 : ℕ → ℤ
signed16 w = if ltb w (2 ^ 15) then pos w else negsuc (2 ^ 16 - w - 1)

-- `int32(w)` for a pattern `w` below 2 ^ 32.
unfoldable pub signed32 : ℕ → ℤ
signed32 w = if ltb w (2 ^ 31) then pos w else negsuc (2 ^ 32 - w - 1)

-- `int64(w)` for a pattern `w` below 2 ^ 64.
unfoldable pub signed64 : ℕ → ℤ
signed64 w = if ltb w (2 ^ 63) then pos w else negsuc (2 ^ 64 - w - 1)

abbrev pub IsInt16 : ℤ → Type 0
IsInt16 (pos n) = n < 2 ^ 15
IsInt16 (negsuc n) = n < 2 ^ 15

pub signed16-wrap16 : (x : ℤ) → IsInt16 x → signed16 (wrap16 x) ≡ x
unfolding signed16 wrap16
signed16-wrap16 (pos n) h = ground arith
signed16-wrap16 (negsuc n) h = ground arith

pub wrap16-lt : (x : ℤ) → wrap16 x < 2 ^ 16
unfolding wrap16
wrap16-lt (pos n) = omega arith
wrap16-lt (negsuc n) = omega arith
