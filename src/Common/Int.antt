-- ===== src/Common/Int.antt =====
-- Signed integers over the native numbers, under the library's names, and 64-bit words as integers.
use Prim.Native.Nat.{ℕ, zero, suc, ◌+◌, ◌-◌, ◌*◌, ◌/◌, ◌%◌, ◌^◌, ◌≤◌, ◌<◌}
use mathlib.Core.Path.{◌≡◌}
use mathlib.Core.Bool.{Bool, true, false}
use native.Mathlib.Omega.{arith}
use csp_proc.Common.Tests.{leb, ltb, if◌then◌else◌}

-- `negsuc n` is -(n + 1).
pub data ℤ : Type 0 where
  pos : ℕ → ℤ
  negsuc : ℕ → ℤ

abbrev pub pos_part : ℤ → ℕ
pos_part (pos n) = n
pos_part (negsuc n) = 0

abbrev pub neg_part : ℤ → ℕ
neg_part (pos n) = 0
neg_part (negsuc n) = suc n

-- a - b, as an integer.
abbrev pub sub_ℕ : ℕ → ℕ → ℤ
sub_ℕ a b = if leb b a then pos (a - b) else negsuc (b - a - 1)

infixl 65 ◌+ℤ◌ ◌-ℤ◌
infixl 70 ◌*ℤ◌
infix 50 ◌≤ℤ◌
unfoldable pub ◌+ℤ◌ : ℤ → ℤ → ℤ
a +ℤ b = sub_ℕ (pos_part a + pos_part b) (neg_part a + neg_part b)

unfoldable pub ◌-ℤ◌ : ℤ → ℤ → ℤ
a -ℤ b = sub_ℕ (pos_part a + neg_part b) (neg_part a + pos_part b)

unfoldable pub ◌*ℤ◌ : ℤ → ℤ → ℤ
a *ℤ b =
    sub_ℕ (pos_part a * pos_part b + neg_part a * neg_part b)
      (pos_part a * neg_part b + neg_part a * pos_part b)

abbrev pub ◌≤ℤ◌ : ℤ → ℤ → Type 0
a ≤ℤ b = pos_part a + neg_part b ≤ pos_part b + neg_part a

abbrev pub ltb_ℤ : ℤ → ℤ → Bool
ltb_ℤ a b = ltb (pos_part a + neg_part b) (pos_part b + neg_part a)

-- -n, as an integer.
abbrev pub minus_ℕ : ℕ → ℤ
minus_ℕ zero = pos 0
minus_ℕ (suc n) = negsuc n

abbrev pub is_negative : ℤ → Bool
is_negative (pos n) = false
is_negative (negsuc n) = true

-- C's division, which truncates, and the remainder, which has the dividend's sign.
unfoldable pub trunc_div : ℤ → ℤ → ℤ
trunc_div (pos a) (pos b) = pos (a / b)
trunc_div (pos a) (negsuc b) = minus_ℕ (a / suc b)
trunc_div (negsuc a) (pos b) = minus_ℕ (suc a / b)
trunc_div (negsuc a) (negsuc b) = pos (suc a / suc b)

unfoldable pub trunc_mod : ℤ → ℤ → ℤ
trunc_mod (pos a) (pos b) = pos (a % b)
trunc_mod (pos a) (negsuc b) = pos (a % suc b)
trunc_mod (negsuc a) (pos b) = minus_ℕ (suc a % b)
trunc_mod (negsuc a) (negsuc b) = minus_ℕ (suc a % suc b)

-- An `int64_t` is its bit pattern, below 2 ^ 64: the integer that a pattern stands for, and the pattern of
-- an integer, which wraps around.
abbrev pub signed64 : ℕ → ℤ
signed64 w = if ltb w (2 ^ 63) then pos w else negsuc (2 ^ 64 - w - 1)

abbrev pub word64 : ℤ → ℕ
word64 (pos n) = n % 2 ^ 64
word64 (negsuc n) = 2 ^ 64 - 1 - n % 2 ^ 64

pub signed64-word64 :
    (z : ℤ) → negsuc (2 ^ 63 - 1) ≤ℤ z → z ≤ℤ pos (2 ^ 63 - 1) → signed64 (word64 z) ≡ z
signed64-word64 z lo hi = ground arith

pub word64-signed64 : (w : ℕ) → w < 2 ^ 64 → word64 (signed64 w) ≡ w
word64-signed64 w h = ground arith

pub word64-lt : (z : ℤ) → word64 z < 2 ^ 64
word64-lt (pos n) = omega arith
word64-lt (negsuc n) = omega arith

-- Addition and subtraction of patterns are those of the integers, wrapped around.
pub word64-add :
    (a b : ℕ) → a < 2 ^ 64 → b < 2 ^ 64 → word64 (signed64 a +ℤ signed64 b) ≡ (a + b) % 2 ^ 64
unfolding ◌+ℤ◌
word64-add a b ha hb = ground arith

pub word64-sub :
    (a b : ℕ)
    → a < 2 ^ 64
    → b < 2 ^ 64
    → word64 (signed64 a -ℤ signed64 b) ≡ (a + 2 ^ 64 - b) % 2 ^ 64
unfolding ◌-ℤ◌
word64-sub a b ha hb = ground arith
