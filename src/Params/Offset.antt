-- ===== src/Params/Offset.antt =====
-- The array index in a parameter's name: `proc_param_scan_offset` of
-- src/runtime/proc_runtime_instructions_common.c, and the cut of the name in `proc_fetch_param`.
use native.Mathlib.Nat.{pow-suc}
use csp_proc.Common.{
  ℕ, zero, suc, ◌+◌, ◌-◌, ◌*◌, ◌/◌, ◌<◌, ◌≤◌, ◌^◌, [], ◌∷◌, length, ◌≡◌, ◌≢◌, refl, ap, sym, arith,
  Option, none, some, ◌⊎◌, inl, inr, ◌==◌, true, Bool-cases,
}
use csp_proc.Common.Int.{ℤ, pos, negsuc, minus_ℕ}
use csp_proc.Params.{
  Text, skip_opens, after_token, token, second_token, is_digit, leading_digits, decimal, is_space,
  unsigned_number, signed_number, number_in, fits_int, as_int, sscanf_int, or_minus_one,
  proc_param_scan_offset, digit_count, index_length,
}

digit_count_le : (fuel n m : ℕ) → 0 < m → n < 10 ^ m → digit_count fuel n ≤ m
unfolding digit_count
digit_count_le zero n m h b = omega arith
digit_count_le (suc fuel) n zero h b = absurd (omega arith)
digit_count_le (suc fuel) n (suc zero) h b = ground arith
digit_count_le (suc fuel) n (suc (suc m)) h b =
    let e : 10 ^ suc (suc m) ≡ 10 ^ suc m * 10 = pow-suc 10 (suc m) in
    let rest = digit_count_le fuel (n / 10) (suc m) (omega arith) (omega (arith, e)) in ground arith

plus_zero : {k : ℕ} → k + 0 ≡ k
plus_zero = omega arith

digit-le : (c : ℕ) → is_digit c ≡ true → c ≤ 57
digit-le c e = ground arith

decimal_lt :
    (value k : ℕ) (s : Text)
    → value < 10 ^ k
    → decimal value (leading_digits s) < 10 ^ (k + length (leading_digits s))
unfolding decimal
decimal_lt value k [] h = rw plus_zero h
decimal_lt value k (c ∷ s) h = elim (Bool-cases (is_digit c)) [
  | inl e ↦
      let rest = leading_digits s in
      let shift : suc k + length rest ≡ k + suc (length rest) = omega arith in
      let next =
        decimal_lt (value * 10 + (c - 48)) (suc k) s
          (omega (arith, h, pow-suc 10 k, digit-le c e)) in
      rw (e, sym shift) next
  | inr e ↦ rw (e, plus_zero) h
]

leading_digits_le : (s : Text) → length (leading_digits s) ≤ length s
leading_digits_le [] = omega arith
leading_digits_le (c ∷ s) = ground (arith, leading_digits_le s)

skip_opens_le : (s : Text) → length (skip_opens s) ≤ length s
skip_opens_le [] = omega arith
skip_opens_le (c ∷ s) = ground (arith, skip_opens_le s)

token_le : (s : Text) → length (token s) ≤ length s
token_le [] = omega arith
token_le (c ∷ s) = ground (arith, token_le s)

after_token_lt : (s : Text) → (after_token s ≡ []) ⊎ (length (after_token s) < length s)
after_token_lt [] = inl refl
after_token_lt (c ∷ s) = ground (arith, after_token_lt s)

index_length-pos : (n k : ℕ) → 0 < k → n < 10 ^ k → index_length (pos n) ≤ 0 + k
unfolding index_length
index_length-pos n k h b = omega (arith, digit_count_le n n k h b)

index_length-minus : (n k : ℕ) → 0 < k → n < 10 ^ k → index_length (minus_ℕ n) ≤ 1 + k
unfolding index_length
index_length-minus zero k h b = omega (arith, digit_count_le 0 0 k h b)
index_length-minus (suc n) k h b = omega (arith, digit_count_le (suc n) (suc n) k h b)

-- A sign that adds `extra` characters.
abbrev Prints : (ℕ → ℤ) → ℕ → Type 0
Prints sign extra = (n k : ℕ) → 0 < k → n < 10 ^ k → index_length (sign n) ≤ extra + k

unsigned_number_le :
    (sign : ℕ → ℤ) (extra : ℕ) (s : Text) (z : ℤ)
    → Prints sign extra
    → decimal 0 s < 10 ^ length s
    → unsigned_number sign s ≡ some z
    → index_length z ≤ extra + length s
unsigned_number_le sign extra [] z p b e = absurd cc
unsigned_number_le sign extra (c ∷ s) z p b e =
    let f : sign (decimal 0 (c ∷ s)) ≡ z = cc in
    rw (sym f) (p (decimal 0 (c ∷ s)) (length (c ∷ s)) (omega arith) b)

leading_le :
    (sign : ℕ → ℤ) (extra : ℕ) (s : Text) (z : ℤ)
    → Prints sign extra
    → unsigned_number sign (leading_digits s) ≡ some z
    → index_length z ≤ extra + length s
leading_le sign extra s z p e =
    let from_zero : 0 + length (leading_digits s) ≡ length (leading_digits s) = omega arith in
    let bound = rw from_zero at (decimal_lt 0 0 s (omega arith)) in
    omega (arith, unsigned_number_le sign extra (leading_digits s) z p bound e, leading_digits_le s)

-- What is read as a number has at least as many characters as the number has when it is printed.
signed_number_le : (s : Text) (z : ℤ) → signed_number s ≡ some z → index_length z ≤ length s
signed_number_le [] z e = absurd cc
signed_number_le (c ∷ s) z e = elim (Bool-cases (c == 45)) [
  | inl m ↦ omega (arith, leading_le minus_ℕ 1 s z index_length-minus (rw m at e))
  | inr m ↦ elim (Bool-cases (c == 43)) [
    | inl p ↦ omega (arith, leading_le pos 0 s z index_length-pos (rw (m, p) at e))
    | inr p ↦ omega (arith, leading_le pos 0 (c ∷ s) z index_length-pos (rw (m, p) at e))
  ]
]

number_in_le : (s : Text) (z : ℤ) → number_in s ≡ some z → index_length z ≤ length s
unfolding number_in
number_in_le [] z e = absurd cc
number_in_le (c ∷ s) z e = elim (Bool-cases (is_space c)) [
  | inl b ↦ omega (arith, number_in_le s z (rw b at e))
  | inr b ↦ signed_number_le (c ∷ s) z (rw b at e)
]

after_token-skip_opens :
    (s : Text)
    → (after_token (skip_opens s) ≡ []) ⊎ (length (after_token (skip_opens s)) + 2 ≤ length s)
after_token-skip_opens [] = inl refl
after_token-skip_opens (c ∷ s) = elim (Bool-cases (c == 91)) [
  | inl b ↦ rw b (ground (arith, after_token-skip_opens s))
  | inr b ↦ rw (b, b) (ground (arith, after_token_lt s))
]

second_token_le : (s : Text) → (second_token s ≡ []) ⊎ (length (second_token s) + 2 ≤ length s)
unfolding second_token
second_token_le s = elim (after_token-skip_opens s) [
  | inl e ↦ inl (rw e refl)
  | inr h ↦ inr (
      omega (
        arith,
        h,
        skip_opens_le (after_token (skip_opens s)),
        token_le (skip_opens (after_token (skip_opens s))),
      ))
]

scanned : (o : Option ℤ) (z : ℤ) → or_minus_one o ≡ z → z ≢ negsuc 0 → o ≡ some z
scanned none z e n = absurd (n (sym e))
scanned (some y) z e n = ap some e

none_read : (z : ℤ) → ¬ (number_in [] ≡ some z)
unfolding number_in
none_read z e = absurd cc

-- If there is a number, an `int` holds it.
abbrev pub FitsInt : Option ℤ → Type 0
FitsInt none = Unit
FitsInt (some z) = fits_int z ≡ true

as_int_fits : (overflow : ℤ → ℤ) (o : Option ℤ) → FitsInt o → as_int overflow o ≡ o
as_int_fits overflow none h = refl
as_int_fits overflow (some z) h = rw h refl

-- The index that a parameter's name is found to have takes, with its two brackets, no more characters than the
-- name has, if the number in the name is one that an `int` holds, whatever the C library makes of
-- others: the place where `proc_fetch_param` cuts the name off lies inside it.
pub proc_param_scan_offset_le :
    (overflow : ℤ → ℤ) (name : Text) (offset : ℤ)
    → FitsInt (number_in (second_token name))
    → proc_param_scan_offset overflow name ≡ offset
    → offset ≢ negsuc 0
    → index_length offset + 2 ≤ length name
unfolding proc_param_scan_offset sscanf_int
proc_param_scan_offset_le overflow name offset fits e n =
    let number = number_in (second_token name) in
    let read = scanned number offset (rw (as_int_fits overflow number fits) at e) n in
    elim (second_token_le name) [
      | inl t ↦ absurd (none_read offset (rw t at read))
      | inr h ↦ omega (arith, h, number_in_le (second_token name) offset read)
    ]
