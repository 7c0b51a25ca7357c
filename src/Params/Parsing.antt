-- ===== src/Params/Parsing.antt =====
-- How src/runtime/proc_runtime_instructions_common.c reads the index in a parameter's name.
use csp_proc.Common.{
  ℕ, zero, suc, ◌+◌, ◌-◌, ◌*◌, ◌/◌, ◌^◌, [], ◌∷◌, length, take, Bool, ◌&&◌, ◌||◌, Option, none,
  some, ◌==◌, ltb, leb, if◌then◌else◌,
}
use csp_proc.Common.Int.{ℤ, pos, negsuc, minus_ℕ}
use csp_proc.Params.Operands.{Text}

-- strtok_r with the delimiter `[`: its leading delimiters, and what follows the token.
abbrev pub skip_opens : Text → Text
skip_opens [] = []
skip_opens (c ∷ s) = let rest = skip_opens s in if c == 91 then rest else c ∷ s

abbrev pub after_token : Text → Text
after_token [] = []
after_token (c ∷ s) = let rest = after_token s in if c == 91 then s else rest

abbrev pub token : Text → Text
token [] = []
token (c ∷ s) = if c == 91 then [] else c ∷ token s

-- The second token; the empty text is NULL.
unfoldable pub second_token : Text → Text
second_token s = token (skip_opens (after_token (skip_opens s)))

-- The number that a text starts with, behind white space; `none` if there is none.
abbrev pub is_digit : ℕ → Bool
is_digit c = leb 48 c && leb c 57

abbrev pub leading_digits : Text → Text
leading_digits [] = []
leading_digits (c ∷ s) = if is_digit c then c ∷ leading_digits s else []

unfoldable pub decimal : ℕ → Text → ℕ
decimal value [] = value
decimal value (c ∷ s) = decimal (value * 10 + (c - 48)) s

abbrev pub is_space : ℕ → Bool
is_space c = (c == 32) || (leb 9 c && leb c 13)

abbrev pub unsigned_number : (ℕ → ℤ) → Text → Option ℤ
unsigned_number sign [] = none
unsigned_number sign (c ∷ s) = some (sign (decimal 0 (c ∷ s)))

abbrev pub signed_number : Text → Option ℤ
signed_number [] = none
signed_number (c ∷ s) =
    if c == 45
    then unsigned_number minus_ℕ (leading_digits s)
    else (if c == 43
        then unsigned_number pos (leading_digits s)
        else unsigned_number pos (leading_digits (c ∷ s)))

unfoldable pub number_in : Text → Option ℤ
unfolding decimal
number_in [] = none
number_in (c ∷ s) = let rest = number_in s in if is_space c then rest else signed_number (c ∷ s)

-- Whether an `int` of 32 bits holds the number.
abbrev pub fits_int : ℤ → Bool
fits_int (pos n) = ltb n (2 ^ 31)
fits_int (negsuc n) = ltb n (2 ^ 31)

abbrev pub as_int : (ℤ → ℤ) → Option ℤ → Option ℤ
as_int overflow none = none
as_int overflow (some z) = some (if fits_int z then z else overflow z)

-- What `sscanf` with `%d` reads. C leaves it open what becomes of a number that no `int` holds: `overflow`
-- is what the C library makes of it.
unfoldable pub sscanf_int : (ℤ → ℤ) → Text → Option ℤ
unfolding number_in
sscanf_int overflow s = as_int overflow (number_in s)

abbrev pub or_minus_one : Option ℤ → ℤ
or_minus_one none = negsuc 0
or_minus_one (some z) = z

-- -1 stands for no offset.
unfoldable pub proc_param_scan_offset : (ℤ → ℤ) → Text → ℤ
unfolding second_token sscanf_int
proc_param_scan_offset overflow arg = or_minus_one (sscanf_int overflow (second_token arg))

-- How many digits `n` has in decimal; `fuel` bounds them.
unfoldable pub digit_count : ℕ → ℕ → ℕ
digit_count zero n = 1
digit_count (suc fuel) n = let rest = digit_count fuel (n / 10) in if ltb n 10 then 1 else suc rest

-- `snprintf(NULL, 0, "%d", offset)`
unfoldable pub index_length : ℤ → ℕ
unfolding digit_count
index_length (pos n) = digit_count n n
index_length (negsuc n) = suc (digit_count (suc n) (suc n))

-- `param_name_copy` without its index, if there is an offset.
unfoldable pub cut_index : Text → ℤ → Text
unfolding index_length
cut_index name (negsuc zero) = name
cut_index name offset = take (length name - (index_length offset + 2)) name
