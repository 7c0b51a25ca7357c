-- ===== src/Slash/Numbers.antt =====
-- Numbers as `atoi` reads them in src/slash/slash_csp_proc.c.
use csp_proc.Common.{
  ◌*◌, ◌||◌, leb, ℕ, ◌+◌, ◌-◌, ◌*◌, ◌%◌, ◌^◌, [], ◌∷◌, Bool, ◌&&◌, ◌==◌, leb, if◌then◌else◌,
}
use csp_proc.Slash.Names.{Text}

-- `atoi` of the C library, as an `unsigned int`; a number that is out of an `int`'s range wraps around.
abbrev pub is_space : ℕ → Bool
is_space c = (c == 32) || (leb 9 c && leb c 13)

abbrev pub digits_value : ℕ → Text → ℕ
digits_value value [] = value
digits_value value (c ∷ s) =
    let rest = digits_value (value * 10 + (c - 48)) s in
    if leb 48 c && leb c 57 then rest else value

abbrev pub signed_value : Text → ℕ
signed_value [] = 0
signed_value (c ∷ s) =
    if c == 45
    then (2 ^ 32 - digits_value 0 s % 2 ^ 32) % 2 ^ 32
    else (if c == 43 then digits_value 0 s % 2 ^ 32 else digits_value 0 (c ∷ s) % 2 ^ 32)

unfoldable pub atoi : Text → ℕ
atoi [] = 0
atoi (c ∷ s) = let rest = atoi s in if is_space c then rest else signed_value (c ∷ s)
