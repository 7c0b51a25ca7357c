-- ===== src/Slash/Decimal.antt =====
-- Decimal numbers as `printf` writes and `atoi` reads them in src/slash/slash_csp_proc.c.
use csp_proc.Common.{
  ℕ, zero, suc, ◌+◌, ◌-◌, ◌*◌, ◌/◌, ◌%◌, ◌^◌, ◌≤◌, ◌<◌, [], ◌∷◌, ◌++◌, All, All-append, false,
  lt→ltb, le→ltb, ne→==_false, ◌≡◌, refl, ◌∙◌, arith,
}
use native.Mathlib.Decide.{dec_lt}
use native.Mathlib.Nat.{pow-suc}
use csp_proc.Slash.{Text, atoi, is_space, digits_value}
use csp_proc.Slash.Listing.{digits, print_int}

abbrev IsDigit : ℕ → Type 0
IsDigit c = (48 ≤ c) × (c < 58)

digits_value-snoc :
    (value : ℕ) (s : Text) (d : ℕ)
    → All IsDigit s
    → d < 10
    → digits_value value (s ++ (48 + d) ∷ []) ≡ digits_value value s * 10 + d
digits_value-snoc value [] d h lt = ground arith
digits_value-snoc value (c ∷ s) d h lt =
    ground (arith, digits_value-snoc (value * 10 + (c - 48)) s d h.1 lt)

digits-IsDigit : (k n : ℕ) → All IsDigit (digits k n)
unfolding digits
digits-IsDigit zero n = ((omega arith, omega arith), tt)
digits-IsDigit (suc k) n = elim (dec_lt n 10) [
  | yes p ↦ rw (lt→ltb n 10 p) ((omega arith, omega arith), tt)
  | no q ↦ rw (le→ltb n 10 (omega arith)) (
      All-append IsDigit (digits k (n / 10)) _ (digits-IsDigit k (n / 10))
        ((omega arith, omega arith), tt))
]

digits_value-digits : (k n : ℕ) → n < 10 ^ suc k → digits_value 0 (digits k n) ≡ n
unfolding digits
digits_value-digits zero n h = ground arith
digits_value-digits (suc k) n h = elim (dec_lt n 10) [
  | yes p ↦ rw (lt→ltb n 10 p) (ground arith)
  | no q ↦
      let ih : digits_value 0 (digits k (n / 10)) ≡ n / 10 =
        digits_value-digits k (n / 10) (omega (arith, pow-suc 10 (suc k))) in
      rw (le→ltb n 10 (omega arith)) (
        digits_value-snoc 0 (digits k (n / 10)) (n % 10) (digits-IsDigit k (n / 10)) (omega arith)
        ∙ omega (arith, ih))
]

signed_value-digits : (s : Text) → All IsDigit s → atoi s ≡ digits_value 0 s % 2 ^ 32
unfolding atoi
signed_value-digits [] h = refl
signed_value-digits (c ∷ s) h =
    let (a, b) = h.0 in
    rw (ne→==_false c 45 (λ e. omega arith), ne→==_false c 43 (λ e. omega arith))
      (let e : is_space c ≡ false = ground arith in rw e refl)

pub atoi-print_int : (n : ℕ) → n < 2 ^ 31 → atoi (print_int n) ≡ n
unfolding print_int
atoi-print_int n h = rw (lt→ltb n (2 ^ 31) h) (
    signed_value-digits (digits 9 n) (digits-IsDigit 9 n)
    ∙ omega (arith, digits_value-digits 9 n (omega arith)))
