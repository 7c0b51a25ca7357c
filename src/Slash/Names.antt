-- ===== src/Slash/Names.antt =====
-- The names of the operators in src/slash/slash_csp_proc.c.
use csp_proc.Common.{
  ℕ, List, [], ◌∷◌, Bool, true, false, ◌&&◌, Option, none, some, ◌==◌, if◌then◌else◌,
}
use csp_proc.Types.{
  ComparisonOp, UnaryOp, BinaryOp, op_eq, op_neq, op_lt, op_gt, op_le, op_ge, other_comparison,
  op_inc, op_dec, op_not, op_neg, op_idt, op_rmt, other_unary, op_add, op_sub, op_mul, op_div,
  op_mod, op_lsh, op_rsh, op_and, op_or, op_xor, other_binary,
}

abbrev pub Text : Type 0
Text = List ℕ

-- `strcmp(s, t) == 0`
abbrev pub text_eq : Text → Text → Bool
text_eq [] [] = true
text_eq [] (d ∷ t) = false
text_eq (c ∷ s) [] = false
text_eq (c ∷ s) (d ∷ t) = (c == d) && text_eq s t

-- The `_op_str` arrays; `none` is an index out of the array.
unfoldable pub comparison_op_str : ComparisonOp → Option Text
comparison_op_str op_eq = some (61 ∷ 61 ∷ [])
comparison_op_str op_neq = some (33 ∷ 61 ∷ [])
comparison_op_str op_lt = some (60 ∷ [])
comparison_op_str op_gt = some (62 ∷ [])
comparison_op_str op_le = some (60 ∷ 61 ∷ [])
comparison_op_str op_ge = some (62 ∷ 61 ∷ [])
comparison_op_str (other_comparison n) = none

unfoldable pub unary_op_str : UnaryOp → Option Text
unary_op_str op_inc = some (43 ∷ 43 ∷ [])
unary_op_str op_dec = some (45 ∷ 45 ∷ [])
unary_op_str op_not = some (33 ∷ [])
unary_op_str op_neg = some (45 ∷ [])
unary_op_str op_idt = some (105 ∷ 100 ∷ 116 ∷ [])
unary_op_str op_rmt = some (114 ∷ 109 ∷ 116 ∷ [])
unary_op_str (other_unary n) = none

unfoldable pub binary_op_str : BinaryOp → Option Text
binary_op_str op_add = some (43 ∷ [])
binary_op_str op_sub = some (45 ∷ [])
binary_op_str op_mul = some (42 ∷ [])
binary_op_str op_div = some (47 ∷ [])
binary_op_str op_mod = some (37 ∷ [])
binary_op_str op_lsh = some (60 ∷ 60 ∷ [])
binary_op_str op_rsh = some (62 ∷ 62 ∷ [])
binary_op_str op_and = some (38 ∷ [])
binary_op_str op_or = some (124 ∷ [])
binary_op_str op_xor = some (94 ∷ [])
binary_op_str (other_binary n) = none

-- A chain of `if (strcmp(str, …) == 0) return …;`, with `return -1` at its end.
unfoldable pub first_match : {A : Type 0} → List (Text × A) → Text → Option A
first_match [] str = none
first_match ((s, a) ∷ chain) str = if text_eq str s then some a else first_match chain str

unfoldable pub parse_comparison_op_enum : Text → Option ComparisonOp
parse_comparison_op_enum = first_match (
    (61 ∷ 61 ∷ [], op_eq)
    ∷ (33 ∷ 61 ∷ [], op_neq)
    ∷ (60 ∷ [], op_lt)
    ∷ (62 ∷ [], op_gt)
    ∷ (60 ∷ 61 ∷ [], op_le)
    ∷ (62 ∷ 61 ∷ [], op_ge)
    ∷ [])

unfoldable pub parse_unary_op_enum : Text → Option UnaryOp
parse_unary_op_enum = first_match (
    (43 ∷ 43 ∷ [], op_inc)
    ∷ (45 ∷ 45 ∷ [], op_dec)
    ∷ (33 ∷ [], op_not)
    ∷ (45 ∷ [], op_neg)
    ∷ (105 ∷ 100 ∷ 116 ∷ [], op_idt)
    ∷ (114 ∷ 109 ∷ 116 ∷ [], op_rmt)
    ∷ [])

unfoldable pub parse_binary_op_enum : Text → Option BinaryOp
parse_binary_op_enum = first_match (
    (43 ∷ [], op_add)
    ∷ (45 ∷ [], op_sub)
    ∷ (42 ∷ [], op_mul)
    ∷ (47 ∷ [], op_div)
    ∷ (37 ∷ [], op_mod)
    ∷ (60 ∷ 60 ∷ [], op_lsh)
    ∷ (62 ∷ 62 ∷ [], op_rsh)
    ∷ (38 ∷ [], op_and)
    ∷ (124 ∷ [], op_or)
    ∷ (94 ∷ [], op_xor)
    ∷ [])
