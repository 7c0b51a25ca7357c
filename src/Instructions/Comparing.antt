-- ===== src/Instructions/Comparing.antt =====
-- The comparisons of src/runtime/proc_runtime_instructions_common.c.
use csp_proc.Common.{ℕ, [], ◌∷◌, Bool, true, false, not, ◌&&◌, ◌||◌, ◌==◌, ltb, if◌then◌else◌}
use csp_proc.Common.Int.{ltb_ℤ, signed64}
use csp_proc.Types.{ComparisonOp, op_eq, op_neq, op_lt, op_gt, op_le, op_ge, other_comparison}
use csp_proc.Runtime.{Flag, flag_true, flag_false, flag_err}
use csp_proc.Params.{Text, Doubles}

abbrev pub flag_if : Bool → Flag
flag_if true = flag_true
flag_if false = flag_false

-- The inner `switch` for two numbers with their order; an operator that it does not know falls through to
-- the error at the end.
unfoldable pub compare_by : (ℕ → ℕ → Bool) → ComparisonOp → ℕ → ℕ → Flag
compare_by less op_eq a b = flag_if (a == b)
compare_by less op_neq a b = flag_if (not (a == b))
compare_by less op_lt a b = flag_if (less a b)
compare_by less op_gt a b = flag_if (less b a)
compare_by less op_le a b = flag_if (not (less b a))
compare_by less op_ge a b = flag_if (not (less a b))
compare_by less (other_comparison n) a b = flag_err

-- The order of `int64_t` on patterns.
abbrev pub less_int : ℕ → ℕ → Bool
less_int a b = ltb_ℤ (signed64 a) (signed64 b)

unfoldable pub float_abs : Doubles → ℕ → ℕ
float_abs d x = if d.less x d.nought then d.negated x else x

abbrev close : Doubles → ℕ → ℕ → Bool
close d a b = d.less (float_abs d (d.minus a b)) d.epsilon

unfoldable pub compare_floats : Doubles → ComparisonOp → ℕ → ℕ → Flag
unfolding float_abs
compare_floats d op_eq a b = flag_if (close d a b)
compare_floats d op_neq a b = flag_if (d.at_least (float_abs d (d.minus a b)) d.epsilon)
compare_floats d op_lt a b = flag_if (d.less a b)
compare_floats d op_gt a b = flag_if (d.less b a)
compare_floats d op_le a b = flag_if (d.less a b || close d a b)
compare_floats d op_ge a b = flag_if (d.less b a || close d a b)
compare_floats d (other_comparison n) a b = flag_err

-- The sign of `strcmp(s, t)`: whether it is negative, and whether it is 0.
abbrev text_less : Text → Text → Bool
text_less [] [] = false
text_less [] (d ∷ t) = true
text_less (c ∷ s) [] = false
text_less (c ∷ s) (d ∷ t) = ltb c d || ((c == d) && text_less s t)

abbrev text_same : Text → Text → Bool
text_same [] [] = true
text_same [] (d ∷ t) = false
text_same (c ∷ s) [] = false
text_same (c ∷ s) (d ∷ t) = (c == d) && text_same s t

unfoldable pub compare_texts : ComparisonOp → Text → Text → Flag
compare_texts op_eq s t = flag_if (text_same s t)
compare_texts op_neq s t = flag_if (not (text_same s t))
compare_texts op_lt s t = flag_if (text_less s t)
compare_texts op_gt s t = flag_if (text_less t s)
compare_texts op_le s t = flag_if (text_less s t || text_same s t)
compare_texts op_ge s t = flag_if (text_less t s || text_same s t)
compare_texts (other_comparison n) s t = flag_err
