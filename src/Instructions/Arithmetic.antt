-- ===== src/Instructions/Arithmetic.antt =====
-- The binary operators of src/runtime/proc_runtime_instructions_common.c on integers.
use csp_proc.Common.{
  ℕ, zero, suc, ◌-◌, ◌<◌, ◌^◌, ◌≡◌, ◌≢◌, refl, ap, sym, ◌∙◌, arith, ne→==_false, Option, none, some,
}
use native.Mathlib.Nat.{div-add-mod, mod-lt}
use csp_proc.Common.Int.{
  ℤ, pos, negsuc, ◌+ℤ◌, ◌-ℤ◌, ◌*ℤ◌, ◌≤ℤ◌, signed64, word64, signed64-word64, word64-add, word64-sub,
  trunc_div, trunc_mod, pos_part, neg_part, minus_ℕ,
}
use csp_proc.Types.{BinaryOp, op_add, op_sub, op_mul, op_div, op_mod, op_and, op_or, op_xor}
use csp_proc.Params.{Doubles, Operand}
use csp_proc.Instructions.{
  error, unspecified, computed, checked, int_value, uint_value, binary_value,
}

-- An `int64_t` can hold the integer.
abbrev pub Fits : ℤ → Type 0
Fits z = (negsuc (2 ^ 63 - 1) ≤ℤ z) × (z ≤ℤ pos (2 ^ 63 - 1))

checked-Fits : (z : ℤ) → Fits z → checked z ≡ computed (word64 z)
checked-Fits z f = ground (arith, f.0, f.1)

checked-unspecified : (z : ℤ) → ¬ Fits z → checked z ≡ unspecified
checked-unspecified (pos n) f = ground (arith, f)
checked-unspecified (negsuc n) f = ground (arith, f)

-- The integer that an operator means; the other operators mean none.
unfoldable pub meant : BinaryOp → ℤ → ℤ → Option ℤ
meant op_add a b = some (a +ℤ b)
meant op_sub a b = some (a -ℤ b)
meant op_mul a b = some (a *ℤ b)
meant op_div a b = some (trunc_div a b)
meant _ a b = none

int_value-meant :
    (op : BinaryOp) (a b : ℕ) (z : ℤ)
    → b ≢ 0
    → meant op (signed64 a) (signed64 b) ≡ some z
    → int_value op a b ≡ checked z
unfolding int_value meant
int_value-meant op_add a b z n e = let f : signed64 a +ℤ signed64 b ≡ z = cc in ap checked f
int_value-meant op_sub a b z n e = let f : signed64 a -ℤ signed64 b ≡ z = cc in ap checked f
int_value-meant op_mul a b z n e = let f : signed64 a *ℤ signed64 b ≡ z = cc in ap checked f
int_value-meant op_div a b z n e =
    rw (ne→==_false b 0 n) (let f : trunc_div (signed64 a) (signed64 b) ≡ z = cc in ap checked f)
int_value-meant _ a b z n e = absurd cc

-- Addition, subtraction, multiplication and division of two `int64_t` give the integer that they mean,
-- exactly, whenever an `int64_t` can hold it (and the divisor is not 0).
pub int_value-exact :
    (op : BinaryOp) (a b : ℕ) (z : ℤ)
    → b ≢ 0
    → meant op (signed64 a) (signed64 b) ≡ some z
    → Fits z
    → (int_value op a b ≡ computed (word64 z)) × (signed64 (word64 z) ≡ z)
int_value-exact op a b z n e f =
    (int_value-meant op a b z n e ∙ checked-Fits z f, signed64-word64 z f.0 f.1)

minus-pos : (n : ℕ) → pos_part (minus_ℕ n) ≡ 0
minus-pos zero = refl
minus-pos (suc n) = refl

minus-neg : (n : ℕ) → neg_part (minus_ℕ n) ≡ n
minus-neg zero = refl
minus-neg (suc n) = refl

div_mod : (a b : ℤ) → b ≢ pos 0 → trunc_div a b *ℤ b +ℤ trunc_mod a b ≡ a
unfolding trunc_div trunc_mod ◌*ℤ◌ ◌+ℤ◌
div_mod (pos a) (pos b) n = ground (arith, div-add-mod a b)
div_mod (pos a) (negsuc b) n = rw (minus-pos, minus-neg) (ground (arith, div-add-mod a (suc b)))
div_mod (negsuc a) (pos b) n = rw (minus-pos, minus-neg) (ground (arith, div-add-mod (suc a) b))
div_mod (negsuc a) (negsuc b) n =
    rw (minus-pos, minus-neg) (ground (arith, div-add-mod (suc a) (suc b)))

computed_by : (z : ℤ) (r : ℕ) → checked z ≡ computed r → word64 z ≡ r
computed_by (pos n) r e = ground arith
computed_by (negsuc n) r e = ground arith

-- The operators that work on the bits, whatever their type.
unfoldable pub Wraps : BinaryOp → Type 0
Wraps op_add = Unit
Wraps op_sub = Unit
Wraps op_and = Unit
Wraps op_or = Unit
Wraps op_xor = Unit
Wraps _ = ⊥

-- Where the addition, the subtraction or a bitwise operator of two `int64_t` values is defined, it gives the
-- bits that the same operator gives for the same bits as `uint64_t`.
pub int_value-uint_value :
    (op : BinaryOp) (a b r : ℕ)
    → Wraps op
    → a < 2 ^ 64
    → b < 2 ^ 64
    → int_value op a b ≡ computed r
    → uint_value op a b ≡ computed r
unfolding int_value uint_value Wraps
int_value-uint_value op_add a b r u ha hb e =
    rw (sym (word64-add a b ha hb)) (ap computed (computed_by (signed64 a +ℤ signed64 b) r e))
int_value-uint_value op_sub a b r u ha hb e =
    rw (sym (word64-sub a b ha hb)) (ap computed (computed_by (signed64 a -ℤ signed64 b) r e))
int_value-uint_value op_and a b r u ha hb e = e
int_value-uint_value op_or a b r u ha hb e = e
int_value-uint_value op_xor a b r u ha hb e = e
int_value-uint_value _ a b r u ha hb e = absurd u

trunc_mod-Fits : (a b : ℤ) → b ≢ pos 0 → Fits b → Fits (trunc_mod a b)
unfolding trunc_mod
trunc_mod-Fits (pos a) (pos zero) n f = absurd (n refl)
trunc_mod-Fits (pos a) (pos (suc b)) n f =
    (omega arith, omega (arith, f.1, mod-lt a {m = suc b} (omega arith)))
trunc_mod-Fits (pos a) (negsuc b) n f =
    (omega arith, omega (arith, f.0, mod-lt a {m = suc b} (omega arith)))
trunc_mod-Fits (negsuc a) (pos zero) n f = absurd (n refl)
trunc_mod-Fits (negsuc a) (pos (suc b)) n f =
    rw (minus-pos, minus-neg)
      (omega (arith, f.1, mod-lt (suc a) {m = suc b} (omega arith)), omega arith)
trunc_mod-Fits (negsuc a) (negsuc b) n f =
    rw (minus-pos, minus-neg)
      (omega (arith, f.0, mod-lt (suc a) {m = suc b} (omega arith)), omega arith)

signed64-Fits : (w : ℕ) → w < 2 ^ 64 → Fits (signed64 w)
signed64-Fits w h = (ground arith, ground arith)

signed64-nonzero : (w : ℕ) → w ≢ 0 → w < 2 ^ 64 → signed64 w ≢ pos 0
signed64-nonzero w n h e = ground arith

-- For a divisor other than 0 whose quotient an `int64_t` can hold, division and remainder both give a
-- result, and quotient times divisor plus remainder is the dividend.
pub int_value-div_mod :
    (a b : ℕ)
    → b ≢ 0
    → a < 2 ^ 64
    → b < 2 ^ 64
    → Fits (trunc_div (signed64 a) (signed64 b))
    → (q : ℕ) × (r : ℕ) × (int_value op_div a b ≡ computed q)
      × (int_value op_mod a b ≡ computed r)
      × (signed64 q *ℤ signed64 b +ℤ signed64 r ≡ signed64 a)
unfolding int_value
int_value-div_mod a b n ha hb f =
    let x = signed64 a in
    let y = signed64 b in
    let q = trunc_div x y in
    let r = trunc_mod x y in
    let g = trunc_mod-Fits x y (signed64-nonzero b n hb) (signed64-Fits b hb) in
    let c = checked-Fits q f in
    (
      word64 q,
      word64 r,
      rw (ne→==_false b 0 n) c,
      rw (ne→==_false b 0 n, c) refl,
      rw (signed64-word64 q f.0 f.1, signed64-word64 r g.0 g.1)
          (div_mod x y (signed64-nonzero b n hb)),
    )

-- Operands of different types have no result, whatever the operator.
pub binary_value-types :
    (d : Doubles) (op : BinaryOp) (a b : Operand)
    → a.operand_type ≢ b.operand_type
    → binary_value d op a b ≡ error
unfolding binary_value
binary_value-types d op a b differ = ground arith
