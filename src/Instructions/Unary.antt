-- ===== src/Instructions/Unary.antt =====
-- The unary operators of src/runtime/proc_runtime_instructions_common.c on integers.
use csp_proc.Common.{ℕ, ◌-◌, ◌<◌, ◌^◌, ◌≡◌, refl, sym, subst, arith, ne→==_false, ◌⊎◌, inl, inr}
use csp_proc.Common.Int.{pos, ◌+ℤ◌, ◌-ℤ◌, signed64}
use csp_proc.Types.{UnaryOp, op_inc, op_dec, op_not, op_neg, op_idt, op_rmt, other_unary}
use csp_proc.Params.{ParamType, Doubles, Operand, operand_uint, operand_int}
use csp_proc.Instructions.{error, computed, checked, unary_value}

inc_dec_int :
    (x r : ℕ)
    → x < 2 ^ 64
    → checked (signed64 x +ℤ pos 1) ≡ computed r
    → checked (signed64 r -ℤ pos 1) ≡ computed x
unfolding ◌+ℤ◌ ◌-ℤ◌
inc_dec_int x r h e = ground arith

dec_inc_int :
    (x r : ℕ)
    → x < 2 ^ 64
    → checked (signed64 x -ℤ pos 1) ≡ computed r
    → checked (signed64 r +ℤ pos 1) ≡ computed x
unfolding ◌+ℤ◌ ◌-ℤ◌
dec_inc_int x r h e = ground arith

neg_neg_int :
    (x r : ℕ)
    → x < 2 ^ 64
    → checked (pos 0 -ℤ signed64 x) ≡ computed r
    → checked (pos 0 -ℤ signed64 r) ≡ computed x
unfolding ◌-ℤ◌
neg_neg_int x r h e = ground arith

not_not :
    (x r : ℕ)
    → x < 2 ^ 64
    → computed (2 ^ 64 - 1 - x) ≡ computed r
    → computed (2 ^ 64 - 1 - r) ≡ computed x
not_not x r h e = ground arith

-- The operator that undoes a unary operator.
unfoldable pub opposite : UnaryOp → UnaryOp
opposite op_inc = op_dec
opposite op_dec = op_inc
opposite op = op

undone_int :
    (d : Doubles) (code : ParamType → ℕ) (s : ParamType) (op : UnaryOp) (x r : ℕ)
    → x < 2 ^ 64
    → unary_value d code op (record { source_type = s; operand_type = operand_int; bits = x })
      ≡ computed r
    → unary_value d code
        (opposite op)
        (record { source_type = s; operand_type = operand_int; bits = r })
      ≡ computed x
unfolding unary_value opposite
undone_int d code s op_inc x r h e = inc_dec_int x r h e
undone_int d code s op_dec x r h e = dec_inc_int x r h e
undone_int d code s op_neg x r h e = neg_neg_int x r h e
undone_int d code s op_not x r h e = ground (arith, not_not x r h)
undone_int d code s op_idt x r h e = sym e
undone_int d code s op_rmt x r h e = sym e
undone_int d code s (other_unary n) x r h e = absurd cc

undone_uint :
    (d : Doubles) (code : ParamType → ℕ) (s : ParamType) (op : UnaryOp) (x r : ℕ)
    → x < 2 ^ 64
    → unary_value d code op (record { source_type = s; operand_type = operand_uint; bits = x })
      ≡ computed r
    → unary_value d code
        (opposite op)
        (record { source_type = s; operand_type = operand_uint; bits = r })
      ≡ computed x
unfolding unary_value opposite
undone_uint d code s op_inc x r h e = ground arith
undone_uint d code s op_dec x r h e = ground arith
undone_uint d code s op_neg x r h e = absurd cc
undone_uint d code s op_not x r h e = ground (arith, not_not x r h)
undone_uint d code s op_idt x r h e = sym e
undone_uint d code s op_rmt x r h e = sym e
undone_uint d code s (other_unary n) x r h e = absurd cc

-- A unary operator that gives a result for an integer operand is undone by its opposite: decrementing after
-- incrementing, the other way round, negating twice, complementing twice. The bits come back exactly.
pub unary_value-opposite :
    (d : Doubles) (code : ParamType → ℕ) (op : UnaryOp) (x : Operand) (r : ℕ)
    → (x.operand_type ≡ operand_int) ⊎ (x.operand_type ≡ operand_uint)
    → x.bits < 2 ^ 64
    → unary_value d code op x ≡ computed r
    → unary_value d code (opposite op) (record x { bits = r }) ≡ computed x.bits
unary_value-opposite d code op x r (inl t) h e =
    let same : record x { operand_type = operand_int } ≡ x = rw (sym t) refl in
    subst (λ y. unary_value d code (opposite op) (record y { bits = r }) ≡ computed y.bits) same
      (undone_int d code x.source_type op x.bits r h (rw same e))
unary_value-opposite d code op x r (inr t) h e =
    let same : record x { operand_type = operand_uint } ≡ x = rw (sym t) refl in
    subst (λ y. unary_value d code (opposite op) (record y { bits = r }) ≡ computed y.bits) same
      (undone_uint d code x.source_type op x.bits r h (rw same e))

-- The bitwise complement fails for every operand, whatever its type, whose parameter's type has a code
-- above the 0 and 1 of `OPERAND_TYPE_UINT` and `OPERAND_TYPE_INT`.
pub unary_value-not_fails :
    (d : Doubles) (code : ParamType → ℕ) (x : Operand)
    → 1 < code x.source_type
    → unary_value d code op_not x ≡ error
unfolding unary_value
unary_value-not_fails d code x above =
    rw
      (
        ne→==_false (code x.source_type) 1 (omega arith),
        ne→==_false (code x.source_type) 0 (omega arith),
      )
      refl
