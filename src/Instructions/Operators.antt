-- ===== src/Instructions/Operators.antt =====
-- The operators of src/runtime/proc_runtime_instructions_common.c on the bits of operands.
use Prim.Native.Nat.{bit_and, bit_or, bit_xor}
use csp_proc.Common.{ℕ, ◌+◌, ◌-◌, ◌*◌, ◌/◌, ◌%◌, ◌^◌, ◌||◌, ◌==◌, ltb, if◌then◌else◌}
use csp_proc.Common.Int.{
  ℤ, pos, negsuc, ◌+ℤ◌, ◌-ℤ◌, ◌*ℤ◌, ltb_ℤ, signed64, word64, trunc_div, trunc_mod,
}
use csp_proc.Types.{
  UnaryOp, BinaryOp, op_inc, op_dec, op_not, op_neg, op_idt, op_rmt, other_unary, op_add, op_sub,
  op_mul, op_div, op_mod, op_lsh, op_rsh, op_and, op_or, op_xor, other_binary,
}
use csp_proc.Params.{
  ParamType, Doubles, operand_uint, operand_int, operand_float, operand_string, operand_type_code,
  Operand,
}

-- The result of an operator: a message and -1, undefined, or the new bits of the operand.
pub data Computed : Type 0 where
  error : Computed
  unspecified : Computed
  computed : ℕ → Computed

-- The result of an operation on `int64_t`, if that can hold it.
abbrev pub checked : ℤ → Computed
checked z =
    if ltb_ℤ (pos (2 ^ 63 - 1)) z || ltb_ℤ z (negsuc (2 ^ 63 - 1))
    then unspecified
    else computed (word64 z)

-- The `switch` of `proc_runtime_unop`. The bitwise complement looks at `source_type` where it means `type`.
unfoldable pub unary_value : Doubles → (ParamType → ℕ) → UnaryOp → Operand → Computed
unary_value d code op_inc x = elim x.operand_type [
  | operand_float ↦ computed (d.plus x.bits d.one)
  | operand_int ↦ checked (signed64 x.bits +ℤ pos 1)
  | operand_uint ↦ computed ((x.bits + 1) % 2 ^ 64)
  | operand_string ↦ error
]
unary_value d code op_dec x = elim x.operand_type [
  | operand_float ↦ computed (d.minus x.bits d.one)
  | operand_int ↦ checked (signed64 x.bits -ℤ pos 1)
  | operand_uint ↦ computed ((x.bits + (2 ^ 64 - 1)) % 2 ^ 64)
  | operand_string ↦ error
]
unary_value d code op_not x =
    if code x.source_type == operand_type_code operand_int
    then computed (2 ^ 64 - 1 - x.bits)
    else (if code x.source_type == operand_type_code operand_uint
        then computed (2 ^ 64 - 1 - x.bits)
        else error)
unary_value d code op_neg x = elim x.operand_type [
  | operand_float ↦ computed (d.negated x.bits)
  | operand_int ↦ checked (pos 0 -ℤ signed64 x.bits)
  | operand_uint ↦ error
  | operand_string ↦ error
]
unary_value d code op_idt x = computed x.bits
unary_value d code op_rmt x = computed x.bits
unary_value d code (other_unary n) x = error

-- The inner `switch`es of `proc_runtime_binop` for each type of operands.
unfoldable pub float_value : Doubles → BinaryOp → ℕ → ℕ → Computed
float_value d op_add a b = computed (d.plus a b)
float_value d op_sub a b = computed (d.minus a b)
float_value d op_mul a b = computed (d.times a b)
float_value d op_div a b = if d.same b d.nought then error else computed (d.over a b)
float_value d _ a b = error

abbrev shift_left : ℤ → ℤ → Computed
shift_left (pos a) (pos k) = if ltb k 64 then checked (pos (a * 2 ^ k)) else unspecified
shift_left _ _ = unspecified

abbrev shift_right : ℤ → ℤ → Computed
shift_right (pos a) (pos k) = if ltb k 64 then computed (word64 (pos (a / 2 ^ k))) else unspecified
shift_right (negsuc a) (pos k) =
    if ltb k 64 then computed (word64 (negsuc (a / 2 ^ k))) else unspecified
shift_right _ _ = unspecified

unfoldable pub int_value : BinaryOp → ℕ → ℕ → Computed
int_value op_add a b = checked (signed64 a +ℤ signed64 b)
int_value op_sub a b = checked (signed64 a -ℤ signed64 b)
int_value op_mul a b = checked (signed64 a *ℤ signed64 b)
int_value op_div a b = if b == 0 then error else checked (trunc_div (signed64 a) (signed64 b))
int_value op_mod a b =
    if b == 0 then error else (elim (checked (trunc_div (signed64 a) (signed64 b))) [
      | computed q ↦ computed (word64 (trunc_mod (signed64 a) (signed64 b)))
      | other ↦ other
    ])
int_value op_lsh a b = shift_left (signed64 a) (signed64 b)
int_value op_rsh a b = shift_right (signed64 a) (signed64 b)
int_value op_and a b = computed (bit_and a b)
int_value op_or a b = computed (bit_or a b)
int_value op_xor a b = computed (bit_xor a b)
int_value (other_binary n) a b = error

unfoldable pub uint_value : BinaryOp → ℕ → ℕ → Computed
uint_value op_add a b = computed ((a + b) % 2 ^ 64)
uint_value op_sub a b = computed ((a + 2 ^ 64 - b) % 2 ^ 64)
uint_value op_mul a b = computed (a * b % 2 ^ 64)
uint_value op_div a b = if b == 0 then error else computed (a / b)
uint_value op_mod a b = if b == 0 then error else computed (a % b)
uint_value op_lsh a b = if ltb b 64 then computed (a * 2 ^ b % 2 ^ 64) else unspecified
uint_value op_rsh a b = if ltb b 64 then computed (a / 2 ^ b) else unspecified
uint_value op_and a b = computed (bit_and a b)
uint_value op_or a b = computed (bit_or a b)
uint_value op_xor a b = computed (bit_xor a b)
uint_value (other_binary n) a b = error

unfoldable pub binary_value : Doubles → BinaryOp → Operand → Operand → Computed
unfolding float_value int_value uint_value
binary_value d op a b = elim a.operand_type [
  | operand_float ↦ elim b.operand_type [
    | operand_float ↦ float_value d op a.bits b.bits
    | _ ↦ error
  ]
  | operand_int ↦ elim b.operand_type [ operand_int ↦ int_value op a.bits b.bits | _ ↦ error ]
  | operand_uint ↦ elim b.operand_type [ operand_uint ↦ uint_value op a.bits b.bits | _ ↦ error ]
  | operand_string ↦ error
]
