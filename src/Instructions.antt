-- ===== src/Instructions.antt =====
-- src/runtime/proc_runtime_instructions_common.c, its second half: the handlers of the if-else, set, unary
-- and binary instructions. What C leaves undefined on an `int64_t` (overflow, a shift by a negative or too
-- large number, a left shift of a negative number) and a shift of a `uint64_t` by 64 or more are a result of
-- their own. A right shift of a negative number keeps the sign, as with gcc.
mod Operators
mod Comparing
pub mod Conditions
pub mod Arithmetic
pub mod Unary
pub mod Effects
pub mod Block
pub mod Execution
pub mod Ticks
mod Tests
unfoldable pub use Comparing.*
unfoldable pub use Operators.*
use Prim.Native.Nat.{bit_and, bit_or, bit_xor}
use csp_proc.Common.{
  ℕ, zero, suc, ◌+◌, ◌-◌, ◌*◌, ◌/◌, ◌%◌, ◌^◌, List, [], ◌∷◌, Bool, true, false, not, ◌&&◌, ◌||◌,
  Option, none, some, ◌==◌, ltb, leb, if◌then◌else◌,
}
use csp_proc.Common.Int.{
  ℤ, pos, negsuc, ◌+ℤ◌, ◌-ℤ◌, ◌*ℤ◌, ltb_ℤ, signed64, word64, trunc_div, trunc_mod, is_negative,
}
use csp_proc.Types.{
  ComparisonOp, UnaryOp, BinaryOp, op_eq, op_neq, op_lt, op_gt, op_le, op_ge, other_comparison,
  op_inc, op_dec, op_not, op_neg, op_idt, op_rmt, other_unary, op_add, op_sub, op_mul, op_div,
  op_mod, op_lsh, op_rsh, op_and, op_or, op_xor, other_binary, Payload, block, ifelse, set, unop,
  binop, call, noop, unknown, Instruction,
}
use csp_proc.Runtime.{Flag, flag_true, flag_false, flag_none, flag_err, flag_err_type}
use csp_proc.Params.{
  Text, ParamType, data_block, invalid, Param, Doubles, Libparam, OperandType, operand_uint,
  operand_int, operand_float, operand_string, operand_type_code, Operand, proc_fetch_param,
  fetch_operand_param_pair, Handled, undefined, returned, proc_set_param,
}

abbrev is_invalid : Param → Bool
is_invalid param = elim param.type [ invalid ↦ true | _ ↦ false ]

abbrev is_data : Param → Bool
is_data param = elim param.type [ data_block ↦ true | _ ↦ false ]

module _ {W : Type 0} (lib : Libparam W) where
  -- The `switch` on the type of the first operand. Strings are compared at the parameters' addresses, if the
  -- type of the second parameter, as a number, is that of `OPERAND_TYPE_STRING`.
  unfoldable pub compare_operands : ComparisonOp → Param → Param → Operand → Operand → W → Flag
  unfolding compare_by compare_floats compare_texts
  compare_operands op param_a param_b a b w = elim a.operand_type [
    | operand_uint ↦ elim b.operand_type [
      | operand_uint ↦ compare_by ltb op a.bits b.bits
      | _ ↦ flag_err_type
    ]
    | operand_int ↦ elim b.operand_type [
      | operand_int ↦ compare_by less_int op a.bits b.bits
      | _ ↦ flag_err_type
    ]
    | operand_float ↦ elim b.operand_type [
      | operand_float ↦ compare_floats lib.doubles op a.bits b.bits
      | _ ↦ flag_err_type
    ]
    | operand_string ↦
        if lib.type_code param_b.type == operand_type_code operand_string
        then compare_texts op (lib.addr_string param_a w) (lib.addr_string param_b w)
        else flag_err_type
  ]

  -- The second operand, once the first is there.
  second_operand : Text → ComparisonOp → ℕ → Param → Param → Operand → W → Flag × W
  second_operand b op node param_a param_b operand_a w =
      let r = fetch_operand_param_pair lib b node w in
      elim r.0 [
        | none ↦ (flag_err, r.1)
        | some pair ↦ (compare_operands op param_a param_b operand_a pair.1 r.1, r.1)
      ]

  both_operands : Text → Text → ComparisonOp → ℕ → Param → Param → W → Flag × W
  both_operands a b op node param_a param_b w =
      let r = fetch_operand_param_pair lib a node w in
      elim r.0 [
        | none ↦ (flag_err, r.1)
        | some pair ↦ second_operand b op node param_a param_b pair.1 r.1
      ]

  -- Both parameters are fetched before either is looked at.
  with_params : Text → Text → ComparisonOp → ℕ → Option Param → Option Param → W → Flag × W
  with_params a b op node none param_b w = (flag_err, w)
  with_params a b op node (some param_a) none w = (flag_err, w)
  with_params a b op node (some param_a) (some param_b) w =
      if is_invalid param_a || is_data param_b
      then (flag_err, w)
      else both_operands a b op node param_a param_b w

  compare_params : Text → ComparisonOp → Text → ℕ → W → Flag × W
  compare_params a op b node w =
      let r_a = proc_fetch_param lib a node w in
      let r_b = proc_fetch_param lib b node r_a.1 in with_params a b op node r_a.0 r_b.0 r_b.1

  unfoldable pub proc_runtime_ifelse : Instruction → W → Flag × W
  unfolding compare_params with_params both_operands second_operand
  proc_runtime_ifelse ins w = elim ins.payload [
    | ifelse a op b ↦ compare_params a op b ins.node w
    | _ ↦ (flag_err, w)
  ]

  unfoldable pub proc_runtime_set : Instruction → W → Handled W
  proc_runtime_set ins w = elim ins.payload [
    | set param value ↦ proc_set_param lib param none (some value) ins.node w
    | _ ↦ returned 1 w
  ]

  -- The write at the end of a unary or binary instruction: the operand with its new value.
  store_result : Text → ℕ → Operand → Computed → W → Handled W
  store_result result node operand error w = returned 1 w
  store_result result node operand unspecified w = undefined
  store_result result node operand (computed bits) w =
      proc_set_param lib result (some (record operand { bits = bits })) none node w

  -- `OP_RMT` reads on this node and writes on the remote one, the others the other way round.
  abbrev fetch_node : UnaryOp → ℕ → ℕ
  fetch_node op_rmt node = 0
  fetch_node _ node = node

  abbrev result_node : UnaryOp → ℕ → ℕ
  result_node op_rmt node = node
  result_node _ node = 0

  apply_unop : UnaryOp → Text → ℕ → Option (Param × Operand) × W → Handled W
  apply_unop op result node (none, w) = returned 1 w
  apply_unop op result node (some (param, operand), w) =
      store_result result (result_node op node) operand
        (unary_value lib.doubles lib.type_code op operand) w

  unfoldable pub proc_runtime_unop : Instruction → W → Handled W
  unfolding apply_unop store_result
  proc_runtime_unop ins w = elim ins.payload [
    | unop param op result ↦
        apply_unop op result ins.node
          (fetch_operand_param_pair lib param (fetch_node op ins.node) w)
    | _ ↦ returned 1 w
  ]

  apply_binop : BinaryOp → Text → ℕ → Operand → Option (Param × Operand) × W → Handled W
  apply_binop op result node operand_a (none, w) = returned 1 w
  apply_binop op result node operand_a (some (param, operand_b), w) =
      store_result result node operand_a (binary_value lib.doubles op operand_a operand_b) w

  fetch_second : BinaryOp → Text → Text → ℕ → Option (Param × Operand) × W → Handled W
  fetch_second op b result node (none, w) = returned 1 w
  fetch_second op b result node (some (param, operand_a), w) =
      apply_binop op result node operand_a (fetch_operand_param_pair lib b node w)

  unfoldable pub proc_runtime_binop : Instruction → W → Handled W
  unfolding fetch_second apply_binop store_result
  proc_runtime_binop ins w = elim ins.payload [
    | binop a op b result ↦
        fetch_second op b result ins.node (fetch_operand_param_pair lib a ins.node w)
    | _ ↦ returned 1 w
  ]
