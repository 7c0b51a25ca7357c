-- ===== src/Slash.antt =====
-- src/slash/slash_csp_proc.c: the shell's commands that build the current procedure.
-- slash and its optparse are outside: `optparse_parse` is a field of `Shell`. A number
-- that `atoi` gives is its value as an `unsigned int`; strings are never out of memory.
mod Names
mod Numbers
pub mod Operators
pub mod Commands
pub mod Listing
pub mod Decimal
pub mod Pop
pub mod Requests
pub mod Context
pub mod Valid
mod Tests
unfoldable pub use Numbers.*
unfoldable pub use Names.*
use csp_proc.Common.{
  ◌*◌, ◌||◌, leb, ℕ, suc, ◌+◌, ◌-◌, ◌*◌, ◌%◌, ◌^◌, List, [], ◌∷◌, ◌++◌, length, take, drop, Bool,
  true, false, ◌&&◌, Option, none, some, ◌==◌, ltb, leb, if◌then◌else◌,
}
use csp_proc.Types.{
  ComparisonOp, UnaryOp, BinaryOp, op_eq, op_neq, op_lt, op_gt, op_le, op_ge, other_comparison,
  op_inc, op_dec, op_not, op_neg, op_idt, op_rmt, other_unary, op_add, op_sub, op_mul, op_div,
  op_mod, op_lsh, op_rsh, op_and, op_or, op_xor, other_binary, Payload, block, ifelse, set, unop,
  binop, call, noop, unknown, Instruction, Proc, instruction_count, max_instructions,
}
use csp_proc.Pack.Copy.{proc_copy_instruction}

-- What a command returns: SLASH_SUCCESS, SLASH_EINVAL or SLASH_ENOMEM.
pub data Exit : Type 0 where
  success einval enomem : Exit

-- A command's result, and `current_procedure` after it (`none` is NULL).
abbrev pub Answer : Type 0
Answer = Exit × Option Proc

-- What `optparse_parse` returns when that is not negative, and the values that it wrote for the options.
pub record Parsed : Type 0 where
  pub argi : ℕ
  pub node_option : Option ℕ
  pub instruction_option : Option ℕ

-- `optparse_parse` on a command's arguments, and `slash_dfl_node`.
pub record Shell : Type 0 where
  pub optparse_parse : List Text → Option Parsed
  pub slash_dfl_node : ℕ

unfoldable pub instruction_can_be_added : Option Proc → Bool
instruction_can_be_added none = false
instruction_can_be_added (some p) = ltb (instruction_count p) max_instructions

abbrev pub or_default : ℕ → Option ℕ → ℕ
or_default n none = n
or_default n (some m) = m

-- `current_procedure->instructions[current_procedure->instruction_count] = …` and the increment.
unfoldable pub append_instruction : Instruction → Option Proc → Option Proc
append_instruction ins none = none
append_instruction ins (some p) = some (record { instructions = p.instructions ++ ins ∷ [] })

-- `if (++argi < slash->argc) node = atoi(…)`, then the assignment to the `uint16_t` field.
unfoldable pub node_argument : ℕ → List Text → ℕ
node_argument node [] = node % 2 ^ 16
node_argument node (w ∷ ws) = atoi w % 2 ^ 16

-- What a command reads from the arguments that follow the options: the instruction, or SLASH_EINVAL.
abbrev pub Reader : Type 0
Reader = ℕ → List Text → Option Instruction

unfoldable pub read_block : Reader
read_block node (a ∷ op ∷ b ∷ ws) = elim (parse_comparison_op_enum op) [
  | none ↦ none
  | some o ↦ some (record { node = node_argument node ws; payload = block a o b })
]
read_block node _ = none

unfoldable pub read_ifelse : Reader
read_ifelse node (a ∷ op ∷ b ∷ ws) = elim (parse_comparison_op_enum op) [
  | none ↦ none
  | some o ↦ some (record { node = node_argument node ws; payload = ifelse a o b })
]
read_ifelse node _ = none

unfoldable pub read_noop : Reader
read_noop node ws = some (record { node = 0; payload = noop })

unfoldable pub read_set : Reader
read_set node (param ∷ value ∷ ws) =
    some (record { node = node_argument node ws; payload = set param value })
read_set node _ = none

unfoldable pub read_unop : Reader
read_unop node (param ∷ op ∷ result ∷ ws) = elim (parse_unary_op_enum op) [
  | none ↦ none
  | some o ↦ some (record { node = node_argument node ws; payload = unop param o result })
]
read_unop node _ = none

unfoldable pub read_binop : Reader
read_binop node (a ∷ op ∷ b ∷ result ∷ ws) = elim (parse_binary_op_enum op) [
  | none ↦ none
  | some o ↦ some (record { node = node_argument node ws; payload = binop a o b result })
]
read_binop node _ = none

unfoldable pub read_call : Reader
read_call node (slot ∷ ws) =
    some (record { node = node_argument node ws; payload = call (atoi slot % 256) })
read_call node _ = none

-- What the commands `proc_block` … `proc_call` have in common. `argv` starts with the command's name.
unfoldable pub add_command : Reader → Shell → List Text → Option Proc → Answer
add_command read sh argv current =
    if instruction_can_be_added current
    then elim (sh.optparse_parse (drop 1 argv)) [
      | none ↦ (einval, current)
      | some parsed ↦
          elim (read (or_default sh.slash_dfl_node parsed.node_option)
            (drop (suc parsed.argi) argv)) [
              | none ↦ (einval, current)
              | some ins ↦ (success, append_instruction ins current)
            ]
    ]
    else (einval, current)

unfoldable pub proc_block : Shell → List Text → Option Proc → Answer
unfolding add_command read_block
proc_block = add_command read_block

unfoldable pub proc_ifelse : Shell → List Text → Option Proc → Answer
unfolding add_command read_ifelse
proc_ifelse = add_command read_ifelse

unfoldable pub proc_noop : Shell → List Text → Option Proc → Answer
unfolding add_command read_noop
proc_noop = add_command read_noop

unfoldable pub proc_set : Shell → List Text → Option Proc → Answer
unfolding add_command read_set
proc_set = add_command read_set

unfoldable pub proc_unop : Shell → List Text → Option Proc → Answer
unfolding add_command read_unop
proc_unop = add_command read_unop

unfoldable pub proc_binop : Shell → List Text → Option Proc → Answer
unfolding add_command read_binop
proc_binop = add_command read_binop

unfoldable pub proc_call : Shell → List Text → Option Proc → Answer
unfolding add_command read_call
proc_call = add_command read_call

-- `allocated` is that `proc_malloc` gives memory.
unfoldable pub proc_new : Bool → Option Proc → Answer
proc_new allocated current =
    if allocated then (success, some (record { instructions = [] })) else (enomem, none)

-- The shifting loop from the removed instruction on; `false` is its failure, which
-- has copied the node and the unknown type. The last element is the old last one.
unfoldable pub shift_loop : Instruction → List Instruction → Bool × List Instruction
shift_loop x [] = (true, x ∷ [])
shift_loop x (y ∷ rest) =
    let later = shift_loop y rest in
    elim (proc_copy_instruction y) [
      | none ↦ (false, y ∷ y ∷ rest)
      | some copy ↦ (later.0, copy ∷ later.1)
    ]

-- The instructions from index `step` on, shifted.
unfoldable pub shift_from : List Instruction → Bool × List Instruction
shift_from [] = (true, [])
shift_from (x ∷ rest) = shift_loop x rest

-- `current_procedure->instruction_count--`
abbrev decrement : List Instruction → Proc
decrement is = record { instructions = take (length is - 1) is }

-- `step` is a `uint8_t`, so that of an empty procedure is 255; as `int`s, no step is below a count of 0.
unfoldable pub pop_step : ℕ → Proc → Answer
unfolding shift_from
pop_step step p =
    let shifted = shift_from (drop step p.instructions) in
    let is = take step p.instructions ++ shifted.1 in
    if suc step == instruction_count p
    then (success, some (decrement p.instructions))
    else if ltb (suc step) (instruction_count p)
    then (if shifted.0
        then (success, some (decrement is))
        else (einval, some (record { instructions = is })))
    else (einval, some p)

abbrev step_argument : ℕ → List Text → ℕ
step_argument step [] = step
step_argument step (w ∷ ws) = atoi w % 256

unfoldable pub proc_pop : Shell → List Text → Option Proc → Answer
proc_pop sh argv none = (einval, none)
proc_pop sh argv (some p) = elim (sh.optparse_parse (drop 1 argv)) [
  | none ↦ (einval, some p)
  | some parsed ↦
      pop_step
        (step_argument
          (or_default ((instruction_count p + 255) % 256) parsed.instruction_option % 256)
          (drop (suc parsed.argi) argv))
        p
]
