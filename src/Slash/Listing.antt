-- ===== src/Slash/Listing.antt =====
-- `proc list` of src/slash/slash_csp_proc.c. A line is the texts that `printf` joins: the format's own and
-- those of its arguments.
use csp_proc.Common.{
  ℕ, zero, suc, ◌+◌, ◌-◌, ◌/◌, ◌%◌, ◌^◌, List, [], ◌∷◌, ◌++◌, Option, none, some, ltb,
  if◌then◌else◌,
}
use csp_proc.Types.{
  Payload, block, ifelse, set, unop, binop, call, noop, unknown, type_code, Instruction, Proc,
  instruction_count,
}
use csp_proc.Slash.{Text, comparison_op_str, unary_op_str, binary_op_str, Exit, success, einval}

-- `%d` of the C library. The decimal digits of a number with at most `k + 1` of them, then a bit
-- pattern of an `int`.
unfoldable pub digits : ℕ → ℕ → Text
digits zero n = (48 + n % 10) ∷ []
digits (suc k) n =
    let rest = digits k (n / 10) in if ltb n 10 then (48 + n) ∷ [] else rest ++ (48 + n % 10) ∷ []

unfoldable pub print_int : ℕ → Text
unfolding digits
print_int n = if ltb n (2 ^ 31) then digits 9 n else b'-' ∷ digits 9 (2 ^ 32 - n)

-- The texts of the formats.
abbrev pub after_index : Text
after_index = b':' ∷ 9 ∷ []

abbrev pub after_node : Text
after_node = b']' ∷ 9 ∷ []

abbrev pub before_node : Text
before_node = b'[' ∷ b'n' ∷ b'o' ∷ b'd' ∷ b'e' ∷ b' ' ∷ []

abbrev pub block_label : Text
block_label = b'b' ∷ b'l' ∷ b'o' ∷ b'c' ∷ b'k' ∷ b' ' ∷ b':' ∷ b' ' ∷ []

abbrev pub ifelse_label : Text
ifelse_label = b'i' ∷ b'f' ∷ b'e' ∷ b'l' ∷ b's' ∷ b'e' ∷ b':' ∷ b' ' ∷ []

abbrev pub set_label : Text
set_label = b's' ∷ b'e' ∷ b't' ∷ b' ' ∷ b' ' ∷ b' ' ∷ b':' ∷ b' ' ∷ []

abbrev pub unop_label : Text
unop_label = b'u' ∷ b'n' ∷ b'o' ∷ b'p' ∷ b' ' ∷ b' ' ∷ b':' ∷ b' ' ∷ []

abbrev pub binop_label : Text
binop_label = b'b' ∷ b'i' ∷ b'n' ∷ b'o' ∷ b'p' ∷ b' ' ∷ b':' ∷ b' ' ∷ []

abbrev pub call_label : Text
call_label = b'c' ∷ b'a' ∷ b'l' ∷ b'l' ∷ b' ' ∷ b' ' ∷ b':' ∷ b' ' ∷ []

abbrev pub noop_text : Text
noop_text = b'-' ∷ 9 ∷ 9 ∷ b'n' ∷ b'o' ∷ b'o' ∷ b'p' ∷ 10 ∷ []

abbrev pub unknown_text : Text
unknown_text =
    b'U' ∷ b'n' ∷ b'k' ∷ b'n' ∷ b'o' ∷ b'w' ∷ b'n' ∷ b' ' ∷ b'i' ∷ b'n' ∷ b's' ∷ b't' ∷ b'r' ∷ b'u'
    ∷ b'c' ∷ b't' ∷ b'i' ∷ b'o' ∷ b'n' ∷ b' ' ∷ b't' ∷ b'y' ∷ b'p' ∷ b'e' ∷ b' ' ∷ []

abbrev pub space : Text
space = b' ' ∷ []

abbrev pub equals : Text
equals = b' ' ∷ b'=' ∷ b' ' ∷ []

abbrev pub newline : Text
newline = 10 ∷ []

-- What follows the node and the label; `none` is a read past an `_op_str` array.
unfoldable pub operand_texts : Payload → Option (List Text)
operand_texts (block a op b) = elim (comparison_op_str op) [
  | none ↦ none
  | some o ↦ some (block_label ∷ a ∷ space ∷ o ∷ space ∷ b ∷ newline ∷ [])
]
operand_texts (ifelse a op b) = elim (comparison_op_str op) [
  | none ↦ none
  | some o ↦ some (ifelse_label ∷ a ∷ space ∷ o ∷ space ∷ b ∷ newline ∷ [])
]
operand_texts (set p v) = some (set_label ∷ p ∷ equals ∷ v ∷ newline ∷ [])
operand_texts (unop p op r) = elim (unary_op_str op) [
  | none ↦ none
  | some o ↦ some (unop_label ∷ r ∷ equals ∷ o ∷ (b'(' ∷ []) ∷ p ∷ (b')' ∷ 10 ∷ []) ∷ [])
]
operand_texts (binop a op b r) = elim (binary_op_str op) [
  | none ↦ none
  | some o ↦ some (binop_label ∷ r ∷ equals ∷ a ∷ space ∷ o ∷ space ∷ b ∷ newline ∷ [])
]
operand_texts (call s) = some (call_label ∷ print_int s ∷ newline ∷ [])
operand_texts noop = some []
operand_texts (unknown n) = some []

-- The `switch`.
unfoldable pub instruction_texts : Instruction → Payload → Option (List Text)
unfolding operand_texts
instruction_texts ins noop = some (noop_text ∷ [])
instruction_texts ins (unknown n) =
    some (unknown_text ∷ print_int (type_code (unknown n)) ∷ newline ∷ [])
instruction_texts ins payload = elim (operand_texts payload) [
  | none ↦ none
  | some texts ↦ some (before_node ∷ print_int ins.node ∷ after_node ∷ texts)
]

-- The loop from index `i` on.
unfoldable pub list_loop : ℕ → List Instruction → Option (List (List Text))
unfolding instruction_texts
list_loop i [] = some []
list_loop i (ins ∷ rest) = elim (instruction_texts ins ins.payload) [
  | none ↦ none
  | some texts ↦ elim (list_loop (suc i) rest) [
    | none ↦ none
    | some lines ↦ some ((print_int i ∷ after_index ∷ texts) ∷ lines)
  ]
]

-- The exit code, the number of instructions that the first line gives, and the lines of the
-- instructions.
unfoldable pub proc_list : Option Proc → Option (Exit × ℕ × List (List Text))
unfolding list_loop
proc_list none = some (einval, 0, [])
proc_list (some p) = elim (list_loop 0 p.instructions) [
  | none ↦ none
  | some lines ↦ some (success, instruction_count p, lines)
]
