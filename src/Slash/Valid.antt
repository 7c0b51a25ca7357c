-- ===== src/Slash/Valid.antt =====
-- The field ranges of what the commands of src/slash/slash_csp_proc.c build.
use csp_proc.Common.{
  All-drop, ℕ, suc, ◌^◌, ◌<◌, List, [], ◌∷◌, length-append, drop, All, All-append, true, Option,
  none, some, ltb→lt, ◌≡◌, refl, inl, inr, Bool-cases, Option-cases, ltb, arith,
}
use csp_proc.Types.{
  ComparisonOp, UnaryOp, BinaryOp, other_comparison, other_unary, other_binary, op_eq, op_inc,
  op_add, comparison_code, unary_code, binary_code, Payload, block, ifelse, set, unop, binop, call,
  noop, unknown, Instruction, Proc, IsText, IsValid, IsValidProc, instruction_count,
  max_instructions,
}
use csp_proc.Slash.{
  Text, comparison_op_str, unary_op_str, binary_op_str, parse_comparison_op_enum,
  parse_unary_op_enum, parse_binary_op_enum, success, einval, Answer, Parsed, Shell,
  instruction_can_be_added, or_default, append_instruction, node_argument, read_block, read_ifelse,
  read_noop, read_set, read_unop, read_binop, read_call, add_command, proc_block, proc_ifelse,
  proc_noop, proc_set, proc_unop, proc_binop, proc_call,
}
use csp_proc.Slash.Operators.{
  parse_comparison_op_enum_iff, parse_unary_op_enum_iff, parse_binary_op_enum_iff,
}
use csp_proc.Slash.Commands.{command_of, reader_of}

named_comparison :
    (op : ComparisonOp) (s : Text) → comparison_op_str op ≡ some s → comparison_code op < 2 ^ 32
unfolding comparison_op_str
named_comparison (other_comparison n) s h = cc
named_comparison op_eq s h = omega arith
named_comparison _ s h = omega arith

named_unary : (op : UnaryOp) (s : Text) → unary_op_str op ≡ some s → unary_code op < 2 ^ 32
unfolding unary_op_str
named_unary (other_unary n) s h = cc
named_unary op_inc s h = omega arith
named_unary _ s h = omega arith

named_binary : (op : BinaryOp) (s : Text) → binary_op_str op ≡ some s → binary_code op < 2 ^ 32
unfolding binary_op_str
named_binary (other_binary n) s h = cc
named_binary op_add s h = omega arith
named_binary _ s h = omega arith

node_argument_bound : (node : ℕ) (ws : List Text) → node_argument node ws < 2 ^ 16
unfolding node_argument
node_argument_bound node [] = omega arith
node_argument_bound node (w ∷ ws) = omega arith

-- The instruction that a reader gives, if any, is valid.
abbrev Holds : (Instruction → Type 0) → Option Instruction → Type 0
Holds P none = Unit
Holds P (some ins) = P ins

read_block-IsValid :
    (node : ℕ) (ws : List Text) → All IsText ws → Holds IsValid (read_block node ws)
unfolding read_block
read_block-IsValid node (a ∷ op ∷ b ∷ ws) h = go (parse_comparison_op_enum op) refl
  where
    go :
        (o : Option ComparisonOp)
        → parse_comparison_op_enum op ≡ o
        → Holds IsValid (read_block node (a ∷ op ∷ b ∷ ws))
    go none e = rw (read_block, e) tt
    go (some o) e =
        let bound = named_comparison o op ((parse_comparison_op_enum_iff op o).0 e) in
        rw (read_block, e) (node_argument_bound node ws, (h.0, bound, h.1.1.0))
read_block-IsValid node [] h = tt
read_block-IsValid node (w ∷ []) h = tt
read_block-IsValid node (w ∷ x ∷ []) h = tt

read_ifelse-IsValid :
    (node : ℕ) (ws : List Text) → All IsText ws → Holds IsValid (read_ifelse node ws)
unfolding read_ifelse
read_ifelse-IsValid node (a ∷ op ∷ b ∷ ws) h = go (parse_comparison_op_enum op) refl
  where
    go :
        (o : Option ComparisonOp)
        → parse_comparison_op_enum op ≡ o
        → Holds IsValid (read_ifelse node (a ∷ op ∷ b ∷ ws))
    go none e = rw (read_ifelse, e) tt
    go (some o) e =
        let bound = named_comparison o op ((parse_comparison_op_enum_iff op o).0 e) in
        rw (read_ifelse, e) (node_argument_bound node ws, (h.0, bound, h.1.1.0))
read_ifelse-IsValid node [] h = tt
read_ifelse-IsValid node (w ∷ []) h = tt
read_ifelse-IsValid node (w ∷ x ∷ []) h = tt

read_unop-IsValid : (node : ℕ) (ws : List Text) → All IsText ws → Holds IsValid (read_unop node ws)
unfolding read_unop
read_unop-IsValid node (p ∷ op ∷ r ∷ ws) h = go (parse_unary_op_enum op) refl
  where
    go :
        (o : Option UnaryOp)
        → parse_unary_op_enum op ≡ o
        → Holds IsValid (read_unop node (p ∷ op ∷ r ∷ ws))
    go none e = rw (read_unop, e) tt
    go (some o) e =
        let bound = named_unary o op ((parse_unary_op_enum_iff op o).0 e) in
        rw (read_unop, e) (node_argument_bound node ws, (h.0, bound, h.1.1.0))
read_unop-IsValid node [] h = tt
read_unop-IsValid node (w ∷ []) h = tt
read_unop-IsValid node (w ∷ x ∷ []) h = tt

read_binop-IsValid :
    (node : ℕ) (ws : List Text) → All IsText ws → Holds IsValid (read_binop node ws)
unfolding read_binop
read_binop-IsValid node (a ∷ op ∷ b ∷ r ∷ ws) h = go (parse_binary_op_enum op) refl
  where
    go :
        (o : Option BinaryOp)
        → parse_binary_op_enum op ≡ o
        → Holds IsValid (read_binop node (a ∷ op ∷ b ∷ r ∷ ws))
    go none e = rw (read_binop, e) tt
    go (some o) e =
        let bound = named_binary o op ((parse_binary_op_enum_iff op o).0 e) in
        rw (read_binop, e) (node_argument_bound node ws, (h.0, bound, h.1.1.0, h.1.1.1.0))
read_binop-IsValid node [] h = tt
read_binop-IsValid node (w ∷ []) h = tt
read_binop-IsValid node (w ∷ x ∷ []) h = tt
read_binop-IsValid node (w ∷ x ∷ y ∷ []) h = tt

reader-IsValid :
    (payload : Payload) (node : ℕ) (ws : List Text)
    → All IsText ws
    → Holds IsValid (reader_of payload node ws)
unfolding read_set read_noop read_call
reader-IsValid (block a op b) node ws h = read_block-IsValid node ws h
reader-IsValid (ifelse a op b) node ws h = read_ifelse-IsValid node ws h
reader-IsValid (unop p op r) node ws h = read_unop-IsValid node ws h
reader-IsValid (binop a op b r) node ws h = read_binop-IsValid node ws h
reader-IsValid (set p v) node (x ∷ y ∷ ws) h = (node_argument_bound node ws, (h.0, h.1.0))
reader-IsValid (set p v) node (x ∷ []) h = tt
reader-IsValid (set p v) node [] h = tt
reader-IsValid (call s) node (x ∷ ws) h = (node_argument_bound node ws, omega arith)
reader-IsValid (call s) node [] h = tt
reader-IsValid noop node ws h = (omega arith, tt)
reader-IsValid (unknown n) node ws h = tt

-- The current procedure, if there is one, is valid.
abbrev pub IsValidCurrent : Option Proc → Type 0
IsValidCurrent none = Unit
IsValidCurrent (some p) = IsValidProc p

append_valid :
    (ins : Instruction) (p : Proc)
    → IsValid ins
    → IsValidProc p
    → instruction_count p < max_instructions
    → IsValidCurrent (append_instruction ins (some p))
unfolding append_instruction
append_valid ins p h v room = (
  omega (arith, length-append p.instructions (ins ∷ [])),
  All-append IsValid p.instructions (ins ∷ []) v.1 (h, tt),
)

add_command_valid :
    (payload : Payload) (sh : Shell) (argv : List Text) (current : Option Proc)
    → All IsText argv
    → IsValidCurrent current
    → IsValidCurrent (add_command (reader_of payload) sh argv current).1
unfolding add_command instruction_can_be_added
add_command_valid payload sh argv none texts v = tt
add_command_valid payload sh argv (some p) texts v =
    elim (Bool-cases (ltb (instruction_count p) max_instructions)) [
      | inr full ↦ rw full v
      | inl room ↦ elim (Option-cases (sh.optparse_parse (drop 1 argv))) [
        | inl e ↦ rw room (rw e v)
        | inr (parsed, e) ↦ rw room (
            rw e (
              read_valid parsed room (
                reader-IsValid payload (or_default sh.slash_dfl_node parsed.node_option)
                  (drop (suc parsed.argi) argv) (All-drop IsText (suc parsed.argi) argv texts))))
      ]
    ]
  where
    read_valid :
        (parsed : Parsed)
        → ltb (instruction_count p) max_instructions ≡ true
        → Holds IsValid (
            reader_of payload
              (or_default sh.slash_dfl_node parsed.node_option)
              (drop (suc parsed.argi) argv))
        → IsValidCurrent
            (elim (reader_of payload
                (or_default sh.slash_dfl_node parsed.node_option)
                (drop (suc parsed.argi) argv))
              as (λ o. Answer) [
                | none ↦ (einval, some p)
                | some ins ↦ (success, append_instruction ins (some p))
              ]).1
    read_valid parsed room h =
        let read =
          reader_of payload (or_default sh.slash_dfl_node parsed.node_option)
            (drop (suc parsed.argi) argv) in
        elim (Option-cases read) [
          | inl e ↦ rw e v
          | inr (ins, e) ↦ rw e (
              append_valid ins p (rw e at h) v (ltb→lt (instruction_count p) max_instructions room))
        ]

-- Whatever the arguments and the options, each of the seven commands that add an instruction leaves a valid
-- current procedure valid: at most 255 instructions, every field within its type's range.
pub command_of-IsValidProc :
    (payload : Payload) (sh : Shell) (argv : List Text) (current : Option Proc)
    → All IsText argv
    → IsValidCurrent current
    → IsValidCurrent (command_of payload sh argv current).1
unfolding proc_block proc_ifelse proc_noop proc_set proc_unop proc_binop proc_call
command_of-IsValidProc (unknown n) sh argv current texts v = v
command_of-IsValidProc (block a op b) sh argv current texts v =
    add_command_valid (block a op b) sh argv current texts v
command_of-IsValidProc payload sh argv current texts v =
    add_command_valid payload sh argv current texts v
