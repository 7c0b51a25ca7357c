-- ===== src/Slash/Commands.antt =====
-- What the commands of src/slash/slash_csp_proc.c add to the current procedure.
use csp_proc.Common.{
  ℕ, suc, ◌%◌, ◌<◌, List, [], ◌∷◌, ◌++◌, drop, Option, none, some, lt→ltb, ◌≡◌, refl, arith,
}
use csp_proc.Types.{
  ComparisonOp, UnaryOp, BinaryOp, Payload, block, ifelse, set, unop, binop, call, noop, unknown,
  Proc, instruction_count, max_instructions,
}
use csp_proc.Slash.{
  atoi, Text, comparison_op_str, unary_op_str, binary_op_str, success, einval, Answer, Parsed,
  Shell, instruction_can_be_added, or_default, append_instruction, node_argument, Reader,
  read_block, read_ifelse, read_noop, read_set, read_unop, read_binop, read_call, add_command,
  proc_block, proc_ifelse, proc_noop, proc_set, proc_unop, proc_binop, proc_call,
}
use csp_proc.Slash.Operators.{
  parse_comparison_op_enum_iff, parse_unary_op_enum_iff, parse_binary_op_enum_iff,
}

-- The words that `proc list` prints for an instruction's operands and operator, in the order in which its
-- command takes them; `slot` is a numeral.
pub data Spells : List Text → Payload → Type 0 where
  block_words :
      (a b o : Text) (op : ComparisonOp)
      → comparison_op_str op ≡ some o
      → Spells (a ∷ o ∷ b ∷ []) (block a op b)
  ifelse_words :
      (a b o : Text) (op : ComparisonOp)
      → comparison_op_str op ≡ some o
      → Spells (a ∷ o ∷ b ∷ []) (ifelse a op b)
  set_words : (p v : Text) → Spells (p ∷ v ∷ []) (set p v)
  unop_words :
      (p r o : Text) (op : UnaryOp)
      → unary_op_str op ≡ some o
      → Spells (p ∷ o ∷ r ∷ []) (unop p op r)
  binop_words :
      (a b r o : Text) (op : BinaryOp)
      → binary_op_str op ≡ some o
      → Spells (a ∷ o ∷ b ∷ r ∷ []) (binop a op b r)
  noop_words : Spells [] noop
  call_words : (slot : Text) (n : ℕ) → atoi slot ≡ n → n < 256 → Spells (slot ∷ []) (call n)

-- The command for an instruction; the unknown types have none.
abbrev pub command_of : Payload → Shell → List Text → Option Proc → Answer
command_of (block a op b) = proc_block
command_of (ifelse a op b) = proc_ifelse
command_of (set p v) = proc_set
command_of (unop p op r) = proc_unop
command_of (binop a op b r) = proc_binop
command_of (call s) = proc_call
command_of noop = proc_noop
command_of (unknown n) = λ sh argv current. (einval, current)

abbrev pub reader_of : Payload → Reader
reader_of (block a op b) = read_block
reader_of (ifelse a op b) = read_ifelse
reader_of (set p v) = read_set
reader_of (unop p op r) = read_unop
reader_of (binop a op b r) = read_binop
reader_of (call s) = read_call
reader_of noop = read_noop
reader_of (unknown n) = λ node ws. none

-- The instruction's node: `proc noop` takes none.
abbrev pub node_for : Payload → ℕ → List Text → ℕ
node_for noop node rest = 0
node_for _ node rest = node_argument node rest

small_slot : (m n : ℕ) → m ≡ n → n < 256 → m % 256 ≡ n
small_slot m n e small = omega arith

reader-Spells :
    (ws rest : List Text) (p : Payload) (node : ℕ)
    → Spells ws p
    → reader_of p node (ws ++ rest) ≡ some (record { node = node_for p node rest; payload = p })
unfolding read_noop read_block read_ifelse read_set read_unop read_binop read_call
reader-Spells ws rest p node (block_words a b o op e) =
    rw ((parse_comparison_op_enum_iff o op).1 e, read_block)
reader-Spells ws rest p node (ifelse_words a b o op e) =
    rw ((parse_comparison_op_enum_iff o op).1 e, read_ifelse)
reader-Spells ws rest p node (set_words q v) = refl
reader-Spells ws rest p node noop_words = refl
reader-Spells ws rest p node (unop_words q r o op e) =
    rw ((parse_unary_op_enum_iff o op).1 e, read_unop)
reader-Spells ws rest p node (binop_words a b r o op e) =
    rw ((parse_binary_op_enum_iff o op).1 e, read_binop)
reader-Spells ws rest p node (call_words slot n e small) =
    rw (small_slot (atoi slot) n e small, read_call)

command_of_lem :
    (sh : Shell) (words : List Text) (payload : Payload) (argv : List Text) (current : Option Proc)
    → Spells words payload
    → command_of payload sh argv current ≡ add_command (reader_of payload) sh argv current
unfolding proc_block proc_ifelse proc_noop proc_set proc_unop proc_binop proc_call
command_of_lem sh words payload argv current (block_words a b o op e) = refl
command_of_lem sh words payload argv current _ = refl

-- The current procedure with room for an instruction, `words` that spell a payload after the options, and
-- perhaps more words after them: the payload's command succeeds and appends the instruction with that
-- payload, on the node of the next word or else of the option or else the default one.
pub command_of-Spells :
    (sh : Shell) (argv words rest : List Text) (parsed : Parsed) (payload : Payload) (p : Proc)
    → instruction_count p < max_instructions
    → sh.optparse_parse (drop 1 argv) ≡ some parsed
    → drop (suc parsed.argi) argv ≡ words ++ rest
    → Spells words payload
    → command_of payload sh argv (some p) ≡ (
      success,
      some (record {
        instructions =
            p.instructions
            ++ record {
              node = node_for payload (or_default sh.slash_dfl_node parsed.node_option) rest;
              payload = payload;
            }
              ∷ [];
      }),
    )
unfolding add_command append_instruction instruction_can_be_added
command_of-Spells sh argv words rest parsed payload p room parses args spelt =
    rw (command_of_lem sh words payload argv (some p) spelt) (
      rw (lt→ltb (instruction_count p) max_instructions room)
        (rw parses (rw args (rw (reader-Spells words rest payload _ spelt) refl))))
