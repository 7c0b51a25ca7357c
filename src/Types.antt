-- ===== src/Types.antt =====
-- include/csp_proc/proc_types.h: instructions and procedures.
-- An `enum` field that was copied out of a packet may hold any 32-bit value: `other_…  n` is the value
-- that lies n past the last enumerator. A `char *` is the list of the characters before its NUL.
use csp_proc.Common.{ℕ, zero, suc, ◌^◌, ◌≤◌, ◌<◌, ◌≡◌, refl, List, length, All}

abbrev pub max_instructions : ℕ
max_instructions = 255

abbrev pub max_proc_slot : ℕ
max_proc_slot = 255

abbrev pub reserved_proc_slots : ℕ
reserved_proc_slots = 0

pub data ComparisonOp : Type 0 where
  op_eq op_neq op_lt op_gt op_le op_ge : ComparisonOp
  other_comparison : ℕ → ComparisonOp

pub data UnaryOp : Type 0 where
  op_inc op_dec op_not op_neg op_idt op_rmt : UnaryOp
  other_unary : ℕ → UnaryOp

pub data BinaryOp : Type 0 where
  op_add op_sub op_mul op_div op_mod op_lsh op_rsh op_and op_or op_xor : BinaryOp
  other_binary : ℕ → BinaryOp

-- The enumerators' values.
abbrev pub comparison_code : ComparisonOp → ℕ
comparison_code op_eq = 0
comparison_code op_neq = 1
comparison_code op_lt = 2
comparison_code op_gt = 3
comparison_code op_le = 4
comparison_code op_ge = 5
comparison_code (other_comparison n) = suc (suc (suc (suc (suc (suc n)))))

abbrev pub comparison_of : ℕ → ComparisonOp
comparison_of zero = op_eq
comparison_of (suc zero) = op_neq
comparison_of (suc (suc zero)) = op_lt
comparison_of (suc (suc (suc zero))) = op_gt
comparison_of (suc (suc (suc (suc zero)))) = op_le
comparison_of (suc (suc (suc (suc (suc zero))))) = op_ge
comparison_of (suc (suc (suc (suc (suc (suc n)))))) = other_comparison n

abbrev pub unary_code : UnaryOp → ℕ
unary_code op_inc = 0
unary_code op_dec = 1
unary_code op_not = 2
unary_code op_neg = 3
unary_code op_idt = 4
unary_code op_rmt = 5
unary_code (other_unary n) = suc (suc (suc (suc (suc (suc n)))))

abbrev pub unary_of : ℕ → UnaryOp
unary_of zero = op_inc
unary_of (suc zero) = op_dec
unary_of (suc (suc zero)) = op_not
unary_of (suc (suc (suc zero))) = op_neg
unary_of (suc (suc (suc (suc zero)))) = op_idt
unary_of (suc (suc (suc (suc (suc zero))))) = op_rmt
unary_of (suc (suc (suc (suc (suc (suc n)))))) = other_unary n

abbrev pub binary_code : BinaryOp → ℕ
binary_code op_add = 0
binary_code op_sub = 1
binary_code op_mul = 2
binary_code op_div = 3
binary_code op_mod = 4
binary_code op_lsh = 5
binary_code op_rsh = 6
binary_code op_and = 7
binary_code op_or = 8
binary_code op_xor = 9
binary_code (other_binary n) = suc (suc (suc (suc (suc (suc (suc (suc (suc (suc n)))))))))

abbrev pub binary_of : ℕ → BinaryOp
binary_of zero = op_add
binary_of (suc zero) = op_sub
binary_of (suc (suc zero)) = op_mul
binary_of (suc (suc (suc zero))) = op_div
binary_of (suc (suc (suc (suc zero)))) = op_mod
binary_of (suc (suc (suc (suc (suc zero))))) = op_lsh
binary_of (suc (suc (suc (suc (suc (suc zero)))))) = op_rsh
binary_of (suc (suc (suc (suc (suc (suc (suc zero))))))) = op_and
binary_of (suc (suc (suc (suc (suc (suc (suc (suc zero)))))))) = op_or
binary_of (suc (suc (suc (suc (suc (suc (suc (suc (suc zero))))))))) = op_xor
binary_of (suc (suc (suc (suc (suc (suc (suc (suc (suc (suc n)))))))))) = other_binary n

-- The union of `proc_instruction_t` with its tag; `unknown n` is the type value n + 7.
pub data Payload : Type 0 where
  block : List ℕ → ComparisonOp → List ℕ → Payload
  ifelse : List ℕ → ComparisonOp → List ℕ → Payload
  set : List ℕ → List ℕ → Payload
  unop : List ℕ → UnaryOp → List ℕ → Payload
  binop : List ℕ → BinaryOp → List ℕ → List ℕ → Payload
  call : ℕ → Payload
  noop : Payload
  unknown : ℕ → Payload

abbrev pub type_code : Payload → ℕ
type_code (block a op b) = 0
type_code (ifelse a op b) = 1
type_code (set p v) = 2
type_code (unop p op r) = 3
type_code (binop a op b r) = 4
type_code (call s) = 5
type_code noop = 6
type_code (unknown n) = suc (suc (suc (suc (suc (suc (suc n))))))

pub record Instruction : Type 0 where
  pub node : ℕ
  pub payload : Payload

-- The first `instruction_count` entries of the array `instructions`; the count is their number.
pub record Proc : Type 0 where
  pub instructions : List Instruction

abbrev pub instruction_count : Proc → ℕ
instruction_count p = length p.instructions

-- A character of a C string: a byte other than NUL.
abbrev pub IsChar : ℕ → Type 0
IsChar c = (0 < c) × (c < 256)

abbrev pub IsText : List ℕ → Type 0
IsText s = All IsChar s

-- What the struct's field types give: 32-bit enums, a `uint8_t` slot, terminated strings.
abbrev pub IsValidPayload : Payload → Type 0
IsValidPayload (block a op b) = IsText a × (comparison_code op < 2 ^ 32) × IsText b
IsValidPayload (ifelse a op b) = IsText a × (comparison_code op < 2 ^ 32) × IsText b
IsValidPayload (set p v) = IsText p × IsText v
IsValidPayload (unop p op r) = IsText p × (unary_code op < 2 ^ 32) × IsText r
IsValidPayload (binop a op b r) = IsText a × (binary_code op < 2 ^ 32) × IsText b × IsText r
IsValidPayload (call s) = s < 256
IsValidPayload noop = Unit
IsValidPayload (unknown n) = ⊥

-- An instruction of a known type within the ranges of its fields, on a `uint16_t` node.
abbrev pub IsValid : Instruction → Type 0
IsValid ins = (ins.node < 2 ^ 16) × IsValidPayload ins.payload

abbrev pub IsValidProc : Proc → Type 0
IsValidProc p = (instruction_count p ≤ max_instructions) × All IsValid p.instructions

pub comparison_of-code : (op : ComparisonOp) → comparison_of (comparison_code op) ≡ op
comparison_of-code op_eq = refl
comparison_of-code _ = refl

pub unary_of-code : (op : UnaryOp) → unary_of (unary_code op) ≡ op
unary_of-code op_inc = refl
unary_of-code _ = refl

pub binary_of-code : (op : BinaryOp) → binary_of (binary_code op) ≡ op
binary_of-code op_add = refl
binary_of-code _ = refl

-- An unsigned field's values and the enumerators correspond one to one.
pub comparison_code-of : (n : ℕ) → comparison_code (comparison_of n) ≡ n
comparison_code-of zero = refl
comparison_code-of (suc zero) = refl
comparison_code-of (suc (suc zero)) = refl
comparison_code-of (suc (suc (suc zero))) = refl
comparison_code-of (suc (suc (suc (suc zero)))) = refl
comparison_code-of (suc (suc (suc (suc (suc zero))))) = refl
comparison_code-of (suc (suc (suc (suc (suc (suc n)))))) = refl

pub unary_code-of : (n : ℕ) → unary_code (unary_of n) ≡ n
unary_code-of zero = refl
unary_code-of (suc zero) = refl
unary_code-of (suc (suc zero)) = refl
unary_code-of (suc (suc (suc zero))) = refl
unary_code-of (suc (suc (suc (suc zero)))) = refl
unary_code-of (suc (suc (suc (suc (suc zero))))) = refl
unary_code-of (suc (suc (suc (suc (suc (suc n)))))) = refl

pub binary_code-of : (n : ℕ) → binary_code (binary_of n) ≡ n
binary_code-of zero = refl
binary_code-of (suc zero) = refl
binary_code-of (suc (suc zero)) = refl
binary_code-of (suc (suc (suc zero))) = refl
binary_code-of (suc (suc (suc (suc zero)))) = refl
binary_code-of (suc (suc (suc (suc (suc zero))))) = refl
binary_code-of (suc (suc (suc (suc (suc (suc zero)))))) = refl
binary_code-of (suc (suc (suc (suc (suc (suc (suc zero))))))) = refl
binary_code-of (suc (suc (suc (suc (suc (suc (suc (suc zero)))))))) = refl
binary_code-of (suc (suc (suc (suc (suc (suc (suc (suc (suc zero))))))))) = refl
binary_code-of (suc (suc (suc (suc (suc (suc (suc (suc (suc (suc n)))))))))) = refl
