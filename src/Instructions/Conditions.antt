-- ===== src/Instructions/Conditions.antt =====
-- The if-else instruction of src/runtime/proc_runtime_instructions_common.c.
use csp_proc.Common.{
  ◌⊎◌, inl, inr, ℕ, ◌<◌, ◌^◌, ◌≡◌, ◌≢◌, not, ==_iff, ne→==_false, refl, ap, sym, ◌∙◌, Option, none,
  some, arith, Bool, ltb, true, false, ◌==◌, ◌↔◌,
}
use csp_proc.Common.Int.{ℤ, pos, pos_part, signed64, ◌≤ℤ◌, word64, word64-signed64}
use csp_proc.Types.{
  ComparisonOp, op_eq, op_neq, op_lt, op_gt, op_le, op_ge, other_comparison, Instruction,
}
use csp_proc.Runtime.{Flag, flag_true, flag_false, flag_none, flag_err_type}
use csp_proc.Params.{
  Text, ParamType, string, Param, Doubles, Libparam, OperandType, Operand, operand_int,
  operand_uint, operand_float, operand_string,
}
use csp_proc.Instructions.{
  compare_by, less_int, compare_floats, compare_texts, compare_operands, proc_runtime_ifelse,
  compare_params, with_params, both_operands, second_operand, flag_if,
}

-- What an operator asks of two integers.
unfoldable pub Holds : ComparisonOp → ℤ → ℤ → Type 0
Holds op_eq a b = a ≡ b
Holds op_neq a b = a ≢ b
Holds op_lt a b = ¬ (b ≤ℤ a)
Holds op_gt a b = ¬ (a ≤ℤ b)
Holds op_le a b = a ≤ℤ b
Holds op_ge a b = b ≤ℤ a
Holds (other_comparison n) a b = ⊥

same_by : (a b : ℕ) (x y : ℤ) → (a ≡ b) ↔ (x ≡ y) → (flag_if (a == b) ≡ flag_true) ↔ (x ≡ y)
same_by a b x y e = ground (arith, ==_iff a b)

other_by : (a b : ℕ) (x y : ℤ) → (a ≡ b) ↔ (x ≡ y) → (flag_if (not (a == b)) ≡ flag_true) ↔ (x ≢ y)
other_by a b x y e = ground (arith, ==_iff a b)

pos-same : (a b : ℕ) → (a ≡ b) ↔ (pos a ≡ pos b)
pos-same a b = (ap pos, λ e. ap pos_part e)

signed64-same : (a b : ℕ) → a < 2 ^ 64 → b < 2 ^ 64 → (a ≡ b) ↔ (signed64 a ≡ signed64 b)
signed64-same a b ha hb =
    (ap signed64, λ e. sym (word64-signed64 a ha) ∙ ap word64 e ∙ word64-signed64 b hb)

compare_by-uint :
    (op : ComparisonOp) (a b : ℕ) → (compare_by ltb op a b ≡ flag_true) ↔ Holds op (pos a) (pos b)
unfolding compare_by Holds
compare_by-uint op_eq a b = same_by a b _ _ (pos-same a b)
compare_by-uint op_neq a b = other_by a b _ _ (pos-same a b)
compare_by-uint op_lt a b = ground arith
compare_by-uint op_gt a b = ground arith
compare_by-uint op_le a b = ground arith
compare_by-uint op_ge a b = ground arith
compare_by-uint (other_comparison n) a b = ground arith

compare_by-int :
    (op : ComparisonOp) (a b : ℕ)
    → a < 2 ^ 64
    → b < 2 ^ 64
    → (compare_by less_int op a b ≡ flag_true) ↔ Holds op (signed64 a) (signed64 b)
unfolding compare_by Holds
compare_by-int op_eq a b ha hb = same_by a b _ _ (signed64-same a b ha hb)
compare_by-int op_neq a b ha hb = other_by a b _ _ (signed64-same a b ha hb)
compare_by-int op_lt a b ha hb = ground arith
compare_by-int op_gt a b ha hb = ground arith
compare_by-int op_le a b ha hb = ground arith
compare_by-int op_ge a b ha hb = ground arith
compare_by-int (other_comparison n) a b ha hb = ground arith

-- A comparison has one of four results; the loop's mark for "no if-else before" is none of them.
abbrev pub IsVerdict : Flag → Type 0
IsVerdict f = f ≢ flag_none

flag_if-IsVerdict : (b : Bool) → IsVerdict (flag_if b)
flag_if-IsVerdict true e = absurd (ground arith)
flag_if-IsVerdict false e = absurd (ground arith)

compare_by-IsVerdict :
    (less : ℕ → ℕ → Bool) (op : ComparisonOp) (a b : ℕ) → IsVerdict (compare_by less op a b)
unfolding compare_by
compare_by-IsVerdict less (other_comparison n) a b e = absurd (ground arith)
compare_by-IsVerdict less op a b e = flag_if-IsVerdict _ e

compare_floats-IsVerdict :
    (d : Doubles) (op : ComparisonOp) (a b : ℕ) → IsVerdict (compare_floats d op a b)
unfolding compare_floats
compare_floats-IsVerdict d (other_comparison n) a b e = absurd (ground arith)
compare_floats-IsVerdict d op a b e = flag_if-IsVerdict _ e

compare_texts-IsVerdict : (op : ComparisonOp) (s t : Text) → IsVerdict (compare_texts op s t)
unfolding compare_texts
compare_texts-IsVerdict (other_comparison n) s t e = absurd (ground arith)
compare_texts-IsVerdict op s t e = flag_if-IsVerdict _ e

flag_if-decides : (b : Bool) → (flag_if b ≡ flag_true) ⊎ (flag_if b ≡ flag_false)
flag_if-decides true = inl refl
flag_if-decides false = inr refl

compare_by-decides :
    (less : ℕ → ℕ → Bool) (op : ComparisonOp) (a b : ℕ)
    → ((k : ℕ) → op ≢ other_comparison k)
    → (compare_by less op a b ≡ flag_true) ⊎ (compare_by less op a b ≡ flag_false)
unfolding compare_by
compare_by-decides less (other_comparison n) a b known = absurd (known n refl)
compare_by-decides less op a b known = flag_if-decides _

-- The integer that the bits of an operand stands for.
abbrev pub integer_at : OperandType → ℕ → Option ℤ
integer_at operand_uint bits = some (pos bits)
integer_at operand_int bits = some (signed64 bits)
integer_at operand_float bits = none
integer_at operand_string bits = none

module _ {W : Type 0} (lib : Libparam W) where
  compare_operands-IsVerdict :
      (op : ComparisonOp) (p q : Param) (a b : Operand) (w : W)
      → IsVerdict (compare_operands lib op p q a b w)
  unfolding compare_operands
  compare_operands-IsVerdict op p q a b w e =
      grind (arith, compare_by-IsVerdict, compare_floats-IsVerdict, compare_texts-IsVerdict)

  second_operand-IsVerdict :
      (b : Text) (op : ComparisonOp) (node : ℕ) (p q : Param) (x : Operand) (w : W)
      → IsVerdict (second_operand lib b op node p q x w).0
  unfolding second_operand
  second_operand-IsVerdict b op node p q x w e = grind (arith, compare_operands-IsVerdict)

  both_operands-IsVerdict :
      (a b : Text) (op : ComparisonOp) (node : ℕ) (p q : Param) (w : W)
      → IsVerdict (both_operands lib a b op node p q w).0
  unfolding both_operands
  both_operands-IsVerdict a b op node p q w e = grind (arith, second_operand-IsVerdict)

  with_params-IsVerdict :
      (a b : Text) (op : ComparisonOp) (node : ℕ) (p q : Option Param) (w : W)
      → IsVerdict (with_params lib a b op node p q w).0
  unfolding with_params
  with_params-IsVerdict a b op node p q w e = grind (arith, both_operands-IsVerdict)

  -- The result of an if-else instruction is true, false or an error, whatever the instruction and the
  -- parameters: it is never the mark that the loop keeps for "no if-else before".
  pub proc_runtime_ifelse-IsVerdict :
      (ins : Instruction) (w : W) → IsVerdict (proc_runtime_ifelse lib ins w).0
  unfolding proc_runtime_ifelse compare_params
  proc_runtime_ifelse-IsVerdict ins w e = grind (arith, with_params-IsVerdict)

  Holds-at :
      (op : ComparisonOp) (p q : Param) (s s' : ParamType) (t t' : OperandType) (m n : ℕ) (x y : ℤ)
      (w : W)
      → m < 2 ^ 64
      → n < 2 ^ 64
      → t ≡ t'
      → integer_at t m ≡ some x
      → integer_at t' n ≡ some y
      → (compare_operands lib op p q
            (record { source_type = s; operand_type = t; bits = m })
            (record { source_type = s'; operand_type = t'; bits = n })
            w
          ≡ flag_true)
        ↔ Holds op x y
  unfolding compare_operands
  Holds-at op p q s s' operand_uint operand_uint m n x y w ha hb t ex ey =
      let u : pos m ≡ x = cc in let v : pos n ≡ y = cc in rw (sym u, sym v) (compare_by-uint op m n)
  Holds-at op p q s s' operand_int operand_int m n x y w ha hb t ex ey =
      let u : signed64 m ≡ x = cc in
      let v : signed64 n ≡ y = cc in rw (sym u, sym v) (compare_by-int op m n ha hb)
  Holds-at op p q s s' _ _ m n x y w ha hb t ex ey = absurd cc

  -- Two operands of the same integer type give true just when the operator holds of the integers that they
  -- stand for: unsigned ones as they are, signed ones in two's complement.
  pub compare_operands-Holds :
      (op : ComparisonOp) (p q : Param) (a b : Operand) (x y : ℤ) (w : W)
      → a.bits < 2 ^ 64
      → b.bits < 2 ^ 64
      → a.operand_type ≡ b.operand_type
      → integer_at a.operand_type a.bits ≡ some x
      → integer_at b.operand_type b.bits ≡ some y
      → (compare_operands lib op p q a b w ≡ flag_true) ↔ Holds op x y
  unfolding compare_operands
  compare_operands-Holds op p q a b x y w ha hb t ex ey =
      Holds-at op p q a.source_type b.source_type a.operand_type b.operand_type a.bits b.bits x y w
        ha hb t ex ey

  decided_at :
      (op : ComparisonOp) (p q : Param) (s s' : ParamType) (t t' : OperandType) (m n : ℕ) (x y : ℤ)
      (w : W)
      → ((k : ℕ) → op ≢ other_comparison k)
      → t ≡ t'
      → integer_at t m ≡ some x
      → let flag =
          compare_operands lib op p q
            (record { source_type = s; operand_type = t; bits = m })
            (record { source_type = s'; operand_type = t'; bits = n })
            w in
        (flag ≡ flag_true) ⊎ (flag ≡ flag_false)
  unfolding compare_operands
  decided_at op p q s s' operand_uint operand_uint m n x y w known t e =
      compare_by-decides ltb op m n known
  decided_at op p q s s' operand_int operand_int m n x y w known t e =
      compare_by-decides less_int op m n known
  decided_at op p q s s' _ _ m n x y w known t e = absurd cc

  -- Two operands of the same integer type are true or false under every operator that the code knows.
  pub compare_operands-decides :
      (op : ComparisonOp) (p q : Param) (a b : Operand) (x : ℤ) (w : W)
      → ((k : ℕ) → op ≢ other_comparison k)
      → a.operand_type ≡ b.operand_type
      → integer_at a.operand_type a.bits ≡ some x
      → (compare_operands lib op p q a b w ≡ flag_true)
        ⊎ (compare_operands lib op p q a b w ≡ flag_false)
  compare_operands-decides op p q a b x w known t e =
      decided_at op p q a.source_type b.source_type a.operand_type b.operand_type a.bits b.bits x x
        w known t e

  -- Two strings are never compared, where the code of `PARAM_TYPE_STRING` is not the 3 of
  -- `OPERAND_TYPE_STRING`: every operator gives a type error.
  pub compare_operands-string :
      (op : ComparisonOp) (p q : Param) (a b : Operand) (w : W)
      → lib.type_code string ≢ 3
      → q.type ≡ string
      → a.operand_type ≡ operand_string
      → compare_operands lib op p q a b w ≡ flag_err_type
  unfolding compare_operands
  compare_operands-string op p q a b w code is_string t =
      rw (t, is_string, ne→==_false (lib.type_code string) 3 code) refl
