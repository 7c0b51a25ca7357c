-- ===== src/Instructions/Execution.antt =====
-- The execution loop of src/runtime/proc_runtime_instructions_POSIX.c with the handlers of
-- src/runtime/proc_runtime_instructions_common.c in place of its interface.
use csp_proc.Common.{
  ℕ, suc, ◌<◌, ◌^◌, ◌≡◌, ◌≢◌, refl, ◌∙◌, get_elem?, true, false, Option, none, some, ◌⊎◌, inl, inr,
  ◌||◌,
}
use csp_proc.Common.Int.{ℤ}
use csp_proc.Types.{ComparisonOp, other_comparison, ifelse, Instruction}
use csp_proc.Analyze.{Analysis}
use csp_proc.Runtime.{Flag, flag_none, flag_err, Handlers, Graph, exec_loop}
use csp_proc.Runtime.Branches.{is_simple, perform, and_then, exec_loop-ifelse}
use csp_proc.Params.{
  Text, Param, Libparam, Operand, proc_fetch_param, fetch_operand_param_pair, Handled, undefined,
  returned,
}
use csp_proc.Instructions.{
  compare_operands, proc_runtime_ifelse, proc_runtime_set, proc_runtime_unop, proc_runtime_binop,
  is_invalid, is_data, compare_params, with_params, both_operands, second_operand,
}
use csp_proc.Instructions.Conditions.{
  Holds, integer_at, compare_operands-Holds, compare_operands-decides,
  proc_runtime_ifelse-IsVerdict,
}
use csp_proc.Instructions.Block.{Clock, proc_runtime_block}

-- The world, or what is left of it after undefined behaviour (`lost`).
pub data World (W : Type 0) : Type 0 where
  lost : World W
  alive : W → World W

module _ {W : Type 0} where
  unfoldable pub after_handled : Handled W → ℕ × World W
  after_handled undefined = (1, lost)
  after_handled (returned n w) = (n, alive w)

  unfoldable pub after_block : Option (ℕ × W) → ℕ × World W
  after_block none = (1, lost)
  after_block (some (n, w)) = (n, alive w)

  abbrev live : {A : Type 0} → A → (W → A × World W) → World W → A × World W
  live code act lost = (code, lost)
  live code act (alive w) = act w

  abbrev with_world : Flag × W → Flag × World W
  with_world (f, w) = (f, alive w)

  -- The interface of the loop, filled by the handlers.
  abbrev pub common_handlers : Libparam W → Clock W → Handlers (World W)
  common_handlers lib clock = record {
    proc_runtime_block = λ ins.
        live 1 (λ w. after_block (proc_runtime_block clock (proc_runtime_ifelse lib) 20001 ins w));
    proc_runtime_ifelse = λ ins. live flag_err (λ w. with_world (proc_runtime_ifelse lib ins w));
    proc_runtime_set = λ ins. live 1 (λ w. after_handled (proc_runtime_set lib ins w));
    proc_runtime_unop = λ ins. live 1 (λ w. after_handled (proc_runtime_unop lib ins w));
    proc_runtime_binop = λ ins. live 1 (λ w. after_handled (proc_runtime_binop lib ins w));
  }

-- The two parameters of a condition are found and are integers of one type, the values x and y, and fetching
-- them ends in the world w'.
pub record Compares {W : Type 0} (lib : Libparam W) (a b : Text) (node : ℕ) (w w' : W) (x y : ℤ)
    : Type 0 where
  pub param_a : Param
  pub param_b : Param
  pub w₁ : W
  pub w₂ : W
  pub w₃ : W
  pub operand_a : Operand
  pub operand_b : Operand
  pub pair_a : Param
  pub pair_b : Param
  pub finds_a : proc_fetch_param lib a node w ≡ (some param_a, w₁)
  pub finds_b : proc_fetch_param lib b node w₁ ≡ (some param_b, w₂)
  pub good_types : is_invalid param_a || is_data param_b ≡ false
  pub reads_a : fetch_operand_param_pair lib a node w₂ ≡ (some (pair_a, operand_a), w₃)
  pub reads_b : fetch_operand_param_pair lib b node w₃ ≡ (some (pair_b, operand_b), w')
  pub small_a : operand_a.bits < 2 ^ 64
  pub small_b : operand_b.bits < 2 ^ 64
  pub same_type : operand_a.operand_type ≡ operand_b.operand_type
  pub is_x : integer_at operand_a.operand_type operand_a.bits ≡ some x
  pub is_y : integer_at operand_b.operand_type operand_b.bits ≡ some y

module _ {W : Type 0} (lib : Libparam W) where
  proc_runtime_ifelse-Compares :
      (a b : Text) (op : ComparisonOp) (node : ℕ) (w w' : W) (x y : ℤ)
      (c : Compares lib a b node w w' x y)
      → proc_runtime_ifelse lib (record { node = node; payload = ifelse a op b }) w
        ≡ (compare_operands lib op c.param_a c.param_b c.operand_a c.operand_b w', w')
  unfolding proc_runtime_ifelse compare_params with_params both_operands second_operand
  proc_runtime_ifelse-Compares a b op node w w' x y c =
      rw
        (
          c.finds_a, c.finds_b, c.good_types, both_operands, c.reads_a, second_operand, c.reads_a,
          c.reads_b, c.reads_a, c.reads_b,
        )
        refl

  -- The condition handler never gives the mark for "no if-else before".
  pub common_handlers-decides :
      (clock : Clock W) (ins : Instruction) (w : World W)
      → ((common_handlers lib clock).proc_runtime_ifelse ins w).0 ≢ flag_none
  common_handlers-decides clock ins lost e = absurd cc
  common_handlers-decides clock ins (alive w) e = proc_runtime_ifelse-IsVerdict lib ins w e

  module _ (clock : Clock W) (g : Graph) (analysis : Analysis) (depth fuel i : ℕ) (a b : Text)
      (op : ComparisonOp) (node : ℕ) (t e : Instruction) where
    -- An if-else instruction on two integer parameters of one type that are found and read, with an
    -- operator that the code knows, and two simple instructions behind it, reached with no condition
    -- pending and fuel for three rounds more: if the operator holds of the two integers, the first of these
    -- is performed and the second skipped, and if it does not hold, the other way round; then the loop goes
    -- on behind both.
    pub exec_loop-Compares :
        (w w' : W) (x y : ℤ)
        → get_elem? analysis.proc.instructions i
          ≡ some (record { node = node; payload = ifelse a op b })
        → get_elem? analysis.proc.instructions (suc i) ≡ some t
        → get_elem? analysis.proc.instructions (suc (suc i)) ≡ some e
        → is_simple t ≡ true
        → is_simple e ≡ true
        → ((k : ℕ) → op ≢ other_comparison k)
        → Compares lib a b node w w' x y
        → let handlers = common_handlers lib clock in
          let run =
            exec_loop handlers g (suc (suc (suc fuel))) analysis i flag_none depth (alive w) in
          let behind = exec_loop handlers g fuel analysis (suc (suc (suc i))) flag_none depth in
          (Holds op x y × (run ≡ and_then handlers depth (perform handlers t (alive w')) behind))
          ⊎ ((¬ Holds op x y)
              × (run ≡ and_then handlers depth (perform handlers e (alive w')) behind))
    exec_loop-Compares w w' x y at_c at_t at_e t_simple e_simple known c =
        let handlers = common_handlers lib clock in
        let ins : Instruction = record { node = node; payload = ifelse a op b } in
        let run =
          exec_loop-ifelse handlers g analysis depth fuel i ins t e at_c at_t at_e refl t_simple
            e_simple (alive w) (common_handlers-decides clock ins (alive w)) in
        let seen = proc_runtime_ifelse-Compares a b op node w w' x y c in
        let means =
          compare_operands-Holds lib op c.param_a c.param_b c.operand_a c.operand_b x y w' c.small_a
            c.small_b c.same_type c.is_x c.is_y in
        elim (compare_operands-decides lib op c.param_a c.param_b c.operand_a c.operand_b x w' known
          c.same_type c.is_x) [
            | inl holds ↦ inl (means.0 holds, run ∙ rw (seen, holds) refl)
            | inr fails ↦ inr (λ h. absurd (let f = means.1 h in cc), run ∙ rw (seen, fails) refl)
          ]
