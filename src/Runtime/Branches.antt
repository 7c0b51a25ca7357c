-- ===== src/Runtime/Branches.antt =====
-- The execution loop on instructions that are no calls: sequences, and the two branches of an if-else.
use csp_proc.Common.{
  ℕ, zero, suc, ◌+◌, ◌≤◌, ◌<◌, ◌≡◌, ◌≢◌, refl, ap, fun_ext, ◌∙◌, List, length, get_elem?, Bool,
  true, false, some, Option-cases, get_elem?-some, inl, inr, arith,
}
use csp_proc.Types.{block, ifelse, set, unop, binop, call, noop, Instruction}
use csp_proc.Analyze.{Analysis, is_ifelse}
use csp_proc.Runtime.{
  Flag, flag_true, flag_false, flag_none, flag_err, flag_err_type, Handlers, Graph, Ref, Next,
  advance, stop, jump, nest, wild, round, dispatch, after_handler, after_ifelse, Outcome,
  out_of_fuel, undefined, returned, exec_loop,
}

abbrev pub is_call : Instruction → Bool
is_call ins = elim ins.payload [ call slot ↦ true | _ ↦ false ]

-- An instruction that is neither a call nor an if-else.
abbrev pub is_simple : Instruction → Bool
is_simple ins = elim ins.payload [ call slot ↦ false | ifelse a op b ↦ false | _ ↦ true ]

module _ {W : Type 0} (h : Handlers W) where
  -- What executing a simple instruction does: its handler's code and world.
  unfoldable pub perform : Instruction → W → ℕ × W
  perform ins w = elim ins.payload [
    | block a op b ↦ h.proc_runtime_block ins w
    | set p v ↦ h.proc_runtime_set ins w
    | unop p op r ↦ h.proc_runtime_unop ins w
    | binop a op b r ↦ h.proc_runtime_binop ins w
    | noop ↦ (0, w)
    | _ ↦ (1, w)
  ]

  -- Go on with `k` after the code 0, and return any other code.
  unfoldable pub and_then : ℕ → ℕ × W → (W → Outcome W) → Outcome W
  and_then depth (zero, w) k = k w
  and_then depth (suc n, w) k = returned (suc n) (record { world = w; recursion_depth = depth })

  dispatch-perform :
      (a : Analysis) (i : ℕ) (ins : Instruction) (flag : Flag) (w : W)
      → is_simple ins ≡ true
      → dispatch h a i ins flag w ≡ after_handler flag (perform ins w)
  unfolding dispatch perform after_handler
  dispatch-perform a i ins flag w s = ground arith

  module _ (g : Graph) (a : Analysis) (depth : ℕ) where
    exec_loop-after :
        (fuel i : ℕ) (flag flag' : Flag) (ins : Instruction) (w : W) (r : ℕ × W)
        → get_elem? a.proc.instructions i ≡ some ins
        → round h a i ins flag w ≡ after_handler flag' r
        → exec_loop h g (suc fuel) a i flag depth w
          ≡ and_then depth r (exec_loop h g fuel a (suc i) flag' depth)
    unfolding and_then after_handler exec_loop
    exec_loop-after fuel i flag flag' ins w (zero, w') e r = rw (exec_loop, e) (rw r)
    exec_loop-after fuel i flag flag' ins w (suc n, w') e r = rw (exec_loop, e) (rw r)

    -- A simple instruction that is not skipped is performed once, and the loop goes on behind it.
    pub exec_loop-simple :
        (fuel i : ℕ) (ins : Instruction) (w : W)
        → get_elem? a.proc.instructions i ≡ some ins
        → is_simple ins ≡ true
        → exec_loop h g (suc fuel) a i flag_none depth w
          ≡ and_then depth (perform ins w) (exec_loop h g fuel a (suc i) flag_none depth)
    exec_loop-simple fuel i ins w e s =
        exec_loop-after fuel i flag_none flag_none ins w (perform ins w) e
          (unfold round in dispatch-perform a i ins flag_none w s)

    -- The branch that the result of a condition selects.
    abbrev pub selected : ℕ → ℕ → Instruction → Instruction → Flag × W → Outcome W
    selected fuel i t e (flag_true, w) =
        and_then depth (perform t w) (exec_loop h g fuel a i flag_none depth)
    selected fuel i t e (flag_false, w) =
        and_then depth (perform e w) (exec_loop h g fuel a i flag_none depth)
    selected fuel i t e (flag_none, w) = undefined
    selected fuel i t e (flag_err, w) = returned 2 (record { world = w; recursion_depth = depth })
    selected fuel i t e (flag_err_type, w) =
        returned 3 (record { world = w; recursion_depth = depth })

    skip_one :
        (fuel i : ℕ) (ins : Instruction) (w : W)
        → get_elem? a.proc.instructions i ≡ some ins
        → exec_loop h g (suc fuel) a i flag_false depth w
          ≡ exec_loop h g fuel a (suc i) flag_none depth w
    unfolding exec_loop round
    skip_one fuel i ins w e = rw (exec_loop, e)

    module _ (fuel i : ℕ) (c t e : Instruction) (at_c : get_elem? a.proc.instructions i ≡ some c)
        (at_t : get_elem? a.proc.instructions (suc i) ≡ some t)
        (at_e : get_elem? a.proc.instructions (suc (suc i)) ≡ some e)
        (c_ifelse : is_ifelse c ≡ true) (t_simple : is_simple t ≡ true)
        (e_simple : is_simple e ≡ true) where
      then_branch :
          (w : W)
          → exec_loop h g (suc (suc fuel)) a (suc i) flag_true depth w
            ≡ and_then depth
                (perform t w)
                (exec_loop h g fuel a (suc (suc (suc i))) flag_none depth)
      then_branch w =
          exec_loop-after (suc fuel) (suc i) flag_true flag_false t w (perform t w) at_t
            (unfold round in dispatch-perform a (suc i) t flag_false w t_simple)
          ∙ ap (and_then depth (perform t w))
              (fun_ext (λ w'. skip_one fuel (suc (suc i)) e w' at_e))

      else_branch :
          (w : W)
          → exec_loop h g (suc (suc fuel)) a (suc i) flag_false depth w
            ≡ and_then depth
                (perform e w)
                (exec_loop h g fuel a (suc (suc (suc i))) flag_none depth)
      else_branch w =
          skip_one (suc fuel) (suc i) t w at_t
          ∙ exec_loop-simple fuel (suc (suc i)) e w at_e e_simple

      condition : (w : W) → round h a i c flag_none w ≡ after_ifelse (h.proc_runtime_ifelse c w)
      unfolding round dispatch
      condition w = ground arith

      -- An if-else instruction followed by two simple instructions performs exactly one of the two, the
      -- first if the condition is true and the second if it is false, and goes on behind both; an error
      -- of the condition is returned before either. The condition handler decides or fails.
      pub exec_loop-ifelse :
          (w : W)
          → (h.proc_runtime_ifelse c w).0 ≢ flag_none
          → exec_loop h g (suc (suc (suc fuel))) a i flag_none depth w
            ≡ selected fuel (suc (suc (suc i))) t e (h.proc_runtime_ifelse c w)
      exec_loop-ifelse w decides = go (h.proc_runtime_ifelse c w) decides (condition w)
        where
          go :
              (r : Flag × W)
              → r.0 ≢ flag_none
              → round h a i c flag_none w ≡ after_ifelse r
              → exec_loop h g (suc (suc (suc fuel))) a i flag_none depth w
                ≡ selected fuel (suc (suc (suc i))) t e r
          go (flag_true, w') d r =
              unfold exec_loop in
              rw (exec_loop, at_c) (rw r (unfold after_ifelse in then_branch w'))
          go (flag_false, w') d r =
              unfold exec_loop in
              rw (exec_loop, at_c) (rw r (unfold after_ifelse in else_branch w'))
          go (flag_none, w') d r = absurd (d refl)
          go (flag_err, w') d r =
              unfold exec_loop in rw (exec_loop, at_c) (rw r (unfold after_ifelse in refl))
          go (flag_err_type, w') d r =
              unfold exec_loop in rw (exec_loop, at_c) (rw r (unfold after_ifelse in refl))

  round_no_jump :
      (a : Analysis) (i : ℕ) (ins : Instruction) (flag : Flag) (w : W)
      → is_call ins ≡ false
      → ((sub : Ref) (w' : W) → round h a i ins flag w ≢ jump sub w')
        × ((sub : Ref) (flag' : Flag) (w' : W) → round h a i ins flag w ≢ nest sub flag' w')
  unfolding round dispatch after_handler after_ifelse
  round_no_jump a i ins flag w n = (λ sub w' r. ground arith, λ sub flag' w' r. ground arith)

  -- The code from an index on has no call.
  abbrev pub NoCalls : List Instruction → Type 0
  NoCalls is = (i : ℕ) (ins : Instruction) → get_elem? is i ≡ some ins → is_call ins ≡ false

  -- A procedure without calls ends on any world, within one round for each instruction and one more.
  pub exec_loop-ends :
      (g : Graph) (a : Analysis) (depth fuel i : ℕ) (flag : Flag) (w : W)
      → NoCalls a.proc.instructions
      → i ≤ length a.proc.instructions
      → length a.proc.instructions < fuel + i
      → exec_loop h g fuel a i flag depth w ≢ out_of_fuel
  exec_loop-ends g a depth zero i flag w n le enough = absurd (omega arith)
  exec_loop-ends g a depth (suc fuel) i flag w n le enough =
      elim (Option-cases (get_elem? a.proc.instructions i)) [
        | inl e ↦ unfold exec_loop in rw (exec_loop, e) (λ q. cc)
        | inr (ins, e) ↦
            let later = get_elem?-some a.proc.instructions i ins e in
            go ins e (round h a i ins flag w) refl (round_no_jump a i ins flag w (n i ins e))
              (λ flag' w'. exec_loop-ends g a depth fuel (suc i) flag' w' n later (omega arith))
      ]
    where
      go :
          (ins : Instruction)
          → get_elem? a.proc.instructions i ≡ some ins
          → (r : Next W) → round h a i ins flag w ≡ r
          → ((sub : Ref) (w' : W) → round h a i ins flag w ≢ jump sub w')
            × ((sub : Ref) (flag' : Flag) (w' : W) → round h a i ins flag w ≢ nest sub flag' w')
          → ((flag' : Flag) (w' : W) → exec_loop h g fuel a (suc i) flag' depth w' ≢ out_of_fuel)
          → exec_loop h g (suc fuel) a i flag depth w ≢ out_of_fuel
      go ins e (advance flag' w') r no_jump ih =
          unfold exec_loop in rw (exec_loop, e) (rw r (ih flag' w'))
      go ins e (stop ret w') r no_jump ih = unfold exec_loop in rw (exec_loop, e) (rw r (λ q. cc))
      go ins e (jump sub w') r no_jump ih = absurd (no_jump.0 sub w' r)
      go ins e (nest sub flag' w') r no_jump ih = absurd (no_jump.1 sub flag' w' r)
      go ins e wild r no_jump ih = unfold exec_loop in rw (exec_loop, e) (rw r (λ q. cc))
