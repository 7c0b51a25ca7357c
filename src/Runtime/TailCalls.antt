-- ===== src/Runtime/TailCalls.antt =====
-- Tail calls: the flags of src/proc_analyze.c, and what the execution loop would do behind such a call.
use csp_proc.Common.{
  ℕ, zero, suc, ◌+◌, ◌-◌, ◌<◌, ◌≡◌, refl, List, length, get_elem?, drop, get_elem?-some, true, some,
  ltb, lt→ltb, ◌≢◌, arith,
}
use csp_proc.Types.{Instruction}
use csp_proc.Analyze.{Analysis, ifelse_at, only_noops, analyze_tail_call}
use csp_proc.Runtime.{
  Flag, flag_true, flag_false, flag_none, flag_err, flag_err_type, Handlers, Graph, Ref, jump,
  flag_at, after_handler, after_ifelse, proc_runtime_call, dispatch, round, returned, exec_loop,
}
use csp_proc.Runtime.Noops.{exec_loop-only_noops, exec_loop_skip}
use csp_proc.Runtime.Coherence.{NoNesting, Coherent, Visits, Visits-Coherent}

-- The flag behind an instruction that was executed and is no if-else.
abbrev pub after_flag : Flag → Flag
after_flag flag_true = flag_false
after_flag other = other

analyze_tail_call-none :
    (is : List Instruction) (i : ℕ)
    → Coherent is i flag_none
    → analyze_tail_call is i ≡ true
    → only_noops (drop (suc i) is) ≡ true
unfolding analyze_tail_call
analyze_tail_call-none is zero c t = t
analyze_tail_call-none is (suc i) c t =
    let before : suc i - 1 ≡ i = omega arith in
    let behind : suc i + 1 ≡ suc (suc i) = omega arith in
    let moved = rw behind at (rw (before, c) at t) in ground arith

analyze_tail_call-taken :
    (is : List Instruction) (i : ℕ)
    → ifelse_at is i ≡ true
    → analyze_tail_call is (suc i) ≡ true
    → suc (suc i) < length is
    → only_noops (drop (suc (suc (suc i))) is) ≡ true
unfolding analyze_tail_call
analyze_tail_call-taken is i c t more =
    let before : suc i - 1 ≡ i = omega arith in
    let next : suc i + 1 ≡ suc (suc i) = omega arith in
    let behind : suc i + 2 ≡ suc (suc (suc i)) = omega arith in
    let inside : ltb (suc (suc i)) (length is) ≡ true = lt→ltb _ _ more in
    let moved = rw (inside, behind) at (rw (before, c, next) at t) in ground arith

round_jump :
    {W : Type 0} (h : Handlers W) (a : Analysis) (i : ℕ) (ins : Instruction) (flag : Flag) (w : W)
    (sub : Ref) (w' : W)
    → round h a i ins flag w ≡ jump sub w'
    → (flag_at a.tail_calls i ≡ true) × (w' ≡ w) × (flag ≢ flag_false)
unfolding round dispatch after_handler after_ifelse proc_runtime_call
round_jump h a i ins flag_false w sub w' r = absurd (ground arith)
round_jump h a i ins _ w sub w' r = (ground arith, ground arith, ground arith)

-- The flags of the calls are those that `analyze_tail_call` computes.
abbrev pub IsMarked : Analysis → Type 0
IsMarked a =
    (i : ℕ) → flag_at a.tail_calls i ≡ true → analyze_tail_call a.proc.instructions i ≡ true

module _ {W : Type 0} (h : Handlers W) (g : Graph)
    (decides : (ins : Instruction) (w : W) → (h.proc_runtime_ifelse ins w).0 ≢ flag_none)
    (a : Analysis) (nn : NoNesting a.proc.instructions) (marks : IsMarked a) where
  -- In a procedure without nested if-else instructions whose tail-call flags are those of
  -- `analyze_tail_call`, over a condition handler that always decides or fails: where the loop replaces the
  -- caller by the called procedure, the caller had nothing left to do. From behind the call its loop, with
  -- fuel for the instructions left, would return 0 and leave any world unchanged.
  pub tail_call-nothing_left :
      (i : ℕ) (flag : Flag) (ins : Instruction) (sub : Ref) (w w' : W)
      → Visits h a i flag
      → get_elem? a.proc.instructions i ≡ some ins
      → round h a i ins flag w ≡ jump sub w'
      → (fuel depth : ℕ) (later : W) → length a.proc.instructions < fuel + suc i
      → exec_loop h g fuel a (suc i) (after_flag flag) depth later
        ≡ returned 0 (record { world = later; recursion_depth = depth })
  tail_call-nothing_left i flag ins sub w w' v e r fuel depth later enough =
      let (t, same, ran) = round_jump h a i ins flag w sub w' r in
      go i flag (Visits-Coherent h decides a nn v) (marks i t) ran
        (get_elem?-some a.proc.instructions i ins e) enough
    where
      go :
          (i : ℕ) (flag : Flag)
          → Coherent a.proc.instructions i flag
          → analyze_tail_call a.proc.instructions i ≡ true
          → flag ≢ flag_false
          → i < length a.proc.instructions
          → length a.proc.instructions < fuel + suc i
          → exec_loop h g fuel a (suc i) (after_flag flag) depth later
            ≡ returned 0 (record { world = later; recursion_depth = depth })
      go i flag_none c t ran lt enough =
          exec_loop-only_noops h g a depth fuel (suc i) later
            (analyze_tail_call-none a.proc.instructions i c t) lt enough
      go zero flag_true c t ran lt enough = absurd c
      go (suc i) flag_true c t ran lt enough =
          exec_loop_skip h g a depth fuel (suc (suc i)) later
            (analyze_tail_call-taken a.proc.instructions i c t) lt enough
      go i flag_false c t ran lt enough = absurd (ran refl)
      go zero flag_err c t ran lt enough = absurd c
      go (suc i) flag_err c t ran lt enough = absurd c
      go zero flag_err_type c t ran lt enough = absurd c
      go (suc i) flag_err_type c t ran lt enough = absurd c
