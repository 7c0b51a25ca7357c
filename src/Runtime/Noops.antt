-- ===== src/Runtime/Noops.antt =====
-- The execution loop on the no-ops that end a procedure.
use csp_proc.Common.{
  ℕ, zero, suc, ◌+◌, ◌≤◌, ◌<◌, ◌≡◌, refl, ◌∙◌, List, ◌∷◌, length, get_elem?, drop, drop-get_elem?,
  get_elem?-some, true, none, some, Option-cases, inl, inr, arith,
}
use csp_proc.Types.{noop, Instruction}
use csp_proc.Analyze.{Analysis, is_noop, only_noops}
use csp_proc.Runtime.{
  Flag, flag_false, flag_none, Handlers, Graph, advance, dispatch, round, returned, exec_loop,
}

is_noop-payload : (ins : Instruction) → is_noop ins ≡ true → ins.payload ≡ noop
is_noop-payload ins h = ground arith

only_noops_head :
    (ins : Instruction) (is : List Instruction)
    → only_noops (ins ∷ is) ≡ true
    → (is_noop ins ≡ true) × (only_noops is ≡ true)
unfolding only_noops
only_noops_head ins is h = ground arith

round_noop :
    {W : Type 0} (h : Handlers W) (a : Analysis) (k : ℕ) (ins : Instruction) (w : W)
    → ins.payload ≡ noop
    → round h a k ins flag_none w ≡ advance flag_none w
unfolding round dispatch
round_noop h a k ins w e = rw (dispatch, e)

module _ {W : Type 0} (h : Handlers W) (g : Graph) (a : Analysis) (depth : ℕ) where
  abbrev code : List Instruction
  code = a.proc.instructions

  exec_loop_end :
      (fuel k : ℕ) (flag : Flag) (w : W)
      → get_elem? code k ≡ none
      → exec_loop h g (suc fuel) a k flag depth w
        ≡ returned 0 (record { world = w; recursion_depth = depth })
  unfolding exec_loop
  exec_loop_end fuel k flag w e = rw (exec_loop, e)

  exec_loop_advance :
      (fuel k : ℕ) (flag flag' : Flag) (w w' : W) (ins : Instruction)
      → get_elem? code k ≡ some ins
      → round h a k ins flag w ≡ advance flag' w'
      → exec_loop h g (suc fuel) a k flag depth w ≡ exec_loop h g fuel a (suc k) flag' depth w'
  unfolding exec_loop
  exec_loop_advance fuel k flag flag' w w' ins e r = rw (exec_loop, e) (rw r)

  -- Where only no-ops are left, the loop runs to its end and changes nothing.
  pub exec_loop-only_noops :
      (fuel k : ℕ) (w : W)
      → only_noops (drop k code) ≡ true
      → k ≤ length code
      → length code < fuel + k
      → exec_loop h g fuel a k flag_none depth w
        ≡ returned 0 (record { world = w; recursion_depth = depth })
  exec_loop-only_noops zero k w n le enough = absurd (omega arith)
  exec_loop-only_noops (suc fuel) k w n le enough = elim (Option-cases (get_elem? code k)) [
    | inl e ↦ exec_loop_end fuel k flag_none w e
    | inr (ins, e) ↦
        let (noop_here, later) =
          only_noops_head ins (drop (suc k) code) (rw (drop-get_elem? code k ins e) at n) in
        exec_loop_advance fuel k flag_none flag_none w w ins e
          (round_noop h a k ins w (is_noop-payload ins noop_here))
        ∙ exec_loop-only_noops fuel (suc k) w later (get_elem?-some code k ins e) (omega arith)
  ]

  -- The same where one instruction is skipped first.
  pub exec_loop_skip :
      (fuel k : ℕ) (w : W)
      → (k < length code → only_noops (drop (suc k) code) ≡ true)
      → k ≤ length code
      → length code < fuel + k
      → exec_loop h g fuel a k flag_false depth w
        ≡ returned 0 (record { world = w; recursion_depth = depth })
  exec_loop_skip zero k w n le enough = absurd (omega arith)
  exec_loop_skip (suc fuel) k w n le enough = elim (Option-cases (get_elem? code k)) [
    | inl e ↦ exec_loop_end fuel k flag_false w e
    | inr (ins, e) ↦
        let lt = get_elem?-some code k ins e in
        exec_loop_advance fuel k flag_false flag_none w w ins e (unfold round in refl)
        ∙ exec_loop-only_noops fuel (suc k) w (n lt) lt (omega arith)
  ]
