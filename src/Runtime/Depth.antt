-- ===== src/Runtime/Depth.antt =====
-- The recursion depth that the execution loop keeps in the thread's storage.
use csp_proc.Common.{ℕ, zero, suc, ◌≡◌, arith}
use csp_proc.Analyze.{Analysis}
use csp_proc.Runtime.{
  Flag, flag_none, Handlers, Graph, State, Outcome, out_of_fuel, undefined, returned, exec_loop,
  proc_instructions_exec,
}

-- If an execution returns, the thread's depth is `depth`.
abbrev pub LeavesDepth : {W : Type 0} → ℕ → Outcome W → Type 0
LeavesDepth depth out_of_fuel = Unit
LeavesDepth depth undefined = Unit
LeavesDepth depth (returned ret s) = s.recursion_depth ≡ depth

module _ {W : Type 0} (h : Handlers W) (g : Graph) where
  -- The loop leaves the thread's depth at its local `recursion_depth`.
  pub exec_loop-LeavesDepth :
      (fuel : ℕ) (a : Analysis) (i : ℕ) (flag : Flag) (depth : ℕ) (w : W)
      → LeavesDepth depth (exec_loop h g fuel a i flag depth w)
  unfolding exec_loop
  exec_loop-LeavesDepth zero a i flag depth w = tt
  exec_loop-LeavesDepth (suc fuel) a i flag depth w = grind (arith, exec_loop-LeavesDepth fuel)

  -- However an execution returns, at the end of the code, by an error or from nested calls, the thread's
  -- recursion depth is what it was before.
  pub proc_instructions_exec-LeavesDepth :
      (fuel : ℕ) (a : Analysis) (s : State W)
      → LeavesDepth s.recursion_depth (proc_instructions_exec h g fuel a s)
  unfolding proc_instructions_exec
  proc_instructions_exec-LeavesDepth fuel a s =
      ground (arith, exec_loop-LeavesDepth fuel a 0 flag_none s.recursion_depth s.world)
