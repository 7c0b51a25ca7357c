-- ===== src/Runtime/Storage.antt =====
-- `proc_instructions_exec` of src/runtime/proc_runtime_instructions_FreeRTOS.c: the recursion depth is in
-- the task's local storage, which every nested execution reads and writes.
use csp_proc.Common.{
  ℕ, zero, suc, ◌+◌, ◌≡◌, refl, true, false, none, some, ltb, get_elem?, arith, if◌then◌else◌,
}
use csp_proc.Analyze.{Analysis}
use csp_proc.Runtime.Depth.{exec_loop-LeavesDepth}
use csp_proc.Runtime.{
  Handlers, Graph, Flag, flag_none, State, Outcome, out_of_fuel, undefined, returned, advance, stop,
  jump, nest, wild, round, max_proc_recursion_depth, exec_loop, proc_instructions_exec,
}

module _ {W : Type 0} where
  -- `vTaskSetThreadLocalStoragePointer`
  abbrev pub set_storage : ℕ → State W → State W
  set_storage depth s = record s { recursion_depth = depth }

  module _ (h : Handlers W) (g : Graph) where
    -- The loop; `depth` is the local `recursion_depth`. A nested call is `proc_instructions_exec` in full:
    -- it reads the storage and tests it, writes it, and its loop restores it.
    unfoldable pub task_loop : ℕ → Analysis → ℕ → Flag → ℕ → State W → Outcome W
    task_loop zero a i flag depth s = out_of_fuel
    task_loop (suc fuel) a i flag depth s = elim (get_elem? a.proc.instructions i) [
      | none ↦ returned 0 (set_storage depth s)
      | some ins ↦ elim (round h a i ins flag s.world) [
        | advance flag' w ↦ task_loop fuel a (suc i) flag' depth (record s { world = w })
        | stop ret w ↦ returned ret (set_storage depth (record s { world = w }))
        | wild ↦ undefined
        | jump sub w ↦ elim (g sub) [
          | none ↦ undefined
          | some a' ↦ task_loop fuel a' 0 flag_none depth (record s { world = w })
        ]
        | nest sub flag' w ↦ elim (g sub) [
          | none ↦ undefined
          | some a' ↦ elim (ltb max_proc_recursion_depth s.recursion_depth) [
            | true ↦ returned 1 (set_storage depth (record s { world = w }))
            | false ↦
                elim (task_loop fuel a' 0 flag_none s.recursion_depth
                  (set_storage (s.recursion_depth + 1) (record s { world = w }))) [
                    | out_of_fuel ↦ out_of_fuel
                    | undefined ↦ undefined
                    | returned zero s' ↦ task_loop fuel a (suc i) flag' depth s'
                    | returned (suc n) s' ↦ returned (suc n) (set_storage depth s')
                  ]
          ]
        ]
      ]
    ]

    unfoldable pub task_instructions_exec : ℕ → Analysis → State W → Outcome W
    unfolding task_loop
    task_instructions_exec fuel a s =
        let depth = s.recursion_depth in
        let run = task_loop fuel a 0 flag_none depth (set_storage (depth + 1) s) in
        if ltb max_proc_recursion_depth depth then returned 1 s else run

    -- Within the loop, the storage holds the local depth and one more, and an execution that ends leaves it
    -- as it found it.
    task_loop-exec_loop :
        (fuel : ℕ) (a : Analysis) (i : ℕ) (flag : Flag) (depth : ℕ) (w : W)
        → task_loop fuel a i flag depth (record { world = w; recursion_depth = depth + 1 })
          ≡ exec_loop h g fuel a i flag depth w
    unfolding task_loop exec_loop
    task_loop-exec_loop zero a i flag depth w = refl
    task_loop-exec_loop (suc fuel) a i flag depth w =
        grind (arith, task_loop-exec_loop fuel, exec_loop-LeavesDepth h g fuel)

    -- An execution whose depth is in the task's storage, where nested executions read and overwrite it, has
    -- the same outcome as one that passes the depth on: the same code, world and depth at the end.
    pub task_instructions_exec-proc_instructions_exec :
        (fuel : ℕ) (a : Analysis) (s : State W)
        → task_instructions_exec fuel a s ≡ proc_instructions_exec h g fuel a s
    unfolding task_instructions_exec proc_instructions_exec
    task_instructions_exec-proc_instructions_exec fuel a s =
        ground (arith, task_loop-exec_loop fuel a 0 flag_none s.recursion_depth s.world)
