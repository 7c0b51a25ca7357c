-- ===== src/Runtime.antt =====
-- The execution loop: `proc_instructions_exec` of src/runtime/proc_runtime_instructions_POSIX.c (that of
-- proc_runtime_instructions_FreeRTOS.c differs in how a thread keeps its recursion depth), and
-- `proc_runtime_call` of src/runtime/proc_runtime_instructions_common.c. The handlers of the other
-- instructions are an interface. A return code n stands for -n in the source.
pub mod Noops
pub mod Coherence
pub mod TailCalls
pub mod Branches
pub mod Depth
pub mod Storage
pub mod Fuel
mod Tests
use csp_proc.Common.{
  ℕ, zero, suc, ◌+◌, List, [], ◌∷◌, length, get_elem?, Bool, true, false, Option, none, some, ltb,
  ◌==◌, if◌then◌else◌,
}
use csp_proc.Types.{
  Payload, block, ifelse, set, unop, binop, call, noop, unknown, Instruction, Proc,
  instruction_count,
}
use csp_proc.Analyze.{Analysis}

abbrev pub max_proc_recursion_depth : ℕ
max_proc_recursion_depth = 1000

-- `if_else_flag_t`
pub data Flag : Type 0 where
  flag_true flag_false flag_none flag_err flag_err_type : Flag

-- The handlers of the instructions, over what they read and change.
pub record Handlers (W : Type 0) : Type 0 where
  pub proc_runtime_block : Instruction → W → ℕ × W
  pub proc_runtime_ifelse : Instruction → W → Flag × W
  pub proc_runtime_set : Instruction → W → ℕ × W
  pub proc_runtime_unop : Instruction → W → ℕ × W
  pub proc_runtime_binop : Instruction → W → ℕ × W

-- An analysis: the outermost one, or that of a slot.
pub data Ref : Type 0 where
  outermost : Ref
  of_slot : ℕ → Ref

-- The analyses that are reached from the outermost one.
abbrev pub Graph : Type 0
Graph = Ref → Option Analysis

-- `analysis_index`, and the entry of `sub_analyses` at that index: the slot is not among the analysed
-- ones, its entry was never written, or it refers to an analysis.
pub data Target : Type 0 where
  not_found : Target
  unwritten : Target
  target : ℕ → Target

unfoldable pub find_sub : ℕ → List ℕ → List ℕ → Target
find_sub slot [] subs = not_found
find_sub slot (s ∷ slots) [] = if s == slot then unwritten else find_sub slot slots []
find_sub slot (s ∷ slots) (sub ∷ subs) = if s == slot then target sub else find_sub slot slots subs

unfoldable pub flag_at : List Bool → ℕ → Bool
flag_at [] i = false
flag_at (b ∷ bs) zero = b
flag_at (b ∷ bs) (suc i) = flag_at bs i

-- What one instruction asks of the loop: to go on with a flag, to return a code, to continue in another
-- procedure in place of this one (a tail call), or to execute another procedure and then go on; `wild`
-- follows a pointer that was never written.
pub data Next (W : Type 0) : Type 0 where
  advance : Flag → W → Next W
  stop : ℕ → W → Next W
  jump : Ref → W → Next W
  nest : Ref → Flag → W → Next W
  wild : Next W

module _ {W : Type 0} where
  -- `if (ret != 0) return ret`
  after_handler : Flag → ℕ × W → Next W
  after_handler flag (zero, w) = advance flag w
  after_handler flag (suc n, w) = stop (suc n) w

  -- The result of an if-else instruction is the new flag, or an error code.
  after_ifelse : Flag × W → Next W
  after_ifelse (flag_true, w) = advance flag_true w
  after_ifelse (flag_false, w) = advance flag_false w
  after_ifelse (flag_none, w) = advance flag_none w
  after_ifelse (flag_err, w) = stop 2 w
  after_ifelse (flag_err_type, w) = stop 3 w

  unfoldable pub proc_runtime_call : Analysis → ℕ → ℕ → Flag → W → Next W
  unfolding find_sub flag_at
  proc_runtime_call a i slot flag w = elim (find_sub slot a.procedure_slots a.sub_analyses) [
    | not_found ↦ stop 1 w
    | unwritten ↦ wild
    | target sub ↦
        if flag_at a.tail_calls i then jump (of_slot sub) w else nest (of_slot sub) flag w
  ]

  -- The `switch` of the loop.
  unfoldable pub dispatch : Handlers W → Analysis → ℕ → Instruction → Flag → W → Next W
  unfolding after_handler after_ifelse
  dispatch h a i ins flag w = elim ins.payload [
    | block x op y ↦ after_handler flag (h.proc_runtime_block ins w)
    | ifelse x op y ↦ after_ifelse (h.proc_runtime_ifelse ins w)
    | set p v ↦ after_handler flag (h.proc_runtime_set ins w)
    | unop p op r ↦ after_handler flag (h.proc_runtime_unop ins w)
    | binop x op y r ↦ after_handler flag (h.proc_runtime_binop ins w)
    | call slot ↦ proc_runtime_call a i slot flag w
    | noop ↦ advance flag w
    | unknown n ↦ stop 1 w
  ]

  -- One round for an instruction: the flag decides whether it is skipped.
  unfoldable pub round : Handlers W → Analysis → ℕ → Instruction → Flag → W → Next W
  round h a i ins flag w = elim flag [
    | flag_false ↦ advance flag_none w
    | flag_true ↦ dispatch h a i ins flag_false w
    | other ↦ dispatch h a i ins other w
  ]

-- The world, and the recursion depth in the thread's storage.
pub record State (W : Type 0) : Type 0 where
  pub world : W
  pub recursion_depth : ℕ

-- How an execution ends: the code that it returns with the state, undefined behaviour (an analysis that
-- is not there), or, which is no outcome of the code, with the fuel used up.
pub data Outcome (W : Type 0) : Type 0 where
  out_of_fuel : Outcome W
  undefined : Outcome W
  returned : ℕ → State W → Outcome W

module _ {W : Type 0} (h : Handlers W) (g : Graph) where
  -- The loop of `proc_instructions_exec` at index `i` of the procedure of `a`; `depth` is the local
  -- `recursion_depth`, which is written back at every return.
  unfoldable pub exec_loop : ℕ → Analysis → ℕ → Flag → ℕ → W → Outcome W
  exec_loop zero a i flag depth w = out_of_fuel
  exec_loop (suc fuel) a i flag depth w = elim (get_elem? a.proc.instructions i) [
    | none ↦ returned 0 (record { world = w; recursion_depth = depth })
    | some ins ↦ elim (round h a i ins flag w) [
      | advance flag' w' ↦ exec_loop fuel a (suc i) flag' depth w'
      | stop ret w' ↦ returned ret (record { world = w'; recursion_depth = depth })
      | wild ↦ undefined
      | jump sub w' ↦ elim (g sub) [
        | none ↦ undefined
        | some a' ↦ exec_loop fuel a' 0 flag_none depth w'
      ]
      | nest sub flag' w' ↦ elim (g sub) [
        | none ↦ undefined
        | some a' ↦ elim (ltb max_proc_recursion_depth (depth + 1)) [
          | true ↦ returned 1 (record { world = w'; recursion_depth = depth })
          | false ↦ elim (exec_loop fuel a' 0 flag_none (depth + 1) w') [
            | out_of_fuel ↦ out_of_fuel
            | undefined ↦ undefined
            | returned zero s ↦ exec_loop fuel a (suc i) flag' depth s.world
            | returned (suc n) s ↦
                returned (suc n) (record { world = s.world; recursion_depth = depth })
          ]
        ]
      ]
    ]
  ]

  -- `proc_instructions_exec`
  unfoldable pub proc_instructions_exec : ℕ → Analysis → State W → Outcome W
  proc_instructions_exec fuel a s =
      let run = exec_loop fuel a 0 flag_none s.recursion_depth s.world in
      if ltb max_proc_recursion_depth s.recursion_depth then returned 1 s else run
