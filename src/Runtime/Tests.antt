-- ===== src/Runtime/Tests.antt =====
-- The execution loop on a procedure with a tail call in a branch, and its theorems applied to it.
use csp_proc.Common.{ℕ, zero, suc, ◌≡◌, ◌≢◌, refl, [], ◌∷◌, true, false, some, arith}
use csp_proc.Types.{op_eq, ifelse, set, call, noop, Instruction}
use csp_proc.Analyze.{Analysis, analyze_tail_call, only_noops}
use csp_proc.Runtime.{
  flag_true, flag_none, Handlers, Graph, outermost, of_slot, jump, round, dispatch,
  proc_runtime_call, find_sub, flag_at, after_handler, after_ifelse, State, returned, out_of_fuel,
  exec_loop, proc_instructions_exec,
}
use csp_proc.Runtime.Coherence.{NoNesting, Visits, entry, went_on}
use csp_proc.Runtime.TailCalls.{after_flag, IsMarked, tail_call-nothing_left}
use csp_proc.Runtime.Branches.{is_call, NoCalls, exec_loop-ends}
use csp_proc.Runtime.Storage.{
  task_loop, task_instructions_exec, task_instructions_exec-proc_instructions_exec,
}

-- The world is the number of instructions performed; every condition holds.
abbrev counting : Handlers ℕ
counting = record {
  proc_runtime_block = λ ins w. (0, suc w);
  proc_runtime_ifelse = λ ins w. (flag_true, w);
  proc_runtime_set = λ ins w. (0, suc w);
  proc_runtime_unop = λ ins w. (0, suc w);
  proc_runtime_binop = λ ins w. (0, suc w);
}

counting-decides : (ins : Instruction) (w : ℕ) → (counting.proc_runtime_ifelse ins w).0 ≢ flag_none
counting-decides ins w e = cc

abbrev step_if : Instruction
step_if = record { node = 0; payload = ifelse (97 ∷ []) op_eq (98 ∷ []) }

abbrev step_set : Instruction
step_set = record { node = 0; payload = set (97 ∷ []) (49 ∷ []) }

abbrev step_noop : Instruction
step_noop = record { node = 0; payload = noop }

abbrev step_call : Instruction
step_call = record { node = 0; payload = call 3 }

abbrev plain : Analysis
plain = record {
  proc = record { instructions = step_if ∷ step_set ∷ step_noop ∷ step_set ∷ [] };
  sub_analyses = [];
  procedure_slots = [];
  tail_calls = false ∷ false ∷ false ∷ false ∷ [];
}

-- The call is the taken branch, and a no-op is the other one.
abbrev jumping : Analysis
jumping = record {
  proc = record { instructions = step_if ∷ step_call ∷ step_noop ∷ [] };
  sub_analyses = 3 ∷ [];
  procedure_slots = 3 ∷ [];
  tail_calls = false ∷ true ∷ false ∷ [];
}

abbrev calls_plain : Graph
calls_plain outermost = some jumping
calls_plain (of_slot slot) = some plain

abbrev at_start : State ℕ
at_start = record { world = 0; recursion_depth = 0 }

run_test :
    proc_instructions_exec counting calls_plain 9 jumping at_start
    ≡ returned 0 (record { world = 2; recursion_depth = 0 })
unfolding proc_instructions_exec exec_loop round dispatch proc_runtime_call find_sub flag_at
    after_handler after_ifelse
run_test = refl

jumping-NoNesting : NoNesting jumping.proc.instructions
jumping-NoNesting zero e = (refl, refl)
jumping-NoNesting (suc zero) e = cc
jumping-NoNesting (suc (suc zero)) e = cc
jumping-NoNesting (suc (suc (suc k))) e = cc

jumping-IsMarked : IsMarked jumping
unfolding flag_at analyze_tail_call only_noops
jumping-IsMarked zero e = cc
jumping-IsMarked (suc zero) e = refl
jumping-IsMarked (suc (suc zero)) e = cc
jumping-IsMarked (suc (suc (suc k))) e = cc

at_call : Visits counting jumping 1 flag_true
unfolding round dispatch after_ifelse
at_call = went_on step_if 0 0 entry refl refl

call_jumps : round counting jumping 1 step_call flag_true 0 ≡ jump (of_slot 3) 0
unfolding round dispatch proc_runtime_call find_sub flag_at
call_jumps = refl

tail_call-nothing_left_example :
    exec_loop counting calls_plain 5 jumping 2 (after_flag flag_true) 0 7
    ≡ returned 0 (record { world = 7; recursion_depth = 0 })
tail_call-nothing_left_example =
    tail_call-nothing_left counting calls_plain counting-decides jumping jumping-NoNesting
      jumping-IsMarked 1 flag_true step_call (of_slot 3) 0 0 at_call refl call_jumps 5 0 7
      (omega arith)

is_call_same : (x ins : Instruction) → is_call x ≡ false → some x ≡ some ins → is_call ins ≡ false
is_call_same x ins h e = cc

plain-NoCalls : NoCalls counting plain.proc.instructions
plain-NoCalls zero ins e = is_call_same step_if ins refl e
plain-NoCalls (suc zero) ins e = is_call_same step_set ins refl e
plain-NoCalls (suc (suc zero)) ins e = is_call_same step_noop ins refl e
plain-NoCalls (suc (suc (suc zero))) ins e = is_call_same step_set ins refl e
plain-NoCalls (suc (suc (suc (suc k)))) ins e = cc

exec_loop-ends_example : exec_loop counting calls_plain 5 plain 0 flag_none 0 7 ≢ out_of_fuel
exec_loop-ends_example =
    exec_loop-ends counting calls_plain plain 0 5 0 flag_none 7 plain-NoCalls (omega arith)
      (omega arith)

-- The call is not marked, so it nests.
abbrev nesting : Analysis
nesting = record jumping { tail_calls = false ∷ false ∷ false ∷ [] }

nested_test :
    task_instructions_exec counting calls_plain 9 nesting at_start
    ≡ returned 0 (record { world = 2; recursion_depth = 0 })
unfolding task_instructions_exec task_loop round dispatch proc_runtime_call find_sub flag_at
    after_handler after_ifelse
nested_test = refl

task_instructions_exec-proc_instructions_exec_example :
    task_instructions_exec counting calls_plain 9 nesting at_start
    ≡ proc_instructions_exec counting calls_plain 9 nesting at_start
task_instructions_exec-proc_instructions_exec_example =
    task_instructions_exec-proc_instructions_exec counting calls_plain 9 nesting at_start
