-- ===== src/Analyze/Tests.antt =====
-- Runs of src/proc_analyze.c on procedures that call themselves and each other.
use csp_proc.Common.{ℕ, ◌≡◌, ◌≢◌, refl, [], ◌∷◌, true, false, Option, some, All, subst, arith}
use csp_proc.Types.{call, Proc, IsValid}
use csp_proc.Analyze.{analyze_tail_call, only_noops, out_of_fuel, proc_analyze, empty_config}
use csp_proc.Common.{◌==◌, if◌then◌else◌}
use csp_proc.Analyze.{Analysis}
use csp_proc.Analyze.Collect.{collected, collect_loop, collect_proc_slots}
use csp_proc.Analyze.Marks.{AllMarked, EndsMarked, proc_analyze-EndsMarked}
use csp_proc.Analyze.Termination.{proc_analyze-ne-out_of_fuel}

-- Calls slot 1, then slot 2.
abbrev two_calls : Proc
two_calls = record {
  instructions = record { node = 0; payload = call 1 } ∷ record { node = 0; payload = call 2 } ∷ [];
}

two_calls-IsValid : All IsValid two_calls.instructions
two_calls-IsValid = ((omega arith, omega arith), ((omega arith, omega arith), tt))

tail_call_test : analyze_tail_call two_calls.instructions 1 ≡ true
unfolding analyze_tail_call only_noops
tail_call_test = refl

no_tail_call_test : analyze_tail_call two_calls.instructions 0 ≡ false
unfolding analyze_tail_call only_noops
no_tail_call_test = refl

-- Every slot holds the procedure.
abbrev everywhere : ℕ → Option Proc
everywhere slot = some two_calls

everywhere-IsValid : (slot : ℕ) (p : Proc) → everywhere slot ≡ some p → All IsValid p.instructions
everywhere-IsValid slot p e =
    let same : two_calls ≡ p = cc in
    subst (λ (q : Proc). All IsValid q.instructions) same two_calls-IsValid

proc_analyze-ne-out_of_fuel_example :
    proc_analyze everywhere 257 two_calls empty_config ≢ out_of_fuel
proc_analyze-ne-out_of_fuel_example =
    proc_analyze-ne-out_of_fuel everywhere everywhere-IsValid two_calls empty_config
      two_calls-IsValid

nothing_marked : AllMarked empty_config
nothing_marked slot a e = cc

proc_analyze-EndsMarked_example :
    EndsMarked two_calls (proc_analyze everywhere 257 two_calls empty_config)
proc_analyze-EndsMarked_example =
    proc_analyze-EndsMarked everywhere everywhere-IsValid two_calls empty_config two_calls-IsValid
      nothing_marked

-- The analysis of a procedure that calls itself, and the one of a procedure that only calls that of slot 2.
abbrev self_analysis : Analysis
self_analysis = record {
  proc = two_calls;
  sub_analyses = 1 ∷ [];
  procedure_slots = 1 ∷ [];
  tail_calls = [];
}

abbrev leaf : Analysis
leaf = record self_analysis { sub_analyses = []; procedure_slots = [] }

abbrev chain : ℕ → Option Analysis
chain slot = if slot == 2 then some leaf else some (record self_analysis { sub_analyses = 2 ∷ [] })

collect_test : collect_proc_slots 3 chain self_analysis [] ≡ collected (1 ∷ 1 ∷ [])
unfolding collect_proc_slots collect_loop
collect_test = refl
