-- ===== src/Analyze.antt =====
-- src/proc_analyze.c: the static analysis that runs before a procedure is executed.
pub mod Termination
pub mod Marks
pub mod Freeing
pub mod Collect
mod Tests
use csp_proc.Common.{
  ℕ, zero, suc, ◌+◌, ◌-◌, List, [], ◌∷◌, ◌++◌, length, get_elem?, drop, Bool, true, false, not,
  ◌&&◌, ◌||◌, Option, none, some, ltb, ◌==◌, if◌then◌else◌,
}
use csp_proc.Types.{
  Payload, block, ifelse, set, unop, binop, call, noop, unknown, Instruction, Proc,
  instruction_count,
}

abbrev pub is_noop : Instruction → Bool
is_noop ins = elim ins.payload [ noop ↦ true | _ ↦ false ]

abbrev pub is_ifelse : Instruction → Bool
is_ifelse ins = elim ins.payload [ ifelse a op b ↦ true | _ ↦ false ]

abbrev pub ifelse_at : List Instruction → ℕ → Bool
ifelse_at is i = elim (get_elem? is i) [ none ↦ false | some ins ↦ is_ifelse ins ]

-- The loops over `j`: whether only no-ops are left. `j` stays at most `instruction_count`, at most 255,
-- so the `uint8_t` does not wrap.
unfoldable pub only_noops : List Instruction → Bool
only_noops [] = true
only_noops (ins ∷ is) = is_noop ins && only_noops is

-- `is_tail_call` for the call at index `i`.
unfoldable pub analyze_tail_call : List Instruction → ℕ → Bool
unfolding only_noops
analyze_tail_call is i =
    let after_ifelse = ltb 0 i && ifelse_at is (i - 1) in
    if after_ifelse && ltb (i + 1) (length is)
    then only_noops (drop (i + 2) is)
    else (if i == 0 || not (ifelse_at is (i - 1)) then only_noops (drop (i + 1) is) else true)

-- `analyze_instruction`: calls are analysed, the flag of any other instruction stays 0.
unfoldable pub analyze_instruction : List Instruction → ℕ → Instruction → Bool
unfolding analyze_tail_call
analyze_instruction is i ins = elim ins.payload [ call s ↦ analyze_tail_call is i | _ ↦ false ]

-- `proc_analysis_t`. An analysis other than the outermost is allocated once for its slot, so `sub_analyses`
-- refers to analyses by slots. `tail_calls` are the flags of `instruction_analyses`.
pub record Analysis : Type 0 where
  pub proc : Proc
  pub sub_analyses : List ℕ
  pub procedure_slots : List ℕ
  pub tail_calls : List Bool

-- `proc_analysis_config_t`: `analyzed_procs`, and the analyses that `analyses` points to.
pub record Config : Type 0 where
  pub analyzed_procs : ℕ → Bool
  pub analyses : ℕ → Option Analysis

abbrev pub mark : ℕ → Config → Config
mark slot c = record c { analyzed_procs = λ i. if i == slot then true else c.analyzed_procs i }

abbrev pub put_analysis : ℕ → Analysis → Config → Config
put_analysis slot a c = record c { analyses = λ i. if i == slot then some a else c.analyses i }

-- How one round of the loop over the instructions, or the whole loop, ends: with the analysis so far and
-- the configuration; `failed` is `return -1`; `out_of_fuel` is no outcome of the code.
pub data Progress : Type 0 where
  out_of_fuel : Progress
  failed : Analysis → Config → Progress
  going : Analysis → Config → Progress

-- A call's slot is recorded before its procedure is looked up, the link to its analysis after. Whether the
-- recursive analysis failed is not looked at.
link_analysis : ℕ → Analysis → Progress → Progress
link_analysis slot a out_of_fuel = out_of_fuel
link_analysis slot a (failed sub c) =
    going (record a { sub_analyses = a.sub_analyses ++ slot ∷ [] }) (put_analysis slot sub c)
link_analysis slot a (going sub c) =
    going (record a { sub_analyses = a.sub_analyses ++ slot ∷ [] }) (put_analysis slot sub c)

-- `get_proc` is the store's lookup, with a mutex that can be taken.
module _ (get_proc : ℕ → Option Proc) where
  -- The code for one call, given the recursive call `analyze_sub`.
  analyze_call : (Proc → Config → Progress) → ℕ → Analysis → Config → Progress
  analyze_call analyze_sub slot a c =
      let a' = record a { procedure_slots = a.procedure_slots ++ slot ∷ [] } in
      elim (get_proc slot) [
        | none ↦ failed a' c
        | some sub_proc ↦
            if c.analyzed_procs slot
            then going (record a' { sub_analyses = a'.sub_analyses ++ slot ∷ [] }) c
            else link_analysis slot a' (analyze_sub sub_proc (mark slot c))
      ]

  -- One round: the instruction's own analysis, then the special handling of calls.
  analyze_round :
      (Proc → Config → Progress) → List Instruction → ℕ → Instruction → Analysis → Config → Progress
  analyze_round analyze_sub all i ins a c =
      let a' = record a { tail_calls = a.tail_calls ++ analyze_instruction all i ins ∷ [] } in
      elim ins.payload [ call slot ↦ analyze_call analyze_sub slot a' c | _ ↦ going a' c ]

  -- The loop from index `i` on, with the instructions that are left.
  analyze_loop :
      (Proc → Config → Progress)
      → List Instruction
      → ℕ
      → List Instruction
      → Analysis
      → Config
      → Progress
  analyze_loop analyze_sub all i [] a c = going a c
  analyze_loop analyze_sub all i (ins ∷ is) a c = elim (analyze_round analyze_sub all i ins a c) [
    | out_of_fuel ↦ out_of_fuel
    | failed a' c' ↦ failed a' c'
    | going a' c' ↦ analyze_loop analyze_sub all (suc i) is a' c'
  ]

  abbrev fresh : Proc → Analysis
  fresh p = record { proc = p; sub_analyses = []; procedure_slots = []; tail_calls = [] }

  -- `proc_analyze`; the fuel bounds the depth of the recursion.
  unfoldable pub proc_analyze : ℕ → Proc → Config → Progress
  unfolding analyze_loop analyze_round analyze_call link_analysis analyze_instruction
  proc_analyze zero p c = out_of_fuel
  proc_analyze (suc fuel) p c =
      analyze_loop (proc_analyze fuel) p.instructions 0 p.instructions (fresh p) c

-- What `runtime_thread` passes: two arrays of zeros.
abbrev pub empty_config : Config
empty_config = record { analyzed_procs = λ i. false; analyses = λ i. none }
