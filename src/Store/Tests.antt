-- ===== src/Store/Tests.antt =====
-- Runs of src/store/proc_store_static.c and src/store/proc_store_dynamic.c, and the store's theorems applied to them.
use csp_proc.Common.{ℕ, ◌≡◌, refl, [], ◌∷◌, true, false, none, some, ◌==◌, if◌then◌else◌, not, ◌||◌}
use csp_proc.Common.{List}
use mathlib.Core.Option
use csp_proc.Types.{noop, Proc}
use csp_proc.Store.{
  Store, empty_proc, returned, minus_one, mutex_err, bad_address, delete_proc, reset_proc_store,
  set_proc, get_proc, get_proc_slots, slots_loop, proc_store_init,
}
use csp_proc.Store.Map.{entry, view, assign, is_some, set_proc-assign}
use csp_proc.Store
use csp_proc.Store.{Status, initial_store}
use csp_proc.Store.Dynamic
use csp_proc.Mutex.{proc_mutex_create}
use csp_proc.Store.Dynamic.{destroy_proc_store}
use csp_proc.Store.Refinement.{initialised, as_static, uninitialised, initialised-static}
use csp_proc.Store.Sections.{Call, status, set_section}
use csp_proc.Store.Interleaving.{
  calling, over, System, Reach, start, takes, reads, writes, gives, replay, Answers, Begins,
}
use csp_proc.Store.Serial.{Reach-sequential}

abbrev one_noop : Proc
one_noop = record { instructions = record { node = 0; payload = noop } ∷ [] }

-- Slots 3 and 5 are occupied.
abbrev two_slots : Store
two_slots = record {
  procs = λ i. if (i == 3) || (i == 5) then one_noop else empty_proc;
  held = false;
}

occupied_test : (set_proc true one_noop 3 false two_slots).0 ≡ minus_one
unfolding set_proc
occupied_test = refl

overwrite_test : (set_proc true one_noop 3 true two_slots).0 ≡ returned 3
unfolding set_proc
overwrite_test = refl

slots_test : (get_proc_slots true two_slots).0 ≡ some (3 ∷ 5 ∷ [])
unfolding get_proc_slots slots_loop
slots_test = refl

set_proc-assign_example :
    let r = set_proc true one_noop 3 false two_slots in
    let allowed = false || not (is_some (view two_slots 3)) in
    (r.0 ≡ (if allowed then returned 3 else minus_one))
    × ((i : ℕ)
        → view r.1 i
          ≡ (if allowed then assign (view two_slots) 3 (entry one_noop) i else view two_slots i))
    × (r.1.held ≡ false)
set_proc-assign_example = set_proc-assign one_noop 3 false two_slots

abbrev fresh_store : Store
fresh_store = record { procs = λ i. empty_proc; held = false }

init_test : proc_store_init true initial_store ≡ some fresh_store
unfolding proc_store_init
init_test = refl

dynamic_test :
    Dynamic.get_proc_slots true true (initialised two_slots)
    ≡ some (some (3 ∷ 5 ∷ []), initialised two_slots)
unfolding Dynamic.get_proc_slots slots_loop
dynamic_test = refl

initialised-static_example :
    (Dynamic.delete_proc true 3 (initialised two_slots)
      ≡ as_static (Store.delete_proc true 3 two_slots))
    × (Dynamic.reset_proc_store true (initialised two_slots)
        ≡ as_static (tt, Store.reset_proc_store true two_slots))
    × (Dynamic.set_proc true one_noop 3 true (initialised two_slots)
        ≡ as_static (Store.set_proc true one_noop 3 true two_slots))
    × (Dynamic.get_proc true 3 (initialised two_slots)
        ≡ as_static (Store.get_proc true 3 two_slots))
    × (Dynamic.get_proc_slots true true (initialised two_slots)
        ≡ as_static (Store.get_proc_slots true two_slots))
initialised-static_example = initialised-static two_slots true one_noop 3 true

-- An array that cannot be allocated: destroying the store then destroys the mutex again.
destroyed_twice :
    Option.map (λ r. destroy_proc_store r.1) (Dynamic.proc_store_init true true false uninitialised)
    ≡ some none
unfolding Dynamic.proc_store_init proc_mutex_create destroy_proc_store
destroyed_twice = refl

-- Threads 1 and 2 both store a procedure in slot 4, which is free; the others read it.
abbrev call_of : ℕ → Call
call_of t = if (t == 1) || (t == 2) then Call.set one_noop 4 false else Call.get 4

abbrev two_calls : System
two_calls = record { procs = two_slots.procs; holder = none; phase = λ t. calling (call_of t) }

two_calls-Begins : Begins two_slots two_calls
two_calls-Begins = record { procs = refl; holder = refl; calls = λ t. (call_of t, refl) }

abbrev in_order : List (ℕ × Call)
in_order = (1, Call.set one_noop 4 false) ∷ (2, Call.set one_noop 4 false) ∷ []

-- Thread 2 takes the mutex first; thread 1 then finds the slot occupied.
both_done :
    (s : System) × Reach two_calls in_order s
    × (s.holder ≡ none)
    × (s.phase 1 ≡ over (status minus_one))
unfolding set_section Store.update
both_done =
    let one = takes 2 (Call.set one_noop 4 false) start refl refl in
    let two = writes 2 4 one_noop _ (writes 2 4 empty_proc _ (reads 2 4 _ one refl) refl) refl in
    let three = gives 2 (status (returned 4)) two refl in
    let four = reads 1 4 _ (takes 1 (Call.set one_noop 4 false) three refl refl) refl in
    (_, gives 1 (status minus_one) four refl, refl, refl)

Reach-sequential_example :
    ((both_done.0).procs ≡ (replay in_order two_slots).procs)
    × Answers in_order two_slots 1 (status minus_one)
Reach-sequential_example =
    Reach-sequential two_slots 1 (status minus_one) two_calls-Begins both_done.1 both_done.2
      both_done.3
