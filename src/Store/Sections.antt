-- ===== src/Store/Sections.antt =====
-- The critical sections of src/store/proc_store_static.c: what each operation does between
-- `proc_mutex_take` and `proc_mutex_give`, one access of the array `proc_store` at a time.
use csp_proc.Common.{
  ℕ, zero, suc, ◌+◌, ◌≡◌, refl, ◌∙◌, List, [], ◌∷◌, ◌++◌, append-nil, append_assoc, Bool, true,
  false, ltb, ◌==◌, if◌then◌else◌, Bool-cases, inl, inr, Option, some, none,
}
use csp_proc.Types.{Proc, instruction_count, max_proc_slot}
use csp_proc.Store.{
  Store, empty_proc, update, Status, returned, minus_one, Found, null, found, delete_proc,
  delete_slot, reset_loop, reset_proc_store, put_proc, set_proc, get_proc, slots_loop,
  get_proc_slots,
}

-- What an operation returns.
pub data Returned : Type 0 where
  status : Status → Returned
  address : Found → Returned
  slots : List ℕ → Returned

pub data Section : Type 0 where
  finish : Returned → Section
  read : ℕ → (Proc → Section) → Section
  write : ℕ → Proc → Section → Section

-- A section that nothing interrupts.
unfoldable pub run : Section → (ℕ → Proc) → Returned × (ℕ → Proc)
run (finish r) procs = (r, procs)
run (read i k) procs = run (k (procs i)) procs
run (write i p k) procs = run k (update procs i p)

unfoldable pub delete_section : ℕ → Section
delete_section slot = write slot empty_proc (finish (status (returned 0)))

unfoldable pub reset_section : ℕ → ℕ → Section
reset_section zero i = finish (status (returned 0))
reset_section (suc k) i = write i empty_proc (reset_section k (suc i))

unfoldable pub set_section : Proc → ℕ → Bool → Section
set_section p slot overwrite = read slot λ q.
    if instruction_count q == 0
    then write slot empty_proc (write slot p (finish (status (returned slot))))
    else if overwrite
    then write slot empty_proc (write slot p (finish (status (returned slot))))
    else finish (status minus_one)

-- The answer is the procedure that the entry holds during the section, where the code returns its address.
unfoldable pub get_section : ℕ → Section
get_section slot =
    read slot
      λ q. if instruction_count q == 0 then finish (address null) else finish (address (found q))

-- `before` are the slots that are written so far.
unfoldable pub slots_section : ℕ → ℕ → List ℕ → Section
slots_section zero i before = finish (slots before)
slots_section (suc k) i before =
    read i λ q.
      slots_section k (suc i) (if ltb 0 (instruction_count q) then before ++ i ∷ [] else before)

-- A call of an operation.
pub data Call : Type 0 where
  delete : ℕ → Call
  reset : Call
  set : Proc → ℕ → Bool → Call
  get : ℕ → Call
  get_slots : Call

abbrev pub section_of : Call → Section
section_of (delete slot) = delete_section slot
section_of reset = reset_section (max_proc_slot + 1) 0
section_of (set p slot overwrite) = set_section p slot overwrite
section_of (get slot) = get_section slot
section_of get_slots = slots_section (max_proc_slot + 1) 0 []

abbrev listed : Option (List ℕ) → Returned
listed none = slots []
listed (some found_slots) = slots found_slots

-- The same calls one after another: the operations of Store, with the mutex taken.
abbrev pub sequential : Call → Store → Returned × Store
sequential (delete slot) s = let r = delete_proc true slot s in (status r.0, r.1)
sequential reset s = (status (returned 0), reset_proc_store true s)
sequential (set p slot overwrite) s = let r = set_proc true p slot overwrite s in (status r.0, r.1)
sequential (get slot) s = let r = get_proc true slot s in (address r.0, r.1)
sequential get_slots s = let r = get_proc_slots true s in (listed r.0, r.1)

run-reset_section :
    (k i : ℕ) (s : Store)
    → run (reset_section k i) s.procs ≡ (status (returned 0), (reset_loop k i s).procs)
unfolding run reset_section reset_loop delete_slot
run-reset_section zero i s = refl
run-reset_section (suc k) i s = run-reset_section k (suc i) (delete_slot i s)

run-slots_section :
    (k i : ℕ) (before : List ℕ) (procs : ℕ → Proc)
    → run (slots_section k i before) procs ≡ (slots (before ++ slots_loop k i procs), procs)
unfolding run slots_section slots_loop
run-slots_section zero i before procs = rw append-nil refl
run-slots_section (suc k) i before procs = elim (Bool-cases (ltb 0 (instruction_count (procs i)))) [
  | inl e ↦
      rw (slots_section, run, e)
        (run-slots_section k (suc i) (before ++ i ∷ []) procs ∙ rw append_assoc refl)
  | inr e ↦ rw (slots_section, run, e) (run-slots_section k (suc i) before procs)
]

-- A section that nothing interrupts does what the operation does.
pub run-section_of :
    (c : Call) (s : Store) → let r = sequential c s in run (section_of c) s.procs ≡ (r.0, r.1.procs)
unfolding run delete_section set_section get_section delete_proc set_proc put_proc get_proc
    reset_proc_store get_proc_slots delete_slot
run-section_of (delete slot) s = refl
run-section_of reset s = run-reset_section (max_proc_slot + 1) 0 (record s { held = true })
run-section_of (set p slot true) s = elim (Bool-cases (instruction_count (s.procs slot) == 0)) [
  | inl e ↦ rw (set_section, run, e) refl
  | inr e ↦ rw (set_section, run, e) refl
]
run-section_of (set p slot false) s = elim (Bool-cases (instruction_count (s.procs slot) == 0)) [
  | inl e ↦ rw (set_section, run, e) refl
  | inr e ↦ rw (set_section, run, e) refl
]
run-section_of (get slot) s = elim (Bool-cases (instruction_count (s.procs slot) == 0)) [
  | inl e ↦ rw (get_section, run, e) refl
  | inr e ↦ rw (get_section, run, e) refl
]
run-section_of get_slots s = run-slots_section (max_proc_slot + 1) 0 [] s.procs
