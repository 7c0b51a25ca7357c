-- ===== src/Store/Refinement.antt =====
-- src/store/proc_store_dynamic.c against proc_store_static.c.
use csp_proc.Common.{
  ℕ, zero, suc, ◌+◌, ◌≡◌, refl, Bool, true, false, none, some, ◌==◌, Bool-cases, inl, inr,
}
use csp_proc.Types.{Proc, instruction_count, max_proc_slot}
use csp_proc.Store
use csp_proc.Store.{initial_store, Store, empty_proc, Status, returned, minus_one}
use csp_proc.Store.Dynamic.{
  Dynamic, Fallible, no_mutex, mutex, entries, delete_slot, delete_proc, reset_loop,
  reset_proc_store, destroy_proc_store, set_proc, get_proc, get_proc_slots,
}

-- An initialised dynamic store with the state of a static one.
abbrev pub initialised : Store → Dynamic
initialised s = record { proc_store = some s.procs; proc_store_mutex = mutex s.held }

-- A result of the static store's operation, as the dynamic one gives it.
abbrev pub as_static : {A : Type 0} → A × Store → Fallible A
as_static (a, s) = some (a, initialised s)

reset_loop-static :
    (k i : ℕ) (s : Store) → reset_loop k i (initialised s) ≡ as_static (tt, Store.reset_loop k i s)
unfolding reset_loop Store.reset_loop delete_slot Store.delete_slot entries
reset_loop-static zero i s = refl
reset_loop-static (suc k) i s = reset_loop-static k (suc i) (Store.delete_slot i s)

delete_proc-static :
    (lock_ok : Bool) (slot : ℕ) (s : Store)
    → delete_proc lock_ok slot (initialised s) ≡ as_static (Store.delete_proc lock_ok slot s)
unfolding delete_proc Store.delete_proc entries
delete_proc-static false slot s = refl
delete_proc-static true slot s = refl

reset_proc_store-static :
    (lock_ok : Bool) (s : Store)
    → reset_proc_store lock_ok (initialised s) ≡ as_static (tt, Store.reset_proc_store lock_ok s)
unfolding reset_proc_store Store.reset_proc_store
reset_proc_store-static false s = refl
reset_proc_store-static true s =
    rw (reset_loop-static (max_proc_slot + 1) 0 (Store.take_mutex s)) refl

set_proc-static :
    (lock_ok : Bool) (p : Proc) (slot : ℕ) (overwrite : Bool) (s : Store)
    → set_proc lock_ok p slot overwrite (initialised s)
      ≡ as_static (Store.set_proc lock_ok p slot overwrite s)
unfolding set_proc Store.set_proc entries
set_proc-static false p slot overwrite s = refl
set_proc-static true p slot true s = elim (Bool-cases (instruction_count (s.procs slot) == 0)) [
  | inl e ↦ rw e refl
  | inr e ↦ rw e refl
]
set_proc-static true p slot false s = elim (Bool-cases (instruction_count (s.procs slot) == 0)) [
  | inl e ↦ rw e refl
  | inr e ↦ rw e refl
]

get_proc-static :
    (lock_ok : Bool) (slot : ℕ) (s : Store)
    → get_proc lock_ok slot (initialised s) ≡ as_static (Store.get_proc lock_ok slot s)
unfolding get_proc Store.get_proc entries
get_proc-static false slot s = refl
get_proc-static true slot s = elim (Bool-cases (instruction_count (s.procs slot) == 0)) [
  | inl e ↦ rw e refl
  | inr e ↦ rw e refl
]

get_proc_slots-static :
    (lock_ok : Bool) (s : Store)
    → get_proc_slots true lock_ok (initialised s) ≡ as_static (Store.get_proc_slots lock_ok s)
unfolding get_proc_slots Store.get_proc_slots entries
get_proc_slots-static false s = refl
get_proc_slots-static true s = refl

-- On an initialised dynamic store, whether or not the mutex can be taken, every operation does what it does
-- on the static store with the same procedures and mutex: it has the same result and the same effect,
-- and uses no NULL pointer if there is memory for the list of slots.
pub initialised-static :
    (s : Store) (lock_ok : Bool) (p : Proc) (slot : ℕ) (overwrite : Bool)
    → (delete_proc lock_ok slot (initialised s) ≡ as_static (Store.delete_proc lock_ok slot s))
      × (reset_proc_store lock_ok (initialised s)
          ≡ as_static (tt, Store.reset_proc_store lock_ok s))
      × (set_proc lock_ok p slot overwrite (initialised s)
          ≡ as_static (Store.set_proc lock_ok p slot overwrite s))
      × (get_proc lock_ok slot (initialised s) ≡ as_static (Store.get_proc lock_ok slot s))
      × (get_proc_slots true lock_ok (initialised s) ≡ as_static (Store.get_proc_slots lock_ok s))
initialised-static s lock_ok p slot overwrite = (
  delete_proc-static lock_ok slot s,
  reset_proc_store-static lock_ok s,
  set_proc-static lock_ok p slot overwrite s,
  get_proc-static lock_ok slot s,
  get_proc_slots-static lock_ok s,
)

-- `proc_store` and `proc_store_mutex` before the initialisation.
abbrev pub uninitialised : Dynamic
uninitialised = record { proc_store = none; proc_store_mutex = no_mutex }

-- Before the initialisation, and after `destroy_proc_store`, every operation is undefined, but for
-- destroying again, which changes nothing.
pub uninitialised-none :
    (lock_ok malloc_ok : Bool) (p : Proc) (slot : ℕ) (overwrite : Bool)
    → (delete_proc lock_ok slot uninitialised ≡ none)
      × (reset_proc_store lock_ok uninitialised ≡ none)
      × (set_proc lock_ok p slot overwrite uninitialised ≡ none)
      × (get_proc lock_ok slot uninitialised ≡ none)
      × (get_proc_slots malloc_ok lock_ok uninitialised ≡ none)
      × (destroy_proc_store uninitialised ≡ some (tt, uninitialised))
unfolding delete_proc reset_proc_store set_proc get_proc get_proc_slots destroy_proc_store
uninitialised-none lock_ok malloc_ok p slot overwrite = (refl, refl, refl, refl, refl, refl)
