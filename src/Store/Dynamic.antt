-- ===== src/Store/Dynamic.antt =====
-- src/store/proc_store_dynamic.c: the array and the mutex are allocated. `none` is undefined behaviour: a
-- use of NULL or of a freed mutex.
use csp_proc.Common.{
  ℕ, zero, suc, ◌+◌, List, Bool, true, false, Option, none, some, ◌==◌, if◌then◌else◌,
}
use csp_proc.Types.{Proc, instruction_count, max_proc_slot}
use csp_proc.Mutex.{no_handle, handle, proc_mutex_create}
use csp_proc.Store.{
  empty_proc, update, Status, returned, minus_one, mutex_err, Found, null, found, bad_address,
  slots_loop,
}

-- `proc_store_mutex`: NULL, a mutex and whether it is held, or the address of a freed one.
pub data Mutex : Type 0 where
  no_mutex : Mutex
  mutex : Bool → Mutex
  dangling : Mutex

-- `proc_store` (`none` is NULL) and the mutex.
pub record Dynamic : Type 0 where
  pub proc_store : Option (ℕ → Proc)
  pub proc_store_mutex : Mutex

abbrev pub Fallible : Type 0 → Type 0
Fallible A = Option (A × Dynamic)

infixl 5 ◌>>=◌
abbrev pub ◌>>=◌ : {A B : Type 0} → Option (A × Dynamic) → (A → Dynamic → Fallible B) → Fallible B
none >>= f = none
some (a, d) >>= f = f a d

-- `proc_mutex_take`, and whether it succeeds; that is decided outside.
unfoldable pub take_mutex : Bool → Dynamic → Fallible Bool
take_mutex lock_ok d = elim d.proc_store_mutex [
  | no_mutex ↦ none
  | dangling ↦ none
  | mutex h ↦
      if lock_ok then some (true, record d { proc_store_mutex = mutex true }) else some (false, d)
]

unfoldable pub give_mutex : {A : Type 0} → A → Dynamic → Fallible A
give_mutex a d = elim d.proc_store_mutex [
  | no_mutex ↦ none
  | dangling ↦ none
  | mutex h ↦ some (a, record d { proc_store_mutex = mutex false })
]

-- `proc_store[…]`
unfoldable pub entries : Dynamic → Fallible (ℕ → Proc)
entries d = elim d.proc_store [ none ↦ none | some procs ↦ some (procs, d) ]

-- `_delete_proc`
unfoldable pub delete_slot : ℕ → Dynamic → Fallible (Unit {0})
unfolding entries update
delete_slot slot d = entries d >>= λ procs d'.
    some (tt, record d' { proc_store = some (update procs slot empty_proc) })

unfoldable pub delete_proc : Bool → ℕ → Dynamic → Fallible Status
unfolding take_mutex give_mutex delete_slot
delete_proc lock_ok slot d = take_mutex lock_ok d >>= λ taken d'.
    if taken
    then delete_slot slot d' >>= (λ _ d''. give_mutex (returned 0) d'')
    else some (mutex_err, d')

unfoldable pub reset_loop : ℕ → ℕ → Dynamic → Fallible (Unit {0})
unfolding delete_slot
reset_loop zero i d = some (tt, d)
reset_loop (suc k) i d = delete_slot i d >>= λ _ d'. reset_loop k (suc i) d'

unfoldable pub reset_proc_store : Bool → Dynamic → Fallible (Unit {0})
unfolding take_mutex give_mutex
reset_proc_store lock_ok d = take_mutex lock_ok d >>= λ taken d'.
    if taken
    then reset_loop (max_proc_slot + 1) 0 d' >>= (λ _ d''. give_mutex tt d'')
    else some (tt, d')

-- Whether there is memory for the mutex, whether it can be initialised, and whether there is memory for
-- the array. What the variables pointed to before is not freed; after a failed `proc_calloc` the variable
-- still has the address of the destroyed mutex.
unfoldable pub proc_store_init : Bool → Bool → Bool → Dynamic → Fallible Status
unfolding proc_mutex_create
proc_store_init malloc_ok mutex_ok calloc_ok d = elim (proc_mutex_create malloc_ok mutex_ok) [
  | none ↦ none
  | some no_handle ↦ some (minus_one, record d { proc_store_mutex = no_mutex })
  | some (handle h) ↦
      if calloc_ok
      then some
          (returned 0, record { proc_store = some (λ _. empty_proc); proc_store_mutex = mutex h })
      else some (minus_one, record { proc_store = none; proc_store_mutex = dangling })
]

-- Destroying a mutex that was destroyed before is undefined.
unfoldable pub destroy_proc_store : Dynamic → Fallible (Unit {0})
destroy_proc_store d = elim d.proc_store_mutex [
  | dangling ↦ none
  | _ ↦ some (tt, record { proc_store = none; proc_store_mutex = no_mutex })
]

-- `_delete_proc(slot); proc_store[slot] = *proc`
unfoldable pub put_proc : Proc → ℕ → Dynamic → Fallible (Unit {0})
unfolding delete_slot entries update
put_proc p slot d = delete_slot slot d >>= λ _ d'.
    entries d' >>= λ procs d''. some (tt, record d'' { proc_store = some (update procs slot p) })

unfoldable pub set_proc : Bool → Proc → ℕ → Bool → Dynamic → Fallible Status
unfolding take_mutex give_mutex put_proc entries
set_proc lock_ok p slot overwrite d = take_mutex lock_ok d >>= λ taken d'.
    if taken
    then (entries d' >>= λ procs d''.
        if instruction_count (procs slot) == 0
        then (put_proc p slot d'' >>= λ _ d3. give_mutex (returned slot) d3)
        else if overwrite
        then (put_proc p slot d'' >>= λ _ d3. give_mutex (returned slot) d3)
        else give_mutex minus_one d'')
    else some (mutex_err, d')

unfoldable pub get_proc : Bool → ℕ → Dynamic → Fallible Found
unfolding take_mutex give_mutex entries
get_proc lock_ok slot d = take_mutex lock_ok d >>= λ taken d'.
    if taken
    then (entries d' >>= λ procs d''.
        if instruction_count (procs slot) == 0
        then give_mutex null d''
        else give_mutex (found (procs slot)) d'')
    else some (bad_address, d')

-- Without memory for the list, its first element is written through NULL; -1 is always written.
unfoldable pub get_proc_slots : Bool → Bool → Dynamic → Fallible (Option (List ℕ))
unfolding take_mutex give_mutex entries
get_proc_slots malloc_ok lock_ok d = take_mutex lock_ok d >>= λ taken d'.
    if taken
    then (entries d' >>= λ procs d''.
        if malloc_ok then give_mutex (some (slots_loop (max_proc_slot + 1) 0 procs)) d'' else none)
    else some (none, d')
