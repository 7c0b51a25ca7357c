-- ===== src/Store.antt =====
-- src/store/proc_store_static.c; Dynamic is proc_store_dynamic.c, whose array and mutex are allocated.
-- A slot is a `uint8_t`, so the tests `slot < 0 || slot > MAX_PROC_SLOT` never fire. Whether
-- `proc_mutex_take` succeeds is decided outside: each operation takes the answer as `lock_ok`.
pub mod Map
pub mod Slots
pub mod Dynamic
pub mod Refinement
pub mod Sections
pub mod Interleaving
pub mod Exclusion
pub mod Serial
mod Tests
use csp_proc.Common.{
  ℕ, zero, suc, ◌+◌, List, [], ◌∷◌, Bool, true, false, Option, none, some, ltb, ◌==◌, if◌then◌else◌,
}
use csp_proc.Types.{Proc, instruction_count, max_proc_slot}

-- The array `proc_store`, and whether `proc_store_mutex` is held.
pub record Store : Type 0 where
  pub procs : ℕ → Proc
  pub held : Bool

-- An entry after `instruction_count = 0`, or as `calloc` leaves it.
abbrev pub empty_proc : Proc
empty_proc = record { instructions = [] }

unfoldable pub update : (ℕ → Proc) → ℕ → Proc → ℕ → Proc
update procs slot p i = if i == slot then p else procs i

-- `proc_mutex_take`: on failure nothing is locked.
abbrev pub take_mutex : Store → Store
take_mutex s = record s { held = true }

abbrev pub give_mutex : Store → Store
give_mutex s = record s { held = false }

-- What `set_proc` and `delete_proc` return: a slot or 0, -1, or `PROC_MUTEX_ERR`, which is 1.
pub data Status : Type 0 where
  returned : ℕ → Status
  minus_one : Status
  mutex_err : Status

-- The test `ret < 0` of the callers.
unfoldable pub is_negative : Status → Bool
is_negative (returned n) = false
is_negative minus_one = true
is_negative mutex_err = false

-- `_delete_proc`, called with the mutex held.
unfoldable pub delete_slot : ℕ → Store → Store
unfolding update
delete_slot slot s = record s { procs = update s.procs slot empty_proc }

unfoldable pub delete_proc : Bool → ℕ → Store → Status × Store
unfolding delete_slot
delete_proc false slot s = (mutex_err, s)
delete_proc true slot s = (returned 0, give_mutex (delete_slot slot (take_mutex s)))

unfoldable pub reset_loop : ℕ → ℕ → Store → Store
unfolding delete_slot
reset_loop zero i s = s
reset_loop (suc k) i s = reset_loop k (suc i) (delete_slot i s)

unfoldable pub reset_proc_store : Bool → Store → Store
reset_proc_store false s = s
reset_proc_store true s = give_mutex (reset_loop (max_proc_slot + 1) 0 (take_mutex s))

-- `_delete_proc(slot); proc_store[slot] = *proc`
unfoldable pub put_proc : Proc → ℕ → Store → Store
unfolding delete_slot
put_proc p slot s =
    let cleared = delete_slot slot s in record cleared { procs = update cleared.procs slot p }

unfoldable pub set_proc : Bool → Proc → ℕ → Bool → Store → Status × Store
unfolding put_proc
set_proc false p slot overwrite s = (mutex_err, s)
set_proc true p slot overwrite s =
    let s' = take_mutex s in
    if instruction_count (s'.procs slot) == 0
    then (returned slot, give_mutex (put_proc p slot s'))
    else (if overwrite
        then (returned slot, give_mutex (put_proc p slot s'))
        else (minus_one, give_mutex s'))

-- What `get_proc` returns: NULL, the address of an entry, or `PROC_MUTEX_ERR` read as an address. For the
-- address stands the procedure that the entry holds when the mutex is given back.
pub data Found : Type 0 where
  null : Found
  found : Proc → Found
  bad_address : Found

unfoldable pub get_proc : Bool → ℕ → Store → Found × Store
get_proc false slot s = (bad_address, s)
get_proc true slot s =
    let s' = take_mutex s in
    if instruction_count (s'.procs slot) == 0
    then (null, give_mutex s')
    else (found (s'.procs slot), give_mutex s')

-- The loop of `get_proc_slots` with `k` rounds left; the list ends where the array has its -1.
unfoldable pub slots_loop : ℕ → ℕ → (ℕ → Proc) → List ℕ
slots_loop zero i procs = []
slots_loop (suc k) i procs =
    let rest = slots_loop k (suc i) procs in
    if ltb 0 (instruction_count (procs i)) then i ∷ rest else rest

-- There is memory for the list; `none` is the NULL that is returned when the mutex cannot be taken.
unfoldable pub get_proc_slots : Bool → Store → Option (List ℕ) × Store
get_proc_slots false s = (none, s)
get_proc_slots true s =
    let s' = take_mutex s in (some (slots_loop (max_proc_slot + 1) 0 s'.procs), give_mutex s')

-- The array when the program starts.
abbrev pub initial_store : Store
initial_store = record { procs = λ i. empty_proc; held = false }

-- Whether the mutex could be initialised, where there is memory for it; the array stays as it is. `none` is
-- the result -1.
unfoldable pub proc_store_init : Bool → Store → Option Store
proc_store_init false s = none
proc_store_init true s = some (give_mutex s)
