-- ===== src/Store/Map.antt =====
-- The store as a finite map: an occupied slot holds a procedure with at least one instruction.
use csp_proc.Common.{
  ℕ, zero, suc, ◌+◌, ◌≤◌, ◌≡◌, refl, ◌∙◌, Bool, true, false, not, ◌&&◌, ◌||◌, Option, none, some,
  ◌==◌, ltb, leb, if◌then◌else◌, arith,
}
use csp_proc.Types.{Proc, instruction_count, max_proc_slot}
use csp_proc.Store.{
  Store, update, returned, minus_one, mutex_err, delete_slot, delete_proc, reset_loop,
  reset_proc_store, put_proc, set_proc, Found, null, found, bad_address, get_proc, proc_store_init,
  initial_store,
}

-- The abstract store: slots to procedures.
abbrev pub ProcMap : Type 0
ProcMap = ℕ → Option Proc

-- An entry without instructions is a free slot.
abbrev pub entry : Proc → Option Proc
entry p = if instruction_count p == 0 then none else some p

abbrev pub view : Store → ProcMap
view s i = entry (s.procs i)

-- The map after an assignment.
abbrev pub assign : ProcMap → ℕ → Option Proc → ProcMap
assign m slot o i = if i == slot then o else m i

abbrev pub is_some : Option Proc → Bool
is_some none = false
is_some (some p) = true

abbrev pub found_of : Option Proc → Found
found_of none = null
found_of (some p) = found p

update-view :
    (procs : ℕ → Proc) (slot : ℕ) (p : Proc) (i : ℕ)
    → entry (update procs slot p i) ≡ assign (λ j. entry (procs j)) slot (entry p) i
unfolding update
update-view procs slot p i = ground arith

-- `set_proc` on a store whose mutex can be taken: it assigns the slot if that is free or `overwrite`
-- is set, and returns the slot; otherwise it returns -1 and the map is unchanged. The mutex is
-- released in every case.
pub set_proc-assign :
    (p : Proc) (slot : ℕ) (overwrite : Bool) (s : Store)
    → let r = set_proc true p slot overwrite s in
      let allowed = overwrite || not (is_some (view s slot)) in
      (r.0 ≡ (if allowed then returned slot else minus_one))
      × ((i : ℕ) → view r.1 i ≡ (if allowed then assign (view s) slot (entry p) i else view s i))
      × (r.1.held ≡ false)
unfolding set_proc put_proc delete_slot update
set_proc-assign p slot overwrite s = (ground arith, λ i. ground arith, ground arith)

-- When the mutex can be taken, `get_proc` returns the procedure that the map has at the slot, or NULL; the
-- store is as before, with the mutex released.
pub get_proc-view :
    (slot : ℕ) (s : Store)
    → get_proc true slot s ≡ (found_of (view s slot), record s { held = false })
unfolding get_proc
get_proc-view slot s = ground arith

-- When the mutex can be taken, `delete_proc` frees the slot and no other, returns 0 and releases the mutex.
pub delete_proc-assign :
    (slot : ℕ) (s : Store)
    → let r = delete_proc true slot s in
      (r.0 ≡ returned 0) × ((i : ℕ) → view r.1 i ≡ assign (view s) slot none i) × (r.1.held ≡ false)
unfolding delete_proc delete_slot update
delete_proc-assign slot s = (refl, λ i. ground arith, refl)

view-reset_loop :
    (k i : ℕ) (s : Store) (j : ℕ)
    → view (reset_loop k i s) j ≡ (if leb i j && ltb j (i + k) then none else view s j)
unfolding reset_loop
view-reset_loop zero i s j = ground arith
view-reset_loop (suc k) i s j =
    view-reset_loop k (suc i) (delete_slot i s) j ∙ (unfold delete_slot update in ground arith)

-- After `reset_proc_store` with a mutex that can be taken, every slot up to `MAX_PROC_SLOT` is free, and the
-- mutex is released.
pub reset_proc_store-none :
    (s : Store) (slot : ℕ)
    → slot ≤ max_proc_slot
    → (view (reset_proc_store true s) slot ≡ none) × ((reset_proc_store true s).held ≡ false)
unfolding reset_proc_store
reset_proc_store-none s slot h =
    (view-reset_loop 256 0 (record s { held = true }) slot ∙ ground arith, refl)

-- When the mutex cannot be taken, no operation changes the store; `set_proc` and `delete_proc` return
-- `PROC_MUTEX_ERR`, and `get_proc` returns it as an address.
pub mutex_failure-keeps :
    (p : Proc) (slot : ℕ) (overwrite : Bool) (s : Store)
    → (set_proc false p slot overwrite s ≡ (mutex_err, s))
      × (delete_proc false slot s ≡ (mutex_err, s))
      × (get_proc false slot s ≡ (bad_address, s))
      × (reset_proc_store false s ≡ s)
unfolding set_proc delete_proc get_proc reset_proc_store
mutex_failure-keeps p slot overwrite s = (refl, refl, refl, refl)

-- When the program starts, an initialisation that succeeds leaves a store without procedures.
pub proc_store_init-none :
    (s : Store) → proc_store_init true initial_store ≡ some s → (slot : ℕ) → view s slot ≡ none
unfolding proc_store_init
proc_store_init-none s h slot = let e : initial_store ≡ s = cc in rw (← e) refl
