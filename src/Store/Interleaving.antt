-- ===== src/Store/Interleaving.antt =====
-- Threads that call the operations of src/store/proc_store_static.c at the same time: each access of the array is a
-- step, and `proc_store_mutex` is held by at most one thread.
use csp_proc.Common.{ℕ, ◌≡◌, ◌⊎◌, List, [], ◌∷◌, Option, none, some, ◌==◌, if◌then◌else◌}
use csp_proc.Types.{Proc}
use csp_proc.Store.{Store, update}
use csp_proc.Store.Sections.{Returned, Section, finish, read, write, Call, section_of, sequential}

-- Where a thread is: before the call of `proc_mutex_take`, behind it with what is left of the section, behind
-- `proc_mutex_give` with the result, or behind a `proc_mutex_take` that failed.
pub data Phase : Type 0 where
  calling : Call → Phase
  inside : Section → Phase
  over : Returned → Phase
  refused : Phase

-- The array, the thread that holds the mutex, and where every thread is.
pub record System : Type 0 where
  pub procs : ℕ → Proc
  pub holder : Option ℕ
  pub phase : ℕ → Phase

abbrev pub set_phase : (ℕ → Phase) → ℕ → Phase → ℕ → Phase
set_phase phases t phase i = if i == t then phase else phases i

abbrev pub move : ℕ → Phase → System → System
move t phase s = record s { phase = set_phase s.phase t phase }

-- The states that a system can reach, with the calls that have taken the mutex so far, the latest first.
pub data Reach (s0 : System) : List (ℕ × Call) → System → Type 0 where
  start : Reach s0 [] s0
  takes :
      (t : ℕ) (c : Call) {log : List (ℕ × Call)} {s : System}
      → Reach s0 log s
      → s.holder ≡ none
      → s.phase t ≡ calling c
      → Reach s0 ((t, c) ∷ log) (record (move t (inside (section_of c)) s) { holder = some t })
  refuses :
      (t : ℕ) (c : Call) {log : List (ℕ × Call)} {s : System}
      → Reach s0 log s
      → s.phase t ≡ calling c
      → Reach s0 log (move t refused s)
  reads :
      (t i : ℕ) (k : Proc → Section) {log : List (ℕ × Call)} {s : System}
      → Reach s0 log s
      → s.phase t ≡ inside (read i k)
      → Reach s0 log (move t (inside (k (s.procs i))) s)
  writes :
      (t i : ℕ) (p : Proc) (k : Section) {log : List (ℕ × Call)} {s : System}
      → Reach s0 log s
      → s.phase t ≡ inside (write i p k)
      → Reach s0 log (record (move t (inside k) s) { procs = update s.procs i p })
  gives :
      (t : ℕ) (r : Returned) {log : List (ℕ × Call)} {s : System}
      → Reach s0 log s
      → s.phase t ≡ inside (finish r)
      → Reach s0 log (record (move t (over r) s) { holder = none })

-- The same calls, one after another, on a store.
abbrev pub replay : List (ℕ × Call) → Store → Store
replay [] st = st
replay ((t, c) ∷ log) st = (sequential c (replay log st)).1

-- A call of the thread has the result `r` in the replay.
abbrev pub Answers : List (ℕ × Call) → Store → ℕ → Returned → Type 0
Answers [] st t r = ⊥
Answers ((u, c) ∷ log) st t r =
    ((u ≡ t) × ((sequential c (replay log st)).0 ≡ r)) ⊎ Answers log st t r

-- No thread is in a section.
abbrev pub Outside : Phase → Type 0
Outside (inside k) = ⊥
Outside _ = Unit

-- The threads before they call anything, on the store `st`.
pub record Begins (st : Store) (s : System) : Type 0 where
  pub procs : s.procs ≡ st.procs
  pub holder : s.holder ≡ none
  pub calls : (t : ℕ) → (c : Call) × (s.phase t ≡ calling c)
