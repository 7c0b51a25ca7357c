-- ===== src/Threads.antt =====
-- src/runtime/proc_runtime_POSIX.c: the threads that execute procedures. Each critical section of
-- `running_threads_mutex` is one step, and so is all of `proc_runtime_run`, whose test of the count stands
-- before its section: requests come one after another. What the mutex, `malloc` and `pthread_create` answer
-- is in records.
pub mod Entries
pub mod Valid
pub mod Full
pub mod Tasks
mod Tests
use csp_proc.Common.{
  ℕ, zero, suc, ◌+◌, List, [], ◌∷◌, ◌++◌, length, Bool, true, false, not, ◌&&◌, ◌||◌, Option, none,
  some, ltb, leb, ◌==◌, if◌then◌else◌,
}
use csp_proc.Types.{Proc, instruction_count, max_proc_slot}
use csp_proc.Analyze.{Progress, out_of_fuel, failed, going, proc_analyze, empty_config}
use csp_proc.Store.{Store, Found, null, found, bad_address, get_proc}
use csp_proc.Pack.Copy.{deepcopy_proc}

abbrev pub max_proc_concurrent : ℕ
max_proc_concurrent = 16

-- `thread_t`
pub record Thread : Type 0 where
  pub proc : Proc
  pub thread : ℕ

-- `running_threads`; the threads that were created and not joined, which the system keeps whether they have
-- returned or not; those that have created their key and not yet come to the end of their clean-up; and how
-- many keys `pthread_key_create` has given, none of which is ever deleted.
pub record Threads : Type 0 where
  pub running_threads : List Thread
  pub unjoined : List ℕ
  pub executing : List ℕ
  pub keys : ℕ

-- The last entry of an array that starts with `t`, and the entries before it.
abbrev pub last_entry : Thread → List Thread → Thread
last_entry t [] = t
last_entry t (u ∷ us) = last_entry u us

abbrev pub but_last : Thread → List Thread → List Thread
but_last t [] = []
but_last t (u ∷ us) = t ∷ but_last u us

-- `running_threads[i] = running_threads[running_threads_count - 1]`, and the array without its last entry,
-- seen from the entry behind `i` on.
abbrev pub fill_gap : List Thread → List Thread
fill_gap [] = []
fill_gap (t ∷ ts) = last_entry t ts ∷ but_last t ts

-- The loop that looks for a thread's entry and removes it.
unfoldable pub remove_thread : ℕ → List Thread → List Thread
remove_thread thread [] = []
remove_thread thread (t ∷ ts) =
    let rest = remove_thread thread ts in if t.thread == thread then fill_gap ts else t ∷ rest

unfoldable pub is_running : ℕ → List Thread → Bool
is_running thread [] = false
is_running thread (t ∷ ts) = (t.thread == thread) || is_running thread ts

-- `pthread_join`: the system forgets the thread.
unfoldable pub join_thread : ℕ → List ℕ → List ℕ
join_thread thread [] = []
join_thread thread (u ∷ us) =
    let rest = join_thread thread us in if u == thread then rest else u ∷ rest

unfoldable pub is_listed : ℕ → List ℕ → Bool
is_listed thread [] = false
is_listed thread (u ∷ us) = (u == thread) || is_listed thread us

-- How a stop ends: with 0 (`true`) or -1, or never: `pthread_join` is called with the mutex held, and waits
-- for a thread that waits for the mutex in its clean-up, since `pthread_mutex_lock` is no cancellation point.
pub data StopOutcome : Type 0 where
  result : Bool → StopOutcome
  hangs : StopOutcome

-- `waits` are the threads that come to wait for the mutex although they are cancelled.
unfoldable pub proc_stop_runtime_thread : (ℕ → Bool) → Bool → ℕ → Threads → StopOutcome × Threads
unfolding remove_thread is_running join_thread
proc_stop_runtime_thread waits false thread s = (result false, s)
proc_stop_runtime_thread waits true thread s =
    if not (is_running thread s.running_threads)
    then (result true, s)
    else (if waits thread then (hangs, s) else (
      result true,
      record s {
        running_threads = remove_thread thread s.running_threads;
        unjoined = join_thread thread s.unjoined;
        executing = join_thread thread s.executing;
      },
    ))

-- The loop goes on after a stop that gave 0.
abbrev pub after_stop : StopOutcome × Threads → StopOutcome × Threads → StopOutcome × Threads
after_stop (hangs, s) rest = (hangs, s)
after_stop (result false, s) rest = (result false, s)
after_stop (result true, s) rest = rest

-- The loop with `k` rounds left, of which `lock_ok k` has the mutex. Nothing happens between the rounds.
unfoldable pub stop_loop :
    (ℕ → Bool) → (ℕ → Bool) → ℕ → List Thread → Threads → StopOutcome × Threads
unfolding proc_stop_runtime_thread
stop_loop waits lock_ok k [] s = (result (ltb 0 k), s)
stop_loop waits lock_ok zero (t ∷ ts) s = (result false, s)
stop_loop waits lock_ok (suc k) (t ∷ ts) s =
    let r = proc_stop_runtime_thread waits (lock_ok k) t.thread s in
    after_stop r (stop_loop waits lock_ok k r.1.running_threads r.1)

unfoldable pub proc_stop_all_runtime_threads :
    (ℕ → Bool) → (ℕ → Bool) → Threads → StopOutcome × Threads
unfolding stop_loop
proc_stop_all_runtime_threads waits lock_ok s = stop_loop waits lock_ok 1000 s.running_threads s

-- What a thread meets: its own procedure, whether its analysis can be allocated, how many keys there can be
-- (`PTHREAD_KEYS_MAX`), and the procedures that the store holds.
pub record ThreadEnv : Type 0 where
  pub proc : Proc
  pub malloc_ok : Bool
  pub max_keys : ℕ
  pub get_proc : ℕ → Option Proc

unfoldable pub analysis_ok : (ℕ → Option Proc) → Proc → Bool
analysis_ok get_proc p = elim (proc_analyze get_proc 257 p empty_config) [
  | out_of_fuel ↦ false
  | failed a c ↦ false
  | going a c ↦ true
]

-- `runtime_thread` up to the call of `proc_instructions_exec`, in a thread that was not begun before. Where it
-- returns early, it leaves its entry, and is neither joined nor detached.
unfoldable pub begin_runtime_thread : ThreadEnv → ℕ → Threads → Threads
unfolding analysis_ok
begin_runtime_thread env thread s =
    if not env.malloc_ok
    then s
    else (if not (analysis_ok env.get_proc env.proc)
        then s
        else (if ltb s.keys env.max_keys
            then record s { executing = thread ∷ s.executing; keys = suc s.keys }
            else s))

-- `runtime_thread` from the end of its `proc_instructions_exec` on, for a thread that got so far. What that
-- returns is not looked at.
unfoldable pub end_runtime_thread : ℕ → Threads → Threads
unfolding remove_thread join_thread is_listed
end_runtime_thread thread s =
    if is_listed thread s.executing
    then record s {
      running_threads = remove_thread thread s.running_threads;
      executing = join_thread thread s.executing;
    }
    else s

-- The answers of `proc_mutex_take`, `proc_malloc` and `pthread_create`, which gives a thread or fails.
pub record RunEnv : Type 0 where
  pub lock_ok : Bool
  pub malloc_ok : Bool
  pub created : Option ℕ

-- `crashed`: what is no address is used as one. `ran false` is `return -1`.
pub data Ran : Type 0 where
  crashed : Ran
  ran : Bool → Threads → Ran

abbrev pub start_thread : Option ℕ → Proc → Threads → Ran
start_thread none p s = ran false s
start_thread (some thread) p s = ran true (record s {
  running_threads = s.running_threads ++ record { proc = p; thread = thread } ∷ [];
  unjoined = thread ∷ s.unjoined;
})

abbrev pub run_copy : RunEnv → Option Proc → Threads → Ran
run_copy env none s = ran false s
run_copy env (some p) s = start_thread env.created p s

abbrev pub run_stored : RunEnv → Found → Threads → Ran
run_stored env null s = ran false s
run_stored env bad_address s = crashed
run_stored env (found p) s =
    if instruction_count p == 0
    then ran false s
    else (if env.malloc_ok then run_copy env (deepcopy_proc p) s else ran false s)

unfoldable pub proc_runtime_run : RunEnv → ℕ → Store → Threads → Ran × Store
proc_runtime_run env proc_slot store s =
    if leb max_proc_concurrent (length s.running_threads)
    then (ran false s, store)
    else (let r = get_proc env.lock_ok proc_slot store in (run_stored env r.0 s, r.1))
