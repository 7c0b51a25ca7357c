-- ===== src/Threads/Full.antt =====
-- src/runtime/proc_runtime_POSIX.c: stopping all threads, and the state in which no procedure runs any more.
use csp_proc.Common.{
  ℕ, ◌≤◌, List, [], ◌∷◌, length, Bool, true, false, ◌||◌, leb, ◌≡◌, refl, sym, arith, le→ltb,
}
use csp_proc.Store.{Store}
use csp_proc.Threads.{
  max_proc_concurrent, Thread, Threads, is_listed, StopOutcome, result, hangs, ThreadEnv,
  begin_runtime_thread, end_runtime_thread, RunEnv, ran, proc_runtime_run,
}
use csp_proc.Threads.Valid.{ran_same}

-- Whether the thread of one of the entries comes to wait for the mutex.
pub any_waits : (ℕ → Bool) → List Thread → Bool
any_waits waits [] = false
any_waits waits (t ∷ ts) = waits t.thread || any_waits waits ts

-- What stopping all comes to.
abbrev pub Stops : Bool → StopOutcome × Threads → Type 0
Stops true r = r.0 ≡ hangs
Stops false r = (r.0 ≡ result true) × (r.1.running_threads ≡ [])

-- Runs, beginnings and ends of threads, without a stop, where the system gives `max_keys` keys.
pub data Unattended (max_keys : ℕ) (s : Threads) : Threads → Type 0 where
  start : Unattended max_keys s s
  run :
      (env : RunEnv) (slot : ℕ) (store : Store) (ok : Bool) {t u : Threads}
      → Unattended max_keys s t
      → (proc_runtime_run env slot store t).0 ≡ ran ok u
      → Unattended max_keys s u
  begin :
      (env : ThreadEnv) (thread : ℕ) {t : Threads}
      → env.max_keys ≡ max_keys
      → Unattended max_keys s t
      → Unattended max_keys s (begin_runtime_thread env thread t)
  finish :
      (thread : ℕ) {t : Threads}
      → Unattended max_keys s t
      → Unattended max_keys s (end_runtime_thread thread t)

no_key :
    (env : ThreadEnv) (n : ℕ) (s : Threads)
    → env.max_keys ≤ s.keys
    → begin_runtime_thread env n s ≡ s
unfolding begin_runtime_thread
no_key env n s h = grind (arith, le→ltb s.keys env.max_keys h)

none_ends : (n : ℕ) (s : Threads) → s.executing ≡ [] → end_runtime_thread n s ≡ s
unfolding end_runtime_thread is_listed
none_ends n s e = rw (end_runtime_thread, e) refl

-- Once every key is used up, all sixteen entries are taken, and no thread is left that executes under a
-- key, nothing changes any more: no thread that begins or ends gives up its entry, and no request runs a
-- procedure, until the threads are stopped.
pub Unattended-stays :
    {max_keys : ℕ} {s t : Threads}
    → max_proc_concurrent ≤ length s.running_threads
    → max_keys ≤ s.keys
    → s.executing ≡ []
    → Unattended max_keys s t
    → t ≡ s
unfolding proc_runtime_run
Unattended-stays {s = s} full used idle start = refl
Unattended-stays {s = s} full used idle (run env slot store ok u e) =
    let same = Unattended-stays {s = s} full used idle u in
    let closed : leb max_proc_concurrent (length s.running_threads) ≡ true = ground arith in
    sym (ran_same (rw (same, closed) at e))
Unattended-stays {s = s} full used idle (begin env thread k u) =
    let same = Unattended-stays {s = s} full used idle u in
    rw same (no_key env thread s (rw k used))
Unattended-stays {s = s} full used idle (finish thread u) =
    let same = Unattended-stays {s = s} full used idle u in rw same (none_ends thread s idle)
