-- ===== src/Client/Runs.antt =====
-- `proc_run_request` against a serving node whose `proc_runtime_run` is that of
-- src/runtime/proc_runtime_POSIX.c.
use csp_proc.Common.{
  ℕ, ◌≤◌, ◌<◌, ◌≡◌, refl, ◌⊎◌, inl, inr, List, [], ◌∷◌, ◌++◌, length, leb, Bool, true, false,
  Option, none, some, ◌==◌, arith,
}
use csp_proc.Types.{Proc, IsValidProc, instruction_count}
use csp_proc.Pack.Format.{All-valid-known}
use csp_proc.Pack.Copy.{deepcopy_proc_iff}
use csp_proc.Store.{Store}
use csp_proc.Store.Map.{view, entry, get_proc-view}
use csp_proc.Server.{Run, proc_serve, proc_serve_run_request, success_response, error_response}
use csp_proc.Client.{error_bit, slot_request, read_loop, proc_transaction, proc_run_request}
use csp_proc.Client.EndToEnd.{buffer, connected, serving}
use csp_proc.Threads.{max_proc_concurrent, Threads, RunEnv, Ran, crashed, ran, proc_runtime_run}

-- The run handler of a node with POSIX threads.
abbrev answer_of : Threads → Ran → Option Bool × Threads
answer_of r crashed = (none, r)
answer_of r (ran ok u) = (some ok, u)

abbrev pub posix_run : RunEnv → Run Threads
posix_run env slot s r = answer_of r (proc_runtime_run env slot s r).0

-- The threads after one more was created for `p`.
abbrev pub with_thread : ℕ → Proc → Threads → Threads
with_thread thread p r = record r {
  running_threads = r.running_threads ++ record { proc = p; thread = thread } ∷ [];
  unjoined = thread ∷ r.unjoined;
}

-- An environment in which the mutex can be taken, memory is left, and a thread is given.
abbrev pub gives : ℕ → RunEnv
gives thread = record { lock_ok = true; malloc_ok = true; created = some thread }

entry-some : (p q : Proc) → entry p ≡ some q → (instruction_count q == 0) ≡ false
entry-some p q e = ground arith

proc_runtime_run-starts :
    (thread slot : ℕ) (p : Proc) (s : Store) (r : Threads)
    → IsValidProc p
    → view s slot ≡ some p
    → length r.running_threads < max_proc_concurrent
    → (proc_runtime_run (gives thread) slot s r).0 ≡ ran true (with_thread thread p r)
unfolding proc_runtime_run
proc_runtime_run-starts thread slot p s r v stored room =
    let closed : leb max_proc_concurrent (length r.running_threads) ≡ false = ground arith in
    let copied = (deepcopy_proc_iff p p).1 (All-valid-known p.instructions v.1, refl) in
    rw closed (rw (get_proc-view slot s) (rw stored (rw (entry-some _ p stored) (rw copied refl))))

-- What keeps a node from running a slot's procedure: the slot is free, sixteen procedures run, or the system
-- gives no thread.
abbrev pub IsRefused : Option ℕ → ℕ → Store → Threads → Type 0
IsRefused created slot s r =
    (view s slot ≡ none) ⊎ ((max_proc_concurrent ≤ length r.running_threads) ⊎ (created ≡ none))

proc_runtime_run-refused :
    (created : Option ℕ) (slot : ℕ) (s : Store) (r : Threads)
    → IsRefused created slot s r
    → (proc_runtime_run (record { lock_ok = true; malloc_ok = true; created = created }) slot s r).0
      ≡ ran false r
unfolding proc_runtime_run
proc_runtime_run-refused created slot s r (inl empty) =
    rw (get_proc-view slot s) (rw empty (ground arith))
proc_runtime_run-refused created slot s r (inr (inl full)) = ground arith
proc_runtime_run-refused created slot s r (inr (inr c)) =
    rw (c, get_proc-view slot s) (ground arith)

-- Where the slot of a node holds a valid procedure, fewer than sixteen run, and the mutex, the memory and a
-- thread are given: `proc_run_request` for the slot returns 0, and the node has one more thread, which has
-- the slot's procedure; its procedures and the other threads are as before.
pub proc_run_request-starts :
    (n thread slot a b : ℕ) (rest : List ℕ) (used t : ℕ) (p : Proc) (s : Store) (r : Threads)
    → IsValidProc p
    → view s slot ≡ some p
    → length r.running_threads < max_proc_concurrent
    → proc_run_request
        (connected t)
        (serving n (some (posix_run (gives thread))))
        (some (buffer a b rest used))
        slot
        (s, r)
      ≡ (error_bit 0, (s, with_thread thread p r))
unfolding proc_run_request slot_request proc_transaction read_loop serving proc_serve
    proc_serve_run_request success_response
proc_run_request-starts n thread slot a b rest used t p s r v stored room =
    rw (proc_runtime_run-starts thread slot p s r v stored room)

-- Where the slot of a node is free, or sixteen of its threads run, or the system gives no thread, and the mutex
-- and the memory are given: `proc_run_request` gets the error bit, and nothing changes on the node.
pub proc_run_request-refused :
    (n slot a b : ℕ) (rest : List ℕ) (used t : ℕ) (created : Option ℕ) (s : Store) (r : Threads)
    → IsRefused created slot s r
    → let env : RunEnv = record { lock_ok = true; malloc_ok = true; created = created } in
      proc_run_request
        (connected t)
        (serving n (some (posix_run env)))
        (some (buffer a b rest used))
        slot
        (s, r)
      ≡ (error_bit 64, (s, r))
unfolding proc_run_request slot_request proc_transaction read_loop serving proc_serve
    proc_serve_run_request error_response
proc_run_request-refused n slot a b rest used t created s r refused =
    rw (proc_runtime_run-refused created slot s r refused)
