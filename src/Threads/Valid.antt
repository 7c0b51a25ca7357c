-- ===== src/Threads/Valid.antt =====
-- The entries of `running_threads` of src/runtime/proc_runtime_POSIX.c over any sequence of runs, beginnings, ends
-- and stops of threads.
use csp_proc.Common.{
  ℕ, zero, suc, ◌≤◌, ◌<◌, List, [], ◌∷◌, ◌++◌, length, Bool, true, false, Option, none, some, leb,
  ◌==◌, ◌≡◌, refl, sym, subst, All, All-append, length-append, arith, Bool-cases, inl, inr,
}
use csp_proc.Types.{Proc, instruction_count}
use csp_proc.Store.{Store, Found, null, found, bad_address, get_proc}
use csp_proc.Pack.Copy.{deepcopy_proc}
use csp_proc.Threads.{
  max_proc_concurrent, Thread, Threads, remove_thread, is_running, proc_stop_runtime_thread,
  stop_loop, proc_stop_all_runtime_threads, ThreadEnv, begin_runtime_thread, end_runtime_thread,
  is_listed, StopOutcome, result, hangs, after_stop, RunEnv, ran, start_thread, run_copy,
  run_stored, proc_runtime_run,
}
use csp_proc.Threads.Entries.{
  Misses, Distinct, remove_thread-All, remove_thread-Distinct, remove_thread-Misses,
  remove_thread_le, listed_after_join,
}

-- At most sixteen entries, each of a thread of its own, which was not joined.
abbrev pub IsValid : Threads → Type 0
IsValid s =
    (length s.running_threads ≤ max_proc_concurrent)
    × Distinct s.running_threads
    × All (λ t. is_listed t.thread s.unjoined ≡ true) s.running_threads

pub proc_stop_runtime_thread-IsValid :
    (waits : ℕ → Bool) (lock_ok : Bool) (n : ℕ) (s : Threads)
    → IsValid s
    → IsValid (proc_stop_runtime_thread waits lock_ok n s).1
unfolding proc_stop_runtime_thread
proc_stop_runtime_thread-IsValid waits false n s v = v
proc_stop_runtime_thread-IsValid waits true n s v =
    elim (Bool-cases (is_running n s.running_threads)) [
      | inl e ↦ elim (Bool-cases (waits n)) [
        | inl w ↦ rw (e, w) v
        | inr w ↦
            rw (e, w)
              (
                omega (arith, v.0, remove_thread_le n s.running_threads),
                remove_thread-Distinct n s.running_threads v.1,
                listed_after_join n s.unjoined (remove_thread n s.running_threads)
                    (remove_thread-Misses n s.running_threads v.1)
                    (remove_thread-All _ n s.running_threads v.2),
              )
      ]
      | inr e ↦ rw e v
    ]

after_stop-IsValid :
    (r rest : StopOutcome × Threads) → IsValid r.1 → IsValid rest.1 → IsValid (after_stop r rest).1
after_stop-IsValid (hangs, s) rest v w = v
after_stop-IsValid (result false, s) rest v w = v
after_stop-IsValid (result true, s) rest v w = w

stop_loop-IsValid :
    (waits lock_ok : ℕ → Bool) (k : ℕ) (ts : List Thread) (s : Threads)
    → IsValid s
    → IsValid (stop_loop waits lock_ok k ts s).1
unfolding stop_loop
stop_loop-IsValid waits lock_ok k [] s v = v
stop_loop-IsValid waits lock_ok zero (t ∷ ts) s v = v
stop_loop-IsValid waits lock_ok (suc k) (t ∷ ts) s v =
    let w = proc_stop_runtime_thread-IsValid waits (lock_ok k) t.thread s v in
    after_stop-IsValid (proc_stop_runtime_thread waits (lock_ok k) t.thread s) _ w
      (stop_loop-IsValid waits lock_ok k _ _ w)

-- A thread that begins does not touch the array.
pub begin_runtime_thread-entries :
    (env : ThreadEnv) (n : ℕ) (s : Threads)
    → ((begin_runtime_thread env n s).running_threads ≡ s.running_threads)
      × ((begin_runtime_thread env n s).unjoined ≡ s.unjoined)
unfolding begin_runtime_thread
begin_runtime_thread-entries env n s = (ground arith, ground arith)

begin_runtime_thread-IsValid :
    (env : ThreadEnv) (n : ℕ) (s : Threads) → IsValid s → IsValid (begin_runtime_thread env n s)
begin_runtime_thread-IsValid env n s v =
    rw ((begin_runtime_thread-entries env n s).0, (begin_runtime_thread-entries env n s).1) v

end_runtime_thread-IsValid : (n : ℕ) (s : Threads) → IsValid s → IsValid (end_runtime_thread n s)
unfolding end_runtime_thread
end_runtime_thread-IsValid n s v = elim (Bool-cases (is_listed n s.executing)) [
  | inl e ↦ rw e (
    omega (arith, v.0, remove_thread_le n s.running_threads),
    remove_thread-Distinct n s.running_threads v.1,
    remove_thread-All _ n s.running_threads v.2,
  )
  | inr e ↦ rw e v
]

-- `pthread_create` does not give a thread that the system still keeps.
abbrev pub IsFresh : RunEnv → Threads → Type 0
IsFresh env s = (n : ℕ) → env.created ≡ some n → is_listed n s.unjoined ≡ false

Misses-new :
    (n : ℕ) (us : List ℕ) (ts : List Thread)
    → is_listed n us ≡ false
    → All (λ t. is_listed t.thread us ≡ true) ts
    → Misses n ts
Misses-new n us [] f h = tt
Misses-new n us (t ∷ ts) f h = (λ e. absurd (let g = rw e at h.0 in cc), Misses-new n us ts f h.1)

add-Distinct :
    (x : Thread) (ts : List Thread) → Misses x.thread ts → Distinct ts → Distinct (ts ++ x ∷ [])
add-Distinct x [] m d = (tt, tt)
add-Distinct x (t ∷ ts) m d =
    (All-append _ ts (x ∷ []) d.0 (λ e. m.0 (sym e), tt), add-Distinct x ts m.1 d.1)

still_listed :
    (n : ℕ) (us : List ℕ) (ts : List Thread)
    → All (λ t. is_listed t.thread us ≡ true) ts
    → All (λ t. is_listed t.thread (n ∷ us) ≡ true) ts
unfolding is_listed
still_listed n us [] h = tt
still_listed n us (t ∷ ts) h = (ground (arith, h.0), still_listed n us ts h.1)

is_listed-head : (n : ℕ) (us : List ℕ) → is_listed n (n ∷ us) ≡ true
unfolding is_listed
is_listed-head n us = ground (arith)

pub ran_same : {b b' : Bool} {s s' : Threads} → ran b s ≡ ran b' s' → s ≡ s'
ran_same e = cc

start_thread-IsValid :
    (created : Option ℕ) (p : Proc) (s s' : Threads) (ok : Bool)
    → IsValid s
    → length s.running_threads < max_proc_concurrent
    → ((n : ℕ) → created ≡ some n → is_listed n s.unjoined ≡ false)
    → start_thread created p s ≡ ran ok s'
    → IsValid s'
start_thread-IsValid none p s s' ok v room f e = subst IsValid (ran_same e) v
start_thread-IsValid (some n) p s s' ok v room f e =
    let ts = s.running_threads in
    let x : Thread = record { proc = p; thread = n } in
    subst IsValid (ran_same e) (
      omega (arith, room, length-append ts (x ∷ [])),
      add-Distinct x ts (Misses-new n s.unjoined ts (f n refl) v.2) v.1,
      All-append _ ts (x ∷ []) (still_listed n s.unjoined ts v.2) (is_listed-head n s.unjoined, tt),
    )

run_copy-IsValid :
    (env : RunEnv) (o : Option Proc) (s s' : Threads) (ok : Bool)
    → IsValid s
    → length s.running_threads < max_proc_concurrent
    → IsFresh env s
    → run_copy env o s ≡ ran ok s'
    → IsValid s'
run_copy-IsValid env none s s' ok v room f e = subst IsValid (ran_same e) v
run_copy-IsValid env (some p) s s' ok v room f e =
    start_thread-IsValid env.created p s s' ok v room f e

run_stored-IsValid :
    (env : RunEnv) (o : Found) (s s' : Threads) (ok : Bool)
    → IsValid s
    → length s.running_threads < max_proc_concurrent
    → IsFresh env s
    → run_stored env o s ≡ ran ok s'
    → IsValid s'
run_stored-IsValid env null s s' ok v room f e = subst IsValid (ran_same e) v
run_stored-IsValid env bad_address s s' ok v room f e = absurd cc
run_stored-IsValid env (found p) s s' ok v room f e = elim (Bool-cases (instruction_count p == 0)) [
  | inl z ↦ subst IsValid (ran_same (rw z at e)) v
  | inr z ↦ elim (Bool-cases env.malloc_ok) [
    | inl m ↦ run_copy-IsValid env (deepcopy_proc p) s s' ok v room f (rw (z, m) at e)
    | inr m ↦ subst IsValid (ran_same (rw (z, m) at e)) v
  ]
]

-- What can happen to the threads: a request to run a slot, a thread that begins, a thread that comes to its
-- end, a stop of one, as each round of the loop makes it, and a stop of all with nothing between its rounds.
-- A stop that hangs counts with the state that it has reached.
pub data Step (s : Threads) : Threads → Type 0 where
  run :
      (env : RunEnv) (slot : ℕ) (store : Store) (ok : Bool) {s' : Threads}
      → IsFresh env s
      → (proc_runtime_run env slot store s).0 ≡ ran ok s'
      → Step s s'
  begin : (env : ThreadEnv) (thread : ℕ) → Step s (begin_runtime_thread env thread s)
  finish : (thread : ℕ) → Step s (end_runtime_thread thread s)
  stop :
      (waits : ℕ → Bool) (lock_ok : Bool) (thread : ℕ)
      → Step s (proc_stop_runtime_thread waits lock_ok thread s).1
  stop_all : (waits lock_ok : ℕ → Bool) → Step s (proc_stop_all_runtime_threads waits lock_ok s).1

pub data Reach (s : Threads) : Threads → Type 0 where
  start : Reach s s
  later : {t u : Threads} → Reach s t → Step t u → Reach s u

leb-false : (a b : ℕ) → leb a b ≡ false → b < a
leb-false a b e = ground arith

Step-IsValid : {s s' : Threads} → Step s s' → IsValid s → IsValid s'
unfolding proc_runtime_run proc_stop_all_runtime_threads
Step-IsValid {s} {s'} (run env slot store ok f e) v =
    elim (Bool-cases (leb max_proc_concurrent (length s.running_threads))) [
      | inl full ↦ subst IsValid (ran_same (rw full at e)) v
      | inr room ↦
          run_stored-IsValid env (get_proc env.lock_ok slot store).0 s s' ok v (leb-false _ _ room)
            f (rw room at e)
    ]
Step-IsValid {s} {s'} (begin env thread) v = begin_runtime_thread-IsValid env thread s v
Step-IsValid {s} {s'} (finish thread) v = end_runtime_thread-IsValid thread s v
Step-IsValid {s} {s'} (stop waits lock_ok thread) v =
    proc_stop_runtime_thread-IsValid waits lock_ok thread s v
Step-IsValid {s} {s'} (stop_all waits lock_ok) v =
    stop_loop-IsValid waits lock_ok 1000 s.running_threads s v

-- After any sequence of runs, beginnings and ends of threads, and stops, from a valid state, there are at most sixteen
-- entries, no two of them of one thread, and none of a thread that was already joined; `pthread_create`
-- must not give a thread that was created and not joined.
pub Reach-IsValid : {s s' : Threads} → Reach s s' → IsValid s → IsValid s'
Reach-IsValid start v = v
Reach-IsValid (later r m) v = Step-IsValid m (Reach-IsValid r v)
