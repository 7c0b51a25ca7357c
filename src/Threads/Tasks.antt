-- ===== src/Threads/Tasks.antt =====
-- src/runtime/proc_runtime_FreeRTOS.c: the same bookkeeping for FreeRTOS tasks, where it differs. An entry is
-- a procedure and a task handle, `thread` of `Thread`; `address` is where the array `running_tasks` lies.
use csp_proc.Common.{
  ℕ, zero, suc, List, [], ◌∷◌, ◌++◌, length, Bool, true, false, not, Option, none, some, ltb, leb,
  ◌==◌, if◌then◌else◌, ◌≡◌, refl, ap, ◌<◌, arith, Bool-cases, inl, inr, ne→==_false,
}
use csp_proc.Types.{Proc, instruction_count}
use csp_proc.Store.{Store, Found, null, found, bad_address, get_proc}
use csp_proc.Pack.Copy.{deepcopy_proc}
use csp_proc.Threads.{max_proc_concurrent, Thread, remove_thread, analysis_ok}
use csp_proc.Threads.Entries.{Misses}

pub record Tasks : Type 0 where
  pub running_tasks : List Thread
  pub address : ℕ

-- `vTaskDelete` and the loop in `proc_stop_runtime_task`; `false` is `return -1`.
unfoldable pub proc_stop_runtime_task : Bool → ℕ → Tasks → Bool × Tasks
unfolding remove_thread
proc_stop_runtime_task false task_handle s = (false, s)
proc_stop_runtime_task true task_handle s =
    (true, record s { running_tasks = remove_thread task_handle s.running_tasks })

-- The loop with `k` rounds left. What it passes as a handle is the address of the first entry.
unfoldable pub stop_tasks_loop : (ℕ → Bool) → ℕ → List Thread → Tasks → Bool × Tasks
unfolding proc_stop_runtime_task
stop_tasks_loop lock_ok k [] s = (ltb 0 k, s)
stop_tasks_loop lock_ok zero (t ∷ ts) s = (false, s)
stop_tasks_loop lock_ok (suc k) (t ∷ ts) s =
    let r = proc_stop_runtime_task (lock_ok k) s.address s in
    let rest = stop_tasks_loop lock_ok k r.1.running_tasks r.1 in if r.0 then rest else (false, r.1)

unfoldable pub proc_stop_all_runtime_tasks : (ℕ → Bool) → Tasks → Bool × Tasks
unfolding stop_tasks_loop
proc_stop_all_runtime_tasks lock_ok s = stop_tasks_loop lock_ok 1000 s.running_tasks s

pub record TaskEnv : Type 0 where
  pub lock_ok : Bool
  pub malloc_ok : Bool
  pub get_proc : ℕ → Option Proc

-- `runtime_task`, up to its end; `none`: the task function returns, which FreeRTOS does not allow. If the mutex
-- cannot be taken, the procedure is freed and its entry stays.
unfoldable pub runtime_task : TaskEnv → Thread → Tasks → Option Tasks
unfolding remove_thread analysis_ok
runtime_task env t s =
    if not env.malloc_ok
    then none
    else (if not (analysis_ok env.get_proc t.proc)
        then none
        else (if env.lock_ok
            then some (record s { running_tasks = remove_thread t.thread s.running_tasks })
            else some s))

-- The answers of `proc_mutex_take`, `proc_malloc`, `xSemaphoreTake` and `xTaskCreate`.
pub record TaskRunEnv : Type 0 where
  pub store_lock_ok : Bool
  pub malloc_ok : Bool
  pub lock_ok : Bool
  pub created : Option ℕ

pub data TaskRan : Type 0 where
  crashed : TaskRan
  ran : Bool → Tasks → TaskRan

abbrev pub start_task : Bool → Option ℕ → Proc → Tasks → TaskRan
start_task false created p s = ran false s
start_task true none p s = ran false s
start_task true (some task_handle) p s =
    ran true (record s {
      running_tasks = s.running_tasks ++ record { proc = p; thread = task_handle } ∷ [];
    })

abbrev pub run_task_copy : TaskRunEnv → Option Proc → Tasks → TaskRan
run_task_copy env none s = ran false s
run_task_copy env (some p) s = start_task env.lock_ok env.created p s

abbrev pub run_task_stored : TaskRunEnv → Found → Tasks → TaskRan
run_task_stored env null s = ran false s
run_task_stored env bad_address s = crashed
run_task_stored env (found p) s =
    if instruction_count p == 0
    then ran false s
    else (if env.malloc_ok then run_task_copy env (deepcopy_proc p) s else ran false s)

-- `proc_runtime_run` of the FreeRTOS file.
unfoldable pub run_task : TaskRunEnv → ℕ → Store → Tasks → TaskRan × Store
run_task env proc_slot store s =
    if leb max_proc_concurrent (length s.running_tasks)
    then (ran false s, store)
    else (let r = get_proc env.store_lock_ok proc_slot store in (run_task_stored env r.0 s, r.1))

remove_thread-Misses : (n : ℕ) (ts : List Thread) → Misses n ts → remove_thread n ts ≡ ts
unfolding remove_thread
remove_thread-Misses n [] m = refl
remove_thread-Misses n (t ∷ ts) m =
    rw (ne→==_false t.thread n m.0) (ap (λ us. t ∷ us) (remove_thread-Misses n ts m.1))

stops_none :
    (lock_ok : Bool) (s : Tasks)
    → Misses s.address s.running_tasks
    → proc_stop_runtime_task lock_ok s.address s ≡ (lock_ok, s)
unfolding proc_stop_runtime_task
stops_none false s m = refl
stops_none true s m =
    ap (λ us. (true, record s { running_tasks = us }))
      (remove_thread-Misses s.address s.running_tasks m)

stop_tasks_loop-stops_none :
    (lock_ok : ℕ → Bool) (k : ℕ) (us : List Thread) (s : Tasks)
    → s.running_tasks ≡ us
    → 0 < length us
    → Misses s.address s.running_tasks
    → stop_tasks_loop lock_ok k us s ≡ (false, s)
unfolding stop_tasks_loop
stop_tasks_loop-stops_none lock_ok k [] s e h m = absurd (omega arith)
stop_tasks_loop-stops_none lock_ok zero (t ∷ ts) s e h m = refl
stop_tasks_loop-stops_none lock_ok (suc k) (t ∷ ts) s e h m =
    let later = stop_tasks_loop-stops_none lock_ok k s.running_tasks s refl (rw e h) m in
    elim (Bool-cases (lock_ok k)) [
      | inl l ↦ rw (stops_none (lock_ok k) s m, l) later
      | inr l ↦ rw (stops_none (lock_ok k) s m, l) refl
    ]

-- With FreeRTOS no task is ever stopped by the request to stop them all: unless a task's handle happens to be
-- the address of the array, the call fails and every entry is left, if there was one.
pub proc_stop_all_runtime_tasks-stops_none :
    (lock_ok : ℕ → Bool) (s : Tasks)
    → 0 < length s.running_tasks
    → Misses s.address s.running_tasks
    → proc_stop_all_runtime_tasks lock_ok s ≡ (false, s)
unfolding proc_stop_all_runtime_tasks
proc_stop_all_runtime_tasks-stops_none lock_ok s h m =
    stop_tasks_loop-stops_none lock_ok 1000 s.running_tasks s refl h m
