-- ===== src/Threads/Tests.antt =====
-- Runs of one procedure, and the theorems on threads applied to them.
use csp_proc.Common.{ℕ, zero, suc, ◌≡◌, refl, List, [], ◌∷◌, true, false, none, some, arith}
use csp_proc.Types.{noop, Proc}
use csp_proc.Pack.Copy.{deepcopy_proc, copy_loop, proc_copy_instruction, copy_payload}
use csp_proc.Store.{Store, get_proc}
use csp_proc.Threads.{
  Thread, Threads, ThreadEnv, begin_runtime_thread, is_listed, RunEnv, ran, proc_runtime_run,
  proc_stop_all_runtime_threads,
}
use csp_proc.Threads.Valid.{IsValid, IsFresh, run, stop_all, Reach, start, later, Reach-IsValid}
use csp_proc.Threads.Full.{Unattended, Unattended-stays}

abbrev idle : Proc
idle = record { instructions = record { node = 0; payload = noop } ∷ [] }

abbrev store : Store
store = record { procs = λ i. idle; held = false }

abbrev nothing_runs : Threads
nothing_runs = record { running_threads = []; unjoined = []; executing = []; keys = 0 }

abbrev one_runs : Threads
one_runs = record {
  running_threads = record { proc = idle; thread = 5 } ∷ [];
  unjoined = 5 ∷ [];
  executing = [];
  keys = 0;
}

abbrev gives_five : RunEnv
gives_five = record { lock_ok = true; malloc_ok = true; created = some 5 }

abbrev keyless : ThreadEnv
keyless = record { proc = idle; malloc_ok = true; max_keys = 0; get_proc = λ i. none }

started : (proc_runtime_run gives_five 3 store nothing_runs).0 ≡ ran true one_runs
unfolding proc_runtime_run get_proc deepcopy_proc copy_loop proc_copy_instruction copy_payload
started = refl

nothing_listed : IsFresh gives_five nothing_runs
unfolding is_listed
nothing_listed n e = refl

run_and_stop :
    Reach nothing_runs (proc_stop_all_runtime_threads (λ i. false) (λ i. true) one_runs).1
run_and_stop =
    later (later start (run gives_five 3 store true nothing_listed started))
      (stop_all (λ i. false) (λ i. true))

nothing_runs-IsValid : IsValid nothing_runs
nothing_runs-IsValid = (omega arith, tt, tt)

Reach-IsValid_example : IsValid (proc_stop_all_runtime_threads (λ i. false) (λ i. true) one_runs).1
Reach-IsValid_example = Reach-IsValid run_and_stop nothing_runs-IsValid

abbrev threads : ℕ → List Thread
threads zero = []
threads (suc k) = record { proc = idle; thread = k } ∷ threads k

abbrev sixteen : Threads
sixteen = record { running_threads = threads 16; unjoined = []; executing = []; keys = 0 }

Unattended-stays_example : begin_runtime_thread keyless 3 sixteen ≡ sixteen
Unattended-stays_example =
    Unattended-stays {max_keys = 0} {s = sixteen} (omega arith) (omega arith) refl
      (Unattended.begin keyless 3 refl Unattended.start)
