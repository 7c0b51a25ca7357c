-- ===== src/Client/Tests.antt =====
-- The client's theorems applied to a node that stores a procedure of one no-op.
use csp_proc.Common.{
  ℕ, zero, suc, ◌+◌, ◌≤◌, ◌≡◌, refl, List, [], ◌∷◌, ◌++◌, length, false, Option, none, some, arith,
}
use csp_proc.Common.Bytes.{bytes_of}
use csp_proc.Types.{noop, Instruction, Proc, IsValidProc}
use csp_proc.Pack.{unpacked}
use csp_proc.Pack.Format.{encode_payload, encode_instruction, encode_all, encode_proc}
use csp_proc.Store.{Store, empty_proc}
use csp_proc.Store.Map.{view, assign}
use csp_proc.Store.Slots.{Lists}
use csp_proc.Server.{Run}
use csp_proc.Client.{error_bit, proc_push_request, proc_pull_request, proc_slots_request}
use csp_proc.Client.EndToEnd.{
  connected, buffer, serving, pull-push, proc_push_request-stores, proc_push_request-oversize,
}
use csp_proc.Common.{true, inr}
use csp_proc.Threads.{Threads, RunEnv}
use csp_proc.Client.{proc_run_request}
use csp_proc.Client.Runs.{
  posix_run, gives, with_thread, proc_run_request-starts, proc_run_request-refused,
}
use csp_proc.Client.Slots.{proc_slots_request-all, proc_slots_request-full}

abbrev idle : Instruction
idle = record { node = 0; payload = noop }

abbrev one_step : Proc
one_step = record { instructions = idle ∷ [] }

abbrev three_steps : Proc
three_steps = record { instructions = idle ∷ idle ∷ idle ∷ [] }

one_step-IsValidProc : IsValidProc one_step
one_step-IsValidProc = (omega arith, ((omega arith, tt), tt))

one_step_format : encode_proc one_step ≡ 1 ∷ 0 ∷ 0 ∷ 6 ∷ []
unfolding encode_proc encode_all encode_instruction encode_payload bytes_of
one_step_format = refl

three_steps_format : encode_proc three_steps ≡ 3 ∷ 0 ∷ 0 ∷ 6 ∷ 0 ∷ 0 ∷ 6 ∷ 0 ∷ 0 ∷ 6 ∷ []
unfolding encode_proc encode_all encode_instruction encode_payload bytes_of
three_steps_format = refl

one_step_fits : length (encode_proc one_step) + 2 ≤ 8
one_step_fits = rw one_step_format (omega arith)

abbrev no_runtime : Option (Run ℕ)
no_runtime = none

abbrev fresh : Store
fresh = record { procs = λ i. empty_proc; held = false }

abbrev full : Store
full = record { procs = λ i. one_step; held = false }

abbrev zeros : ℕ → List ℕ
zeros zero = []
zeros (suc k) = 0 ∷ zeros k

length-zeros : (k : ℕ) → length (zeros k) ≡ k
length-zeros zero = refl
length-zeros (suc k) = omega (arith, length-zeros k)

long_enough : 255 ≤ length (zeros 300)
long_enough = omega (arith, length-zeros 300)

pull-push_example :
    let after =
      (proc_push_request
        (connected 100)
        (serving 8 no_runtime)
        8
        (some (buffer 0 0 (zeros 10) 0))
        one_step
        9
        (fresh, 0)).1 in
    let pulled =
      proc_pull_request
        (connected 100)
        (serving 8 no_runtime)
        (some (buffer 1 2 (zeros 12) 5))
        9
        after in
    (pulled.0 ≡ error_bit 0) × (pulled.1.0 ≡ some (unpacked one_step))
pull-push_example =
    pull-push 8 no_runtime one_step 9 0 0 1 2 (zeros 10) (zeros 12) 0 5 100 fresh 0
      one_step-IsValidProc (omega arith) one_step_fits refl

proc_push_request-stores_example :
    let after =
      proc_push_request
        (connected 100)
        (serving 8 no_runtime)
        8
        (some (buffer 0 0 (zeros 10) 0))
        one_step
        9
        (fresh, 0) in
    (after.0 ≡ error_bit 0)
    × ((i : ℕ) → view after.1.0 i ≡ assign (view fresh) 9 (some one_step) i)
    × (after.1.1 ≡ 0)
proc_push_request-stores_example =
    proc_push_request-stores 8 no_runtime one_step 9 0 0 (zeros 10) 0 100 fresh 0
      one_step-IsValidProc (omega arith) one_step_fits refl

proc_push_request-oversize_example :
    let after =
      proc_push_request
        (connected 100)
        (serving 8 no_runtime)
        8
        (some (buffer 0 0 (encode_proc one_step ++ zeros 10) 14))
        three_steps
        9
        (fresh, 0) in
    (after.0 ≡ error_bit 0) × (view after.1.0 9 ≡ some one_step)
proc_push_request-oversize_example =
    proc_push_request-oversize 8 no_runtime three_steps one_step 9 0 0 (zeros 10) 14 100 fresh 0
      (tt, (tt, (tt, tt))) (rw three_steps_format (omega arith)) one_step-IsValidProc (omega arith)
      (rw one_step_format (omega arith)) refl

proc_slots_request-all_example :
    (slots : List ℕ) × Lists fresh slots
    × (proc_slots_request
          (connected 100)
          (serving 8 no_runtime)
          (some (buffer 0 0 (zeros 300) 0))
          ([], 0)
          (fresh, 0)
        ≡ (error_bit 0, ((slots, length slots), (record fresh { held = false }, 0))))
proc_slots_request-all_example =
    proc_slots_request-all 8 no_runtime 0 0 (zeros 300) 0 100 ([], 0) fresh 0 4 long_enough
      (omega arith) refl

proc_slots_request-full_example :
    proc_slots_request
      (connected 100)
      (serving 8 no_runtime)
      (some (buffer 0 0 (zeros 300) 0))
      ([], 0)
      (full, 0)
    ≡ (error_bit 0, (([], 0), (record full { held = false }, 0)))
proc_slots_request-full_example =
    proc_slots_request-full 8 no_runtime 0 0 (zeros 300) 0 100 ([], 0) full 0 long_enough
      (λ slot. refl)

abbrev nothing_runs : Threads
nothing_runs = record { running_threads = []; unjoined = []; executing = []; keys = 0 }

proc_run_request-starts_example :
    proc_run_request
      (connected 100)
      (serving 8 (some (posix_run (gives 5))))
      (some (buffer 0 0 (zeros 10) 0))
      9
      (full, nothing_runs)
    ≡ (error_bit 0, (full, with_thread 5 one_step nothing_runs))
proc_run_request-starts_example =
    proc_run_request-starts 8 5 9 0 0 (zeros 10) 0 100 one_step full nothing_runs
      one_step-IsValidProc refl (omega arith)

abbrev no_thread : RunEnv
no_thread = record { lock_ok = true; malloc_ok = true; created = none }

proc_run_request-refused_example :
    proc_run_request
      (connected 100)
      (serving 8 (some (posix_run no_thread)))
      (some (buffer 0 0 (zeros 10) 0))
      9
      (full, nothing_runs)
    ≡ (error_bit 64, (full, nothing_runs))
proc_run_request-refused_example =
    proc_run_request-refused 8 9 0 0 (zeros 10) 0 100 none full nothing_runs (inr (inr refl))
