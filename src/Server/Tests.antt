-- ===== src/Server/Tests.antt =====
-- Runs of src/proc_server.c on single packets, and the server's theorems applied to them.
use csp_proc.Common.{ℕ, [], ◌∷◌, true, false, Option, none}
use csp_proc.Pack.{Packet}
use csp_proc.Store.{Store, empty_proc}
use csp_proc.Server.{Env, Run}

abbrev fresh : Store
fresh = record { procs = λ i. empty_proc; held = false }

abbrev all_ok : Env
all_ok = record { lock_ok = true; malloc_ok = true }

abbrev no_runtime : Option (Run ℕ)
no_runtime = none

-- A request to store one no-op in slot 9.
abbrev push_noop : Packet
push_noop = record { data_bytes = 132 ∷ 9 ∷ 1 ∷ 0 ∷ 0 ∷ 6 ∷ []; packet_length = 6 }
