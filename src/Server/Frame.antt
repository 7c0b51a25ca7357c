-- ===== src/Server/Frame.antt =====
-- The part of the store that the handlers of src/proc_server.c can change.
use csp_proc.Common.{ℕ, ◌≡◌, ◌≢◌, refl, Bool, true, false, Option, none, some, arith}
use csp_proc.Pack.{Packet}
use csp_proc.Store.{Store, Status}
use csp_proc.Server.{finish_push, finish_run}

-- `s'` agrees with `s` outside `slot`, and its mutex is free if that of `s` was.
record Touches (slot : ℕ) (s s' : Store) : Type 0 where
  elsewhere : (i : ℕ) → i ≢ slot → s'.procs i ≡ s.procs i
  released : s.held ≡ false → s'.held ≡ false

pub finish_push_store : (packet : Packet) (r : Status × Store) → (finish_push packet r).1 ≡ r.1
unfolding finish_push
finish_push_store packet (status, s) = ground arith

pub finish_run_store :
    {Runtime : Type 0} (packet : Packet) (s : Store) (r : Option Bool × Runtime)
    → (finish_run packet s r).1.0 ≡ s
unfolding finish_run
finish_run_store packet s (none, r) = refl
finish_run_store packet s (some true, r) = refl
finish_run_store packet s (some false, r) = refl
