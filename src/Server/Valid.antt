-- ===== src/Server/Valid.antt =====
-- The procedures in the store while src/proc_server.c serves packets.
use csp_proc.Common.{ℕ}
use csp_proc.Types.{IsValidProc}
use csp_proc.Store.{Store}

pub record IsValidStore (s : Store) : Type 0 where
  pub at : (i : ℕ) → IsValidProc (s.procs i)
