-- ===== src/Server/Startup.antt =====
-- `proc_server_init` of src/proc_server.c, and a node's start with the store of src/store/proc_store_dynamic.c and the
-- runtime of src/runtime/proc_runtime_POSIX.c or proc_runtime_FreeRTOS.c. `none` is undefined behaviour.
use csp_proc.Common.{ℕ, ◌≡◌, refl, Bool, true, false, ◌&&◌, Option, none, some, if◌then◌else◌}
use csp_proc.Common.Int.{ℤ, pos, negsuc}
use mathlib.Core.Option
use csp_proc.Mutex.{Handle, no_handle, handle, proc_mutex_create}
use csp_proc.Store.{initial_store, Status, returned, minus_one, mutex_err}
use csp_proc.Store.Dynamic
use csp_proc.Store.Dynamic.{Dynamic}
use csp_proc.Store.Refinement.{initialised}

-- An initialiser: its code, and the state that it leaves.
abbrev pub Init : Type 0 → Type 0
Init W = W → Option (ℤ × W)

module _ {W : Type 0} where
  -- `if (ret != 0) return ret`, and what comes next.
  unfoldable pub and_then : Option (ℤ × W) → Init W → Option (ℤ × W)
  and_then none next = none
  and_then (some (pos ℕ.zero, w)) next = next w
  and_then (some (pos (ℕ.suc n), w)) next = some (pos (ℕ.suc n), w)
  and_then (some (negsuc n, w)) next = some (negsuc n, w)

  -- A weak symbol: nothing is called where it is not defined.
  abbrev pub call_weak : Option (Init W) → Init W
  call_weak none w = some (pos 0, w)
  call_weak (some f) w = f w

  unfoldable pub proc_server_init : Option (Init W) → Option (Init W) → Init W
  proc_server_init proc_store_init proc_runtime_init w =
      and_then (call_weak proc_store_init w)
        λ w'. and_then (call_weak proc_runtime_init w') λ w''. some (pos 0, w'')

-- The store of a node, and `running_threads_mutex` or `running_tasks_mutex`.
pub record Node : Type 0 where
  pub store : Dynamic
  pub running_mutex : Handle

-- What the environment answers while a node starts: for the store, whether there is memory for a mutex,
-- whether it can be initialised, and whether there is memory for the array; for the runtime, whether its
-- mutex can be initialised.
pub record StartEnv : Type 0 where
  pub malloc_ok : Bool
  pub mutex_ok : Bool
  pub calloc_ok : Bool
  pub runtime_mutex_ok : Bool

abbrev code_of : Status → ℤ
code_of (returned n) = pos n
code_of minus_one = negsuc 0
code_of mutex_err = pos 1

abbrev store_code : Node → Status × Dynamic → ℤ × Node
store_code node (s, d) = (code_of s, record node { store = d })

-- `proc_store_init` of the dynamic store.
unfoldable pub start_store : StartEnv → Init Node
start_store env node =
    Option.map (store_code node)
      (Dynamic.proc_store_init env.malloc_ok env.mutex_ok env.calloc_ok node.store)

unfoldable pub proc_runtime_init : StartEnv → Init Node
proc_runtime_init env node =
    if env.runtime_mutex_ok
    then some (pos 0, record node { running_mutex = handle false })
    else some (negsuc 0, record node { running_mutex = no_handle })

-- The initialisation of a node, whatever it held before. If there is memory for the mutex, it returns 0
-- exactly when everything that it asks for is given, and -1 else; when the store is given what it
-- asks for, its state is then the static store's initial one, so that procedures of an earlier start are lost.
-- Without memory for the mutex it is undefined.
pub proc_server_init-starts :
    (malloc_ok mutex_ok calloc_ok runtime_mutex_ok : Bool) (node : Node)
    → let env : StartEnv = record {
      malloc_ok = malloc_ok;
      mutex_ok = mutex_ok;
      calloc_ok = calloc_ok;
      runtime_mutex_ok = runtime_mutex_ok;
    } in
      let result = proc_server_init (some (start_store env)) (some (proc_runtime_init env)) node in
      (Option.map (λ r. r.0) result ≡ (
        if malloc_ok
        then some (if mutex_ok && calloc_ok && runtime_mutex_ok then pos 0 else negsuc 0)
        else none))
      × ((if mutex_ok && calloc_ok then Option.map (λ r. r.1.store) result else none)
          ≡ (if malloc_ok && mutex_ok && calloc_ok then some (initialised initial_store) else none))
unfolding proc_server_init and_then start_store proc_runtime_init proc_mutex_create
    Dynamic.proc_store_init
proc_server_init-starts false true true ok node = (refl, refl)
proc_server_init-starts false true false ok node = (refl, refl)
proc_server_init-starts false false calloc_ok ok node = (refl, refl)
proc_server_init-starts true true true true node = (refl, refl)
proc_server_init-starts true true true false node = (refl, refl)
proc_server_init-starts true true false ok node = (refl, refl)
proc_server_init-starts true false calloc_ok ok node = (refl, refl)
