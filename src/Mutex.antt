-- ===== src/Mutex.antt =====
-- src/platform/proc_mutex_POSIX.c and proc_mutex_FreeRTOS.c, which differ in the system's calls. What these answer
-- is decided outside; `none` is undefined behaviour.
use csp_proc.Common.{◌≡◌, ◌≢◌, refl, Bool, true, false, Option, none, some, if◌then◌else◌}
use csp_proc.Common.Int.{ℤ, pos, negsuc}

-- What a mutex is to its users: whether it exists, and whether it is held.
pub data Handle : Type 0 where
  no_handle : Handle
  handle : Bool → Handle

-- `proc_malloc`, which is not tested, and `pthread_mutex_init` or `xSemaphoreCreateMutex`.
unfoldable pub proc_mutex_create : Bool → Bool → Option Handle
proc_mutex_create false init_ok = none
proc_mutex_create true false = some no_handle
proc_mutex_create true true = some (handle false)

-- `pthread_mutex_lock` or `xSemaphoreTake`. NULL is dereferenced.
unfoldable pub proc_mutex_take : Bool → Handle → Option (ℤ × Handle)
proc_mutex_take lock_ok no_handle = none
proc_mutex_take false (handle h) = some (negsuc 0, handle h)
proc_mutex_take true (handle h) = some (pos 0, handle true)

-- `pthread_mutex_unlock` or `xSemaphoreGive`
unfoldable pub proc_mutex_give : Bool → Handle → Option (ℤ × Handle)
proc_mutex_give unlock_ok no_handle = none
proc_mutex_give false (handle h) = some (negsuc 0, handle h)
proc_mutex_give true (handle h) = some (pos 0, handle false)

-- `proc_mutex_destroy`
unfoldable pub proc_mutex_destroy : Handle → Option Handle
proc_mutex_destroy no_handle = none
proc_mutex_destroy (handle h) = some no_handle

-- Taking a mutex that exists returns 0 and holds it, or -1 and leaves it as it was: never the 1 of
-- `PROC_MUTEX_ERR`. Then giving it, where the system lets it, frees it.
pub proc_mutex_take-codes :
    (lock_ok unlock_ok h : Bool)
    → (proc_mutex_take lock_ok (handle h)
        ≡ some (if lock_ok then (pos 0, handle true) else (negsuc 0, handle h)))
      × ((c : ℤ) × (after : Handle) × (proc_mutex_take lock_ok (handle h) ≡ some (c, after))
          × (c ≢ pos 1)
          × (proc_mutex_give unlock_ok after
              ≡ some (if unlock_ok then (pos 0, handle false) else (negsuc 0, after))))
unfolding proc_mutex_take proc_mutex_give
proc_mutex_take-codes true true h = (refl, (pos 0, handle true, refl, (λ e. cc), refl))
proc_mutex_take-codes true false h = (refl, (pos 0, handle true, refl, (λ e. cc), refl))
proc_mutex_take-codes false true h = (refl, (negsuc 0, handle h, refl, (λ e. cc), refl))
proc_mutex_take-codes false false h = (refl, (negsuc 0, handle h, refl, (λ e. cc), refl))
