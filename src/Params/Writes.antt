-- ===== src/Params/Writes.antt =====
-- `proc_set_param` of src/runtime/proc_runtime_instructions_common.c.
use csp_proc.Common.{ℕ, List, ◌≡◌, refl, true, false, Option, none, some, ◌⊎◌, inl, inr}
use csp_proc.Common.Int.{pos}
use csp_proc.Params.{
  Text, Param, Libparam, Operand, filled, proc_fetch_param, returned, proc_set_param, set_fetched,
  write_value, value_bytes, set_local, proc_param_scan_offset,
}

module _ {W : Type 0} (lib : Libparam W) where
  -- A read-only parameter is not written: the call fails, and nothing has happened but the fetch.
  pub proc_set_param-read_only :
      (param_name : Text) (operand : Option Operand) (value_str : Option Text) (node : ℕ) (w w' : W)
      (p : Param)
      → proc_fetch_param lib param_name node w ≡ (some p, w')
      → p.read_only ≡ true
      → (proc_set_param lib param_name operand value_str node w ≡ returned 1 w)
        ⊎ (proc_set_param lib param_name operand value_str node w ≡ returned 1 w')
  unfolding proc_set_param set_fetched
  proc_set_param-read_only param_name none none node w w' p f r = inl refl
  proc_set_param-read_only param_name (some x) none node w w' p f r = inr (rw (f, r) refl)
  proc_set_param-read_only param_name none (some s) node w w' p f r = inr (rw (f, r) refl)
  proc_set_param-read_only param_name (some x) (some s) node w w' p f r = inr (rw (f, r) refl)

  -- The operand's value goes to one element of a local parameter.
  pub proc_set_param-element :
      (param_name : Text) (x : Operand) (node : ℕ) (w w' : W) (p : Param) (i : ℕ) (value : List ℕ)
      → proc_fetch_param lib param_name node w ≡ (some p, w')
      → p.read_only ≡ false
      → p.param_node ≡ 0
      → proc_param_scan_offset lib.int_overflow param_name ≡ pos i
      → value_bytes lib p (some x) none w' ≡ filled value
      → proc_set_param lib param_name (some x) none node w ≡ returned 0 (lib.param_set p i value w')
  unfolding proc_set_param set_fetched write_value set_local
  proc_set_param-element param_name x node w w' p i value f r l o v = rw (f, r, o, v, l) refl
