-- ===== src/Params.antt =====
-- src/runtime/proc_runtime_instructions_common.c, its first half: parameters as operands, and how a
-- parameter is fetched and set. libparam, the interface list of libcsp and the operations on `double` are
-- outside: they are fields of `Libparam` and `Doubles`. The values that `param_get` gives are bit patterns.
-- A node has at most nine interfaces: the code writes a tenth past the end of `local_addrs`.
mod Operands
mod Parsing
pub mod Offset
pub mod Values
pub mod Writes
mod Tests
unfoldable pub use Parsing.*
unfoldable pub use Operands.*
use csp_proc.Common.{
  ℕ, zero, suc, ◌+◌, ◌-◌, ◌*◌, ◌/◌, ◌%◌, ◌^◌, List, [], ◌∷◌, ◌++◌, length, take, Bool, true, false,
  not, ◌&&◌, ◌||◌, Option, none, some, ◌==◌, ltb, leb, if◌then◌else◌,
}
use csp_proc.Common.Bytes.{bytes_of}
use csp_proc.Common.Int.{ℤ, pos, negsuc, minus_ℕ}

-- Whether an address is one of the local interfaces'.
abbrev pub any_is : ℕ → List ℕ → Bool
any_is n [] = false
any_is n (m ∷ ms) = (m == n) || any_is n ms

module _ {W : Type 0} (lib : Libparam W) where
  unfoldable pub parse_param_to_operand : Param → ℤ → W → Option Operand
  parse_param_to_operand param offset w =
      elim (operand_of lib.doubles param.type (lib.param_get param (index_of offset) w)) [
        | none ↦ none
        | some r ↦ some (record { source_type = param.type; operand_type = r.0; bits = r.1 })
      ]

  -- One parameter of the wanted name and node; a remote one is pulled first.
  pull_found : Param → ℤ → ℕ → W → Option Param × W
  pull_found param offset node w =
      if param.param_node == 0
      then (some param, w)
      else (let r = lib.param_pull_single param offset node w in
          (if r.0 then some param else none, r.1))

  -- The loop over the parameter list, with the rounds that `inf_loop_guard` leaves. When they are used up,
  -- the parameter at hand is returned, whatever its name.
  unfoldable pub search_loop : ℕ → List Param → Text → ℤ → ℕ → Bool → W → Option Param × W
  unfolding pull_found
  search_loop guard [] name offset node local w = (none, w)
  search_loop zero (param ∷ rest) name offset node local w = (some param, w)
  search_loop (suc guard) (param ∷ rest) name offset node local w =
      let later = search_loop guard rest name offset node local w in
      if lib.strmatch param.name name
      then (if param.param_node == node
          then pull_found param offset node w
          else (if local && (param.param_node == 0) then (some param, w) else later))
      else later

  unfoldable pub proc_fetch_param : Text → ℕ → W → Option Param × W
  unfolding search_loop proc_param_scan_offset cut_index
  proc_fetch_param param_name node w =
      let offset = proc_param_scan_offset lib.int_overflow param_name in
      let name = cut_index param_name offset in
      let local = any_is node (lib.ifaces w) in
      let downloaded =
        if not (node == 0) && not local then lib.param_list_download node w else (true, w) in
      if downloaded.0
      then search_loop 10000 (lib.params downloaded.1) name offset node local downloaded.1
      else (none, downloaded.1)

  unfoldable pub fetch_operand_param_pair : Text → ℕ → W → Option (Param × Operand) × W
  unfolding proc_fetch_param parse_param_to_operand
  fetch_operand_param_pair param_name node w =
      let offset = proc_param_scan_offset lib.int_overflow param_name in
      let fetched = proc_fetch_param param_name node w in
      elim fetched.0 [
        | none ↦ (none, fetched.1)
        | some param ↦ elim (parse_param_to_operand param offset fetched.1) [
          | none ↦ (none, fetched.1)
          | some operand ↦ (some (param, operand), fetched.1)
        ]
      ]

-- How a handler ends: its return code n stands for -n; or it has undefined behaviour.
pub data Handled (W : Type 0) : Type 0 where
  undefined : Handled W
  returned : ℕ → W → Handled W

module _ {W : Type 0} (lib : Libparam W) where
  -- The value that is written: from the string if there is one, else from the operand.
  unfoldable pub value_bytes : Param → Option Operand → Option Text → W → Valuebuf
  value_bytes param operand (some value_str) w =
      elim (lib.param_str_to_value param.type value_str) [
        | none ↦ bad_type
        | some bytes ↦ filled bytes
      ]
  value_bytes param (some operand) none w =
      valuebuf_of lib.doubles operand.source_type operand.bits (lib.string_at operand.bits w)
  value_bytes param none none w = bad_type

  -- `for (int i = 0; i < param->array_size; i++) param_set(param, i, valuebuf);` with `k` rounds left.
  set_all : ℕ → ℕ → Param → List ℕ → W → W
  set_all zero i param value w = w
  set_all (suc k) i param value w = set_all k (suc i) param value (lib.param_set param i value w)

  set_local : Param → ℤ → List ℕ → W → W
  set_local param (pos i) value w = lib.param_set param i value w
  set_local param (negsuc i) value w = set_all param.array_size 0 param value w

  write_value : Param → ℤ → ℕ → Valuebuf → W → Handled W
  write_value param offset node bad_type w = returned 1 w
  write_value param offset node overflow w = undefined
  write_value param offset node (filled value) w =
      if param.param_node == 0
      then returned 0 (set_local param offset value w)
      else (let r = lib.param_push_single param offset value node (lib.reset_timestamp param w) in
          returned (if r.0 then 0 else 1) r.1)

  set_fetched : Text → Option Operand → Option Text → ℕ → Option Param × W → Handled W
  set_fetched param_name operand value_str node (none, w) = returned 1 w
  set_fetched param_name operand value_str node (some param, w) =
      if param.read_only
      then returned 1 w
      else write_value param (proc_param_scan_offset lib.int_overflow param_name) node
          (value_bytes param operand value_str w) w

  unfoldable pub proc_set_param : Text → Option Operand → Option Text → ℕ → W → Handled W
  unfolding set_fetched write_value value_bytes set_local set_all
  proc_set_param param_name none none node w = returned 1 w
  proc_set_param param_name operand value_str node w =
      set_fetched param_name operand value_str node (proc_fetch_param lib param_name node w)
