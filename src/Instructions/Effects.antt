-- ===== src/Instructions/Effects.antt =====
-- What the unary and binary instructions of src/runtime/proc_runtime_instructions_common.c write, and where
-- they write nothing.
use csp_proc.Common.{ℕ, ◌<◌, ◌≡◌, refl, false, none, some}
use csp_proc.Common.Bytes.{bytes_of}
use csp_proc.Common.Int.{pos}
use csp_proc.Types.{BinaryOp, op_idt, unop, binop}
use csp_proc.Params.{
  Text, Param, Libparam, Operand, index_of, proc_fetch_param, fetch_operand_param_pair, returned,
  parse_param_to_operand, proc_param_scan_offset, filled, value_bytes,
}
use csp_proc.Params.Values.{size, Survives, operand_of-some, valuebuf_of-operand_of}
use csp_proc.Params.Writes.{proc_set_param-element}
use csp_proc.Instructions.{
  unary_value, binary_value, error, proc_runtime_unop, apply_unop, store_result, proc_runtime_binop,
  apply_binop, fetch_second,
}

module _ {W : Type 0} (lib : Libparam W) where
  fetched_operand :
      (name : Text) (node : ℕ) (w w' : W) (p : Param)
      → 0 < size p.type
      → Survives lib.doubles p.type
          (lib.param_get p (index_of (proc_param_scan_offset lib.int_overflow name)) w')
      → proc_fetch_param lib name node w ≡ (some p, w')
      → (x : Operand) × (fetch_operand_param_pair lib name node w ≡ (some (p, x), w'))
        × ((q : Param) (u : W)
            → value_bytes lib q (some x) none u
              ≡ filled (
                  bytes_of
                    (size p.type)
                    (lib.param_get p (index_of (proc_param_scan_offset lib.int_overflow name)) w')))
  unfolding fetch_operand_param_pair parse_param_to_operand value_bytes
  fetched_operand name node w w' p n survives f =
      let v = lib.param_get p (index_of (proc_param_scan_offset lib.int_overflow name)) w' in
      let o = operand_of-some lib.doubles p.type v n in
      (
        record { source_type = p.type; operand_type = o.0.0; bits = o.0.1 },
        rw (fetch_operand_param_pair, f, f, parse_param_to_operand, o.1, f) refl,
        λ q u. valuebuf_of-operand_of lib.doubles p.type v _ o.0 survives n o.1,
      )

  -- The identity copies a number: if both parameters are found, the bytes of the first one's value (of its
  -- indexed element, or else of its first) are written to the element of the second that its name has an
  -- index for, provided that the second is local and may be written. They are as many as the first
  -- parameter's type has, whatever the type of the second. If it is a float, this
  -- value has to survive its way through `double`; nothing is asked of other types or other values.
  pub proc_runtime_unop-copies :
      (node : ℕ) (a b : Text) (w w₁ w₂ : W) (p q : Param) (i : ℕ)
      → proc_fetch_param lib a node w ≡ (some p, w₁)
      → 0 < size p.type
      → Survives lib.doubles p.type
          (lib.param_get p (index_of (proc_param_scan_offset lib.int_overflow a)) w₁)
      → proc_fetch_param lib b 0 w₁ ≡ (some q, w₂)
      → q.read_only ≡ false
      → q.param_node ≡ 0
      → proc_param_scan_offset lib.int_overflow b ≡ pos i
      → proc_runtime_unop lib (record { node = node; payload = unop a op_idt b }) w
        ≡ returned 0 (
            lib.param_set q i
              (bytes_of
                (size p.type)
                (lib.param_get p (index_of (proc_param_scan_offset lib.int_overflow a)) w₁))
              w₂)
  unfolding proc_runtime_unop apply_unop store_result unary_value
  proc_runtime_unop-copies node a b w w₁ w₂ p q i f n survives g r l o =
      let x = fetched_operand a node w w₁ p n survives f in
      rw x.1 (proc_set_param-element lib b x.0 0 w₁ w₂ q i _ g r l o (x.2 q w₂))

module _ {W : Type 0} (lib : Libparam W) where
  -- An operator that has no result for its operands: the instruction fails, and nothing has happened but the
  -- fetches of the two operands.
  pub proc_runtime_binop-fails :
      (node : ℕ) (a b c : Text) (op : BinaryOp) (w w₁ w₂ : W) (p q : Param) (x y : Operand)
      → fetch_operand_param_pair lib a node w ≡ (some (p, x), w₁)
      → fetch_operand_param_pair lib b node w₁ ≡ (some (q, y), w₂)
      → binary_value lib.doubles op x y ≡ error
      → proc_runtime_binop lib (record { node = node; payload = binop a op b c }) w ≡ returned 1 w₂
  unfolding proc_runtime_binop fetch_second apply_binop store_result
  proc_runtime_binop-fails node a b c op w w₁ w₂ p q x y f g e = rw (f, g, e) refl
