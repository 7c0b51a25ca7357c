-- ===== src/Pack/Copy.antt =====
-- `proc_copy_instruction` and `deepcopy_proc` of src/proc_pack.c. `proc_strdup` gives an equal string,
-- so the copy is equal as a value; `none` is `return -1`.
use csp_proc.Common.{◌≡◌, ◌↔◌, refl, Option, none, some, List, [], ◌∷◌, All, arith}
use csp_proc.Types.{
  Payload, block, ifelse, set, unop, binop, call, noop, unknown, Instruction, Proc,
}
use csp_proc.Pack.Format.{IsKnown, HasKnownType}

unfoldable pub copy_payload : Payload → Option Payload
copy_payload (block a op b) = some (block a op b)
copy_payload (ifelse a op b) = some (ifelse a op b)
copy_payload (set p v) = some (set p v)
copy_payload (unop p op r) = some (unop p op r)
copy_payload (binop a op b r) = some (binop a op b r)
copy_payload (call s) = some (call s)
copy_payload noop = some noop
copy_payload (unknown n) = none

unfoldable pub proc_copy_instruction : Instruction → Option Instruction
proc_copy_instruction ins = elim (copy_payload ins.payload) [
  | none ↦ none
  | some payload ↦ some (record { node = ins.node; payload = payload })
]

abbrev cons_copy : Option Instruction → Option (List Instruction) → Option (List Instruction)
cons_copy none rest = none
cons_copy (some ins) none = none
cons_copy (some ins) (some rest) = some (ins ∷ rest)

unfoldable pub copy_loop : List Instruction → Option (List Instruction)
copy_loop [] = some []
copy_loop (ins ∷ is) = cons_copy (proc_copy_instruction ins) (copy_loop is)

unfoldable pub deepcopy_proc : Proc → Option Proc
deepcopy_proc p = elim (copy_loop p.instructions) [
  | none ↦ none
  | some is ↦ some (record { instructions = is })
]

copy_payload_lem : (p : Payload) → IsKnown p → copy_payload p ≡ some p
unfolding copy_payload
copy_payload_lem (unknown n) h = absurd h
copy_payload_lem (block a op b) h = refl
copy_payload_lem _ h = refl

copy_payload-IsKnown : (p q : Payload) → copy_payload p ≡ some q → IsKnown p
unfolding copy_payload
copy_payload-IsKnown (unknown n) q h = cc
copy_payload-IsKnown (block a op b) q h = tt
copy_payload-IsKnown _ q h = tt

pub proc_copy_instruction_lem :
    (ins : Instruction) → HasKnownType ins → proc_copy_instruction ins ≡ some ins
unfolding proc_copy_instruction
proc_copy_instruction_lem ins h = rw (proc_copy_instruction, copy_payload_lem ins.payload h)

copy_loop_lem : (is : List Instruction) → All HasKnownType is → copy_loop is ≡ some is
unfolding copy_loop
copy_loop_lem [] h = refl
copy_loop_lem (ins ∷ is) h = rw (proc_copy_instruction_lem ins h.0) (rw (copy_loop_lem is h.1))

proc_copy_instruction_known :
    (ins copy : Instruction) → proc_copy_instruction ins ≡ some copy → HasKnownType ins
unfolding proc_copy_instruction
proc_copy_instruction_known ins copy h = go (copy_payload ins.payload) refl
  where
    go : (o : Option Payload) → copy_payload ins.payload ≡ o → HasKnownType ins
    go none e = absurd (ground arith)
    go (some q) e = copy_payload-IsKnown ins.payload q e

copy_loop_known : (is copies : List Instruction) → copy_loop is ≡ some copies → All HasKnownType is
copy_loop_known [] copies h = tt
copy_loop_known (ins ∷ is) copies h =
    go (proc_copy_instruction ins) (copy_loop is) refl refl (copy_loop_known is)
  where
    go :
        (a : Option Instruction) (b : Option (List Instruction))
        → proc_copy_instruction ins ≡ a
        → copy_loop is ≡ b
        → ((rest : List Instruction) → copy_loop is ≡ some rest → All HasKnownType is)
        → All HasKnownType (ins ∷ is)
    go none b e f ih = absurd (unfold copy_loop in ground arith)
    go (some c) none e f ih = absurd (unfold copy_loop in ground arith)
    go (some c) (some rest) e f ih = (proc_copy_instruction_known ins c e, ih rest f)

-- The deep copy of `p` is `q` exactly when every instruction of `p` has a known type and `q` is `p`.
pub deepcopy_proc_iff :
    (p q : Proc) → (deepcopy_proc p ≡ some q) ↔ (All HasKnownType p.instructions × (q ≡ p))
unfolding deepcopy_proc
deepcopy_proc_iff p q = (
  λ r. let known = go (copy_loop p.instructions) refl r in (known, cc (copied known, r)),
  λ h. cc (copied h.0, h.1),
)
  where
    copied : All HasKnownType p.instructions → deepcopy_proc p ≡ some p
    copied h = rw (deepcopy_proc, copy_loop_lem p.instructions h)

    go :
        (o : Option (List Instruction))
        → copy_loop p.instructions ≡ o
        → deepcopy_proc p ≡ some q
        → All HasKnownType p.instructions
    go none e h = absurd (ground arith)
    go (some is) e h = copy_loop_known p.instructions is e
