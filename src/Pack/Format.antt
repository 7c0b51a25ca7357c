-- ===== src/Pack/Format.antt =====
-- The packet format of src/proc_pack.c, written down by itself: the bytes of each instruction.
use csp_proc.Common.{
  ℕ, ◌+◌, ◌≡◌, refl, sym, ap, some, List, [], ◌∷◌, ◌++◌, length, length-append, All, arith,
}
use csp_proc.Common.Bytes.{bytes_of, length-bytes_of}
use csp_proc.Types.{
  comparison_code, unary_code, binary_code, Payload, block, ifelse, set, unop, binop, call, noop,
  unknown, type_code, Instruction, IsValidPayload, IsValid, Proc, instruction_count,
}
use csp_proc.Pack.{payload_size, sum_sizes, add_size, calc_proc_size}

-- A string with its NUL.
abbrev pub encode_string : List ℕ → List ℕ
encode_string s = s ++ 0 ∷ []

unfoldable pub encode_payload : Payload → List ℕ
encode_payload (block a op b) =
    encode_string a ++ (bytes_of 4 (comparison_code op) ++ encode_string b)
encode_payload (ifelse a op b) =
    encode_string a ++ (bytes_of 4 (comparison_code op) ++ encode_string b)
encode_payload (set p v) = encode_string p ++ encode_string v
encode_payload (unop p op r) = encode_string p ++ (bytes_of 4 (unary_code op) ++ encode_string r)
encode_payload (binop a op b r) =
    encode_string a ++ (bytes_of 4 (binary_code op) ++ (encode_string b ++ encode_string r))
encode_payload (call s) = bytes_of 1 s
encode_payload noop = []
encode_payload (unknown n) = []

unfoldable pub encode_instruction : Instruction → List ℕ
encode_instruction ins =
    bytes_of 2 ins.node ++ (bytes_of 1 (type_code ins.payload) ++ encode_payload ins.payload)

unfoldable pub encode_all : List Instruction → List ℕ
encode_all [] = []
encode_all (ins ∷ rest) = encode_instruction ins ++ encode_all rest

-- What follows the packet's first two bytes.
unfoldable pub encode_proc : Proc → List ℕ
encode_proc p = bytes_of 1 (instruction_count p) ++ encode_all p.instructions

-- The type is one that the `switch` statements list.
abbrev pub IsKnown : Payload → Type 0
IsKnown (unknown n) = ⊥
IsKnown _ = Unit

abbrev pub HasKnownType : Instruction → Type 0
HasKnownType ins = IsKnown ins.payload

pub IsValidPayload-IsKnown : (p : Payload) → IsValidPayload p → IsKnown p
IsValidPayload-IsKnown (unknown n) h = h
IsValidPayload-IsKnown _ h = tt

pub All-valid-known : (is : List Instruction) → All IsValid is → All HasKnownType is
All-valid-known [] h = tt
All-valid-known (ins ∷ rest) h =
    (IsValidPayload-IsKnown ins.payload h.0.1, All-valid-known rest h.1)

payload_size_lem : (p : Payload) → IsKnown p → payload_size p ≡ some (length (encode_payload p))
unfolding payload_size encode_payload
payload_size_lem (block a op b) h = ap some (simp (length-append, length-bytes_of) (omega arith))
payload_size_lem (ifelse a op b) h = ap some (simp (length-append, length-bytes_of) (omega arith))
payload_size_lem (set p v) h = ap some (simp length-append (omega arith))
payload_size_lem (unop p op r) h = ap some (simp (length-append, length-bytes_of) (omega arith))
payload_size_lem (binop a op b r) h = ap some (simp (length-append, length-bytes_of) (omega arith))
payload_size_lem (call s) h = ap some (sym (length-bytes_of 1 s))
payload_size_lem noop h = refl
payload_size_lem (unknown n) h = absurd h

length-encode_instruction :
    (ins : Instruction) → length (encode_instruction ins) ≡ 3 + length (encode_payload ins.payload)
unfolding encode_instruction
length-encode_instruction ins = simp (length-append, length-bytes_of) (omega arith)

sum_sizes_lem :
    (total : ℕ) (is : List Instruction)
    → All HasKnownType is
    → sum_sizes total is ≡ some (total + length (encode_all is))
unfolding sum_sizes encode_all add_size
sum_sizes_lem total [] h = ap some (omega arith)
sum_sizes_lem total (ins ∷ rest) h =
    rw (sum_sizes, payload_size_lem ins.payload h.0)
      (rw (sum_sizes_lem (total + 3 + length (encode_payload ins.payload)) rest h.1)
        (ap some (simp length-append (omega (arith, length-encode_instruction ins)))))

-- For a procedure of known types, the size that the code computes is the number of bytes of the format.
pub calc_proc_size-encode_proc :
    (p : Proc) → All HasKnownType p.instructions → calc_proc_size p ≡ some (length (encode_proc p))
unfolding calc_proc_size encode_proc
calc_proc_size-encode_proc p h =
    rw (sum_sizes_lem 1 p.instructions h)
      (ap some (simp (length-append, length-bytes_of) (omega arith)))
