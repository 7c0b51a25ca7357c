-- ===== src/Pack.antt =====
-- src/proc_pack.c: the size of a procedure, its copy, and its form in a CSP packet.
-- `packet->data` is the list of the buffer's bytes and `data + offset` the list from there on. An
-- `enum` takes four bytes and numbers are little-endian, as with gcc on x86-64 and ARM.
pub mod Format
pub mod Pack
pub mod Unpack
pub mod Fields
pub mod Inverse
pub mod Failure
pub mod Copy
mod Tests
use csp_proc.Common.{
  ℕ, zero, suc, ◌+◌, ◌-◌, List, [], ◌∷◌, ◌++◌, Bool, true, false, Option, none, some, length, take,
  drop, ltb, if◌then◌else◌,
}
use csp_proc.Common.Bytes.{bytes_of, value_of}
use csp_proc.Types.{
  ComparisonOp, UnaryOp, BinaryOp, comparison_code, comparison_of, unary_code, unary_of,
  binary_code, binary_of, Payload, block, ifelse, set, unop, binop, call, noop, unknown, type_code,
  Instruction, Proc, instruction_count,
}

-- `csp_packet_t`: the buffer and the number of bytes in use.
pub record Packet : Type 0 where
  pub data_bytes : List ℕ
  pub packet_length : ℕ

-- `strlen(s) + 1`
abbrev pub string_size : List ℕ → ℕ
string_size s = length s + 1

-- The bytes that `calc_proc_size` counts for the union; `none` is its `return -1`.
unfoldable pub payload_size : Payload → Option ℕ
payload_size (block a op b) = some (4 + string_size a + string_size b)
payload_size (ifelse a op b) = some (4 + string_size a + string_size b)
payload_size (set p v) = some (string_size p + string_size v)
payload_size (unop p op r) = some (4 + string_size p + string_size r)
payload_size (binop a op b r) = some (4 + string_size a + string_size b + string_size r)
payload_size (call s) = some 1
payload_size noop = some 0
payload_size (unknown n) = none

unfoldable pub add_size : ℕ → Option ℕ → Option ℕ
add_size n none = none
add_size n (some m) = some (n + m)

unfoldable pub sum_sizes : ℕ → List Instruction → Option ℕ
sum_sizes total [] = some total
sum_sizes total (ins ∷ rest) = elim (add_size (total + 3) (payload_size ins.payload)) [
  | none ↦ none
  | some total' ↦ sum_sizes total' rest
]

-- The sum is taken not to exceed an `int`.
unfoldable pub calc_proc_size : Proc → Option ℕ
calc_proc_size p = sum_sizes 1 p.instructions

-- `memcpy(data + offset, bytes, …)`. Past the end of the buffer the list would grow.
unfoldable pub memcpy : List ℕ → ℕ → List ℕ → List ℕ
memcpy data_bytes offset bytes =
    take offset data_bytes ++ (bytes ++ drop (offset + length bytes) data_bytes)

-- The buffer and the offset, as the packing loop carries them.
pub record Cursor : Type 0 where
  pub buffer : List ℕ
  pub offset : ℕ

unfoldable pub put : List ℕ → Cursor → Cursor
put bytes c = record { buffer = memcpy c.buffer c.offset bytes; offset = c.offset + length bytes }

unfoldable pub put_string : List ℕ → Cursor → Cursor
put_string s c = put (s ++ 0 ∷ []) c

-- The second `switch` of the packing loop, with its result: `false` is `return -1`.
unfoldable pub pack_payload : Payload → Cursor → Bool × Cursor
pack_payload (block a op b) c =
    (true, put_string b (put (bytes_of 4 (comparison_code op)) (put_string a c)))
pack_payload (ifelse a op b) c =
    (true, put_string b (put (bytes_of 4 (comparison_code op)) (put_string a c)))
pack_payload (set p v) c = (true, put_string v (put_string p c))
pack_payload (unop p op r) c =
    (true, put_string r (put (bytes_of 4 (unary_code op)) (put_string p c)))
pack_payload (binop a op b r) c =
    (true, put_string r (put_string b (put (bytes_of 4 (binary_code op)) (put_string a c))))
pack_payload (call s) c = (true, put (bytes_of 1 s) c)
pack_payload noop c = (true, c)
pack_payload (unknown n) c = (false, c)

-- One round: the node, the type, then the operands.
unfoldable pub pack_instruction : Instruction → Cursor → Bool × Cursor
pack_instruction ins c =
    pack_payload ins.payload
      (put (bytes_of 1 (type_code ins.payload)) (put (bytes_of 2 ins.node) c))

unfoldable pub pack_loop : List Instruction → Cursor → Bool × Cursor
pack_loop [] c = (true, c)
pack_loop (ins ∷ rest) c =
    let (done, c') = pack_instruction ins c in
    elim done [ true ↦ pack_loop rest c' | false ↦ (false, c') ]

-- `total_size + 2`, where a failed `calc_proc_size` counts as -1.
abbrev needed : Option ℕ → ℕ
needed none = 1
needed (some total_size) = total_size + 2

-- `true` is `return 0`, with the packet's new length; on `return -1` the buffer may be partly written.
unfoldable pub finish_packing : Option ℕ → ℕ → Bool × Cursor → Bool × Packet
finish_packing size old (true, c) =
    (true, record { data_bytes = c.buffer; packet_length = needed size })
finish_packing size old (false, c) = (false, record { data_bytes = c.buffer; packet_length = old })

unfoldable pub pack_proc_into_csp_packet : ℕ → Proc → Packet → Bool × Packet
pack_proc_into_csp_packet csp_buffer_size p packet =
    let total_size = calc_proc_size p in
    if ltb csp_buffer_size (needed total_size)
    then (false, packet)
    else finish_packing total_size packet.packet_length (
        pack_loop p.instructions (
          put (bytes_of 1 (instruction_count p))
            (record { buffer = packet.data_bytes; offset = 2 })))

-- What reading a part of a packet gives: a value and the bytes after it, a type that the `switch`
-- does not know, or a read past the end of the buffer, which is undefined.
pub data Outcome {ℓ} (A : Type ℓ) : Type ℓ where
  past_end : Outcome A
  unknown_type : Outcome A
  done : A → List ℕ → Outcome A

infixl 5 ◌>>=◌
abbrev pub ◌>>=◌ {ℓ κ} :
    {A : Type ℓ} {B : Type κ} → Outcome A → (A → List ℕ → Outcome B) → Outcome B
past_end >>= f = past_end
unknown_type >>= f = unknown_type
done a rest >>= f = f a rest

-- `memcpy(&field, data + offset, n)`
unfoldable pub get_bytes : ℕ → List ℕ → Outcome (List ℕ)
get_bytes zero data_bytes = done [] data_bytes
get_bytes (suc n) [] = past_end
get_bytes (suc n) (b ∷ data_bytes) = get_bytes n data_bytes >>= λ bs rest. done (b ∷ bs) rest

unfoldable pub get_number : ℕ → List ℕ → Outcome ℕ
get_number n data_bytes = get_bytes n data_bytes >>= λ bs rest. done (value_of bs) rest

-- `proc_strdup(data + offset)`, then `offset += strlen(data + offset) + 1`
unfoldable pub get_string : List ℕ → Outcome (List ℕ)
get_string [] = past_end
get_string (zero ∷ data_bytes) = done [] data_bytes
get_string (suc c ∷ data_bytes) = get_string data_bytes >>= λ s rest. done (suc c ∷ s) rest

unfoldable pub get_comparison :
    (List ℕ → ComparisonOp → List ℕ → Payload) → List ℕ → Outcome Payload
get_comparison make data_bytes = get_string data_bytes >>= λ a rest.
    get_number 4 rest >>= λ op rest'.
    get_string rest' >>= λ b rest''. done (make a (comparison_of op) b) rest''

unfoldable pub get_set : List ℕ → Outcome Payload
get_set data_bytes =
    get_string data_bytes >>= λ p rest. get_string rest >>= λ v rest'. done (set p v) rest'

unfoldable pub get_unop : List ℕ → Outcome Payload
get_unop data_bytes = get_string data_bytes >>= λ p rest. get_number 4 rest >>= λ op rest'.
    get_string rest' >>= λ r rest''. done (unop p (unary_of op) r) rest''

unfoldable pub get_binop : List ℕ → Outcome Payload
get_binop data_bytes = get_string data_bytes >>= λ a rest. get_number 4 rest >>= λ op rest₁.
    get_string rest₁ >>= λ b rest₂.
    get_string rest₂ >>= λ r rest₃. done (binop a (binary_of op) b r) rest₃

unfoldable pub get_call : List ℕ → Outcome Payload
get_call data_bytes = get_number 1 data_bytes >>= λ s rest. done (call s) rest

-- The `switch` of the unpacking loop on the type byte.
unfoldable pub unpack_payload : ℕ → List ℕ → Outcome Payload
unpack_payload zero data_bytes = get_comparison block data_bytes
unpack_payload (suc zero) data_bytes = get_comparison ifelse data_bytes
unpack_payload (suc (suc zero)) data_bytes = get_set data_bytes
unpack_payload (suc (suc (suc zero))) data_bytes = get_unop data_bytes
unpack_payload (suc (suc (suc (suc zero)))) data_bytes = get_binop data_bytes
unpack_payload (suc (suc (suc (suc (suc zero))))) data_bytes = get_call data_bytes
unpack_payload (suc (suc (suc (suc (suc (suc zero)))))) data_bytes = done noop data_bytes
unpack_payload _ data_bytes = unknown_type

unfoldable pub unpack_instruction : List ℕ → Outcome Instruction
unpack_instruction data_bytes = get_number 2 data_bytes >>= λ node rest.
    get_number 1 rest >>= λ type rest'. unpack_payload type rest' >>= λ payload rest''.
    done (record { node = node; payload = payload }) rest''

-- The result of unpacking. On `failed` (`return -1`) the procedure already has its instruction count,
-- the second argument, but only the instructions of the first argument are filled in.
pub data Unpacked : Type 0 where
  fault : Unpacked
  failed : List Instruction → ℕ → Unpacked
  unpacked : Proc → Unpacked

-- `n` rounds are left; `filled` are the instructions of the rounds before.
unfoldable pub unpack_loop : ℕ → ℕ → List Instruction → List ℕ → Unpacked
unpack_loop zero count filled data_bytes = unpacked (record { instructions = filled })
unpack_loop (suc n) count filled data_bytes = elim (unpack_instruction data_bytes) [
  | past_end ↦ fault
  | unknown_type ↦ failed filled count
  | done ins rest ↦ unpack_loop n count (filled ++ ins ∷ []) rest
]

unfoldable pub after_count : Outcome ℕ → Unpacked
after_count past_end = fault
after_count unknown_type = fault
after_count (done count rest) = unpack_loop count count [] rest

unfoldable pub unpack_proc_from_csp_packet : Packet → Unpacked
unpack_proc_from_csp_packet packet = after_count (get_number 1 (drop 2 packet.data_bytes))

-- `free_proc` after an unpacking: the number of array entries that it visits and that were never
-- written. The entry that stopped the unpacking has a type that `proc_free_instruction` passes over.
unfoldable pub wild_frees : Unpacked → ℕ
wild_frees fault = 0
wild_frees (failed filled count) = count - suc (length filled)
wild_frees (unpacked p) = 0
