-- ===== src/Pack/Unpack.antt =====
-- `unpack_proc_from_csp_packet` of src/proc_pack.c on the format.
use csp_proc.Common.{
  ℕ, zero, suc, ◌^◌, ◌≤◌, ◌<◌, ◌≡◌, refl, ◌∙◌, true, List, [], ◌∷◌, ◌++◌, append-nil, append_assoc,
  length, take, drop, length-take, drop-append, All, arith,
}
use csp_proc.Common.Bytes.{bytes_of, length-bytes_of, value_of-bytes_of}
use csp_proc.Types.{
  ComparisonOp, comparison_code, unary_code, binary_code, comparison_of-code, unary_of-code,
  binary_of-code, Payload, block, ifelse, set, unop, binop, call, noop, unknown, type_code, IsText,
  IsValidPayload, IsValid, IsValidProc, Instruction, Proc, instruction_count,
}
use csp_proc.Pack.{
  Packet, done, get_bytes, get_number, get_string, get_comparison, get_set, get_unop, get_binop,
  get_call, unpack_payload, unpack_instruction, unpacked, unpack_loop, after_count,
  unpack_proc_from_csp_packet, pack_proc_into_csp_packet,
}
use csp_proc.Pack.Format.{
  encode_string, encode_payload, encode_instruction, encode_all, encode_proc, All-valid-known,
}
use csp_proc.Pack.Pack.{pack_proc_into_csp_packet-packed, pack_proc_into_csp_packet_iff}

get_bytes_lem : (bs rest : List ℕ) → get_bytes (length bs) (bs ++ rest) ≡ done bs rest
unfolding get_bytes
get_bytes_lem [] rest = refl
get_bytes_lem (b ∷ bs) rest = rw (get_bytes_lem bs rest)

pub get_number_lem :
    (n v : ℕ) (rest : List ℕ) → v < 256 ^ n → get_number n (bytes_of n v ++ rest) ≡ done v rest
unfolding get_number
get_number_lem n v rest h =
    let read : get_bytes n (bytes_of n v ++ rest) ≡ done (bytes_of n v) rest =
      rw length-bytes_of at (get_bytes_lem (bytes_of n v) rest) in
    rw read (rw (value_of-bytes_of n v h))

get_string_lem : (s rest : List ℕ) → IsText s → get_string (encode_string s ++ rest) ≡ done s rest
unfolding get_string
get_string_lem [] rest h = refl
get_string_lem (zero ∷ s) rest h = absurd (omega arith)
get_string_lem (suc c ∷ s) rest h = rw (get_string_lem s rest h.1)

get_comparison_lem :
    (make : List ℕ → ComparisonOp → List ℕ → Payload) (a b rest : List ℕ) (op : ComparisonOp)
    → IsText a
    → comparison_code op < 2 ^ 32
    → IsText b
    → get_comparison make
        ((encode_string a ++ (bytes_of 4 (comparison_code op) ++ encode_string b)) ++ rest)
      ≡ done (make a op b) rest
unfolding get_comparison
get_comparison_lem make a b rest op ha hop hb =
    let code = bytes_of 4 (comparison_code op) in
    rw (append_assoc (encode_string a), get_string_lem a ((code ++ encode_string b) ++ rest) ha)
      (rw (append_assoc code, get_number_lem 4 (comparison_code op) (encode_string b ++ rest) hop)
        (rw (get_string_lem b rest hb, comparison_of-code op)))

unpack_payload_lem :
    (p : Payload) (rest : List ℕ)
    → IsValidPayload p
    → unpack_payload (type_code p) (encode_payload p ++ rest) ≡ done p rest
unfolding unpack_payload encode_payload get_set get_unop get_binop get_call
unpack_payload_lem (block a op b) rest h = get_comparison_lem block a b rest op h.0 h.1 h.2
unpack_payload_lem (ifelse a op b) rest h = get_comparison_lem ifelse a b rest op h.0 h.1 h.2
unpack_payload_lem (set p v) rest h =
    rw (append_assoc (encode_string p), get_string_lem p (encode_string v ++ rest) h.0)
      (rw (get_string_lem v rest h.1))
unpack_payload_lem (unop p op r) rest h =
    let code = bytes_of 4 (unary_code op) in
    rw (append_assoc (encode_string p), get_string_lem p ((code ++ encode_string r) ++ rest) h.0)
      (rw (append_assoc code, get_number_lem 4 (unary_code op) (encode_string r ++ rest) h.1)
        (rw (get_string_lem r rest h.2, unary_of-code op)))
unpack_payload_lem (binop a op b r) rest h =
    let code = bytes_of 4 (binary_code op) in
    let tail = encode_string b ++ encode_string r in
    rw (append_assoc (encode_string a), get_string_lem a ((code ++ tail) ++ rest) h.0)
      (rw (append_assoc code, get_number_lem 4 (binary_code op) (tail ++ rest) h.1)
        (rw (append_assoc (encode_string b), get_string_lem b (encode_string r ++ rest) h.2)
          (rw (get_string_lem r rest h.3, binary_of-code op))))
unpack_payload_lem (call s) rest h = rw (get_number_lem 1 s rest h)
unpack_payload_lem noop rest h = refl
unpack_payload_lem (unknown n) rest h = absurd h

type_code-lt : (p : Payload) → IsValidPayload p → type_code p < 256 ^ 1
type_code-lt (unknown n) h = absurd h
type_code-lt _ h = omega arith

pub unpack_instruction_lem :
    (ins : Instruction) (rest : List ℕ)
    → IsValid ins
    → unpack_instruction (encode_instruction ins ++ rest) ≡ done ins rest
unfolding unpack_instruction encode_instruction
unpack_instruction_lem ins rest h =
    let node = bytes_of 2 ins.node in
    let type = bytes_of 1 (type_code ins.payload) in
    let body = encode_payload ins.payload in
    rw (append_assoc node, get_number_lem 2 ins.node ((type ++ body) ++ rest) h.0)
      (rw
        (
          append_assoc type,
          get_number_lem 1 (type_code ins.payload) (body ++ rest) (type_code-lt ins.payload h.1),
        )
        (rw (unpack_payload_lem ins.payload rest h.1)))

pub unpack_loop_step :
    (n count : ℕ) (filled : List Instruction) (data_bytes : List ℕ) {ins : Instruction}
    {rest : List ℕ}
    → unpack_instruction data_bytes ≡ done ins rest
    → unpack_loop (suc n) count filled data_bytes ≡ unpack_loop n count (filled ++ ins ∷ []) rest
unfolding unpack_loop
unpack_loop_step n count filled data_bytes h = ground arith

unpack_loop_lem :
    (is : List Instruction) (count : ℕ) (filled : List Instruction) (rest : List ℕ)
    → All IsValid is
    → unpack_loop (length is) count filled (encode_all is ++ rest)
      ≡ unpacked (record { instructions = filled ++ is })
unfolding encode_all
unpack_loop_lem [] count filled rest h = rw append-nil (unfold unpack_loop in refl)
unpack_loop_lem (ins ∷ is) count filled rest h =
    unpack_loop_step (length is) count filled _
      (rw (append_assoc (encode_instruction ins)) (unpack_instruction_lem ins _ h.0))
    ∙ unpack_loop_lem is count (filled ++ ins ∷ []) rest h.1
    ∙ rw (append_assoc filled)

-- A buffer that holds the format of a valid procedure behind its two header bytes is read back as that
-- procedure, whatever follows.
pub unpack_proc-encode :
    (p : Proc) (header rest : List ℕ) (used : ℕ)
    → IsValidProc p
    → length header ≡ 2
    → unpack_proc_from_csp_packet
        (record { data_bytes = header ++ (encode_proc p ++ rest); packet_length = used })
      ≡ unpacked p
unfolding unpack_proc_from_csp_packet encode_proc after_count
unpack_proc-encode p header rest used v two =
    let count = bytes_of 1 (instruction_count p) in
    let body : drop 2 (header ++ ((count ++ encode_all p.instructions) ++ rest))
        ≡ (count ++ encode_all p.instructions) ++ rest =
      rw two at (drop-append header ((count ++ encode_all p.instructions) ++ rest)) in
    rw body (
      rw (append_assoc count) (
        rw
          (get_number_lem 1 (instruction_count p) (encode_all p.instructions ++ rest) (omega arith))
          (unpack_loop_lem p.instructions (instruction_count p) [] rest v.1)))

-- The round trip: whenever packing a valid procedure into a packet with two header bytes reports success,
-- unpacking the packet gives that procedure back, whatever the buffer held before.
pub unpack-pack :
    (csp_buffer_size : ℕ) (p : Proc) (packet : Packet)
    → IsValidProc p
    → 2 ≤ length packet.data_bytes
    → (pack_proc_into_csp_packet csp_buffer_size p packet).0 ≡ true
    → unpack_proc_from_csp_packet (pack_proc_into_csp_packet csp_buffer_size p packet).1
      ≡ unpacked p
unpack-pack n p packet v two h =
    let fits = ((pack_proc_into_csp_packet_iff n p packet two).0 h).1 in
    rw (pack_proc_into_csp_packet-packed n p packet two (All-valid-known p.instructions v.1) fits)
      (unpack_proc-encode p (take 2 packet.data_bytes) _ _ v (length-take 2 packet.data_bytes two))
