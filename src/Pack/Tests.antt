-- ===== src/Pack/Tests.antt =====
-- Runs of src/proc_pack.c on a procedure of two instructions, and its theorems applied to it.
use csp_proc.Common.{
  ℕ, ◌+◌, ◌≡◌, refl, ◌↔◌, ◌≤◌, ◌<◌, List, [], ◌∷◌, ◌++◌, length, drop, true, All, arith,
}
use csp_proc.Common.Bytes.{bytes_of, value_of, IsByte}
use csp_proc.Types.{op_lt, block, call, Instruction, Proc, IsValid, IsValidProc}
use csp_proc.Pack.{
  Packet, failed, unpacked, payload_size, add_size, sum_sizes, calc_proc_size, memcpy, put,
  put_string, pack_payload, pack_instruction, pack_loop, finish_packing, pack_proc_into_csp_packet,
  get_bytes, get_number, get_string, get_comparison, get_call, unpack_payload, unpack_instruction,
  unpack_loop, after_count, unpack_proc_from_csp_packet,
}
use csp_proc.Pack.Format.{HasKnownType, encode_payload, encode_instruction, encode_all, encode_proc}
use csp_proc.Pack.Pack.{pack_proc_into_csp_packet_iff}
use csp_proc.Pack.Unpack.{unpack-pack}
use csp_proc.Pack.Inverse.{unpack_proc_inv}
use csp_proc.Pack.Failure.{unpack_proc-unknown}

abbrev waiting : Instruction
waiting = record { node = 258; payload = block (97 ∷ []) op_lt (53 ∷ 48 ∷ []) }

abbrev calling : Instruction
calling = record { node = 5; payload = call 7 }

abbrev two_steps : Proc
two_steps = record { instructions = waiting ∷ calling ∷ [] }

abbrev ten_bytes : List ℕ
ten_bytes = 1 ∷ 1 ∷ 1 ∷ 1 ∷ 1 ∷ 1 ∷ 1 ∷ 1 ∷ 1 ∷ 1 ∷ []

abbrev blank : Packet
blank = record { data_bytes = ten_bytes ++ (ten_bytes ++ ten_bytes); packet_length = 2 }

abbrev two_steps_format : List ℕ
two_steps_format = 2 ∷ 2 ∷ 1 ∷ 0 ∷ 97 ∷ 0 ∷ 2 ∷ 0 ∷ 0 ∷ 0 ∷ 53 ∷ 48 ∷ 0 ∷ 5 ∷ 0 ∷ 5 ∷ 7 ∷ []

abbrev on_wire : Packet
on_wire = record { data_bytes = 4 ∷ 9 ∷ (two_steps_format ++ 8 ∷ []); packet_length = 19 }

waiting-IsValid : IsValid waiting
waiting-IsValid = (
  omega arith,
  (
    ((omega arith, omega arith), tt),
    omega arith,
    ((omega arith, omega arith), ((omega arith, omega arith), tt)),
  ),
)

two_steps-IsValidProc : IsValidProc two_steps
two_steps-IsValidProc = (omega arith, (waiting-IsValid, ((omega arith, omega arith), tt)))

two_steps-known : All HasKnownType two_steps.instructions
two_steps-known = (tt, (tt, tt))

encode_test : encode_proc two_steps ≡ two_steps_format
unfolding encode_proc encode_all encode_instruction encode_payload bytes_of
encode_test = refl

pack_test : (pack_proc_into_csp_packet 30 two_steps blank).0 ≡ true
unfolding pack_proc_into_csp_packet calc_proc_size sum_sizes add_size payload_size pack_loop
    pack_instruction pack_payload put_string put memcpy finish_packing
pack_test = refl

unpack_test : unpack_proc_from_csp_packet on_wire ≡ unpacked two_steps
unfolding unpack_proc_from_csp_packet after_count unpack_loop unpack_instruction unpack_payload
    get_comparison get_call get_string get_number get_bytes value_of
unpack_test = refl

unpack-pack_example :
    unpack_proc_from_csp_packet (pack_proc_into_csp_packet 30 two_steps blank).1
    ≡ unpacked two_steps
unpack-pack_example = unpack-pack 30 two_steps blank two_steps-IsValidProc (omega arith) pack_test

pack_proc_into_csp_packet_iff_example :
    ((pack_proc_into_csp_packet 30 two_steps blank).0 ≡ true)
    ↔ (All HasKnownType two_steps.instructions × (length (encode_proc two_steps) + 2 ≤ 30))
pack_proc_into_csp_packet_iff_example =
    pack_proc_into_csp_packet_iff 30 two_steps blank (omega arith)

two_steps_large : 10 < length (encode_proc two_steps) + 2
two_steps_large = rw encode_test (omega arith)

on_wire_bytes : All IsByte on_wire.data_bytes
on_wire_bytes = ground arith

unpack_proc_inv_example :
    IsValidProc two_steps
    × (rest : List ℕ) × (drop 2 on_wire.data_bytes ≡ encode_proc two_steps ++ rest)
unpack_proc_inv_example = unpack_proc_inv on_wire two_steps on_wire_bytes unpack_test

unpack_proc-unknown_example :
    unpack_proc_from_csp_packet (record {
      data_bytes =
          (4 ∷ 9 ∷ [])
          ++ (bytes_of 1 3
              ++ (encode_all (waiting ∷ []) ++ (bytes_of 2 0 ++ (bytes_of 1 (2 + 7) ++ []))));
      packet_length = 20;
    })
    ≡ failed (waiting ∷ []) 3
unpack_proc-unknown_example =
    unpack_proc-unknown (waiting ∷ []) 3 0 2 (4 ∷ 9 ∷ []) [] 20 (waiting-IsValid, tt) (omega arith)
      (omega arith) (omega arith) (omega arith) refl
