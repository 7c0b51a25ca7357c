-- ===== src/Pack/Failure.antt =====
-- Unpacking a packet in which some instruction has a type that the code does not know.
use Prim.Native.Nat.add
use native.Mathlib.Nat.{zero-add}
use csp_proc.Common.{
  ℕ, suc, ◌+◌, ◌-◌, ◌^◌, ◌<◌, ◌≡◌, refl, ap, ◌∙◌, List, [], ◌∷◌, ◌++◌, append-nil, append_assoc,
  length, drop, drop-append, All, arith,
}
use csp_proc.Common.Bytes.{bytes_of}
use csp_proc.Types.{IsValid, Instruction}
use csp_proc.Pack.{
  unknown_type, unpack_payload, unpack_instruction, failed, unpack_loop, after_count,
  unpack_proc_from_csp_packet,
}
use csp_proc.Pack.Format.{encode_instruction, encode_all}
use csp_proc.Pack.Unpack.{get_number_lem, unpack_instruction_lem, unpack_loop_step}

-- The loop reads valid instructions and goes on behind them.
unpack_loop_prefix :
    (is : List Instruction) (n count : ℕ) (filled : List Instruction) (rest : List ℕ)
    → All IsValid is
    → unpack_loop (length is + n) count filled (encode_all is ++ rest)
      ≡ unpack_loop n count (filled ++ is) rest
unfolding encode_all
unpack_loop_prefix [] n count filled rest h = rw (zero-add, append-nil)
unpack_loop_prefix (ins ∷ is) n count filled rest h = rw add.suc (
    unpack_loop_step (length is + n) count filled _
      (rw (append_assoc (encode_instruction ins)) (unpack_instruction_lem ins _ h.0))
    ∙ unpack_loop_prefix is n count (filled ++ ins ∷ []) rest h.1
    ∙ rw (append_assoc filled))

unpack_instruction_unknown :
    (node t : ℕ) (rest : List ℕ)
    → node < 2 ^ 16
    → t + 7 < 256
    → unpack_instruction (bytes_of 2 node ++ (bytes_of 1 (t + 7) ++ rest)) ≡ unknown_type
unfolding unpack_instruction
unpack_instruction_unknown node t rest hn ht =
    rw (get_number_lem 2 node (bytes_of 1 (t + 7) ++ rest) hn)
      (rw (get_number_lem 1 (t + 7) rest ht) (rw seven (unfold unpack_payload in refl)))
  where
    seven : t + 7 ≡ suc (suc (suc (suc (suc (suc (suc t))))))
    seven = omega arith

unpack_loop_failed :
    (n count : ℕ) (filled : List Instruction) (d : List ℕ)
    → unpack_instruction d ≡ unknown_type
    → unpack_loop (suc n) count filled d ≡ failed filled count
unfolding unpack_loop
unpack_loop_failed n count filled d h = ground arith

-- A packet announces `count` instructions; the first ones, fewer than `count`, are valid and the next
-- has a type byte from 7 up. Unpacking then fails with exactly those valid instructions filled in.
pub unpack_proc-unknown :
    (is : List Instruction) (count node t : ℕ) (header rest : List ℕ) (used : ℕ)
    → All IsValid is
    → length is < count
    → count < 256
    → node < 2 ^ 16
    → t + 7 < 256
    → length header ≡ 2
    → unpack_proc_from_csp_packet (record {
      data_bytes =
          header
          ++ (bytes_of 1 count
              ++ (encode_all is ++ (bytes_of 2 node ++ (bytes_of 1 (t + 7) ++ rest))));
      packet_length = used;
    })
      ≡ failed is count
unfolding unpack_proc_from_csp_packet after_count
unpack_proc-unknown is count node t header rest used v more small hn ht two =
    let wrong = bytes_of 2 node ++ (bytes_of 1 (t + 7) ++ rest) in
    let body = bytes_of 1 count ++ (encode_all is ++ wrong) in
    let skip : drop 2 (header ++ body) ≡ body = rw two at (drop-append header body) in
    rw skip (
      rw (get_number_lem 1 count (encode_all is ++ wrong) small) (
        ap (λ (n : ℕ). unpack_loop n count [] (encode_all is ++ wrong)) rounds
        ∙ unpack_loop_prefix is (suc (count - suc (length is))) count [] wrong v
        ∙ unpack_loop_failed (count - suc (length is)) count is wrong
            (unpack_instruction_unknown node t rest hn ht)))
  where
    rounds : count ≡ length is + suc (count - suc (length is))
    rounds = omega arith
