-- ===== src/Pack/Inverse.antt =====
-- What a successful unpacking says about the packet, whoever sent it.
use csp_proc.Common.{
  All-drop, ℕ, zero, suc, ◌+◌, ◌≡◌, refl, sym, ap, ◌∙◌, List, [], ◌∷◌, ◌++◌, append-nil,
  append_assoc, length, drop, length-append, All, All-append, arith,
}
use csp_proc.Common.Bytes.{IsByte, bytes_of}
use csp_proc.Types.{
  Payload, block, ifelse, IsValid, IsValidProc, Instruction, Proc, instruction_count,
}
use csp_proc.Pack.{
  Packet, Outcome, past_end, unknown_type, done, get_number, unpack_payload, unpack_instruction,
  unpacked, unpack_loop, after_count, unpack_proc_from_csp_packet,
}
use csp_proc.Pack.Unpack.{unpack_loop_step}
use csp_proc.Pack.Format.{encode_payload, encode_instruction, encode_all, encode_proc}
use csp_proc.Pack.Fields.{
  >>=-elim, Reads, Reads-done, IsTagged, get_number_inv, get_comparison_inv, get_set_inv,
  get_unop_inv, get_binop_inv, get_call_inv, encode_comparison, split_two,
}

unpack_payload_inv :
    (type : ℕ) (d : List ℕ) {p : Payload} {rest : List ℕ}
    → All IsByte d
    → unpack_payload type d ≡ done p rest
    → Reads encode_payload (IsTagged type) p d rest
unfolding unpack_payload encode_payload encode_comparison
unpack_payload_inv zero d hd h =
    get_comparison_inv 0 block (λ a op b. refl) (λ a op b x y z. ((x, y, z), refl)) d hd h
unpack_payload_inv (suc zero) d hd h =
    get_comparison_inv 1 ifelse (λ a op b. refl) (λ a op b x y z. ((x, y, z), refl)) d hd h
unpack_payload_inv (suc (suc zero)) d hd h = get_set_inv d hd h
unpack_payload_inv (suc (suc (suc zero))) d hd h = get_unop_inv d hd h
unpack_payload_inv (suc (suc (suc (suc zero)))) d hd h = get_binop_inv d hd h
unpack_payload_inv (suc (suc (suc (suc (suc zero))))) d hd h = get_call_inv d hd h
unpack_payload_inv (suc (suc (suc (suc (suc (suc zero)))))) d hd h =
    Reads-done _ _ _ _ h (record { good = (tt, refl); tail = hd; split = refl })
unpack_payload_inv (suc (suc (suc (suc (suc (suc (suc n))))))) d hd h = cc

unpack_instruction_inv :
    (d : List ℕ) {ins : Instruction} {rest : List ℕ}
    → All IsByte d
    → unpack_instruction d ≡ done ins rest
    → Reads encode_instruction IsValid ins d rest
unfolding unpack_instruction encode_instruction
unpack_instruction_inv d hd h = >>=-elim _ (get_number 2 d) h λ node r₁ e₁ h₁.
    let x = get_number_inv 2 d hd e₁ in
    >>=-elim _ (get_number 1 r₁) h₁ λ type r₂ e₂ h₂.
      let y = get_number_inv 1 r₁ x.tail e₂ in
      >>=-elim _ (unpack_payload type r₂) h₂ λ p r₃ e₃ h₃.
        let z = unpack_payload_inv type r₂ y.tail e₃ in
        Reads-done _ _ _ _ h₃ (record {
          good = (x.good, z.good.0);
          tail = z.tail;
          split = rw z.good.1 (
              split_two (bytes_of 2 node) (bytes_of 1 type ++ encode_payload p) r₃ x.split
                (split_two (bytes_of 1 type) (encode_payload p) r₃ y.split z.split));
        })

encode_all-append :
    (xs ys : List Instruction) → encode_all (xs ++ ys) ≡ encode_all xs ++ encode_all ys
unfolding encode_all
encode_all-append [] ys = refl
encode_all-append (x ∷ xs) ys =
    rw (encode_all-append xs ys)
      (sym (append_assoc (encode_instruction x) (encode_all xs) (encode_all ys)))

encode_all-one : (ins : Instruction) → encode_all (ins ∷ []) ≡ encode_instruction ins
unfolding encode_all
encode_all-one ins = append-nil (encode_instruction ins)

-- What the loop has filled in and what it still reads, together.
record LoopResult (n : ℕ) (filled : List Instruction) (d : List ℕ) (p : Proc) : Type 0 where
  count : instruction_count p ≡ length filled + n
  valid : All IsValid p.instructions
  rest : List ℕ
  split : encode_all filled ++ d ≡ encode_all p.instructions ++ rest

unpack_loop_inv :
    (n total : ℕ) (filled : List Instruction) (d : List ℕ) (p : Proc)
    → All IsByte d
    → All IsValid filled
    → unpack_loop n total filled d ≡ unpacked p
    → LoopResult n filled d p
unfolding unpack_loop
unpack_loop_inv zero total filled d p hd hf h =
    let e : filled ≡ p.instructions = cc in
    record { count = rw (← e) (omega arith); valid = rw (← e) hf; rest = d; split = rw e refl }
unpack_loop_inv (suc n) total filled d p hd hf h =
    go (unpack_instruction d) refl (λ ins rest. unpack_loop_inv n total (filled ++ ins ∷ []) rest p)
  where
    go :
        (o : Outcome Instruction)
        → unpack_instruction d ≡ o
        → ((ins : Instruction) (rest : List ℕ)
            → All IsByte rest
            → All IsValid (filled ++ ins ∷ [])
            → unpack_loop n total (filled ++ ins ∷ []) rest ≡ unpacked p
            → LoopResult n (filled ++ ins ∷ []) rest p)
        → LoopResult (suc n) filled d p
    go past_end e ih = ground arith
    go unknown_type e ih = ground arith
    go (done ins rest) e ih =
        let x = unpack_instruction_inv d hd e in
        let later =
          ih ins rest x.tail (All-append IsValid filled (ins ∷ []) hf (x.good, tt))
            (sym (unpack_loop_step n total filled d e) ∙ h) in
        record {
          count = omega (arith, later.count, length-append filled (ins ∷ []));
          valid = later.valid;
          rest = later.rest;
          split =
              ap (λ (t : List ℕ). encode_all filled ++ t) x.split
              ∙ sym (append_assoc (encode_all filled) (encode_instruction ins) rest)
              ∙ (rw (encode_all-append filled (ins ∷ []), encode_all-one ins) at later.split);
        }

-- Whatever bytes a packet holds, if unpacking reports success, the procedure is valid (at most 255
-- instructions of known types, every field in range), and what stands behind the two header bytes
-- is its format and then the bytes that were not read.
pub unpack_proc_inv :
    (packet : Packet) (p : Proc)
    → All IsByte packet.data_bytes
    → unpack_proc_from_csp_packet packet ≡ unpacked p
    → IsValidProc p × (rest : List ℕ) × (drop 2 packet.data_bytes ≡ encode_proc p ++ rest)
unfolding unpack_proc_from_csp_packet after_count encode_all
unpack_proc_inv packet p hd h = go (get_number 1 (drop 2 packet.data_bytes)) refl h
  where
    bytes : All IsByte (drop 2 packet.data_bytes)
    bytes = All-drop IsByte 2 packet.data_bytes hd

    go :
        (o : Outcome ℕ)
        → get_number 1 (drop 2 packet.data_bytes) ≡ o
        → after_count o ≡ unpacked p
        → IsValidProc p × (rest : List ℕ) × (drop 2 packet.data_bytes ≡ encode_proc p ++ rest)
    go past_end e k = cc
    go unknown_type e k = cc
    go (done count mid) e k =
        let x = get_number_inv 1 (drop 2 packet.data_bytes) bytes e in
        let r = unpack_loop_inv count count [] mid p x.tail tt k in
        let n : instruction_count p ≡ count = omega (arith, r.count) in
        (
          (omega (arith, r.count, x.good), r.valid),
          r.rest,
          unfold encode_proc in
              rw n
                (split_two (bytes_of 1 count) (encode_all p.instructions) r.rest x.split r.split),
        )
