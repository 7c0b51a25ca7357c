-- ===== src/Pack/Pack.antt =====
-- `pack_proc_into_csp_packet` of src/proc_pack.c against the format.
use csp_proc.Common.{
  ℕ, ◌+◌, ◌≤◌, ◌<◌, ◌≡◌, refl, sym, ap, ◌∙◌, Option, Bool, true, false, List, [], ◌∷◌, ◌++◌,
  append-nil, append_assoc, length, take, drop, length-append, length-take, length-drop,
  take-append, take-append-drop, drop-append_add, drop-drop, All, ltb, le→ltb, lt→ltb, arith, ◌↔◌,
}
use csp_proc.Common.Bytes.{bytes_of}
use csp_proc.Types.{
  Payload, block, ifelse, set, unop, binop, call, noop, unknown, type_code, Instruction, Proc,
  instruction_count,
}
use csp_proc.Pack.{
  Packet, memcpy, Cursor, put, put_string, pack_payload, pack_instruction, pack_loop,
  finish_packing, calc_proc_size, pack_proc_into_csp_packet,
}
use csp_proc.Pack.Format.{
  encode_payload, encode_instruction, encode_all, encode_proc, IsKnown, HasKnownType,
  calc_proc_size-encode_proc,
}

-- The cursor behind `pre`, with `rest` ahead.
abbrev at : List ℕ → List ℕ → Cursor
at pre rest = record { buffer = pre ++ rest; offset = length pre }

put-at :
    (bytes pre rest : List ℕ)
    → put bytes (at pre rest) ≡ at (pre ++ bytes) (drop (length bytes) rest)
unfolding put memcpy
put-at bytes pre rest = rw (take-append, drop-append_add, append_assoc, length-append)

put-put : (x y pre rest : List ℕ) → put y (put x (at pre rest)) ≡ put (x ++ y) (at pre rest)
put-put x y pre rest =
    ap (put y) (put-at x pre rest)
    ∙ put-at y (pre ++ x) (drop (length x) rest)
    ∙ (rw (append_assoc pre x y, drop-drop, ← length-append x y) refl)
    ∙ sym (put-at (x ++ y) pre rest)

put-nil : (pre rest : List ℕ) → put [] (at pre rest) ≡ at pre rest
put-nil pre rest = simp (put-at, append-nil)

ruleset joined = (put-put, append_assoc)

pack_payload_lem :
    (p : Payload) (pre rest : List ℕ)
    → IsKnown p
    → pack_payload p (at pre rest) ≡ (true, put (encode_payload p) (at pre rest))
unfolding pack_payload encode_payload put_string
pack_payload_lem (block a op b) pre rest h = simp joined
pack_payload_lem (ifelse a op b) pre rest h = simp joined
pack_payload_lem (set p v) pre rest h = simp joined
pack_payload_lem (unop p op r) pre rest h = simp joined
pack_payload_lem (binop a op b r) pre rest h = simp joined
pack_payload_lem (call s) pre rest h = refl
pack_payload_lem noop pre rest h = rw put-nil
pack_payload_lem (unknown n) pre rest h = absurd h

pack_payload_after :
    (p : Payload) (x pre rest : List ℕ)
    → IsKnown p
    → pack_payload p (put x (at pre rest)) ≡ (true, put (x ++ encode_payload p) (at pre rest))
pack_payload_after p x pre rest h =
    ap (pack_payload p) (put-at x pre rest)
    ∙ pack_payload_lem p (pre ++ x) (drop (length x) rest) h
    ∙ ap (λ (c : Cursor). mark (put (encode_payload p) c)) (sym (put-at x pre rest))
    ∙ ap mark (put-put x (encode_payload p) pre rest)
  where
    mark : Cursor → Bool × Cursor
    mark c = (true, c)

pack_instruction_after :
    (ins : Instruction) (x pre rest : List ℕ)
    → HasKnownType ins
    → pack_instruction ins (put x (at pre rest))
      ≡ (true, put (x ++ encode_instruction ins) (at pre rest))
unfolding pack_instruction encode_instruction
pack_instruction_after ins x pre rest h =
    let node = bytes_of 2 ins.node in
    let type = bytes_of 1 (type_code ins.payload) in
    rw (put-put x node pre rest, put-put (x ++ node) type pre rest)
      (rw (pack_payload_after ins.payload (x ++ node ++ type) pre rest h)
        (rw (append_assoc (x ++ node) type (encode_payload ins.payload), append_assoc x node)))

pack_loop_step :
    (ins : Instruction) (is : List Instruction) (c : Cursor) {c' : Cursor}
    → pack_instruction ins c ≡ (true, c')
    → pack_loop (ins ∷ is) c ≡ pack_loop is c'
unfolding pack_loop
pack_loop_step ins is c h = ground arith

pack_loop_after :
    (is : List Instruction) (x pre rest : List ℕ)
    → All HasKnownType is
    → pack_loop is (put x (at pre rest)) ≡ (true, put (x ++ encode_all is) (at pre rest))
unfolding pack_loop encode_all
pack_loop_after [] x pre rest h = rw (append-nil x)
pack_loop_after (ins ∷ is) x pre rest h =
    pack_loop_step ins is _ (pack_instruction_after ins x pre rest h.0)
    ∙ pack_loop_after is (x ++ encode_instruction ins) pre rest h.1
    ∙ rw (append_assoc x (encode_instruction ins) (encode_all is))

-- What the packet holds after a successful packing.
abbrev pub packed : Proc → Packet → Packet
packed p packet = record {
  data_bytes =
      take 2 packet.data_bytes
      ++ (encode_proc p ++ drop (2 + length (encode_proc p)) packet.data_bytes);
  packet_length = length (encode_proc p) + 2;
}

cursor_path :
    {b b' : List ℕ} {o o' : ℕ}
    → b ≡ b'
    → o ≡ o'
    → ◌≡◌ {A = Cursor} (record { buffer = b; offset = o }) (record { buffer = b'; offset = o' })
cursor_path p q = λ i. record { buffer = p i; offset = q i }

start-at :
    (d : List ℕ) → 2 ≤ length d → record { buffer = d; offset = 2 } ≡ at (take 2 d) (drop 2 d)
start-at d h = cursor_path (sym (take-append-drop 2 d)) (sym (length-take 2 d h))

fits : (n size : ℕ) → size + 2 ≤ n → ltb n (size + 2) ≡ false
fits n size h = le→ltb n (size + 2) h

-- A procedure whose types are known and whose bytes fit is packed: the two header bytes stay, then
-- come the bytes of the format, and what lies behind them in the buffer stays too.
pub pack_proc_into_csp_packet-packed :
    (csp_buffer_size : ℕ) (p : Proc) (packet : Packet)
    → 2 ≤ length packet.data_bytes
    → All HasKnownType p.instructions
    → length (encode_proc p) + 2 ≤ csp_buffer_size
    → pack_proc_into_csp_packet csp_buffer_size p packet ≡ (true, packed p packet)
unfolding pack_proc_into_csp_packet
pack_proc_into_csp_packet-packed n p packet two known fit =
    let count = bytes_of 1 (instruction_count p) in
    let d = packet.data_bytes in
    rw (calc_proc_size-encode_proc p known) (
      rw (fits n _ fit) (
        rw (start-at d two) (
          rw (pack_loop_after p.instructions count (take 2 d) (drop 2 d) known) (
            rw (put-at (count ++ encode_all p.instructions) (take 2 d) (drop 2 d))
              (unfold finish_packing encode_proc in rw (append_assoc (take 2 d), drop-drop 2))))))

-- The buffer keeps its size: packing writes nothing past the end of the packet's data.
pub length-packed :
    (p : Proc) (packet : Packet)
    → length (encode_proc p) + 2 ≤ length packet.data_bytes
    → length (packed p packet).data_bytes ≡ length packet.data_bytes
length-packed p packet h =
    simp (length-append, length-drop) (omega (arith, length-take 2 packet.data_bytes (omega arith)))

pack_payload-IsKnown : (p : Payload) (c : Cursor) → (pack_payload p c).0 ≡ true → IsKnown p
unfolding pack_payload
pack_payload-IsKnown (unknown n) c h = cc
pack_payload-IsKnown _ c h = tt

pack_instruction_known :
    (ins : Instruction) (c : Cursor) → (pack_instruction ins c).0 ≡ true → HasKnownType ins
unfolding pack_instruction
pack_instruction_known ins c h = pack_payload-IsKnown ins.payload _ h

pack_loop_known :
    (is : List Instruction) (c : Cursor) → (pack_loop is c).0 ≡ true → All HasKnownType is
unfolding pack_loop
pack_loop_known [] c h = tt
pack_loop_known (ins ∷ is) c h =
    ground (arith, pack_instruction_known ins c, pack_loop_known is (pack_instruction ins c).1)

finish_packing_done :
    (size : Option ℕ) (old : ℕ) (r : Bool × Cursor) → (finish_packing size old r).0 ≡ r.0
unfolding finish_packing
finish_packing_done size old (true, c) = refl
finish_packing_done size old (false, c) = refl

module _ (n : ℕ) (p : Proc) (packet : Packet) where
  abbrev packing : Bool
  packing = (pack_proc_into_csp_packet n p packet).0

  packing_known : packing ≡ true → All HasKnownType p.instructions
  unfolding pack_proc_into_csp_packet
  packing_known h =
      let count = bytes_of 1 (instruction_count p) in
      let start = put count (record { buffer = packet.data_bytes; offset = 2 }) in
      ground (
        arith,
        finish_packing_done (calc_proc_size p) packet.packet_length
            (pack_loop p.instructions start),
        pack_loop_known p.instructions start,
      )

  packing_fits : All HasKnownType p.instructions → packing ≡ true → length (encode_proc p) + 2 ≤ n
  unfolding pack_proc_into_csp_packet
  packing_fits known h = ground (arith, calc_proc_size-encode_proc p known)

  -- Packing into a packet with two header bytes succeeds exactly when every type is known and the bytes fit
  -- into the buffer size.
  pub pack_proc_into_csp_packet_iff :
      2 ≤ length packet.data_bytes
      → ((pack_proc_into_csp_packet n p packet).0 ≡ true)
        ↔ (All HasKnownType p.instructions × (length (encode_proc p) + 2 ≤ n))
  pack_proc_into_csp_packet_iff two = (
    λ h. let known = packing_known h in (known, packing_fits known h),
    λ h. rw (pack_proc_into_csp_packet-packed n p packet two h.0 h.1),
  )

-- A procedure of known types that does not fit is refused, and the packet is left alone.
pub pack_proc_into_csp_packet_large :
    (n : ℕ) (p : Proc) (packet : Packet)
    → All HasKnownType p.instructions
    → n < length (encode_proc p) + 2
    → pack_proc_into_csp_packet n p packet ≡ (false, packet)
unfolding pack_proc_into_csp_packet
pack_proc_into_csp_packet_large n p packet known h =
    rw (calc_proc_size-encode_proc p known) (rw (lt→ltb n (length (encode_proc p) + 2) h))
