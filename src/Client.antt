-- ===== src/Client.antt =====
-- src/proc_client.c: the requests that a client sends. libcsp is outside: `csp_buffer_get` gives an
-- optional packet, `csp_connect` succeeds or not, and the network answers a sent packet with the packets
-- that `csp_read` returns before it times out.
pub mod EndToEnd
pub mod Slots
pub mod Runs
mod Tests
use Prim.Native.Nat.{bit_and, bit_or}
use csp_proc.Common.{
  ℕ, ◌+◌, ◌-◌, ◌%◌, List, [], ◌∷◌, length, take, drop, Bool, true, false, Option, none, some, ◌==◌,
  if◌then◌else◌,
}
use csp_proc.Common.Lists.{set as write}
use csp_proc.Types.{Proc}
use csp_proc.Pack.{
  Packet, Unpacked, fault, failed, unpacked, pack_proc_into_csp_packet, unpack_proc_from_csp_packet,
}
use csp_proc.Server.{byte_at}
use csp_proc.Server.PacketType

-- What the request functions return: -2 (no buffer), -1, or the error bit of the last reply.
pub data Result : Type 0 where
  minus_two : Result
  minus_one : Result
  error_bit : ℕ → Result

-- `W` is the rest of the world: what a sent packet does to it, and the packets that come back.
abbrev pub Network : Type 0 → Type 0
Network W = Packet → W → List Packet × W

-- `none` is `timeout == -1`.
pub record Link : Type 0 where
  pub conn_ok : Bool
  pub timeout : Option ℕ

abbrev is_forever : Option ℕ → Bool
is_forever none = true
is_forever (some t) = false

-- A response callback returns whether its result was 0, and what it has written to its argument.
abbrev pub Callback : Type 0 → Type 0
Callback A = Option (Packet → A → Bool × A)

module _ {A : Type 0} where
  call_back : Callback A → Packet → A → Bool × A
  call_back none packet arg = (true, arg)
  call_back (some f) packet arg = f packet arg

  -- The `while` loop over the packets that `csp_read` returns.
  unfoldable pub read_loop : Callback A → List Packet → A → Result × A
  unfolding call_back
  read_loop f [] arg = (minus_one, arg)
  read_loop f (packet ∷ packets) arg =
      let head = byte_at packet.data_bytes 0 in
      let end = bit_and head PacketType.flag_end == PacketType.flag_end in
      let error = bit_and head PacketType.flag_error in
      let (ok, arg') = if error == 0 then call_back f packet arg else (true, arg) in
      let rest = read_loop f packets arg' in
      if ok then (if end then (error_bit error, arg') else rest) else (minus_one, arg')

  -- The answer, the callback's argument and the world. A packet is sent before the timeout is looked at.
  unfoldable pub proc_transaction :
      {W : Type 0} → Packet → Callback A → A → Link → Network W → W → Result × (A × W)
  unfolding read_loop
  proc_transaction packet f arg link net w =
      let (packets, w') = net packet w in
      let (result, arg') = read_loop f packets arg in
      if link.conn_ok
      then (if is_forever link.timeout then (minus_one, (arg, w')) else (result, (arg', w')))
      else (minus_one, (arg, w))

-- `packet->data[0] = type; packet->data[0] |= PROC_FLAG_END; packet->data[1] = proc_slot;`
unfoldable pub write_header : ℕ → ℕ → Packet → Packet
write_header type proc_slot packet = record packet {
  data_bytes = write (write packet.data_bytes 0 (bit_or type PacketType.flag_end)) 1 proc_slot;
}

-- The same with `packet->length = 2`.
unfoldable pub slot_request : ℕ → ℕ → Packet → Packet
unfolding write_header
slot_request type proc_slot packet = record (write_header type proc_slot packet) {
  packet_length = 2;
}

abbrev is_unpacked : Unpacked → Bool
is_unpacked fault = false
is_unpacked (failed filled count) = false
is_unpacked (unpacked p) = true

unfoldable pub unpack_proc_callback : Packet → Option Unpacked → Bool × Option Unpacked
unpack_proc_callback packet arg =
    let result = unpack_proc_from_csp_packet packet in (is_unpacked result, some result)

-- What the callback of `proc_slots_request` writes: `*slot_count` and the first so many `slots`. The
-- count is a `uint8_t`.
unfoldable pub process_slots_response : Packet → List ℕ × ℕ → Bool × (List ℕ × ℕ)
process_slots_response packet arg =
    let slot_count = (packet.packet_length + 255) % 256 in
    (true, (take slot_count (drop 1 packet.data_bytes), slot_count))

module _ {W : Type 0} (link : Link) (net : Network W) where
  unfoldable pub proc_del_request : Option Packet → ℕ → W → Result × W
  unfolding slot_request proc_transaction
  proc_del_request none proc_slot w = (minus_two, w)
  proc_del_request (some packet) proc_slot w =
      let (result, (arg, w')) =
        proc_transaction (slot_request PacketType.del_request proc_slot packet) none (tt {0}) link
          net w in
      (result, w')

  unfoldable pub proc_pull_request : Option Packet → ℕ → W → Result × (Option Unpacked × W)
  unfolding slot_request proc_transaction unpack_proc_callback
  proc_pull_request none proc_slot w = (minus_two, (none, w))
  proc_pull_request (some packet) proc_slot w =
      proc_transaction (slot_request PacketType.pull_request proc_slot packet)
        (some unpack_proc_callback) none link net w

  -- The result of the packing is not looked at.
  unfoldable pub proc_push_request : ℕ → Option Packet → Proc → ℕ → W → Result × W
  unfolding write_header proc_transaction
  proc_push_request csp_buffer_size none p proc_slot w = (minus_two, w)
  proc_push_request csp_buffer_size (some packet) p proc_slot w =
      let packed = (pack_proc_into_csp_packet csp_buffer_size p packet).1 in
      let (result, (arg, w')) =
        proc_transaction (write_header PacketType.push_request proc_slot packed) none (tt {0}) link
          net w in
      (result, w')

  unfoldable pub proc_slots_request : Option Packet → List ℕ × ℕ → W → Result × ((List ℕ × ℕ) × W)
  unfolding proc_transaction process_slots_response
  proc_slots_request none slots w = (minus_two, (slots, w))
  proc_slots_request (some packet) slots w =
      proc_transaction
        (record packet {
          data_bytes =
              write packet.data_bytes 0 (bit_or PacketType.slots_request PacketType.flag_end);
          packet_length = 1;
        })
        (some process_slots_response) slots link net w

  unfoldable pub proc_run_request : Option Packet → ℕ → W → Result × W
  unfolding slot_request proc_transaction
  proc_run_request none proc_slot w = (minus_two, w)
  proc_run_request (some packet) proc_slot w =
      let (result, (arg, w')) =
        proc_transaction (slot_request PacketType.run_request proc_slot packet) none (tt {0}) link
          net w in
      (result, w')
