-- ===== src/Server.antt =====
-- src/proc_server.c: the requests that a node serves. The answers of `proc_mutex_take` and
-- `proc_malloc` are in `Env`; `proc_runtime_run` is a weak symbol, so it is an optional argument.
pub mod PacketType
pub mod Frame
pub mod Valid
pub mod Startup
mod Tests
use Prim.Native.Nat.{bit_and, bit_or}
use csp_proc.Common.{
  ℕ, zero, suc, ◌+◌, List, [], ◌∷◌, length, Bool, true, false, Option, none, some, ◌==◌,
  if◌then◌else◌,
}
use csp_proc.Common.Lists.{set as write}
use csp_proc.Types.{Proc}
use csp_proc.Pack.{
  Packet, Unpacked, fault, failed, unpacked, wild_frees, pack_proc_into_csp_packet,
  unpack_proc_from_csp_packet,
}
use csp_proc.Store.{
  Store, Status, is_negative, Found, null, found, bad_address, delete_proc, get_proc, set_proc,
  get_proc_slots,
}

-- What the environment answers while one request is served.
pub record Env : Type 0 where
  pub lock_ok : Bool
  pub malloc_ok : Bool

-- What becomes of the packet: a reply is sent, it is freed, it is dropped without a reply, or the code
-- has undefined behaviour (a wild read, write or free). With `undefined` the store and the runtime that are
-- returned beside it mean nothing: the code may have done anything to them.
pub data Reaction : Type 0 where
  reply : Packet → Reaction
  freed : Reaction
  dropped : Reaction
  undefined : Reaction

-- `packet->data[i]`; a packet's buffer is longer than any index that is read.
abbrev pub byte_at : List ℕ → ℕ → ℕ
byte_at [] i = 0
byte_at (b ∷ bs) zero = b
byte_at (b ∷ bs) (suc i) = byte_at bs i

-- `packet->data[0] = type; packet->data[0] |= PROC_FLAG_END;`
unfoldable pub mark_response : ℕ → Packet → Packet
mark_response type packet = record packet {
  data_bytes = write packet.data_bytes 0 (bit_or type PacketType.flag_end);
}

-- The same with `packet->length = 1`.
unfoldable pub success_response : ℕ → Packet → Packet
unfolding mark_response
success_response type packet = record (mark_response type packet) { packet_length = 1 }

unfoldable pub error_response : ℕ → Packet → Packet
error_response type packet = record packet {
  data_bytes =
      write packet.data_bytes 0 (bit_or (bit_or type PacketType.flag_end) PacketType.flag_error);
  packet_length = 1;
}

unfoldable pub proc_serve_del_request : Env → Packet → Store → Reaction × Store
proc_serve_del_request env packet s =
    let slot = byte_at packet.data_bytes 1 in
    (reply (success_response PacketType.del_response packet), (delete_proc env.lock_ok slot s).1)

unfoldable pub finish_pull : Bool × Packet → Reaction
finish_pull (false, packet) = reply (error_response PacketType.pull_response packet)
finish_pull (true, packet) = reply (mark_response PacketType.pull_response packet)

unfoldable pub answer_pull : ℕ → Packet → Found → Reaction
answer_pull csp_buffer_size packet null = reply (error_response PacketType.pull_response packet)
answer_pull csp_buffer_size packet (found p) =
    finish_pull (pack_proc_into_csp_packet csp_buffer_size p packet)
answer_pull csp_buffer_size packet bad_address = undefined

unfoldable pub proc_serve_pull_request : ℕ → Env → Packet → Store → Reaction × Store
unfolding finish_pull answer_pull
proc_serve_pull_request csp_buffer_size env packet s =
    let slot = byte_at packet.data_bytes 1 in
    let (stored, s') = get_proc env.lock_ok slot s in
    (answer_pull csp_buffer_size packet stored, s')

-- `free_proc` in the error path must not visit entries that were never written.
unfoldable pub push_failure : ℕ → Packet → Reaction
push_failure wild packet =
    if wild == 0 then reply (error_response PacketType.push_response packet) else undefined

unfoldable pub finish_push : Packet → Status × Store → Reaction × Store
finish_push packet (status, s) =
    if is_negative status
    then (push_failure 0 packet, s)
    else (reply (success_response PacketType.push_response packet), s)

unfoldable pub store_push : Env → Packet → Store → Unpacked → Reaction × Store
store_push env packet s fault = (undefined, s)
store_push env packet s (failed filled count) =
    (push_failure (wild_frees (failed filled count)) packet, s)
store_push env packet s (unpacked p) =
    finish_push packet (set_proc env.lock_ok p (byte_at packet.data_bytes 1) false s)

-- Without memory the function returns and sends no reply.
unfoldable pub proc_serve_push_request : Env → Packet → Store → Reaction × Store
unfolding push_failure finish_push store_push
proc_serve_push_request env packet s =
    if env.malloc_ok
    then store_push env packet s (unpack_proc_from_csp_packet packet)
    else (dropped, s)

-- The loop that copies the slots to `data[1]`, `data[2]` and so on and counts them in the length.
unfoldable pub write_slots : List ℕ → ℕ → Packet → Packet
write_slots [] i packet = packet
write_slots (slot ∷ slots) i packet = write_slots slots (suc i) (record packet {
  data_bytes = write packet.data_bytes (suc i) slot;
  packet_length = packet.packet_length + 1;
})

unfoldable pub answer_slots : Packet → Option (List ℕ) → Reaction
answer_slots packet none = undefined
answer_slots packet (some slots) =
    reply (write_slots slots 0 (success_response PacketType.slots_response packet))

unfoldable pub proc_serve_slots_request : Env → Packet → Store → Reaction × Store
unfolding answer_slots
proc_serve_slots_request env packet s =
    let (slots, s') = get_proc_slots env.lock_ok s in (answer_slots packet slots, s')

-- `proc_runtime_run` reads the store, changes the rest of a node's state, and returns whether its result
-- was 0; `none` is undefined behaviour.
abbrev pub Run : Type 0 → Type 0
Run Runtime = ℕ → Store → Runtime → Option Bool × Runtime

module _ {Runtime : Type 0} where
  unfoldable pub finish_run : Packet → Store → Option Bool × Runtime → Reaction × (Store × Runtime)
  finish_run packet s (none, r) = (undefined, (s, r))
  finish_run packet s (some ok, r) =
      if ok
      then (reply (success_response PacketType.run_response packet), (s, r))
      else (reply (error_response PacketType.run_response packet), (s, r))

  unfoldable pub proc_serve_run_request :
      Option (Run Runtime) → Packet → Store → Runtime → Reaction × (Store × Runtime)
  unfolding finish_run
  proc_serve_run_request none packet s r =
      (reply (error_response PacketType.run_response packet), (s, r))
  proc_serve_run_request (some run) packet s r =
      finish_run packet s (run (byte_at packet.data_bytes 1) s r)

  abbrev with_runtime : Runtime → Reaction × Store → Reaction × (Store × Runtime)
  with_runtime r (x, s) = (x, (s, r))

  unfoldable pub proc_serve :
      ℕ → Option (Run Runtime) → Env → Packet → Store → Runtime → Reaction × (Store × Runtime)
  proc_serve csp_buffer_size run env packet s r =
      let type = bit_and (byte_at packet.data_bytes 0) PacketType.type_mask in
      if type == PacketType.del_request
      then with_runtime r (proc_serve_del_request env packet s)
      else (if type == PacketType.pull_request
          then with_runtime r (proc_serve_pull_request csp_buffer_size env packet s)
          else (if type == PacketType.push_request
              then with_runtime r (proc_serve_push_request env packet s)
              else (if type == PacketType.slots_request
                  then with_runtime r (proc_serve_slots_request env packet s)
                  else (if type == PacketType.run_request
                      then proc_serve_run_request run packet s r
                      else (freed, (s, r))))))
