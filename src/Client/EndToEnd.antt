-- ===== src/Client/EndToEnd.antt =====
-- Client and server together: the client's requests over a network that is one serving node.
use csp_proc.Common.{
  ℕ, ◌+◌, ◌≤◌, ◌<◌, ◌≡◌, refl, ◌∙◌, List, [], ◌∷◌, ◌++◌, length, drop, drop-append_add, true, false,
  Option, none, some, ==_refl, All, arith,
}
use csp_proc.Types.{Proc, IsValidProc, instruction_count}
use csp_proc.Pack.{Packet, unpacked}
use csp_proc.Pack.Format.{encode_proc, All-valid-known, HasKnownType}
use csp_proc.Pack.Pack.{pack_proc_into_csp_packet-packed, pack_proc_into_csp_packet_large}
use csp_proc.Pack.Unpack.{unpack_proc-encode}
use csp_proc.Store.{Store, returned, minus_one, is_negative, set_proc}
use csp_proc.Store.Map.{view, entry, assign, set_proc-assign, get_proc-view}
use csp_proc.Server.{
  Env, Reaction, reply, freed, dropped, undefined, mark_response, success_response, error_response,
  proc_serve_push_request, proc_serve_pull_request, Run, proc_serve,
}
use csp_proc.Client.{
  error_bit, Network, Link, read_loop, call_back, proc_transaction, write_header, slot_request,
  unpack_proc_callback, proc_push_request, proc_pull_request,
}

-- What a client reads after one packet has been served.
abbrev pub replies : Reaction → List Packet
replies (reply packet) = packet ∷ []
replies freed = []
replies dropped = []
replies undefined = []

-- A node on which locks and allocations succeed.
abbrev pub healthy : Env
healthy = record { lock_ok = true; malloc_ok = true }

-- A connection that can be opened, with a timeout.
abbrev pub connected : ℕ → Link
connected t = record { conn_ok = true; timeout = some t }

-- A buffer of libcsp with at least two bytes.
abbrev pub buffer : ℕ → ℕ → List ℕ → ℕ → Packet
buffer a b rest used = record { data_bytes = a ∷ b ∷ rest; packet_length = used }

set_proc_free :
    (p : Proc) (slot : ℕ) (s : Store)
    → view s slot ≡ none
    → (set_proc true p slot false s).0 ≡ returned slot
set_proc_free p slot s free = rw free at ((set_proc-assign p slot false s).0)

view-set_proc_free :
    (p : Proc) (slot : ℕ) (s : Store)
    → view s slot ≡ none
    → (i : ℕ) → view (set_proc true p slot false s).1 i ≡ assign (view s) slot (entry p) i
view-set_proc_free p slot s free i = rw free at ((set_proc-assign p slot false s).1 i)

module _ {Runtime : Type 0} (n : ℕ) (run : Option (Run Runtime)) where
  unfoldable pub serving : Network (Store × Runtime)
  serving packet (s, r) =
      let (reaction, w) = proc_serve n run healthy packet s r in (replies reaction, w)

  -- A push request for a free slot: the procedure is stored and the answer reports success.
  serve_push :
      (p : Proc) (slot : ℕ) (rest : List ℕ) (used : ℕ) (s : Store) (r : Runtime)
      → IsValidProc p
      → view s slot ≡ none
      → serving (buffer 132 slot (encode_proc p ++ rest) used) (s, r)
        ≡ (buffer 133 slot (encode_proc p ++ rest) 1 ∷ [], ((set_proc true p slot false s).1, r))
  unfolding serving proc_serve proc_serve_push_request is_negative success_response
  serve_push p slot rest used s r v free =
      rw (unpack_proc-encode p (132 ∷ slot ∷ []) rest used v refl)
        (rw (set_proc_free p slot s free) refl)

  -- A pull request for an occupied slot: the answer holds the procedure.
  serve_pull :
      (p : Proc) (slot : ℕ) (rest : List ℕ) (used : ℕ) (s : Store) (r : Runtime)
      → IsValidProc p
      → view s slot ≡ some p
      → length (encode_proc p) + 2 ≤ n
      → serving (buffer 130 slot rest used) (s, r) ≡ (
        buffer 131 slot
              (encode_proc p ++ drop (length (encode_proc p)) rest)
              (length (encode_proc p) + 2)
            ∷ [],
        (record s { held = false }, r),
      )
  unfolding serving proc_serve proc_serve_pull_request mark_response
  serve_pull p slot rest used s r v stored fits = rw (get_proc-view slot s) (
      rw stored (
        rw
          (pack_proc_into_csp_packet-packed n p (buffer 130 slot rest used) (omega arith)
            (All-valid-known p.instructions v.1) fits)
          (rw (drop-append_add (130 ∷ slot ∷ []) rest (length (encode_proc p))))))

  -- `proc_push_request` of a valid procedure that is not empty and fits into a packet, to a healthy node
  -- with a free slot: it returns 0, the slot then holds the procedure and every other slot what it held
  -- before, and the runtime is as before.
  pub proc_push_request-stores :
      (p : Proc) (slot a b : ℕ) (rest : List ℕ) (used t : ℕ) (s : Store) (r : Runtime)
      → IsValidProc p
      → 0 < instruction_count p
      → length (encode_proc p) + 2 ≤ n
      → view s slot ≡ none
      → let after =
          proc_push_request (connected t) serving n (some (buffer a b rest used)) p slot (s, r) in
        (after.0 ≡ error_bit 0)
        × ((i : ℕ) → view after.1.0 i ≡ assign (view s) slot (some p) i)
        × (after.1.1 ≡ r)
  unfolding proc_push_request write_header proc_transaction read_loop
  proc_push_request-stores p slot a b rest used t s r v some_code fits free =
      rw
        (pack_proc_into_csp_packet-packed n p (buffer a b rest used) (omega arith)
          (All-valid-known p.instructions v.1) fits)
        (rw (serve_push p slot _ _ s r v free)
          (refl, λ i. view-set_proc_free p slot s free i ∙ ground arith, refl))

  -- `proc_pull_request` from a healthy node of a slot with a valid procedure that fits into a packet: it
  -- returns 0, the client has the slot's procedure, and of the node only the mutex may have changed, which
  -- is free.
  pub proc_pull_request-view :
      (p : Proc) (slot a b : ℕ) (rest : List ℕ) (used t : ℕ) (s : Store) (r : Runtime)
      → IsValidProc p
      → length (encode_proc p) + 2 ≤ n
      → view s slot ≡ some p
      → proc_pull_request (connected t) serving (some (buffer a b rest used)) slot (s, r)
        ≡ (error_bit 0, (some (unpacked p), (record s { held = false }, r)))
  unfolding proc_pull_request slot_request proc_transaction read_loop unpack_proc_callback call_back
  proc_pull_request-view p slot a b rest used t s r v fits stored =
      rw (serve_pull p slot rest 2 s r v stored fits)
        (rw (unpack_proc-encode p (131 ∷ slot ∷ []) (drop (length (encode_proc p)) rest) _ v refl))

  -- A pull of an empty slot: the answer has the error bit, and the client's procedure is not written.
  pub proc_pull_request-empty :
      (slot a b : ℕ) (rest : List ℕ) (used t : ℕ) (s : Store) (r : Runtime)
      → view s slot ≡ none
      → proc_pull_request (connected t) serving (some (buffer a b rest used)) slot (s, r)
        ≡ (error_bit 64, (none, (record s { held = false }, r)))
  unfolding proc_pull_request slot_request proc_transaction read_loop unpack_proc_callback call_back
      serving proc_serve proc_serve_pull_request error_response
  proc_pull_request-empty slot a b rest used t s r empty = rw (get_proc-view slot s) (rw empty refl)

  -- Push, then pull: after a push of a valid procedure that is not empty and fits into a packet to a free
  -- slot of a healthy node, a pull of that slot returns 0 and the same procedure, whatever the two client
  -- buffers held.
  pub pull-push :
      (p : Proc) (slot a b a' b' : ℕ) (rest rest' : List ℕ) (used used' t : ℕ) (s : Store)
      (r : Runtime)
      → IsValidProc p
      → 0 < instruction_count p
      → length (encode_proc p) + 2 ≤ n
      → view s slot ≡ none
      → let after =
          (proc_push_request
            (connected t)
            serving
            n
            (some (buffer a b rest used))
            p
            slot
            (s, r)).1 in
        let pulled =
          proc_pull_request (connected t) serving (some (buffer a' b' rest' used')) slot after in
        (pulled.0 ≡ error_bit 0) × (pulled.1.0 ≡ some (unpacked p))
  pull-push p slot a b a' b' rest rest' used used' t s r v some_code fits free =
      let after =
        (proc_push_request (connected t) serving n (some (buffer a b rest used)) p slot (s, r)).1 in
      let pushed = proc_push_request-stores p slot a b rest used t s r v some_code fits free in
      let here : view after.0 slot ≡ some p = rw (==_refl slot) at (pushed.1 slot) in
      let pulled = proc_pull_request-view p slot a' b' rest' used' t after.0 after.1 v fits here in
      (rw pulled, rw pulled)

  -- A push of a valid procedure that fits into a packet to an occupied slot of a healthy node is refused:
  -- the client gets the error bit and no slot changes.
  pub proc_push_request-occupied :
      (p q : Proc) (slot a b : ℕ) (rest : List ℕ) (used t : ℕ) (s : Store) (r : Runtime)
      → IsValidProc p
      → length (encode_proc p) + 2 ≤ n
      → view s slot ≡ some q
      → let after =
          proc_push_request (connected t) serving n (some (buffer a b rest used)) p slot (s, r) in
        (after.0 ≡ error_bit 64) × ((i : ℕ) → view after.1.0 i ≡ view s i)
  unfolding proc_push_request write_header proc_transaction read_loop serving proc_serve
      proc_serve_push_request is_negative error_response
  proc_push_request-occupied p q slot a b rest used t s r v fits taken =
      let refused : (set_proc true p slot false s).0 ≡ minus_one =
        rw taken at ((set_proc-assign p slot false s).0) in
      let kept : (i : ℕ) → view (set_proc true p slot false s).1 i ≡ view s i =
        λ i. rw taken at ((set_proc-assign p slot false s).1 i) in
      rw
        (pack_proc_into_csp_packet-packed n p (buffer a b rest used) (omega arith)
          (All-valid-known p.instructions v.1) fits)
        (rw (unpack_proc-encode p (132 ∷ slot ∷ []) _ _ v refl) (rw refused (refl, kept)))

  -- The result of the packing is not looked at: when `p`, of known types, is too large, the request carries
  -- whatever the buffer held. If that is the format of another valid procedure `q` that is not empty, the
  -- length that the buffer had before covers it, so that all of it is sent, and the slot of a healthy node is
  -- free, then `q` is stored and `proc_push_request` returns 0.
  pub proc_push_request-oversize :
      (p q : Proc) (slot a b : ℕ) (rest : List ℕ) (used t : ℕ) (s : Store) (r : Runtime)
      → All HasKnownType p.instructions
      → n < length (encode_proc p) + 2
      → IsValidProc q
      → 0 < instruction_count q
      → length (encode_proc q) + 2 ≤ used
      → view s slot ≡ none
      → let after =
          proc_push_request
            (connected t)
            serving
            n
            (some (buffer a b (encode_proc q ++ rest) used))
            p
            slot
            (s, r) in
        (after.0 ≡ error_bit 0) × (view after.1.0 slot ≡ some q)
  unfolding proc_push_request write_header proc_transaction read_loop
  proc_push_request-oversize p q slot a b rest used t s r known large v some_code sent free =
      rw (pack_proc_into_csp_packet_large n p (buffer a b (encode_proc q ++ rest) used) known large)
        (rw (serve_push q slot rest _ s r v free)
          (refl, view-set_proc_free q slot s free slot ∙ ground arith))
