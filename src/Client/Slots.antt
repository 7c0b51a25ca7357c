-- ===== src/Client/Slots.antt =====
-- `proc_slots_request` against a serving node.
use native.Mathlib.Nat.{add-zero}
use csp_proc.Common.{
  ℕ, suc, ◌+◌, ◌%◌, ◌≤◌, ◌≡◌, refl, ap, ◌∙◌, List, [], ◌∷◌, ◌++◌, append_assoc, length,
  length-append, take, take-append_le, take-length, drop, true, false, Option, none, some, arith,
}
use csp_proc.Common.Lists.{set as write}
use csp_proc.Types.{max_proc_slot}
use csp_proc.Store.{Store}
use csp_proc.Store.Map.{view, is_some}
use csp_proc.Store.Slots.{Lists, get_proc_slots-Lists, Lists-free, Lists-full}
use csp_proc.Server.{write_slots, success_response, proc_serve_slots_request, Run, proc_serve}
use csp_proc.Client.{
  error_bit, read_loop, proc_transaction, process_slots_response, proc_slots_request,
}
use csp_proc.Client.EndToEnd.{buffer, connected, serving}

write-length :
    (pre : List ℕ) (x y : ℕ) (rest : List ℕ)
    → write (pre ++ x ∷ rest) (length pre) y ≡ pre ++ y ∷ rest
write-length [] x y rest = refl
write-length (z ∷ pre) x y rest = ap (λ (t : List ℕ). z ∷ t) (write-length pre x y rest)

-- The server's copying loop behind `pre`, which it has already written.
write_slots_lem :
    (slots pre : List ℕ) (head : ℕ) (rest : List ℕ) (used : ℕ)
    → length slots ≤ length rest
    → write_slots slots
        (length pre)
        (record { data_bytes = head ∷ (pre ++ rest); packet_length = used })
      ≡ record {
        data_bytes = head ∷ (pre ++ (slots ++ drop (length slots) rest));
        packet_length = used + length slots;
      }
unfolding write_slots
write_slots_lem [] pre head rest used h = rw add-zero
write_slots_lem (slot ∷ slots) pre head [] used h = absurd (omega arith)
write_slots_lem (slot ∷ slots) pre head (x ∷ rest) used h =
    let one : length (pre ++ slot ∷ []) ≡ suc (length pre) =
      omega (arith, length-append pre (slot ∷ [])) in
    let sum : used + 1 + length slots ≡ used + suc (length slots) = omega arith in
    let ih = write_slots_lem slots (pre ++ slot ∷ []) head rest (used + 1) (omega arith) in
    rw (write-length pre x slot rest) (
      rw
        (
          append_assoc pre (slot ∷ []) rest,
          append_assoc pre (slot ∷ []) (slots ++ drop (length slots) rest),
          one,
          sum,
        )
        at ih)

-- The count on the client's side, a `uint8_t`.
count_wraps : (k : ℕ) → (1 + k + 255) % 256 ≡ k % 256
count_wraps k = omega arith

module _ {Runtime : Type 0} (n : ℕ) (run : Option (Run Runtime)) where
  -- `proc_slots_request` to a healthy node, with buffers that have room for 256 slots: it returns 0, the
  -- count is the number of occupied slots modulo 256, and the array holds the first so many of the node's
  -- occupied slots.
  proc_slots_request-Lists :
      (a b : ℕ) (rest : List ℕ) (used t : ℕ) (old : List ℕ × ℕ) (s : Store) (r : Runtime)
      → 255 ≤ length rest
      → (slots : List ℕ) × Lists s slots
        × (proc_slots_request (connected t) (serving n run) (some (buffer a b rest used)) old (s, r)
            ≡ (
              error_bit 0,
              (
                (take (length slots % 256) slots, length slots % 256),
                (record s { held = false }, r),
              ),
            ))
  unfolding proc_slots_request proc_transaction read_loop process_slots_response serving proc_serve
      proc_serve_slots_request success_response
  proc_slots_request-Lists a b rest used t old s r room =
      let (slots, listed, lists) = get_proc_slots-Lists s in
      (
        slots,
        lists,
        rw listed (
            rw (write_slots_lem slots [] 135 (b ∷ rest) 1 (omega (arith, lists.bounded))) (
              rw count_wraps (
                rw (
                  take-append_le (length slots % 256) slots (drop (length slots) (b ∷ rest))
                    (omega arith))))),
      )

  -- While some slot of a healthy node is free and the buffer has 257 bytes, the client gets every occupied
  -- slot: the request returns 0, and the array and its count are the whole list.
  pub proc_slots_request-all :
      (a b : ℕ) (rest : List ℕ) (used t : ℕ) (old : List ℕ × ℕ) (s : Store) (r : Runtime) (free : ℕ)
      → 255 ≤ length rest
      → free ≤ max_proc_slot
      → view s free ≡ none
      → (slots : List ℕ) × Lists s slots
        × (proc_slots_request (connected t) (serving n run) (some (buffer a b rest used)) old (s, r)
            ≡ (error_bit 0, ((slots, length slots), (record s { held = false }, r))))
  proc_slots_request-all a b rest used t old s r free room small empty =
      let (slots, lists, answer) = proc_slots_request-Lists a b rest used t old s r room in
      let count : length slots % 256 ≡ length slots =
        omega (arith, Lists-free s slots free lists small empty) in
      (slots, lists, answer ∙ rw count (rw (take-length slots)))

  -- With all 256 slots of a healthy node occupied, and a buffer of 257 bytes, the count wraps around: the
  -- request returns 0 and the client is told that no slot is occupied.
  pub proc_slots_request-full :
      (a b : ℕ) (rest : List ℕ) (used t : ℕ) (old : List ℕ × ℕ) (s : Store) (r : Runtime)
      → 255 ≤ length rest
      → ((slot : ℕ) → is_some (view s slot) ≡ true)
      → proc_slots_request (connected t) (serving n run) (some (buffer a b rest used)) old (s, r)
        ≡ (error_bit 0, (([], 0), (record s { held = false }, r)))
  proc_slots_request-full a b rest used t old s r room full =
      let (slots, lists, answer) = proc_slots_request-Lists a b rest used t old s r room in
      let count : length slots % 256 ≡ 0 = omega (arith, Lists-full s slots lists full) in
      answer ∙ rw count
