-- ===== src/Slash/Requests.antt =====
-- The commands of src/slash/slash_csp_proc.c that send requests: `proc del`, `proc pull`, `proc push`,
-- `proc slots` and `proc run`; and `proc size`.
use csp_proc.Common.{
  ℕ, suc, ◌-◌, ◌^◌, ◌<◌, ◌≤◌, List, [], ◌∷◌, drop, Bool, false, Option, none, some, ◌==◌, ltb,
  if◌then◌else◌, ◌≡◌, refl, ◌∙◌, lt→ltb, le→ltb,
}
use csp_proc.Types.{Proc}
use csp_proc.Pack.{Packet, Unpacked, fault, failed, unpacked, wild_frees, calc_proc_size}
use csp_proc.Client.{
  Result, minus_two, minus_one, error_bit, Network, Link, proc_del_request, proc_pull_request,
  proc_push_request, proc_slots_request, proc_run_request,
}
use csp_proc.Slash.{atoi, Text, success, einval, Exit, Answer, Parsed, or_default}

-- slash and libcsp for these commands: `optparse_parse`, which may write a timeout too, the defaults, and how
-- the nodes are reached. A timeout of 2 ^ 32 - 1 is the -1 of the requests.
pub record Net (W : Type 0) : Type 0 where
  pub optparse_parse : List Text → Option (Parsed × Option ℕ)
  pub slash_dfl_node : ℕ
  pub slash_dfl_timeout : ℕ
  pub csp_buffer_size : ℕ
  pub csp_buffer_get : W → Option Packet
  pub conn_ok : ℕ → Bool
  pub network : ℕ → Network W

-- The node, the timeout and the words behind the options.
pub record Words : Type 0 where
  pub node : ℕ
  pub timeout : ℕ
  pub words : List Text

unfoldable pub request_words : {W : Type 0} → Net W → List Text → Option Words
request_words net argv = elim (net.optparse_parse (drop 1 argv)) [
  | none ↦ none
  | some r ↦ some (record {
    node = or_default net.slash_dfl_node r.0.node_option;
    timeout = or_default net.slash_dfl_timeout r.1;
    words = drop (suc r.0.argi) argv;
  })
]

abbrev pub node_word : ℕ → List Text → ℕ
node_word node [] = node
node_word node (w ∷ ws) = atoi w

abbrev pub link_to : {W : Type 0} → Net W → ℕ → ℕ → Link
link_to net node timeout = record {
  conn_ok = net.conn_ok node;
  timeout = if timeout == 2 ^ 32 - 1 then none else some timeout;
}

abbrev pub is_success : Result → Bool
is_success minus_two = false
is_success minus_one = false
is_success (error_bit n) = n == 0

abbrev pub exit_of : Result → Exit
exit_of r = if is_success r then success else einval

module _ {W : Type 0} (net : Net W) where
  -- What the commands with a slot have in common: the slot, the node and the timeout, and the test of the
  -- slot. A missing slot or one above 255 is SLASH_EINVAL.
  abbrev slot_words : {A : Type 0} → A → (ℕ → ℕ → ℕ → A) → ℕ → ℕ → List Text → A
  slot_words bad act node timeout [] = bad
  slot_words bad act node timeout (w ∷ ws) =
      if ltb 255 (atoi w) then bad else act (atoi w) (node_word node ws) timeout

  abbrev on_words : {A : Type 0} → A → (ℕ → ℕ → ℕ → A) → Option Words → A
  on_words bad act none = bad
  on_words bad act (some r) = slot_words bad act r.node r.timeout r.words

  abbrev exit_after : Result × W → Exit × W
  exit_after (r, w) = (exit_of r, w)

  abbrev send_del : W → ℕ → ℕ → ℕ → Exit × W
  send_del w slot node timeout =
      exit_after (
        proc_del_request (link_to net node timeout) (net.network node) (net.csp_buffer_get w) slot
          w)

  abbrev send_run : W → ℕ → ℕ → ℕ → Exit × W
  send_run w slot node timeout =
      exit_after (
        proc_run_request (link_to net node timeout) (net.network node) (net.csp_buffer_get w) slot
          w)

  abbrev send_push : Proc → W → ℕ → ℕ → ℕ → Exit × W
  send_push p w slot node timeout = exit_after (
      proc_push_request (link_to net node timeout) (net.network node) net.csp_buffer_size
        (net.csp_buffer_get w) p slot w)

  unfoldable pub proc_del : List Text → W → Exit × W
  proc_del argv w = on_words (einval, w) (send_del w) (request_words net argv)

  unfoldable pub proc_run : List Text → W → Exit × W
  proc_run argv w = on_words (einval, w) (send_run w) (request_words net argv)

  unfoldable pub proc_push : List Text → Option Proc → W → Exit × W
  proc_push argv none w = (einval, w)
  proc_push argv (some p) w = on_words (einval, w) (send_push p w) (request_words net argv)

-- What becomes of `current_procedure` in `proc pull`: `wild` is a free of a procedure that was not (wholly)
-- written.
pub data Pulled : Type 0 where
  wild : Pulled
  pulled : Answer → Pulled

-- A request that failed: the procedure as it was left is freed.
abbrev pub free_failed : Option Unpacked → Pulled
free_failed none = wild
free_failed (some fault) = wild
free_failed (some (failed filled count)) =
    if wild_frees (failed filled count) == 0 then pulled (einval, none) else wild
free_failed (some (unpacked p)) = pulled (einval, none)

abbrev pub keep_pulled : Option Unpacked → Pulled
keep_pulled (some (unpacked p)) = pulled (success, some p)
keep_pulled other = wild

module _ {W : Type 0} (net : Net W) where
  abbrev after_pull : Result × (Option Unpacked × W) → Pulled × W
  after_pull (r, (o, w)) = (if is_success r then keep_pulled o else free_failed o, w)

  abbrev send_pull : W → ℕ → ℕ → ℕ → Pulled × W
  send_pull w slot node timeout = after_pull (
      proc_pull_request (link_to net node timeout) (net.network node) (net.csp_buffer_get w) slot w)

  unfoldable pub proc_pull : List Text → Option Proc → W → Pulled × W
  proc_pull argv current w =
      on_words net (pulled (einval, current), w) (send_pull w) (request_words net argv)

  -- What is printed: the first `slot_count` slots.
  abbrev shown : Result × ((List ℕ × ℕ) × W) → Exit × (List ℕ × W)
  shown (r, ((slots, n), w)) = (exit_of r, (if is_success r then slots else [], w))

  unfoldable pub proc_slots : List Text → W → Exit × (List ℕ × W)
  proc_slots argv w = elim (request_words net argv) [
    | none ↦ (einval, ([], w))
    | some r ↦
        let node = node_word r.node r.words in
        shown (
          proc_slots_request (link_to net node r.timeout) (net.network node) (net.csp_buffer_get w)
            ([], 0) w)
  ]

-- `proc size`, with what it prints.
unfoldable pub proc_size : Option Proc → Exit × Option (Option ℕ)
proc_size none = (einval, none)
proc_size (some p) = (success, some (calc_proc_size p))

module _ {W : Type 0} (net : Net W) {A : Type 0} (bad : A) (act : ℕ → ℕ → ℕ → A) where
  on_words-rejects :
      (ws : List Text) (word : Text) (o : Option Words) (r : Words)
      → o ≡ some r
      → r.words ≡ word ∷ ws
      → 255 < atoi word
      → on_words net bad act o ≡ bad
  on_words-rejects ws word o r e f big = rw (e, f, lt→ltb 255 (atoi word) big) refl

  on_words-accepts :
      (ws : List Text) (word : Text) (o : Option Words) (r : Words)
      → o ≡ some r
      → r.words ≡ word ∷ ws
      → atoi word ≤ 255
      → on_words net bad act o ≡ act (atoi word) (node_word r.node ws) r.timeout
  on_words-accepts ws word o r e f small = rw (e, f, le→ltb 255 (atoi word) small) refl

module _ {W : Type 0} (net : Net W) (argv ws : List Text) (word : Text) (r : Words) where
  -- A slot above 255 is refused by all four commands that take one: nothing is sent, the world and the
  -- current procedure stay as they are.
  pub slot_out_of_range :
      (p : Proc) (w : W)
      → request_words net argv ≡ some r
      → r.words ≡ word ∷ ws
      → 255 < atoi word
      → (proc_del net argv w ≡ (einval, w))
        × (proc_run net argv w ≡ (einval, w))
        × (proc_push net argv (some p) w ≡ (einval, w))
        × (proc_pull net argv (some p) w ≡ (pulled (einval, some p), w))
  unfolding proc_del proc_run proc_push proc_pull
  slot_out_of_range p w e f big = (
    on_words-rejects net (einval, w) (send_del net w) ws word (request_words net argv) r e f big,
    on_words-rejects net (einval, w) (send_run net w) ws word (request_words net argv) r e f big,
    on_words-rejects net (einval, w) (send_push net p w) ws word (request_words net argv) r e f big,
    on_words-rejects net (pulled (einval, some p), w) (send_pull net w) ws word
        (request_words net argv) r e f big,
  )

  pub proc_pull-sends :
      (current : Option Proc) (w : W)
      → request_words net argv ≡ some r
      → r.words ≡ word ∷ ws
      → atoi word ≤ 255
      → proc_pull net argv current w ≡ send_pull net w (atoi word) (node_word r.node ws) r.timeout
  unfolding proc_pull
  proc_pull-sends current w e f small =
      on_words-accepts net (pulled (einval, current), w) (send_pull net w) ws word
        (request_words net argv) r e f small

  -- A pull whose request fails without an unpacked answer frees a procedure that was never written.
  pub proc_pull-wild :
      (current : Option Proc) (w w' : W) (result : Result)
      → request_words net argv ≡ some r
      → r.words ≡ word ∷ ws
      → atoi word ≤ 255
      → proc_pull_request
          (link_to net (node_word r.node ws) r.timeout)
          (net.network (node_word r.node ws))
          (net.csp_buffer_get w)
          (atoi word)
          w
        ≡ (result, (none, w'))
      → is_success result ≡ false
      → proc_pull net argv current w ≡ (wild, w')
  proc_pull-wild current w w' result e f small sent fails =
      proc_pull-sends current w e f small ∙ rw (sent, fails) refl
