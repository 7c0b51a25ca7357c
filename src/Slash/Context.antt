-- ===== src/Slash/Context.antt =====
-- `proc pull` of src/slash/slash_csp_proc.c on a node that serves requests (src/proc_server.c): what becomes of
-- the current procedure.
use csp_proc.Common.{ℕ, ◌+◌, ◌≤◌, ◌≡◌, refl, ◌∙◌, List, ◌∷◌, length, Option, none, some, false}
use csp_proc.Types.{Proc, IsValidProc}
use csp_proc.Pack.Format.{encode_proc}
use csp_proc.Store.{Store}
use csp_proc.Store.Map.{view}
use csp_proc.Server.{Run}
use csp_proc.Client.{error_bit}
use csp_proc.Client.EndToEnd.{
  serving, connected, buffer, proc_pull_request-view, proc_pull_request-empty,
}
use csp_proc.Slash.{Text, atoi, success}
use csp_proc.Slash.Requests.{
  Net, Words, request_words, node_word, link_to, proc_pull, wild, pulled, proc_pull-sends,
  proc_pull-wild,
}

module _ {Runtime : Type 0} (n : ℕ) (run : Option (Run Runtime)) (net : Net (Store × Runtime))
    (argv ws : List Text) (word : Text) (r : Words) where
  -- `proc pull` of a slot that holds a valid procedure makes that procedure the current one, whatever was
  -- current before; the procedure has to fit into a packet, and the node to be reached with a timeout.
  pub proc_pull-switches :
      (current : Option Proc) (p : Proc) (a b : ℕ) (rest : List ℕ) (used t : ℕ) (s : Store)
      (q : Runtime)
      → request_words net argv ≡ some r
      → r.words ≡ word ∷ ws
      → atoi word ≤ 255
      → link_to net (node_word r.node ws) r.timeout ≡ connected t
      → net.network (node_word r.node ws) ≡ serving n run
      → net.csp_buffer_get (s, q) ≡ some (buffer a b rest used)
      → IsValidProc p
      → length (encode_proc p) + 2 ≤ n
      → view s (atoi word) ≡ some p
      → proc_pull net argv current (s, q)
        ≡ (pulled (success, some p), (record s { held = false }, q))
  proc_pull-switches current p a b rest used t s q e f small link node buf v fits stored =
      proc_pull-sends net argv ws word r current (s, q) e f small
      ∙ rw
          (
            link,
            node,
            buf,
            proc_pull_request-view n run p (atoi word) a b rest used t s q v fits stored,
          )
          refl

  -- `proc pull` of an empty slot of a node that is reached with a timeout: the request fails before the new
  -- procedure is written, and the command frees it all the same, reading its count and its array from
  -- memory that was never written.
  pub proc_pull-empty :
      (current : Option Proc) (a b : ℕ) (rest : List ℕ) (used t : ℕ) (s : Store) (q : Runtime)
      → request_words net argv ≡ some r
      → r.words ≡ word ∷ ws
      → atoi word ≤ 255
      → link_to net (node_word r.node ws) r.timeout ≡ connected t
      → net.network (node_word r.node ws) ≡ serving n run
      → net.csp_buffer_get (s, q) ≡ some (buffer a b rest used)
      → view s (atoi word) ≡ none
      → proc_pull net argv current (s, q) ≡ (wild, (record s { held = false }, q))
  proc_pull-empty current a b rest used t s q e f small link node buf empty =
      proc_pull-wild net argv ws word r current (s, q) (record s { held = false }, q) (error_bit 64)
        e f small
        (rw (link, node, buf) (proc_pull_request-empty n run (atoi word) a b rest used t s q empty))
        refl
