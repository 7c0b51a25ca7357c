-- ===== src/Slash/Tests.antt =====
-- Runs of the commands of src/slash/slash_csp_proc.c in a shell without options, and their theorems
-- applied to them.
use csp_proc.Common.{◌≡◌, refl, List, [], ◌∷◌, All, true, none, some, ltb, if◌then◌else◌, arith}
use csp_proc.Types.{op_le, block, call, noop, Proc, IsText, IsValidProc, instruction_count}
use csp_proc.Pack.Copy.{proc_copy_instruction, copy_payload}
use csp_proc.Slash.{
  atoi, Text, Parsed, Shell, success, einval, comparison_op_str, pop_step, shift_from, shift_loop,
  proc_new,
}
use csp_proc.Slash.Commands.{command_of}
use csp_proc.Slash.Valid.{IsValidCurrent, command_of-IsValidProc}
use csp_proc.Common.{ℕ, ◌+◌, ◌≤◌, length, false}
use csp_proc.Common.Bytes.{bytes_of}
use csp_proc.Pack.Format.{encode_payload, encode_instruction, encode_all, encode_proc}
use csp_proc.Store.{Store, empty_proc}
use csp_proc.Client.EndToEnd.{buffer, serving}
use csp_proc.Slash.Requests.{Net, Words, request_words, proc_pull, wild}
use csp_proc.Slash.Context.{proc_pull-empty}
use csp_proc.Slash.Pop.{without, pop_step-without}
use csp_proc.Slash.Listing.{print_int, digits}

-- No word is an option.
abbrev plain : Shell
plain = record {
  optparse_parse =
      λ argv. some (record { argi = 0; node_option = none; instruction_option = none });
  slash_dfl_node = 3;
}

abbrev no_options : Parsed
no_options = record { argi = 0; node_option = none; instruction_option = none }

-- block a <= b 5
abbrev block_line : List Text
block_line = (98 ∷ []) ∷ (97 ∷ []) ∷ (60 ∷ 61 ∷ []) ∷ (98 ∷ []) ∷ (53 ∷ []) ∷ []

abbrev two_steps : Proc
two_steps = record {
  instructions = record { node = 1; payload = noop } ∷ record { node = 2; payload = call 7 } ∷ [];
}

two_steps-IsValidProc : IsValidProc two_steps
two_steps-IsValidProc = (omega arith, ((omega arith, tt), ((omega arith, omega arith), tt)))

atoi_test : atoi (32 ∷ 45 ∷ 49 ∷ 50 ∷ 120 ∷ []) ≡ 4294967284
unfolding atoi
atoi_test = refl

new_test : proc_new true (some two_steps) ≡ (success, some (record { instructions = [] }))
unfolding proc_new
new_test = refl

pop_first_test :
    pop_step 0 two_steps
    ≡ (success, some (record { instructions = record { node = 2; payload = call 7 } ∷ [] }))
unfolding pop_step shift_from shift_loop proc_copy_instruction copy_payload
pop_first_test = refl

le_name : comparison_op_str op_le ≡ some (60 ∷ 61 ∷ [])
unfolding comparison_op_str
le_name = refl

block_line-IsText : All IsText block_line
block_line-IsText = ground arith

command_of-IsValidProc_example :
    IsValidCurrent
      (command_of (block (97 ∷ []) op_le (98 ∷ [])) plain block_line (some two_steps)).1
command_of-IsValidProc_example =
    command_of-IsValidProc (block (97 ∷ []) op_le (98 ∷ [])) plain block_line (some two_steps)
      block_line-IsText two_steps-IsValidProc

pop_step-without_example : pop_step 0 two_steps ≡ (
    if ltb 0 (instruction_count two_steps)
    then (success, some (without 0 two_steps))
    else (einval, some two_steps))
pop_step-without_example = pop_step-without 0 two_steps (tt, (tt, tt))

-- pop
abbrev pop_line : List Text
pop_line = (112 ∷ []) ∷ []

-- A net with one node that stores what `s` stores, and serves.
abbrev one_node : Net (Store × ℕ)
one_node = record {
  optparse_parse =
      λ argv. some (record { argi = 0; node_option = none; instruction_option = none }, none);
  slash_dfl_node = 3;
  slash_dfl_timeout = 100;
  csp_buffer_size = 8;
  csp_buffer_get = λ w. some (buffer 0 0 [] 0);
  conn_ok = λ n. true;
  network = λ n. serving 8 none;
}

-- pull 9
abbrev pull_line : List Text
pull_line = (112 ∷ []) ∷ (57 ∷ []) ∷ []

abbrev pull_words : Words
pull_words = record { node = 3; timeout = 100; words = (57 ∷ []) ∷ [] }

pull_words_read : request_words one_node pull_line ≡ some pull_words
unfolding request_words
pull_words_read = refl

nine : atoi (57 ∷ []) ≤ 255
unfolding atoi
nine = omega arith

abbrev one_step : Proc
one_step = record { instructions = record { node = 0; payload = noop } ∷ [] }

one_step-IsValidProc : IsValidProc one_step
one_step-IsValidProc = (omega arith, ((omega arith, tt), tt))

one_step_fits : length (encode_proc one_step) + 2 ≤ 8
unfolding encode_proc encode_all encode_instruction encode_payload bytes_of
one_step_fits = omega arith

abbrev full : Store
full = record { procs = λ i. one_step; held = false }

abbrev fresh : Store
fresh = record { procs = λ i. empty_proc; held = false }

proc_pull-empty_example :
    proc_pull one_node pull_line (some two_steps) (fresh, 0)
    ≡ (wild, (record fresh { held = false }, 0))
proc_pull-empty_example =
    proc_pull-empty 8 none one_node pull_line [] (57 ∷ []) pull_words (some two_steps) 0 0 [] 0 100
      fresh 0 pull_words_read refl nine refl refl refl refl

print_test : print_int 4294967284 ≡ b'-' ∷ b'1' ∷ b'2' ∷ []
unfolding print_int digits
print_test = refl
