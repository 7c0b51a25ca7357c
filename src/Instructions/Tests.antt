-- ===== src/Instructions/Tests.antt =====
-- A node with two parameters, and the theorems on instructions applied to it.
use csp_proc.Common.{
  ◌⊎◌, ℕ, suc, ◌+◌, ◌-◌, ◌*◌, ◌/◌, ◌^◌, ◌≡◌, ◌↔◌, refl, [], ◌∷◌, Bool, true, false, none, some, ltb,
  leb, ◌==◌, arith, ◌&&◌,
}
use csp_proc.Analyze.{Analysis}
use csp_proc.Runtime.{exec_loop, flag_none}
use csp_proc.Types.{noop}
use csp_proc.Runtime.Branches.{and_then, perform}
use csp_proc.Params.{operand_uint, fetch_operand_param_pair, parse_param_to_operand, operand_of}
use csp_proc.Instructions.Ticks.{Ticker, block_with_ticks, block_with_ticks-wraps}
use csp_proc.Instructions.Execution.{alive, common_handlers, Compares, exec_loop-Compares}
use csp_proc.Common.Bytes.{bytes_of, value_of}
use csp_proc.Common.Int.{pos, negsuc, signed64, ◌*ℤ◌, ◌+ℤ◌, trunc_div}
use csp_proc.Types.{op_lt, op_add, op_div, op_mod, op_inc, op_idt, ifelse, unop, block, Instruction}
use csp_proc.Runtime.{Flag, flag_true, flag_false}
use csp_proc.Params.{
  Text, uint8, int8, uint16, Param, Doubles, Libparam, Operand, operand_int, proc_fetch_param,
  search_loop, index_of, proc_param_scan_offset, second_token, sscanf_int, number_in, decimal,
  cut_index, index_length, returned, ParamType, string,
}
use csp_proc.Params.Values.{size}
use csp_proc.Instructions.{compare_operands, int_value, unary_value, computed, proc_runtime_unop}
use csp_proc.Instructions.Conditions.{Holds, compare_operands-Holds}
use csp_proc.Instructions.Arithmetic.{Wraps, int_value-div_mod}
use csp_proc.Instructions.Effects.{proc_runtime_unop-copies}
use csp_proc.Instructions.Block.{Clock, IsTicking, proc_runtime_block, proc_runtime_block-ends}

-- Arithmetic on whole numbers stands for that on `double`.
abbrev whole : Doubles
whole = record {
  of_float = λ x. x;
  to_float = λ x. x;
  plus = λ x y. x + y;
  minus = λ x y. x - y;
  times = λ x y. x * y;
  over = λ x y. x / y;
  negated = λ x. x;
  nought = 0;
  one = 1;
  epsilon = 1;
  less = ltb;
  at_least = λ x y. leb y x;
  same = λ x y. x == y;
}

abbrev same_text : Text → Text → Bool
same_text [] [] = true
same_text [] (d ∷ t) = false
same_text (c ∷ s) [] = false
same_text (c ∷ s) (d ∷ t) = (c == d) && same_text s t

abbrev param_a : Param
param_a = record { name = 97 ∷ []; type = uint8; param_node = 0; array_size = 1; read_only = false }

abbrev param_b : Param
param_b = record {
  name = 98 ∷ [];
  type = uint16;
  param_node = 0;
  array_size = 4;
  read_only = false;
}

abbrev code : ParamType → ℕ
code string = 15
code _ = 4

-- The world is the value of `a` and the last value that was written.
abbrev node : Libparam (ℕ × ℕ)
node = record {
  ifaces = λ w. [];
  param_list_download = λ n w. (true, w);
  params = λ w. param_a ∷ param_b ∷ [];
  strmatch = same_text;
  param_pull_single = λ p z n w. (true, w);
  param_get = λ p i w. w.0;
  string_at = λ n w. [];
  addr_string = λ p w. [];
  param_str_to_value = λ t s. none;
  param_set = λ p i bytes w. (w.0, value_of bytes);
  reset_timestamp = λ p w. w;
  param_push_single = λ p z bytes n w. (true, w);
  type_code = code;
  int_overflow = λ z. z;
  doubles = whole;
}

-- b[2]
abbrev element : Text
element = 98 ∷ 91 ∷ 50 ∷ 93 ∷ []

fetch_a : proc_fetch_param node (97 ∷ []) 0 (7, 0) ≡ (some param_a, (7, 0))
unfolding proc_fetch_param search_loop proc_param_scan_offset second_token sscanf_int number_in
    decimal cut_index index_length
fetch_a = refl

fetch_b : proc_fetch_param node element 0 (7, 0) ≡ (some param_b, (7, 0))
unfolding proc_fetch_param search_loop proc_param_scan_offset second_token sscanf_int number_in
    decimal cut_index index_length
fetch_b = refl

element_offset : proc_param_scan_offset (λ z. z) element ≡ pos 2
unfolding proc_param_scan_offset second_token sscanf_int number_in decimal
element_offset = refl

proc_runtime_unop-copies_example :
    proc_runtime_unop node (record { node = 0; payload = unop (97 ∷ []) op_idt element }) (7, 0)
    ≡ returned 0 (
        node.param_set param_b 2
          (bytes_of
            (size uint8)
            (node.param_get param_a (index_of (proc_param_scan_offset (λ z. z) (97 ∷ []))) (7, 0)))
          (7, 0))
proc_runtime_unop-copies_example =
    proc_runtime_unop-copies node 0 (97 ∷ []) element (7, 0) (7, 0) (7, 0) param_a param_b 2 fetch_a
      (omega arith) (λ e. refl) fetch_b refl refl element_offset

-- -3 as an operand, and 5.
abbrev minus_three : Operand
minus_three = record { source_type = int8; operand_type = operand_int; bits = 2 ^ 64 - 3 }

abbrev five : Operand
five = record { source_type = int8; operand_type = operand_int; bits = 5 }

compare_operands-Holds_example :
    (compare_operands node op_lt param_a param_b minus_three five (7, 0) ≡ flag_true)
    ↔ Holds op_lt (negsuc 2) (pos 5)
compare_operands-Holds_example =
    compare_operands-Holds node op_lt param_a param_b minus_three five (negsuc 2) (pos 5) (7, 0)
      (omega arith) (omega arith) refl refl refl

small_quotient : trunc_div (signed64 (2 ^ 64 - 7)) (signed64 2) ≡ negsuc 2
unfolding trunc_div
small_quotient = refl

int_value-div_mod_example :
    (q : ℕ) × (r : ℕ) × (int_value op_div (2 ^ 64 - 7) 2 ≡ computed q)
    × (int_value op_mod (2 ^ 64 - 7) 2 ≡ computed r)
    × (signed64 q *ℤ signed64 2 +ℤ signed64 r ≡ signed64 (2 ^ 64 - 7))
int_value-div_mod_example =
    int_value-div_mod (2 ^ 64 - 7) 2 (λ e. omega (arith, e)) (omega arith) (omega arith)
      (rw small_quotient (omega arith, omega arith))

sum : int_value op_add (2 ^ 64 - 3) 5 ≡ computed 2
unfolding int_value ◌+ℤ◌
sum = refl

is_wrapping : Wraps op_add
unfolding Wraps
is_wrapping = tt

incremented : unary_value whole code op_inc minus_three ≡ computed (2 ^ 64 - 2)
unfolding unary_value ◌+ℤ◌
incremented = refl

-- The world counts seconds; the condition is never true.
abbrev seconds : Clock ℕ
seconds = record {
  clock_gettime = λ w. some (record { tv_sec = w; tv_nsec = 0 });
  unset = record { tv_sec = 0; tv_nsec = 0 };
  nanosleep = λ w. suc w;
}

abbrev never : Instruction → ℕ → Flag × ℕ
never ins w = (flag_false, w)

seconds-IsTicking : IsTicking seconds never (λ w. record { tv_sec = w; tv_nsec = 0 })
seconds-IsTicking = record {
  works = λ w. refl;
  normal = λ w. omega arith;
  tests = λ ins w. omega arith;
  sleeps = λ w. omega arith;
}

proc_runtime_block-ends_example :
    (r : ℕ × ℕ) × (proc_runtime_block seconds never 20001
        (record { node = 0; payload = block [] op_lt [] })
        3
      ≡ some r)
proc_runtime_block-ends_example =
    proc_runtime_block-ends seconds never (λ w. record { tv_sec = w; tv_nsec = 0 })
      seconds-IsTicking (record { node = 0; payload = block [] op_lt [] }) 3

fetch_whole_b : proc_fetch_param node (98 ∷ []) 0 (7, 0) ≡ (some param_b, (7, 0))
unfolding proc_fetch_param search_loop proc_param_scan_offset second_token sscanf_int number_in
    decimal cut_index index_length
fetch_whole_b = refl

abbrev seven : ParamType → Operand
seven t = record { source_type = t; operand_type = operand_uint; bits = 7 }

read_a : fetch_operand_param_pair node (97 ∷ []) 0 (7, 0) ≡ (some (param_a, seven uint8), (7, 0))
unfolding fetch_operand_param_pair proc_fetch_param search_loop proc_param_scan_offset second_token
    sscanf_int number_in decimal cut_index index_length parse_param_to_operand operand_of
read_a = refl

read_b : fetch_operand_param_pair node (98 ∷ []) 0 (7, 0) ≡ (some (param_b, seven uint16), (7, 0))
unfolding fetch_operand_param_pair proc_fetch_param search_loop proc_param_scan_offset second_token
    sscanf_int number_in decimal cut_index index_length parse_param_to_operand operand_of
read_b = refl

sevens : Compares node (97 ∷ []) (98 ∷ []) 0 (7, 0) (7, 0) (pos 7) (pos 7)
sevens = record {
  param_a = param_a;
  param_b = param_b;
  w₁ = (7, 0);
  w₂ = (7, 0);
  w₃ = (7, 0);
  operand_a = seven uint8;
  operand_b = seven uint16;
  pair_a = param_a;
  pair_b = param_b;
  finds_a = fetch_a;
  finds_b = fetch_whole_b;
  good_types = refl;
  reads_a = read_a;
  reads_b = read_b;
  small_a = omega arith;
  small_b = omega arith;
  same_type = refl;
  is_x = refl;
  is_y = refl;
}

abbrev still : Clock (ℕ × ℕ)
still = record {
  clock_gettime = λ w. none;
  unset = record { tv_sec = 0; tv_nsec = 0 };
  nanosleep = λ w. w;
}

abbrev idle : ℕ → Instruction
idle n = record { node = n; payload = noop }

abbrev choice : Analysis
choice = record {
  proc = record {
    instructions =
        record { node = 0; payload = ifelse (97 ∷ []) op_lt (98 ∷ []) } ∷ idle 1 ∷ idle 2 ∷ [];
  };
  sub_analyses = [];
  procedure_slots = [];
  tail_calls = false ∷ false ∷ false ∷ [];
}

exec_loop-Compares_example :
    let handlers = common_handlers node still in
    let run =
      exec_loop handlers (λ sub. none) (suc (suc (suc 1))) choice 0 flag_none 0 (alive (7, 0)) in
    let behind = exec_loop handlers (λ sub. none) 1 choice 3 flag_none 0 in
    (Holds op_lt (pos 7) (pos 7)
      × (run ≡ and_then handlers 0 (perform handlers (idle 1) (alive (7, 0))) behind))
    ⊎ ((¬ Holds op_lt (pos 7) (pos 7))
        × (run ≡ and_then handlers 0 (perform handlers (idle 2) (alive (7, 0))) behind))
exec_loop-Compares_example =
    exec_loop-Compares node still (λ sub. none) choice 0 1 0 (97 ∷ []) (98 ∷ []) op_lt 0 (idle 1)
      (idle 2) (7, 0) (7, 0) (pos 7) (pos 7) refl refl refl refl refl (λ k e. cc) sevens

-- A thousand ticks in a second, two thousand ticks before the count wraps around.
abbrev late : Ticker ℕ
late = record { tick_count = λ w. w; delay = λ w. w + 250; timeout_ticks = 5000000 }

block_with_ticks-wraps_example :
    block_with_ticks late never
      (suc 20000)
      (record { node = 0; payload = block [] op_lt [] })
      (2 ^ 32 - 2000)
    ≡ some (1, 2 ^ 32 - 2000)
block_with_ticks-wraps_example =
    block_with_ticks-wraps late never 20000 (record { node = 0; payload = block [] op_lt [] })
      (2 ^ 32 - 2000) (omega arith) (omega arith) (omega arith)
