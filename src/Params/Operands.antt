-- ===== src/Params/Operands.antt =====
-- Parameters as operands in src/runtime/proc_runtime_instructions_common.c: their types, and the operations on `double`.
use csp_proc.Common.{
  ℕ, ◌+◌, ◌-◌, ◌/◌, ◌%◌, ◌^◌, List, [], ◌∷◌, ◌++◌, length, Bool, Option, none, some, ltb,
  if◌then◌else◌,
}
use csp_proc.Common.Bytes.{bytes_of}
use csp_proc.Common.Int.{ℤ, pos, negsuc}

abbrev pub Text : Type 0
Text = List ℕ

-- The enumerators of `param_type_e` that the code names.
pub data ParamType : Type 0 where
  uint8 uint16 uint32 uint64 int8 int16 int32 int64 xint8 xint16 xint32 xint64 float double string
        data_block invalid :
      ParamType

-- `param_t`, as far as it is looked at.
pub record Param : Type 0 where
  pub name : Text
  pub type : ParamType
  pub param_node : ℕ
  pub array_size : ℕ
  pub read_only : Bool

-- The operations on `double`, over 64-bit patterns; a `float` is a 32-bit pattern.
pub record Doubles : Type 0 where
  pub of_float : ℕ → ℕ
  pub to_float : ℕ → ℕ
  pub plus : ℕ → ℕ → ℕ
  pub minus : ℕ → ℕ → ℕ
  pub times : ℕ → ℕ → ℕ
  pub over : ℕ → ℕ → ℕ
  pub negated : ℕ → ℕ
  pub nought : ℕ
  pub one : ℕ
  pub epsilon : ℕ
  pub less : ℕ → ℕ → Bool
  pub at_least : ℕ → ℕ → Bool
  pub same : ℕ → ℕ → Bool

-- What the code calls; a failure is a negative result there, `false` or `none` here.
pub record Libparam (W : Type 0) : Type 0 where
  pub ifaces : W → List ℕ
  pub param_list_download : ℕ → W → Bool × W
  pub params : W → List Param
  pub strmatch : Text → Text → Bool
  pub param_pull_single : Param → ℤ → ℕ → W → Bool × W
  pub param_get : Param → ℕ → W → ℕ
  pub string_at : ℕ → W → Text
  pub addr_string : Param → W → Text
  pub param_str_to_value : ParamType → Text → Option (List ℕ)
  pub param_set : Param → ℕ → List ℕ → W → W
  pub reset_timestamp : Param → W → W
  pub param_push_single : Param → ℤ → List ℕ → ℕ → W → Bool × W
  pub type_code : ParamType → ℕ
  -- What `sscanf` with `%d` makes of a number that no `int` holds.
  pub int_overflow : ℤ → ℤ
  pub doubles : Doubles

pub data OperandType : Type 0 where
  operand_uint operand_int operand_float operand_string : OperandType

-- `operand_type_t` as a number.
abbrev pub operand_type_code : OperandType → ℕ
operand_type_code operand_uint = 0
operand_type_code operand_int = 1
operand_type_code operand_float = 2
operand_type_code operand_string = 3

-- `operand_t`; `bits` are the 64 bits of its union.
pub record Operand : Type 0 where
  pub source_type : ParamType
  pub operand_type : OperandType
  pub bits : ℕ

-- The cast of a pattern of `w` bits to `int64_t`.
abbrev pub sign_extend : ℕ → ℕ → ℕ
sign_extend w v = if ltb v (2 ^ w / 2) then v else v + (2 ^ 64 - 2 ^ w)

-- The operand's type and bits for what the variable of the parameter's type holds after `param_get`.
unfoldable pub operand_of : Doubles → ParamType → ℕ → Option (OperandType × ℕ)
operand_of d uint8 v = some (operand_uint, v % 2 ^ 8)
operand_of d xint8 v = some (operand_uint, v % 2 ^ 8)
operand_of d int8 v = some (operand_int, sign_extend 8 (v % 2 ^ 8))
operand_of d uint16 v = some (operand_uint, v % 2 ^ 16)
operand_of d xint16 v = some (operand_uint, v % 2 ^ 16)
operand_of d int16 v = some (operand_int, sign_extend 16 (v % 2 ^ 16))
operand_of d uint32 v = some (operand_uint, v % 2 ^ 32)
operand_of d xint32 v = some (operand_uint, v % 2 ^ 32)
operand_of d int32 v = some (operand_int, sign_extend 32 (v % 2 ^ 32))
operand_of d uint64 v = some (operand_uint, v % 2 ^ 64)
operand_of d xint64 v = some (operand_uint, v % 2 ^ 64)
operand_of d int64 v = some (operand_int, v % 2 ^ 64)
operand_of d float v = some (operand_float, d.of_float (v % 2 ^ 32))
operand_of d double v = some (operand_float, v % 2 ^ 64)
operand_of d string v = some (operand_string, v % 2 ^ 64)
operand_of d data_block v = none
operand_of d invalid v = none

-- `offset < 0 ? 0 : offset`
abbrev pub index_of : ℤ → ℕ
index_of (pos n) = n
index_of (negsuc n) = 0

-- `valuebuf` after a successful write to it; a string of 128 characters or more overflows it.
pub data Valuebuf : Type 0 where
  bad_type : Valuebuf
  overflow : Valuebuf
  filled : List ℕ → Valuebuf

-- `strcpy` to `valuebuf`, which has 128 bytes.
abbrev copy_string : Text → Valuebuf
copy_string s = if ltb (length s) 128 then filled (s ++ 0 ∷ []) else overflow

-- `operand_to_valuebuf`, given the string that the operand may point to.
unfoldable pub valuebuf_of : Doubles → ParamType → ℕ → Text → Valuebuf
valuebuf_of d uint8 bits s = filled (bytes_of 1 bits)
valuebuf_of d xint8 bits s = filled (bytes_of 1 bits)
valuebuf_of d uint16 bits s = filled (bytes_of 2 bits)
valuebuf_of d xint16 bits s = filled (bytes_of 2 bits)
valuebuf_of d uint32 bits s = filled (bytes_of 4 bits)
valuebuf_of d xint32 bits s = filled (bytes_of 4 bits)
valuebuf_of d uint64 bits s = filled (bytes_of 8 bits)
valuebuf_of d xint64 bits s = filled (bytes_of 8 bits)
valuebuf_of d int8 bits s = filled (bytes_of 1 bits)
valuebuf_of d int16 bits s = filled (bytes_of 2 bits)
valuebuf_of d int32 bits s = filled (bytes_of 4 bits)
valuebuf_of d int64 bits s = filled (bytes_of 8 bits)
valuebuf_of d float bits s = filled (bytes_of 4 (d.to_float bits))
valuebuf_of d double bits s = filled (bytes_of 8 bits)
valuebuf_of d string bits s = copy_string s
valuebuf_of d data_block bits s = bad_type
valuebuf_of d invalid bits s = bad_type
