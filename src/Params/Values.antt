-- ===== src/Params/Values.antt =====
-- `parse_param_to_operand` and `operand_to_valuebuf` of src/runtime/proc_runtime_instructions_common.c as
-- inverse conversions: what an operand keeps of a parameter's value.
use csp_proc.Common.{
  ℕ, zero, suc, ◌∷◌, ◌+◌, ◌-◌, ◌*◌, ◌/◌, ◌%◌, ◌^◌, ◌<◌, ◌≡◌, refl, ◌∙◌, sym, ap, ap₂, Bool, some,
  arith, if◌then◌else◌, true, false,
}
use native.Mathlib.Nat.{pow-suc, mod-add-div}
use csp_proc.Common.Bytes.{bytes_of}
use csp_proc.Params.{
  Text, ParamType, uint8, uint16, uint32, uint64, int8, int16, int32, int64, xint8, xint16, xint32,
  xint64, float, double, string, data_block, invalid, Doubles, OperandType, operand_of, filled,
  valuebuf_of,
}

-- The number of bytes of a value of the type, 0 for the types that are no numbers.
abbrev pub size : ParamType → ℕ
size uint8 = 1
size xint8 = 1
size int8 = 1
size uint16 = 2
size xint16 = 2
size int16 = 2
size uint32 = 4
size xint32 = 4
size int32 = 4
size float = 4
size uint64 = 8
size xint64 = 8
size int64 = 8
size double = 8
size string = 0
size data_block = 0
size invalid = 0

-- Only the low bytes of a number are written.
bytes_of_low : (k v q : ℕ) → bytes_of k (v + 256 ^ k * q) ≡ bytes_of k v
unfolding bytes_of
bytes_of_low zero v q = refl
bytes_of_low (suc k) v q =
    let p : 256 ^ suc k * q ≡ 256 * (256 ^ k * q) = rw pow-suc (omega arith) in
    let head : (v + 256 ^ suc k * q) % 256 ≡ v % 256 = omega (arith, p) in
    let tail : (v + 256 ^ suc k * q) / 256 ≡ v / 256 + 256 ^ k * q = omega (arith, p) in
    ap₂ ◌∷◌ head (ap (bytes_of k) tail ∙ bytes_of_low k (v / 256) q)

bytes_of-% : (k v : ℕ) → bytes_of k (v % 256 ^ k) ≡ bytes_of k v
bytes_of-% k v =
    sym (bytes_of_low k (v % 256 ^ k) (v / 256 ^ k)) ∙ ap (bytes_of k) (mod-add-div v (256 ^ k))

-- Widening a pattern to 64 bits does not touch its low bytes.
bytes_of_wider :
    (k v q : ℕ) (b : Bool)
    → bytes_of k (if b then v % 256 ^ k else v % 256 ^ k + 256 ^ k * q) ≡ bytes_of k v
bytes_of_wider k v q true = bytes_of-% k v
bytes_of_wider k v q false = bytes_of_low k _ q ∙ bytes_of-% k v

written_as :
    {r r' : OperandType × ℕ} (k v : ℕ)
    → some r ≡ some r'
    → bytes_of k r.1 ≡ bytes_of k v
    → filled (bytes_of k r'.1) ≡ filled (bytes_of k v)
written_as {r = r} {r'} k v e same = let f : r.1 ≡ r'.1 = cc in rw (sym f) (ap filled same)

pub operand_of-some :
    (d : Doubles) (t : ParamType) (v : ℕ)
    → 0 < size t
    → (r : OperandType × ℕ) × (operand_of d t v ≡ some r)
unfolding operand_of
operand_of-some d string v n = absurd (omega arith)
operand_of-some d data_block v n = absurd (omega arith)
operand_of-some d invalid v n = absurd (omega arith)
operand_of-some d t v n = (_, refl)

-- The conversions between float and double give the value `v` of a `float` back.
abbrev pub Survives : Doubles → ParamType → ℕ → Type 0
Survives d t v = t ≡ float → d.to_float (d.of_float (v % 2 ^ 32)) ≡ v % 2 ^ 32

-- An operand that holds the value of a numeric parameter is written back as the bytes of that value: the
-- conversion to 64 bits and the conversion back lose nothing, for every numeric type. Of a float it is asked
-- that this value survives its way through double, as every one does but a signalling NaN.
pub valuebuf_of-operand_of :
    (d : Doubles) (t : ParamType) (v : ℕ) (s : Text) (r : OperandType × ℕ)
    → Survives d t v
    → 0 < size t
    → operand_of d t v ≡ some r
    → valuebuf_of d t r.1 s ≡ filled (bytes_of (size t) v)
unfolding operand_of valuebuf_of
valuebuf_of-operand_of d uint8 v s r survives n e = written_as 1 v e (bytes_of-% 1 v)
valuebuf_of-operand_of d xint8 v s r survives n e = written_as 1 v e (bytes_of-% 1 v)
valuebuf_of-operand_of d uint16 v s r survives n e = written_as 2 v e (bytes_of-% 2 v)
valuebuf_of-operand_of d xint16 v s r survives n e = written_as 2 v e (bytes_of-% 2 v)
valuebuf_of-operand_of d uint32 v s r survives n e = written_as 4 v e (bytes_of-% 4 v)
valuebuf_of-operand_of d xint32 v s r survives n e = written_as 4 v e (bytes_of-% 4 v)
valuebuf_of-operand_of d uint64 v s r survives n e = written_as 8 v e (bytes_of-% 8 v)
valuebuf_of-operand_of d xint64 v s r survives n e = written_as 8 v e (bytes_of-% 8 v)
valuebuf_of-operand_of d int64 v s r survives n e = written_as 8 v e (bytes_of-% 8 v)
valuebuf_of-operand_of d double v s r survives n e = written_as 8 v e (bytes_of-% 8 v)
valuebuf_of-operand_of d int8 v s r survives n e =
    written_as 1 v e (bytes_of_wider 1 v (2 ^ 56 - 1) _)
valuebuf_of-operand_of d int16 v s r survives n e =
    written_as 2 v e (bytes_of_wider 2 v (2 ^ 48 - 1) _)
valuebuf_of-operand_of d int32 v s r survives n e =
    written_as 4 v e (bytes_of_wider 4 v (2 ^ 32 - 1) _)
valuebuf_of-operand_of d float v s r survives n e =
    let f : r.1 ≡ d.of_float (v % 2 ^ 32) = cc in ap filled (rw (f, survives refl) (bytes_of-% 4 v))
valuebuf_of-operand_of d string v s r survives n e = absurd (omega arith)
valuebuf_of-operand_of d data_block v s r survives n e = absurd (omega arith)
valuebuf_of-operand_of d invalid v s r survives n e = absurd (omega arith)
