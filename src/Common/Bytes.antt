-- ===== src/Common/Bytes.antt =====
-- Little-endian fields: what `memcpy` of a `uint16_t` or an `enum` moves to and from a buffer.
use Prim.Native.Nat.{ℕ, zero, suc, ◌+◌, ◌*◌, ◌/◌, ◌%◌, ◌^◌, ◌<◌}
use mathlib.Core.Path.{◌≡◌, refl, ap}
use mathlib.Core.List.{List, [], ◌∷◌}
use native.Mathlib.Omega.{arith}
use native.Mathlib.Nat.{pow-suc}
use csp_proc.Common.Lists.{length, All}

abbrev pub IsByte : ℕ → Type 0
IsByte b = b < 256

-- The `k` bytes of `v`, lowest first.
unfoldable pub bytes_of : ℕ → ℕ → List ℕ
bytes_of zero v = []
bytes_of (suc k) v = (v % 256) ∷ bytes_of k (v / 256)

unfoldable pub value_of : List ℕ → ℕ
value_of [] = 0
value_of (b ∷ bs) = b + 256 * value_of bs

pub length-bytes_of : (k v : ℕ) → length (bytes_of k v) ≡ k
unfolding bytes_of
length-bytes_of zero v = refl
length-bytes_of (suc k) v = ap suc (length-bytes_of k (v / 256))

pub bytes_of-IsByte : (k v : ℕ) → All IsByte (bytes_of k v)
unfolding bytes_of
bytes_of-IsByte zero v = tt
bytes_of-IsByte (suc k) v = (omega arith, bytes_of-IsByte k (v / 256))

pub value_of-bytes_of : (k v : ℕ) → v < 256 ^ k → value_of (bytes_of k v) ≡ v
unfolding bytes_of value_of
value_of-bytes_of zero v h = omega arith
value_of-bytes_of (suc k) v h = omega (arith, value_of-bytes_of k (v / 256) (omega arith))

pub bytes_of-value_of : (bs : List ℕ) → All IsByte bs → bytes_of (length bs) (value_of bs) ≡ bs
unfolding bytes_of value_of
bytes_of-value_of [] h = refl
bytes_of-value_of (b ∷ bs) h = ground (
  arith,
  bytes_of-value_of bs h.1,
  let e : (b + 256 * value_of bs) / 256 ≡ value_of bs = omega arith in e,
  let e : (b + 256 * value_of bs) % 256 ≡ b = omega arith in e,
)

pub value_of-lt : (bs : List ℕ) → All IsByte bs → value_of bs < 256 ^ length bs
unfolding value_of
value_of-lt [] h = omega arith
value_of-lt (b ∷ bs) h = rw pow-suc (omega (arith, value_of-lt bs h.1))
