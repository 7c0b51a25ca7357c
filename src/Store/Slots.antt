-- ===== src/Store/Slots.antt =====
-- `get_proc_slots` of the store, and lists of occupied slots.
use csp_proc.Common.{
  ℕ, zero, suc, ◌+◌, ◌≤◌, ◌<◌, ◌≡◌, refl, ◌∙◌, List, [], ◌∷◌, Bool, true, false, ◌&&◌, ◌||◌, none,
  some, ltb, leb, ◌==◌, length, All, arith,
}
use native.Mathlib.Decide.{dec_lt}
use csp_proc.Types.{Proc, instruction_count, max_proc_slot}
use csp_proc.Store.{Store, slots_loop, get_proc_slots}
use csp_proc.Store.Map.{view, is_some}

-- Whether a slot occurs in a list.
abbrev pub contains : List ℕ → ℕ → Bool
contains [] j = false
contains (x ∷ xs) j = x == j || contains xs j

-- Ascending, and from `low` up.
abbrev pub AscendsFrom : ℕ → List ℕ → Type 0
AscendsFrom low [] = Unit
AscendsFrom low (x ∷ xs) = (low ≤ x) × AscendsFrom (suc x) xs

AscendsFrom-le :
    (low low' : ℕ) (xs : List ℕ) → low ≤ low' → AscendsFrom low' xs → AscendsFrom low xs
AscendsFrom-le low low' [] h a = tt
AscendsFrom-le low low' (x ∷ xs) h a = (omega arith, a.1)

contains-slots_loop :
    (k i : ℕ) (procs : ℕ → Proc) (j : ℕ)
    → contains (slots_loop k i procs) j
      ≡ (leb i j && ltb j (i + k) && ltb 0 (instruction_count (procs j)))
unfolding slots_loop
contains-slots_loop zero i procs j = ground arith
contains-slots_loop (suc k) i procs j = ground (arith, contains-slots_loop k (suc i) procs j)

slots_loop-AscendsFrom : (k i : ℕ) (procs : ℕ → Proc) → AscendsFrom i (slots_loop k i procs)
unfolding slots_loop
slots_loop-AscendsFrom zero i procs = tt
slots_loop-AscendsFrom (suc k) i procs = ground (
  arith,
  slots_loop-AscendsFrom k (suc i) procs,
  AscendsFrom-le i (suc i) (slots_loop k (suc i) procs),
)

length-slots_loop : (k i : ℕ) (procs : ℕ → Proc) → length (slots_loop k i procs) ≤ k
unfolding slots_loop
length-slots_loop zero i procs = omega arith
length-slots_loop (suc k) i procs = ground (arith, length-slots_loop k (suc i) procs)

slots_loop-lt :
    (k i bound : ℕ) (procs : ℕ → Proc) → i + k ≤ bound → All (λ j. j < bound) (slots_loop k i procs)
unfolding slots_loop
slots_loop-lt zero i bound procs h = tt
slots_loop-lt (suc k) i bound procs h = ground (arith, slots_loop-lt k (suc i) bound procs)

-- A list of slots that lists a store's occupied slots.
pub record Lists (s : Store) (slots : List ℕ) : Type 0 where
  pub members : (j : ℕ) → contains slots j ≡ (leb j max_proc_slot && is_some (view s j))
  pub ascending : AscendsFrom 0 slots
  pub small : All (λ j. j < 256) slots
  pub bounded : length slots ≤ max_proc_slot + 1

-- When the mutex can be taken, `get_proc_slots` returns the occupied slots, each once and in ascending order,
-- at most 256 of them, and releases the mutex.
pub get_proc_slots-Lists :
    (s : Store)
    → (slots : List ℕ) × (get_proc_slots true s ≡ (some slots, record s { held = false }))
      × Lists s slots
unfolding get_proc_slots
get_proc_slots-Lists s = (
  slots_loop 256 0 s.procs,
  refl,
  record {
    members = λ j. contains-slots_loop 256 0 s.procs j ∙ ground arith;
    ascending = slots_loop-AscendsFrom 256 0 s.procs;
    small = slots_loop-lt 256 0 256 s.procs (omega arith);
    bounded = length-slots_loop 256 0 s.procs;
  },
)

-- How many slots from `low` up to `low + k` a list of ascending slots below `low + k` can have, at most
-- and, where all of them occur, exactly.
AscendsFrom-length :
    (xs : List ℕ) (low high : ℕ)
    → AscendsFrom low xs
    → All (λ j. j < high) xs
    → low ≤ high
    → length xs + low ≤ high
AscendsFrom-length [] low high a h le = omega arith
AscendsFrom-length (x ∷ xs) low high a h le =
    omega (arith, AscendsFrom-length xs (suc x) high a.1 h.1 (omega (arith, h.0)))

-- A slot below the first of an ascending list does not occur in it.
contains-below : (xs : List ℕ) (low j : ℕ) → AscendsFrom low xs → j < low → contains xs j ≡ false
contains-below [] low j a h = refl
contains-below (x ∷ xs) low j a h = ground (arith, contains-below xs (suc x) j a.1)

AscendsFrom-gap :
    (xs : List ℕ) (low high j : ℕ)
    → AscendsFrom low xs
    → All (λ i. i < high) xs
    → low ≤ j
    → j < high
    → contains xs j ≡ false
    → length xs + low < high
AscendsFrom-gap [] low high j a h le lt out = omega arith
AscendsFrom-gap (x ∷ xs) low high j a h le lt out = elim (dec_lt j x) [
  | yes p ↦ omega (arith, AscendsFrom-length xs (suc x) high a.1 h.1 (omega (arith, h.0)))
  | no q ↦
      let e : (x == j) ≡ false = ground arith in
      let e' : contains xs j ≡ false = ground arith in
      omega (arith, AscendsFrom-gap xs (suc x) high j a.1 h.1 (ground arith) lt e')
]

AscendsFrom-full :
    (k : ℕ) (xs : List ℕ) (low : ℕ)
    → AscendsFrom low xs
    → ((j : ℕ) → low ≤ j → j < low + k → contains xs j ≡ true)
    → k ≤ length xs
AscendsFrom-full zero xs low a h = omega arith
AscendsFrom-full (suc k) [] low a h = cc (h low (omega arith) (omega arith))
AscendsFrom-full (suc k) (x ∷ xs) low a h =
    let here : contains (x ∷ xs) low ≡ true = h low (omega arith) (omega arith) in
    let e : x ≡ low = ground (arith, contains-below xs (suc x) low a.1) in
    let ih =
      AscendsFrom-full k xs (suc x) a.1
        (λ j le lt. ground (arith, h j (omega arith) (omega arith))) in
    omega (arith, ih)

module _ (s : Store) (slots : List ℕ) where
  pub Lists-free :
      (free : ℕ) → Lists s slots → free ≤ max_proc_slot → view s free ≡ none → length slots < 256
  Lists-free free l small empty =
      let out : contains slots free ≡ false = l.members free ∙ ground arith in
      omega (
        arith,
        AscendsFrom-gap slots 0 256 free l.ascending l.small (omega arith) (omega arith) out,
      )

  pub Lists-full : Lists s slots → ((slot : ℕ) → is_some (view s slot) ≡ true) → length slots ≡ 256
  Lists-full l full =
      let most =
        AscendsFrom-full 256 slots 0 l.ascending
          (λ j le lt. l.members j ∙ ground (arith, full j)) in
      omega (arith, most, l.bounded)
