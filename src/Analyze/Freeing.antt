-- ===== src/Analyze/Freeing.antt =====
-- `free_proc_analysis` of src/proc_analyze.c, with the marks that are to keep it from freeing an analysis twice.
-- Analyses are named by numbers; what a number names is the graph's business.
use csp_proc.Common.{
  ℕ, zero, suc, List, [], ◌∷◌, Option, none, some, ◌==◌, if◌then◌else◌, ◌≡◌, ◌≢◌, refl, sym, ap,
  ==_refl, ne→==_false,
}

-- The memory of an analysis: `deallocation_mark` is 0 or 1, or it was freed.
pub data Mark : Type 0 where
  unmarked marked released : Mark

abbrev pub Marks : Type 0
Marks = ℕ → Mark

abbrev put_mark : ℕ → Mark → Marks → Marks
put_mark n m marks i = if i == n then m else marks i

-- How a call ends: it reads the mark of an analysis that was freed, or it returns. `out_of_fuel` is no outcome
-- of the code.
pub data Freeing : Type 0 where
  out_of_fuel : Freeing
  reads_released : Freeing
  done : Marks → Freeing

-- The loop over `sub_analyses`; `free` is the recursive call. An entry that is NULL or the analysis itself is
-- passed over before its mark is read.
unfoldable pub free_subs : (ℕ → Marks → Freeing) → ℕ → List (Option ℕ) → Marks → Freeing
free_subs free self [] marks = done marks
free_subs free self (none ∷ subs) marks = free_subs free self subs marks
free_subs free self (some n ∷ subs) marks =
    let rest = free_subs free self subs in
    if n == self then rest marks else (elim (marks n) [
      | unmarked ↦ elim (free n marks) [
        | out_of_fuel ↦ out_of_fuel
        | reads_released ↦ reads_released
        | done marks' ↦ rest marks'
      ]
      | marked ↦ rest marks
      | released ↦ reads_released
    ])

abbrev release : ℕ → Freeing → Freeing
release n out_of_fuel = out_of_fuel
release n reads_released = reads_released
release n (done marks) = done (put_mark n released marks)

-- `sub_analyses` of each analysis; the fuel bounds the depth of the recursion.
unfoldable pub free_proc_analysis : (ℕ → List (Option ℕ)) → ℕ → ℕ → Marks → Freeing
unfolding free_subs
free_proc_analysis subs zero n marks = out_of_fuel
free_proc_analysis subs (suc fuel) n marks =
    release n (free_subs (free_proc_analysis subs fuel) n (subs n) (put_mark n marked marks))

module _ (subs : ℕ → List (Option ℕ)) (fuel : ℕ) where
  free_leaf :
      (n : ℕ) (marks : Marks)
      → subs n ≡ []
      → free_proc_analysis subs (suc fuel) n marks
        ≡ done (put_mark n released (put_mark n marked marks))
  unfolding free_proc_analysis free_subs
  free_leaf n marks e = rw e refl

  free_after :
      (n m : ℕ) (marks : Marks)
      → subs n ≡ some m ∷ []
      → m ≢ n
      → marks m ≡ released
      → free_proc_analysis subs (suc fuel) n marks ≡ reads_released
  unfolding free_proc_analysis free_subs
  free_after n m marks e d r = rw (e, ne→==_false m n d, r) refl

  free_two :
      (free : ℕ → Marks → Freeing) (a b c : ℕ) (marks marks' : Marks)
      → b ≢ a
      → c ≢ a
      → marks b ≡ unmarked
      → free b marks ≡ done marks'
      → marks' c ≡ unmarked
      → free c marks' ≡ reads_released
      → free_subs free a (some b ∷ some c ∷ []) marks ≡ reads_released
  unfolding free_subs
  free_two free a b c marks marks' ba ca mb fb mc fc =
      rw (ne→==_false b a ba, mb, fb, ne→==_false c a ca, mc, fc) refl

-- An analysis a whose procedure calls b and c, where c calls b as well and b calls none: the mark of b is read
-- after b was freed.
pub free_proc_analysis-shared :
    (subs : ℕ → List (Option ℕ)) (fuel a b c : ℕ)
    → a ≢ b
    → a ≢ c
    → b ≢ c
    → subs a ≡ some b ∷ some c ∷ []
    → subs b ≡ []
    → subs c ≡ some b ∷ []
    → free_proc_analysis subs (suc (suc (suc fuel))) a (λ i. unmarked) ≡ reads_released
unfolding free_proc_analysis
free_proc_analysis-shared subs fuel a b c ab ac bc ea eb ec =
    let start : Marks = put_mark a marked (λ i. unmarked) in
    let next : Marks = put_mark b released (put_mark b marked start) in
    let b_a = ne→==_false b a (λ e. ab (sym e)) in
    let c_a = ne→==_false c a (λ e. ac (sym e)) in
    let c_b = ne→==_false c b (λ e. bc (sym e)) in
    let at_b : start b ≡ unmarked = rw b_a refl in
    let at_c : next c ≡ unmarked = rw (c_b, c_a) refl in
    let freed : next b ≡ released = rw (==_refl b) refl in
    let two =
      free_two subs fuel (free_proc_analysis subs (suc (suc fuel))) a b c start next
        (λ e. ab (sym e)) (λ e. ac (sym e)) at_b (free_leaf subs (suc fuel) b start eb) at_c
        (free_after subs (suc fuel) c b next ec bc freed) in
    rw ea (ap (release a) two)
