-- ===== src/Analyze/Collect.antt =====
-- `collect_proc_slots` of src/proc_analyze.c. An entry of `sub_analyses` is the slot whose analysis it is;
-- `wild` follows an entry that was never written. It recurses without a mark, so it has fuel.
use csp_proc.Common.{
  ℕ, zero, suc, ◌<◌, ◌≡◌, subst, ◌⊎◌, inl, inr, List, [], ◌∷◌, ◌++◌, Option, none, some, All,
  Option-cases, arith,
}
use csp_proc.Analyze.{Analysis}

pub data Collected : Type 0 where
  out_of_fuel : Collected
  wild : Collected
  collected : List ℕ → Collected

-- The loop over `sub_analyses`, with the recursive call.
unfoldable pub collect_loop :
    (Analysis → List ℕ → Collected) → (ℕ → Option Analysis) → List ℕ → List ℕ → Collected
collect_loop call g [] slots = collected slots
collect_loop call g (sub ∷ subs) slots = elim (g sub) [
  | none ↦ wild
  | some a ↦ elim (call a slots) [
    | out_of_fuel ↦ out_of_fuel
    | wild ↦ wild
    | collected slots' ↦ collect_loop call g subs slots'
  ]
]

unfoldable pub collect_proc_slots : ℕ → (ℕ → Option Analysis) → Analysis → List ℕ → Collected
collect_proc_slots zero g a slots = out_of_fuel
collect_proc_slots (suc fuel) g a slots =
    collect_loop (collect_proc_slots fuel g) g a.sub_analyses (slots ++ a.procedure_slots)

abbrev pub IsMember : ℕ → List ℕ → Type 0
IsMember sub [] = ⊥
IsMember sub (s ∷ subs) = (s ≡ sub) ⊎ IsMember sub subs

module _ (g : ℕ → Option Analysis) where
  abbrev Ends : Collected → Type 0
  Ends out_of_fuel = ⊥
  Ends wild = ⊥
  Ends (collected slots) = Unit

  -- A loop that ends has ended the first call, and the rest of the loop.
  loop_step :
      (call : Analysis → List ℕ → Collected) (s : ℕ) (subs slots : List ℕ)
      → Ends (collect_loop call g (s ∷ subs) slots)
      → (a : Analysis) × (g s ≡ some a)
        × Ends (call a slots)
        × ((slots' : List ℕ) × Ends (collect_loop call g subs slots'))
  unfolding collect_loop
  loop_step call s subs slots ends = elim (Option-cases (g s)) [
    | inl e ↦ absurd (rw (collect_loop, e) at ends)
    | inr (a, e) ↦
        let (ended, rest) = go a (call a slots) (rw (collect_loop, e) at ends) in
        (a, e, ended, rest)
  ]
    where
      go :
          (a : Analysis) (r : Collected)
          → Ends (elim r as (λ x. Collected) [
            | out_of_fuel ↦ out_of_fuel
            | wild ↦ wild
            | collected slots' ↦ collect_loop call g subs slots'
          ])
          → Ends r × ((slots' : List ℕ) × Ends (collect_loop call g subs slots'))
      go a out_of_fuel h = absurd h
      go a wild h = absurd h
      go a (collected slots') h = (tt, (slots', h))

  collect_loop_stuck :
      (call : Analysis → List ℕ → Collected) (sub : ℕ) (a : Analysis)
      → g sub ≡ some a
      → ((slots : List ℕ) → ¬ Ends (call a slots))
      → (subs slots : List ℕ) → IsMember sub subs
      → ¬ Ends (collect_loop call g subs slots)
  collect_loop_stuck call sub a e never [] slots m ends = absurd m
  collect_loop_stuck call sub a e never (s ∷ subs) slots (inl same) ends =
      let (b, e', ended, rest) = loop_step call s subs slots ends in
      let one : b ≡ a = cc (e, e', same) in never slots (subst (λ x. Ends (call x slots)) one ended)
  collect_loop_stuck call sub a e never (s ∷ subs) slots (inr m) ends =
      let (b, e', ended, (slots', rest)) = loop_step call s subs slots ends in
      collect_loop_stuck call sub a e never subs slots' m rest

  -- For an analysis among whose `sub_analyses` is itself, as that of a procedure that calls itself, the
  -- collection never ends, however much fuel it gets.
  pub collect_proc_slots_self :
      (fuel sub : ℕ) (a : Analysis) (slots : List ℕ)
      → g sub ≡ some a
      → IsMember sub a.sub_analyses
      → ¬ Ends (collect_proc_slots fuel g a slots)
  unfolding collect_proc_slots
  collect_proc_slots_self zero sub a slots e m ends = ends
  collect_proc_slots_self (suc fuel) sub a slots e m ends =
      collect_loop_stuck (collect_proc_slots fuel g) sub a e
        (λ slots' ends'. collect_proc_slots_self fuel sub a slots' e m ends') a.sub_analyses
        (slots ++ a.procedure_slots) m ends

  -- Where no analysis leads back to itself: along every entry of `sub_analyses`, all of which are written,
  -- `rank` gets smaller.
  abbrev pub IsAcyclic : (ℕ → ℕ) → Type 0
  IsAcyclic rank =
      (sub : ℕ) (a : Analysis)
      → g sub ≡ some a
      → All (λ s. (rank s < rank sub) × ((b : Analysis) × (g s ≡ some b))) a.sub_analyses

  collect_loop-Ends :
      (call : Analysis → List ℕ → Collected) (P : ℕ → Type 0)
      → ((s : ℕ) (b : Analysis) (slots : List ℕ) → g s ≡ some b → P s → Ends (call b slots))
      → (subs slots : List ℕ) → All (λ s. P s × ((b : Analysis) × (g s ≡ some b))) subs
      → Ends (collect_loop call g subs slots)
  unfolding collect_loop
  collect_loop-Ends call P each [] slots h = tt
  collect_loop-Ends call P each (s ∷ subs) slots h =
      let (b, e) = h.0.1 in
      rw (collect_loop, e)
        (go (λ slots'. collect_loop-Ends call P each subs slots' h.1) (call b slots)
          (each s b slots e h.0.0))
    where
      go :
          ((slots' : List ℕ) → Ends (collect_loop call g subs slots'))
          → (r : Collected) → Ends r
          → Ends (elim r as (λ x. Collected) [
            | out_of_fuel ↦ out_of_fuel
            | wild ↦ wild
            | collected slots' ↦ collect_loop call g subs slots'
          ])
      go later out_of_fuel i = absurd i
      go later wild i = absurd i
      go later (collected slots') i = later slots'

  -- The collection ends for the analysis of a slot from which none leads back to itself, with fuel for the
  -- slot's rank and one more.
  pub collect_proc_slots-Ends :
      (rank : ℕ → ℕ) (fuel sub : ℕ) (a : Analysis) (slots : List ℕ)
      → IsAcyclic rank
      → g sub ≡ some a
      → rank sub < fuel
      → Ends (collect_proc_slots fuel g a slots)
  unfolding collect_proc_slots
  collect_proc_slots-Ends rank zero sub a slots acyclic e h = absurd (omega arith)
  collect_proc_slots-Ends rank (suc fuel) sub a slots acyclic e h =
      collect_loop-Ends (collect_proc_slots fuel g) (λ s. rank s < rank sub)
        (λ s b slots' e' less.
          collect_proc_slots-Ends rank fuel s b slots' acyclic e' (omega (arith, less)))
        a.sub_analyses (slots ++ a.procedure_slots) (acyclic sub a e)
