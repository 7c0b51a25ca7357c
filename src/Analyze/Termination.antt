-- ===== src/Analyze/Termination.antt =====
-- The depth of the recursion of `proc_analyze` in src/proc_analyze.c.
use csp_proc.Common.{
  ℕ, zero, suc, ◌+◌, ◌≤◌, ◌<◌, ◌≡◌, ◌≢◌, refl, List, [], ◌∷◌, ◌++◌, All, Bool, true, false, Option,
  none, some, ◌==◌, ne→==_false, ==_refl, if◌then◌else◌, Bool-cases, inl, inr, arith,
}
use native.Mathlib.Decide.{ℕ_discrete}
use csp_proc.Types.{Payload, block, call, Instruction, IsValid, IsValidPayload, Proc}
use csp_proc.Analyze.{
  Analysis, Config, mark, Progress, out_of_fuel, failed, going, link_analysis, analyze_call,
  analyze_round, analyze_loop, proc_analyze, analyze_instruction,
}

-- How many of the first `n` slots are not marked.
unfoldable pub unmarked : ℕ → (ℕ → Bool) → ℕ
unmarked zero f = 0
unmarked (suc n) f = (if f n then 0 else 1) + unmarked n f

abbrev pub marked : ℕ → (ℕ → Bool) → ℕ → Bool
marked slot f i = if i == slot then true else f i

unmarked-marked_above :
    (n slot : ℕ) (f : ℕ → Bool) → n ≤ slot → unmarked n (marked slot f) ≡ unmarked n f
unfolding unmarked
unmarked-marked_above zero slot f h = refl
unmarked-marked_above (suc n) slot f h =
    ground (arith, unmarked-marked_above n slot f (omega arith))

unmarked-marked :
    (n slot : ℕ) (f : ℕ → Bool)
    → slot < n
    → f slot ≡ false
    → unmarked n (marked slot f) + 1 ≡ unmarked n f
unfolding unmarked
unmarked-marked zero slot f h e = absurd (omega arith)
unmarked-marked (suc n) slot f h e = elim (ℕ_discrete n slot) [
  | yes p ↦
      rw p (rw (e, ==_refl slot) (omega (arith, unmarked-marked_above slot slot f (omega arith))))
  | no q ↦ rw (ne→==_false n slot q) (omega (arith, unmarked-marked n slot f (omega arith) e))
]

-- Marks are never taken back.
abbrev Grows : Config → Config → Type 0
Grows c c' = (i : ℕ) → c.analyzed_procs i ≡ true → c'.analyzed_procs i ≡ true

unmarked-Grows :
    (n : ℕ) (f g : ℕ → Bool) → ((i : ℕ) → f i ≡ true → g i ≡ true) → unmarked n g ≤ unmarked n f
unfolding unmarked
unmarked-Grows zero f g h = omega arith
unmarked-Grows (suc n) f g h = ground (arith, unmarked-Grows n f g h, h n)

-- An outcome other than running out of fuel, with at least the marks of `c`.
abbrev pub Ends : Config → Progress → Type 0
Ends c out_of_fuel = ⊥
Ends c (failed a c') = Grows c c'
Ends c (going a c') = Grows c c'

Ends-Grows : (c c' : Config) (r : Progress) → Grows c c' → Ends c' r → Ends c r
Ends-Grows c c' out_of_fuel h e = e
Ends-Grows c c' (failed a d) h e = λ i m. e i (h i m)
Ends-Grows c c' (going a d) h e = λ i m. e i (h i m)

unmarked-le : (n : ℕ) (f : ℕ → Bool) → unmarked n f ≤ n
unfolding unmarked
unmarked-le zero f = omega arith
unmarked-le (suc n) f = ground (arith, unmarked-le n f)

link_analysis-Ends :
    (c : Config) (slot : ℕ) (a : Analysis) (r : Progress)
    → Ends (mark slot c) r
    → Ends c (link_analysis slot a r)
unfolding link_analysis
link_analysis-Ends c slot a out_of_fuel h = h
link_analysis-Ends c slot a (failed sub c') h = λ i e. h i (ground arith)
link_analysis-Ends c slot a (going sub c') h = λ i e. h i (ground arith)

module _ (get_proc : ℕ → Option Proc)
    (stored : (slot : ℕ) (p : Proc) → get_proc slot ≡ some p → All IsValid p.instructions) where
  module _ (fuel : ℕ) (sub : Proc → Config → Progress)
      (sub_ends : (p : Proc) (c : Config)
        → All IsValid p.instructions
        → unmarked 256 c.analyzed_procs < fuel
        → Ends c (sub p c)) where
    call-Ends :
        (slot : ℕ) (a : Analysis) (c : Config)
        → slot < 256
        → unmarked 256 c.analyzed_procs < suc fuel
        → Ends c (analyze_call get_proc sub slot a c)
    unfolding analyze_call
    call-Ends slot a c small enough = go (get_proc slot) refl
      where
        go : (o : Option Proc) → get_proc slot ≡ o → Ends c (analyze_call get_proc sub slot a c)
        go none e = rw (analyze_call, e) (λ i h. h)
        go (some p) e = elim (Bool-cases (c.analyzed_procs slot)) [
          | inl known ↦ rw (analyze_call, e) (rw known (λ i h. h))
          | inr new ↦
              rw (analyze_call, e)
                (rw new (
                  link_analysis-Ends c slot _ _ (
                    sub_ends p (mark slot c) (stored slot p e) (
                      omega (arith, enough, unmarked-marked 256 slot c.analyzed_procs small new)))))
        ]

    round-Ends :
        (all : List Instruction) (i : ℕ) (ins : Instruction) (a : Analysis) (c : Config)
        → IsValid ins
        → unmarked 256 c.analyzed_procs < suc fuel
        → Ends c (analyze_round get_proc sub all i ins a c)
    unfolding analyze_round
    round-Ends all i ins a c v enough = go ins.payload v.1
      where
        a' : Analysis
        a' = record a { tail_calls = a.tail_calls ++ analyze_instruction all i ins ∷ [] }

        go :
            (p : Payload)
            → IsValidPayload p
            → Ends c (elim p [ call slot ↦ analyze_call get_proc sub slot a' c | _ ↦ going a' c ])
        go (call slot) small = call-Ends slot a' c small enough
        go (block x op y) h = λ j e. e
        go _ h = λ j e. e

    loop-Ends :
        (all : List Instruction) (i : ℕ) (is : List Instruction) (a : Analysis) (c : Config)
        → All IsValid is
        → unmarked 256 c.analyzed_procs < suc fuel
        → Ends c (analyze_loop get_proc sub all i is a c)
    unfolding analyze_loop
    loop-Ends all i [] a c v enough = λ j e. e
    loop-Ends all i (ins ∷ is) a c v enough =
        go (analyze_round get_proc sub all i ins a c) (round-Ends all i ins a c v.0 enough)
          (λ a' c' less. loop-Ends all (suc i) is a' c' v.1 less)
      where
        go :
            (r : Progress)
            → Ends c r
            → ((a' : Analysis) (c' : Config)
                → unmarked 256 c'.analyzed_procs < suc fuel
                → Ends c' (analyze_loop get_proc sub all (suc i) is a' c'))
            → Ends c (elim r [
              | out_of_fuel ↦ out_of_fuel
              | failed a' c' ↦ failed a' c'
              | going a' c' ↦ analyze_loop get_proc sub all (suc i) is a' c'
            ])
        go out_of_fuel h ih = h
        go (failed a' c') h ih = h
        go (going a' c') h ih =
            let less : unmarked 256 c'.analyzed_procs < suc fuel =
              omega (arith, enough, unmarked-Grows 256 c.analyzed_procs c'.analyzed_procs h) in
            Ends-Grows c c' _ h (ih a' c' less)

  analyze-Ends :
      (fuel : ℕ) (p : Proc) (c : Config)
      → All IsValid p.instructions
      → unmarked 256 c.analyzed_procs < fuel
      → Ends c (proc_analyze get_proc fuel p c)
  unfolding proc_analyze
  analyze-Ends zero p c v enough = absurd (omega arith)
  analyze-Ends (suc fuel) p c v enough =
      loop-Ends fuel (proc_analyze get_proc fuel) (analyze-Ends fuel) p.instructions 0
        p.instructions _ c v enough

  -- The analysis of a valid procedure over a store of valid procedures ends with fuel 257, whatever calls
  -- whatever and whatever is marked before: each nested analysis marks one more of 256 slots.
  pub proc_analyze-ne-out_of_fuel :
      (p : Proc) (c : Config)
      → All IsValid p.instructions
      → proc_analyze get_proc 257 p c ≢ out_of_fuel
  proc_analyze-ne-out_of_fuel p c v e =
      let ends = analyze-Ends 257 p c v (omega (arith, unmarked-le 256 c.analyzed_procs)) in
      rw e at ends
