-- ===== src/Slash/Pop.antt =====
-- `proc_pop` of src/slash/slash_csp_proc.c: which instruction it removes.
use csp_proc.Common.{
  ℕ, zero, suc, ◌+◌, ◌-◌, ◌%◌, ◌≤◌, ◌<◌, List, [], ◌∷◌, ◌++◌, length, append-nil, append_assoc,
  take-append, length-append, take, drop, All, true, none, some, ltb, ◌==◌, lt→ltb, le→ltb, ==_iff,
  ne→==_false, ◌≡◌, refl, sym, ap, if◌then◌else◌, arith, ◌⊎◌, inl, inr,
}
use csp_proc.Types.{Instruction, Proc, instruction_count, max_instructions}
use csp_proc.Pack.Format.{HasKnownType}
use csp_proc.Pack.Copy.{proc_copy_instruction_lem}
use csp_proc.Slash.{
  Text, success, einval, Parsed, Shell, shift_loop, shift_from, pop_step, proc_pop,
}

decrement_snoc :
    (xs : List Instruction) (z : Instruction) → take (length (xs ++ z ∷ []) - 1) (xs ++ z ∷ []) ≡ xs
decrement_snoc xs z =
    let e : length (xs ++ z ∷ []) - 1 ≡ length xs = omega (arith, length-append xs (z ∷ [])) in
    rw e (take-append xs (z ∷ []))

shift_loop_lem :
    (x : Instruction) (rest : List Instruction)
    → All HasKnownType rest
    → ((shift_loop x rest).0 ≡ true)
      × ((z : Instruction) × ((shift_loop x rest).1 ≡ rest ++ z ∷ []))
unfolding shift_loop
shift_loop_lem x [] h = (refl, (x, refl))
shift_loop_lem x (y ∷ rest) h =
    let (ok, (z, e)) = shift_loop_lem y rest h.1 in
    (
      rw (shift_loop, proc_copy_instruction_lem y h.0) ok,
      (
        z,
        rw (shift_loop, proc_copy_instruction_lem y h.0) (ap (λ (t : List Instruction). y ∷ t) e),
      ),
    )

-- The procedure without the instruction at index `step`.
abbrev pub without : ℕ → Proc → Proc
without step p = record {
  instructions = take step p.instructions ++ drop (suc step) p.instructions;
}

-- The array after the shift is that of the procedure without the instruction, and one more.
shift_from_lem :
    (step : ℕ) (is : List Instruction)
    → All HasKnownType is
    → step < length is
    → let shifted = shift_from (drop step is) in
      (shifted.0 ≡ true) × ((z : Instruction) × (shifted.1 ≡ drop (suc step) is ++ z ∷ []))
unfolding shift_from
shift_from_lem zero [] h lt = absurd (omega arith)
shift_from_lem zero (x ∷ rest) h lt = shift_loop_lem x rest h.1
shift_from_lem (suc step) [] h lt = absurd (omega arith)
shift_from_lem (suc step) (x ∷ rest) h lt = shift_from_lem step rest h.1 (omega arith)

drop-all : (k : ℕ) (is : List Instruction) → length is ≤ k → drop k is ≡ []
drop-all zero [] h = refl
drop-all zero (x ∷ is) h = absurd (omega arith)
drop-all (suc k) [] h = refl
drop-all (suc k) (x ∷ is) h = drop-all k is (omega arith)

without_last :
    (is : List Instruction) (step : ℕ)
    → suc step ≡ length is
    → take (length is - 1) is ≡ take step is ++ drop (suc step) is
without_last is step e =
    let d : drop (suc step) is ≡ [] = drop-all (suc step) is (omega arith) in
    let l : length is - 1 ≡ step = omega arith in rw d (rw l (sym (append-nil (take step is))))

removed_lem :
    (step : ℕ) (is : List Instruction)
    → All HasKnownType is
    → step < length is
    → let js = take step is ++ (shift_from (drop step is)).1 in
      take (length js - 1) js ≡ take step is ++ drop (suc step) is
removed_lem step is h lt =
    let (ok, (z, e)) = shift_from_lem step is h lt in
    rw e (
      rw (sym (append_assoc (take step is) (drop (suc step) is) (z ∷ [])))
        (decrement_snoc (take step is ++ drop (suc step) is) z))

trichotomy : (a b : ℕ) → (a ≡ b) ⊎ ((a < b) ⊎ (b < a))
trichotomy a b = omega arith

-- For a procedure of known types, a step that is in the procedure is removed with SLASH_SUCCESS, and a
-- step past its end gives SLASH_EINVAL and changes nothing.
pub pop_step-without :
    (step : ℕ) (p : Proc)
    → All HasKnownType p.instructions
    → pop_step step p ≡ (
        if ltb step (instruction_count p)
        then (success, some (without step p))
        else (einval, some p))
unfolding pop_step
pop_step-without step p known =
    let n = instruction_count p in
    elim (trichotomy (suc step) n) [
      | inl e ↦
          rw ((==_iff (suc step) n).1 e)
            (rw (lt→ltb step n (omega arith)) (rw (without_last p.instructions step e)))
      | inr (inl lt) ↦ rw (ne→==_false (suc step) n (λ e. omega arith)) (
          rw (lt→ltb (suc step) n lt) (
            rw (lt→ltb step n (omega arith)) (
              rw ((shift_from_lem step p.instructions known (omega arith)).0)
                (rw (removed_lem step p.instructions known (omega arith))))))
      | inr (inr gt) ↦
          rw (ne→==_false (suc step) n (λ e. omega arith))
            (rw (le→ltb (suc step) n (omega arith)) (rw (le→ltb step n (omega arith)) refl))
    ]

zero_or : (n : ℕ) → (n ≡ 0) ⊎ (0 < n)
zero_or n = omega arith

-- `proc pop` without an argument removes the latest instruction of a procedure of known types and at most
-- 255 instructions; on an empty one, where the step wraps to 255, it returns SLASH_EINVAL.
pub proc_pop-latest :
    (sh : Shell) (argv : List Text) (parsed : Parsed) (p : Proc)
    → All HasKnownType p.instructions
    → instruction_count p ≤ max_instructions
    → sh.optparse_parse (drop 1 argv) ≡ some parsed
    → parsed.instruction_option ≡ none
    → drop (suc parsed.argi) argv ≡ []
    → proc_pop sh argv (some p) ≡ (
        if instruction_count p == 0
        then (einval, some p)
        else (success, some (without (instruction_count p - 1) p)))
unfolding proc_pop
proc_pop-latest sh argv parsed p known small parses default_step args =
    let n = instruction_count p in
    rw (proc_pop, parses)
      (rw (proc_pop, default_step)
        (rw args (
          rw (pop_step-without ((n + 255) % 256 % 256) p known) (elim (zero_or n) [
            | inl e ↦
                rw ((==_iff n 0).1 e) (rw (le→ltb ((n + 255) % 256 % 256) n (omega arith)) refl)
            | inr pos ↦
                let latest : (n + 255) % 256 % 256 ≡ n - 1 = omega arith in
                rw latest (
                  rw (ne→==_false n 0 (λ e. omega arith))
                    (rw (lt→ltb (n - 1) n (omega arith)) refl))
          ]))))
