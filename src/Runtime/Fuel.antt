-- ===== src/Runtime/Fuel.antt =====
-- The fuel of the execution loop.
use csp_proc.Common.{
  ℕ, zero, suc, ◌+◌, ◌≡◌, ◌≢◌, refl, Option, none, some, Bool, true, false, ltb, get_elem?,
  Option-cases, inl, inr, arith,
}
use csp_proc.Types.{Instruction}
use csp_proc.Analyze.{Analysis}
use csp_proc.Runtime.{
  Flag, flag_none, Handlers, Graph, Next, advance, stop, jump, nest, wild, round, Outcome,
  out_of_fuel, undefined, returned, exec_loop, max_proc_recursion_depth,
}

module _ {W : Type 0} (h : Handlers W) (g : Graph) where
  -- A loop with some fuel.
  abbrev Loop : Type 0
  Loop = Analysis → ℕ → Flag → ℕ → W → Outcome W

  abbrev after_nested : Loop → Analysis → ℕ → Flag → ℕ → Outcome W → Outcome W
  after_nested k a i flag depth out_of_fuel = out_of_fuel
  after_nested k a i flag depth undefined = undefined
  after_nested k a i flag depth (returned zero s) = k a (suc i) flag depth s.world
  after_nested k a i flag depth (returned (suc n) s) =
      returned (suc n) (record { world = s.world; recursion_depth = depth })

  abbrev deeper : Loop → Analysis → ℕ → Flag → ℕ → W → Analysis → Bool → Outcome W
  deeper k a i flag depth w sub true = returned 1 (record { world = w; recursion_depth = depth })
  deeper k a i flag depth w sub false =
      after_nested k a i flag depth (k sub 0 flag_none (depth + 1) w)

  abbrev into_nested : Loop → Analysis → ℕ → Flag → ℕ → W → Option Analysis → Outcome W
  into_nested k a i flag depth w none = undefined
  into_nested k a i flag depth w (some sub) =
      deeper k a i flag depth w sub (ltb max_proc_recursion_depth (depth + 1))

  abbrev into_jumped : Loop → ℕ → W → Option Analysis → Outcome W
  into_jumped k depth w none = undefined
  into_jumped k depth w (some sub) = k sub 0 flag_none depth w

  abbrev after_round : Loop → Analysis → ℕ → ℕ → Next W → Outcome W
  after_round k a i depth (advance flag w) = k a (suc i) flag depth w
  after_round k a i depth (stop ret w) =
      returned ret (record { world = w; recursion_depth = depth })
  after_round k a i depth wild = undefined
  after_round k a i depth (jump sub w) = into_jumped k depth w (g sub)
  after_round k a i depth (nest sub flag w) = into_nested k a i flag depth w (g sub)

  abbrev at_instruction : Loop → Analysis → ℕ → Flag → ℕ → W → Option Instruction → Outcome W
  at_instruction k a i flag depth w none =
      returned 0 (record { world = w; recursion_depth = depth })
  at_instruction k a i flag depth w (some ins) = after_round k a i depth (round h a i ins flag w)

  exec_loop_lem :
      (fuel : ℕ) (a : Analysis) (i : ℕ) (flag : Flag) (depth : ℕ) (w : W)
      → exec_loop h g (suc fuel) a i flag depth w
        ≡ at_instruction (exec_loop h g fuel) a i flag depth w (get_elem? a.proc.instructions i)
  unfolding exec_loop
  exec_loop_lem fuel a i flag depth w = elim (Option-cases (get_elem? a.proc.instructions i)) [
    | inl e ↦ rw (exec_loop, e) refl
    | inr (ins, e) ↦ rw (exec_loop, e) (go (round h a i ins flag w))
  ]
    where
      go :
          (r : Next W)
          → elim r as (λ x. Outcome W) [
            | advance flag' w' ↦ exec_loop h g fuel a (suc i) flag' depth w'
            | stop ret w' ↦ returned ret (record { world = w'; recursion_depth = depth })
            | wild ↦ undefined
            | jump sub w' ↦ elim (g sub) [
              | none ↦ undefined
              | some a' ↦ exec_loop h g fuel a' 0 flag_none depth w'
            ]
            | nest sub flag' w' ↦ elim (g sub) [
              | none ↦ undefined
              | some a' ↦ elim (ltb max_proc_recursion_depth (depth + 1)) [
                | true ↦ returned 1 (record { world = w'; recursion_depth = depth })
                | false ↦ elim (exec_loop h g fuel a' 0 flag_none (depth + 1) w') [
                  | out_of_fuel ↦ out_of_fuel
                  | undefined ↦ undefined
                  | returned zero s ↦ exec_loop h g fuel a (suc i) flag' depth s.world
                  | returned (suc n) s ↦
                      returned (suc n) (record { world = s.world; recursion_depth = depth })
                ]
              ]
            ]
          ]
            ≡ after_round (exec_loop h g fuel) a i depth r
      go (advance flag' w') = refl
      go (stop ret w') = refl
      go wild = refl
      go (jump sub w') = ground arith
      go (nest sub flag' w') = ground arith

  abbrev Agrees : Loop → Loop → Type 0
  Agrees k k' =
      (a : Analysis) (i : ℕ) (flag : Flag) (depth : ℕ) (w : W)
      → k a i flag depth w ≢ out_of_fuel
      → k' a i flag depth w ≡ k a i flag depth w

  module _ (k k' : Loop) (agrees : Agrees k k') where
    after_nested_agrees :
        (a : Analysis) (i : ℕ) (flag : Flag) (depth : ℕ) (r : Outcome W)
        → after_nested k a i flag depth r ≢ out_of_fuel
        → after_nested k' a i flag depth r ≡ after_nested k a i flag depth r
    after_nested_agrees a i flag depth out_of_fuel n = refl
    after_nested_agrees a i flag depth undefined n = refl
    after_nested_agrees a i flag depth (returned zero s) n = agrees a (suc i) flag depth s.world n
    after_nested_agrees a i flag depth (returned (suc m) s) n = refl

    ended_inside :
        (a : Analysis) (i : ℕ) (flag : Flag) (depth : ℕ) (r : Outcome W)
        → after_nested k a i flag depth r ≢ out_of_fuel
        → r ≢ out_of_fuel
    ended_inside a i flag depth out_of_fuel n e = n refl
    ended_inside a i flag depth undefined n e = cc
    ended_inside a i flag depth (returned ret s) n e = cc

    deeper_agrees :
        (a : Analysis) (i : ℕ) (flag : Flag) (depth : ℕ) (w : W) (sub : Analysis) (b : Bool)
        → deeper k a i flag depth w sub b ≢ out_of_fuel
        → deeper k' a i flag depth w sub b ≡ deeper k a i flag depth w sub b
    deeper_agrees a i flag depth w sub true n = refl
    deeper_agrees a i flag depth w sub false n =
        let inside = ended_inside a i flag depth (k sub 0 flag_none (depth + 1) w) n in
        rw (agrees sub 0 flag_none (depth + 1) w inside)
          (after_nested_agrees a i flag depth (k sub 0 flag_none (depth + 1) w) n)

    into_nested_agrees :
        (a : Analysis) (i : ℕ) (flag : Flag) (depth : ℕ) (w : W) (o : Option Analysis)
        → into_nested k a i flag depth w o ≢ out_of_fuel
        → into_nested k' a i flag depth w o ≡ into_nested k a i flag depth w o
    into_nested_agrees a i flag depth w none n = refl
    into_nested_agrees a i flag depth w (some sub) n =
        deeper_agrees a i flag depth w sub (ltb max_proc_recursion_depth (depth + 1)) n

    into_jumped_agrees :
        (depth : ℕ) (w : W) (o : Option Analysis)
        → into_jumped k depth w o ≢ out_of_fuel
        → into_jumped k' depth w o ≡ into_jumped k depth w o
    into_jumped_agrees depth w none n = refl
    into_jumped_agrees depth w (some sub) n = agrees sub 0 flag_none depth w n

    after_round_agrees :
        (a : Analysis) (i depth : ℕ) (r : Next W)
        → after_round k a i depth r ≢ out_of_fuel
        → after_round k' a i depth r ≡ after_round k a i depth r
    after_round_agrees a i depth (advance flag w) n = agrees a (suc i) flag depth w n
    after_round_agrees a i depth (stop ret w) n = refl
    after_round_agrees a i depth wild n = refl
    after_round_agrees a i depth (jump sub w) n = into_jumped_agrees depth w (g sub) n
    after_round_agrees a i depth (nest sub flag w) n = into_nested_agrees a i flag depth w (g sub) n

    at_instruction_agrees :
        (a : Analysis) (i : ℕ) (flag : Flag) (depth : ℕ) (w : W) (o : Option Instruction)
        → at_instruction k a i flag depth w o ≢ out_of_fuel
        → at_instruction k' a i flag depth w o ≡ at_instruction k a i flag depth w o
    at_instruction_agrees a i flag depth w none n = refl
    at_instruction_agrees a i flag depth w (some ins) n =
        after_round_agrees a i depth (round h a i ins flag w) n

  -- An execution of the loop that ends with some fuel ends in the same way with any more fuel.
  pub exec_loop-add :
      (more fuel : ℕ) (a : Analysis) (i : ℕ) (flag : Flag) (depth : ℕ) (w : W)
      → exec_loop h g fuel a i flag depth w ≢ out_of_fuel
      → exec_loop h g (fuel + more) a i flag depth w ≡ exec_loop h g fuel a i flag depth w
  exec_loop-add more zero a i flag depth w n = absurd (unfold exec_loop in n refl)
  exec_loop-add more (suc fuel) a i flag depth w n =
      let ended = rw (exec_loop_lem fuel a i flag depth w) at n in
      let one : suc fuel + more ≡ suc (fuel + more) = omega arith in
      rw one (
        rw (exec_loop_lem (fuel + more) a i flag depth w) (
          rw (exec_loop_lem fuel a i flag depth w) (
            at_instruction_agrees (exec_loop h g fuel) (exec_loop h g (fuel + more))
              (exec_loop-add more fuel) a i flag depth w (get_elem? a.proc.instructions i) ended)))
