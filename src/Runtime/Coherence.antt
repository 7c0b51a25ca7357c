-- ===== src/Runtime/Coherence.antt =====
-- The if-else flag along the loop of a procedure without nested if-else instructions.
use csp_proc.Common.{
  ℕ, zero, suc, ◌≡◌, sym, ◌∙◌, List, get_elem?, true, false, some, Bool-cases, ◌⊎◌, ◌≢◌, inl, inr,
  arith,
}
use csp_proc.Types.{Instruction}
use csp_proc.Analyze.{Analysis, is_ifelse, ifelse_at}
use csp_proc.Runtime.{
  Flag, flag_true, flag_false, flag_none, flag_err, flag_err_type, Handlers, Ref, advance, nest,
  after_handler, after_ifelse, proc_runtime_call, dispatch, round,
}

-- No if-else instruction is one of the two that follow an if-else instruction.
abbrev pub NoNesting : List Instruction → Type 0
NoNesting is =
    (k : ℕ)
    → ifelse_at is k ≡ true
    → (ifelse_at is (suc k) ≡ false) × (ifelse_at is (suc (suc k)) ≡ false)

-- The flags that the loop can have at an index: `flag_true` right after an if-else instruction,
-- `flag_false` one or two behind one, `flag_none` not right after one.
abbrev pub Coherent : List Instruction → ℕ → Flag → Type 0
Coherent is zero flag_none = Unit
Coherent is (suc i) flag_none = ifelse_at is i ≡ false
Coherent is (suc i) flag_true = ifelse_at is i ≡ true
Coherent is (suc zero) flag_false = ifelse_at is 0 ≡ true
Coherent is (suc (suc i)) flag_false = (ifelse_at is (suc i) ≡ true) ⊎ (ifelse_at is i ≡ true)
Coherent is _ _ = ⊥

module _ {W : Type 0} (h : Handlers W) (a : Analysis) where
  abbrev this_code : List Instruction
  this_code = a.proc.instructions

  -- The indices and flags that the loop goes through, from its start.
  pub data Visits : ℕ → Flag → Type 0 where
    entry : Visits 0 flag_none
    went_on :
        {i : ℕ} {flag flag' : Flag} (ins : Instruction) (w w' : W)
        → Visits i flag
        → get_elem? this_code i ≡ some ins
        → round h a i ins flag w ≡ advance flag' w'
        → Visits (suc i) flag'
    came_back :
        {i : ℕ} {flag flag' : Flag} (ins : Instruction) (sub : Ref) (w w' : W)
        → Visits i flag
        → get_elem? this_code i ≡ some ins
        → round h a i ins flag w ≡ nest sub flag' w'
        → Visits (suc i) flag'

module _ {W : Type 0} (h : Handlers W) (a : Analysis) (i : ℕ) (ins : Instruction) (flag : Flag)
    (w : W) where
  dispatch_advance :
      (flag' : Flag) (w' : W)
      → is_ifelse ins ≡ false
      → dispatch h a i ins flag w ≡ advance flag' w'
      → flag' ≡ flag
  unfolding dispatch after_handler proc_runtime_call
  dispatch_advance flag' w' e r = ground arith

  dispatch_nest :
      (sub : Ref) (flag' : Flag) (w' : W)
      → dispatch h a i ins flag w ≡ nest sub flag' w'
      → flag' ≡ flag
  unfolding dispatch after_handler after_ifelse proc_runtime_call
  dispatch_nest sub flag' w' r = ground arith

  dispatch_ifelse :
      (flag' : Flag) (w' : W)
      → (h.proc_runtime_ifelse ins w).0 ≢ flag_none
      → is_ifelse ins ≡ true
      → dispatch h a i ins flag w ≡ advance flag' w'
      → (flag' ≡ flag_true) ⊎ (flag' ≡ flag_false)
  unfolding dispatch after_ifelse
  dispatch_ifelse flag' w' d e r = ground arith

round_nest_plain :
    {W : Type 0} (h : Handlers W) (a : Analysis) (i : ℕ) (ins : Instruction) (flag : Flag) (w : W)
    (sub : Ref) (flag' : Flag) (w' : W)
    → round h a i ins flag w ≡ nest sub flag' w'
    → is_ifelse ins ≡ false
unfolding round dispatch after_handler after_ifelse proc_runtime_call
round_nest_plain h a i ins flag w sub flag' w' r = ground arith

ifelse_at-some :
    (is : List Instruction) (i : ℕ) (ins : Instruction)
    → get_elem? is i ≡ some ins
    → ifelse_at is i ≡ is_ifelse ins
ifelse_at-some is i ins e = rw (ifelse_at, e)

Coherent-skipped :
    (is : List Instruction) (i : ℕ)
    → NoNesting is
    → Coherent is i flag_false
    → Coherent is (suc i) flag_none
Coherent-skipped is zero nn c = absurd c
Coherent-skipped is (suc zero) nn c = (nn 0 c).0
Coherent-skipped is (suc (suc i)) nn (inl c) = (nn (suc i) c).0
Coherent-skipped is (suc (suc i)) nn (inr c) = (nn i c).1

Coherent-taken :
    (is : List Instruction) (i : ℕ) → Coherent is i flag_true → Coherent is (suc i) flag_false
Coherent-taken is zero c = absurd c
Coherent-taken is (suc i) c = inr c

Coherent-not_ifelse :
    (is : List Instruction) (i : ℕ)
    → NoNesting is
    → Coherent is i flag_true
    → ifelse_at is i ≡ false
Coherent-not_ifelse is zero nn c = absurd c
Coherent-not_ifelse is (suc i) nn c = (nn i c).0

Coherent-decided :
    (is : List Instruction) (i : ℕ) → ifelse_at is i ≡ true → Coherent is (suc i) flag_false
Coherent-decided is zero e = e
Coherent-decided is (suc i) e = inl e

module _ {W : Type 0} (h : Handlers W)
    (decides : (ins : Instruction) (w : W) → (h.proc_runtime_ifelse ins w).0 ≢ flag_none)
    (a : Analysis) (nn : NoNesting a.proc.instructions) where
  abbrev own : List Instruction
  own = a.proc.instructions

  advance-Coherent :
      (i : ℕ) (flag flag' : Flag) (ins : Instruction) (w w' : W)
      → Coherent own i flag
      → get_elem? own i ≡ some ins
      → round h a i ins flag w ≡ advance flag' w'
      → Coherent own (suc i) flag'
  unfolding round
  advance-Coherent i flag_false flag' ins w w' c e r =
      let f : flag_none ≡ flag' = cc in rw (← f) (Coherent-skipped own i nn c)
  advance-Coherent i flag_true flag' ins w w' c e r =
      let plain : is_ifelse ins ≡ false =
        sym (ifelse_at-some own i ins e) ∙ Coherent-not_ifelse own i nn c in
      rw (dispatch_advance h a i ins flag_false w flag' w' plain r) (Coherent-taken own i c)
  advance-Coherent i flag_none flag' ins w w' c e r = elim (Bool-cases (is_ifelse ins)) [
    | inl y ↦ elim (dispatch_ifelse h a i ins flag_none w flag' w' (decides ins w) y r) [
      | inl t ↦ rw (t, ifelse_at-some own i ins e) y
      | inr t ↦ rw t (Coherent-decided own i (ifelse_at-some own i ins e ∙ y))
    ]
    | inr n ↦ rw (dispatch_advance h a i ins flag_none w flag' w' n r, ifelse_at-some own i ins e) n
  ]
  advance-Coherent zero flag_err flag' ins w w' c e r = absurd c
  advance-Coherent (suc i) flag_err flag' ins w w' c e r = absurd c
  advance-Coherent zero flag_err_type flag' ins w w' c e r = absurd c
  advance-Coherent (suc i) flag_err_type flag' ins w w' c e r = absurd c

  nest-Coherent :
      (i : ℕ) (flag flag' : Flag) (ins : Instruction) (sub : Ref) (w w' : W)
      → Coherent own i flag
      → get_elem? own i ≡ some ins
      → is_ifelse ins ≡ false
      → round h a i ins flag w ≡ nest sub flag' w'
      → Coherent own (suc i) flag'
  unfolding round
  nest-Coherent i flag_false flag' ins sub w w' c e plain r = cc
  nest-Coherent i flag_true flag' ins sub w w' c e plain r =
      rw (dispatch_nest h a i ins flag_false w sub flag' w' r) (Coherent-taken own i c)
  nest-Coherent i flag_none flag' ins sub w w' c e plain r =
      rw (dispatch_nest h a i ins flag_none w sub flag' w' r, ifelse_at-some own i ins e) plain
  nest-Coherent zero flag_err flag' ins sub w w' c e plain r = absurd c
  nest-Coherent (suc i) flag_err flag' ins sub w w' c e plain r = absurd c
  nest-Coherent zero flag_err_type flag' ins sub w w' c e plain r = absurd c
  nest-Coherent (suc i) flag_err_type flag' ins sub w w' c e plain r = absurd c

  -- Along the loop of a procedure without nested if-else instructions, over a condition handler that always
  -- decides or fails, the flag is true only right behind an if-else instruction, false only one or two
  -- behind one, and none only where the instruction before is no if-else.
  pub Visits-Coherent : {i : ℕ} {flag : Flag} → Visits h a i flag → Coherent own i flag
  Visits-Coherent entry = tt
  Visits-Coherent (went_on {i} {flag} {flag'} ins w w' v e r) =
      advance-Coherent i flag flag' ins w w' (Visits-Coherent v) e r
  Visits-Coherent (came_back {i} {flag} {flag'} ins sub w w' v e r) =
      nest-Coherent i flag flag' ins sub w w' (Visits-Coherent v) e
        (round_nest_plain h a i ins flag w sub flag' w' r) r
