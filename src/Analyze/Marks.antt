-- ===== src/Analyze/Marks.antt =====
-- The tail-call flags of the analyses that `proc_analyze` of src/proc_analyze.c makes.
use csp_proc.Common.{
  ℕ, zero, suc, ◌≤◌, ◌<◌, ◌≡◌, ◌≢◌, refl, sym, ap, ◌∙◌, subst, All, List, [], ◌∷◌, ◌++◌, length,
  length-append, get_elem?, get_elem?-some, drop, Bool, true, false, Option, none, some, ◌==◌, ltb,
  Bool-cases, ◌⊎◌, inl, inr, arith,
}
use csp_proc.Types.{Payload, block, call, Instruction, IsValid, Proc}
use csp_proc.Analyze.{
  Analysis, Config, mark, put_analysis, Progress, out_of_fuel, failed, going, link_analysis,
  analyze_call, analyze_round, analyze_loop, fresh, proc_analyze, analyze_instruction,
  analyze_tail_call,
}
use csp_proc.Analyze.Termination.{proc_analyze-ne-out_of_fuel}
use csp_proc.Runtime.{flag_at}
use csp_proc.Runtime.TailCalls.{IsMarked}

flag_at-append :
    (xs : List Bool) (b : Bool) (j : ℕ)
    → j < length (xs ++ b ∷ [])
    → (j < length xs × (flag_at (xs ++ b ∷ []) j ≡ flag_at xs j))
      ⊎ ((j ≡ length xs) × (flag_at (xs ++ b ∷ []) j ≡ b))
unfolding flag_at
flag_at-append [] b zero h = inr (refl, refl)
flag_at-append [] b (suc j) h = absurd (omega arith)
flag_at-append (x ∷ xs) b zero h = inl (omega arith, refl)
flag_at-append (x ∷ xs) b (suc j) h = elim (flag_at-append xs b j (omega arith)) [
  | inl (l, e) ↦ inl (omega arith, e)
  | inr (l, e) ↦ inr (omega arith, e)
]

flag_at-past : (xs : List Bool) (j : ℕ) → length xs ≤ j → flag_at xs j ≡ false
unfolding flag_at
flag_at-past [] j h = refl
flag_at-past (x ∷ xs) zero h = absurd (omega arith)
flag_at-past (x ∷ xs) (suc j) h = flag_at-past xs j (omega arith)

-- Whether the instruction at `j` is a call, and a tail call.
abbrev pub calls_last : List Instruction → ℕ → Bool
calls_last is j = elim (get_elem? is j) [
  | none ↦ false
  | some ins ↦ elim ins.payload [ call s ↦ analyze_tail_call is j | _ ↦ false ]
]

analyze_instruction-calls_last :
    (is : List Instruction) (i : ℕ) (ins : Instruction)
    → get_elem? is i ≡ some ins
    → analyze_instruction is i ins ≡ calls_last is i
unfolding analyze_instruction
analyze_instruction-calls_last is i ins e = rw (calls_last, e) refl

-- The flags of the instructions analysed so far: the flag of a call is the one that `analyze_tail_call` gives,
-- the flag of any other instruction is 0.
abbrev pub IsFlagged : Analysis → Type 0
IsFlagged a =
    (j : ℕ) → j < length a.tail_calls → flag_at a.tail_calls j ≡ calls_last a.proc.instructions j

calls_last-tail :
    (is : List Instruction) (j : ℕ) → calls_last is j ≡ true → analyze_tail_call is j ≡ true
calls_last-tail is j h = go (get_elem? is j) h
  where
    go :
        (o : Option Instruction)
        → elim o [
          | none ↦ false
          | some ins ↦ elim ins.payload [ call s ↦ analyze_tail_call is j | _ ↦ false ]
        ]
          ≡ true
        → analyze_tail_call is j ≡ true
    go none h = absurd cc
    go (some ins) h = ground arith

-- What the execution loop asks of an analysis.
pub IsFlagged-IsMarked : (a : Analysis) → IsFlagged a → IsMarked a
IsFlagged-IsMarked a m j h = elim (Bool-cases (ltb j (length a.tail_calls))) [
  | inr l ↦ absurd (cc (flag_at-past a.tail_calls j (ground (arith, l)), h))
  | inl l ↦ calls_last-tail a.proc.instructions j (sym (m j (ground (arith, l))) ∙ h)
]

-- The flags so far of an analysis of `p`.
record Marked (p : Proc) (a : Analysis) : Type 0 where
  same : a.proc ≡ p
  flags : (j : ℕ) → j < length a.tail_calls → flag_at a.tail_calls j ≡ calls_last p.instructions j

Marked-IsFlagged : (p : Proc) (a : Analysis) → Marked p a → IsFlagged a
Marked-IsFlagged p a m j l = rw (m.same) (m.flags j l)

-- Every analysis that the configuration points to has its flags.
abbrev pub AllMarked : Config → Type 0
AllMarked c = (slot : ℕ) (a : Analysis) → c.analyses slot ≡ some a → IsFlagged a

-- An analysis of `p` that ended: it and all that were made on the way have their flags, and if it did not fail
-- it has one for each instruction.
abbrev pub Ended : Proc → Progress → Type 0
Ended p out_of_fuel = Unit
Ended p (failed a c) = (a.proc ≡ p) × IsFlagged a × AllMarked c
Ended p (going a c) =
    (a.proc ≡ p) × (length a.tail_calls ≡ length p.instructions) × IsFlagged a × AllMarked c

drop-empty : (xs : List Instruction) (i : ℕ) → drop i xs ≡ [] → i ≤ length xs → i ≡ length xs
drop-empty [] i d le = omega arith
drop-empty (x ∷ xs) zero d le = absurd cc
drop-empty (x ∷ xs) (suc i) d le = ap suc (drop-empty xs i d (omega arith))

drop-cons :
    (xs : List Instruction) (i : ℕ) (x : Instruction) (rest : List Instruction)
    → drop i xs ≡ x ∷ rest
    → (get_elem? xs i ≡ some x) × (drop (suc i) xs ≡ rest)
drop-cons [] zero x rest d = absurd cc
drop-cons [] (suc i) x rest d = absurd cc
drop-cons (y ∷ xs) zero x rest d = (cc, cc)
drop-cons (y ∷ xs) (suc i) x rest d = drop-cons xs i x rest d

-- The analysis of `p` after a round, with `k` flags.
abbrev AfterRound : Proc → ℕ → Progress → Type 0
AfterRound p k out_of_fuel = Unit
AfterRound p k (failed a c) = Marked p a × AllMarked c
AfterRound p k (going a c) = Marked p a × (length a.tail_calls ≡ k) × AllMarked c

put_analysis-AllMarked :
    (slot : ℕ) (sub : Analysis) (c : Config)
    → IsFlagged sub
    → AllMarked c
    → AllMarked (put_analysis slot sub c)
put_analysis-AllMarked slot sub c m all i a e = elim (Bool-cases (i == slot)) [
  | inl h ↦ let same : sub ≡ a = cc (rw h at e) in subst IsFlagged same m
  | inr h ↦ all i a (rw h at e)
]

link_analysis-AfterRound :
    (p q : Proc) (k slot : ℕ) (a : Analysis) (r : Progress)
    → Marked p a
    → length a.tail_calls ≡ k
    → Ended q r
    → AfterRound p k (link_analysis slot a r)
unfolding link_analysis
link_analysis-AfterRound p q k slot a out_of_fuel m l e = tt
link_analysis-AfterRound p q k slot a (failed sub c) m l e =
    (record { same = m.same; flags = m.flags }, l, put_analysis-AllMarked slot sub c e.1 e.2)
link_analysis-AfterRound p q k slot a (going sub c) m l e =
    (record { same = m.same; flags = m.flags }, l, put_analysis-AllMarked slot sub c e.2 e.3)

module _ (get_proc : ℕ → Option Proc) where
  module _ (sub : Proc → Config → Progress)
      (sub_ended : (p : Proc) (c : Config) → AllMarked c → Ended p (sub p c)) where
    call-AfterRound :
        (p : Proc) (k slot : ℕ) (a : Analysis) (c : Config)
        → Marked p a
        → length a.tail_calls ≡ k
        → AllMarked c
        → AfterRound p k (analyze_call get_proc sub slot a c)
    unfolding analyze_call
    call-AfterRound p k slot a c m l all = go (get_proc slot) refl
      where
        go :
            (o : Option Proc)
            → get_proc slot ≡ o
            → AfterRound p k (analyze_call get_proc sub slot a c)
        go none e = rw (analyze_call, e) (record { same = m.same; flags = m.flags }, all)
        go (some q) e = elim (Bool-cases (c.analyzed_procs slot)) [
          | inl known ↦
              rw (analyze_call, e) (rw known (record { same = m.same; flags = m.flags }, l, all))
          | inr new ↦
              rw (analyze_call, e)
                (rw new (
                  link_analysis-AfterRound p q k slot _ _
                    (record { same = m.same; flags = m.flags }) l (sub_ended q (mark slot c) all)))
        ]

    round-AfterRound :
        (p : Proc) (i : ℕ) (ins : Instruction) (a : Analysis) (c : Config)
        → get_elem? p.instructions i ≡ some ins
        → Marked p a
        → length a.tail_calls ≡ i
        → AllMarked c
        → AfterRound p (suc i) (analyze_round get_proc sub p.instructions i ins a c)
    unfolding analyze_round
    round-AfterRound p i ins a c here m l all = go ins.payload
      where
        a' : Analysis
        a' = record a { tail_calls = a.tail_calls ++ analyze_instruction p.instructions i ins ∷ [] }

        marked : Marked p a'
        marked = record {
          same = m.same;
          flags = λ j h.
              elim (flag_at-append a.tail_calls (analyze_instruction p.instructions i ins) j h) [
                | inl (k, e) ↦ e ∙ m.flags j k
                | inr (k, e) ↦
                    let at_i : j ≡ i = k ∙ l in
                    e
                    ∙ analyze_instruction-calls_last p.instructions i ins here
                    ∙ ap (calls_last p.instructions) (sym at_i)
              ];
        }

        counted : length a'.tail_calls ≡ suc i
        counted =
            omega
              (arith, l, length-append a.tail_calls (analyze_instruction p.instructions i ins ∷ []))

        go :
            (payload : Payload)
            → AfterRound p
                (suc i)
                (elim payload [ call slot ↦ analyze_call get_proc sub slot a' c | _ ↦ going a' c ])
        go (call slot) = call-AfterRound p (suc i) slot a' c marked counted all
        go (block x op y) = (marked, counted, all)
        go _ = (marked, counted, all)

    loop-Ended :
        (p : Proc) (i : ℕ) (is : List Instruction) (a : Analysis) (c : Config)
        → drop i p.instructions ≡ is
        → i ≤ length p.instructions
        → Marked p a
        → length a.tail_calls ≡ i
        → AllMarked c
        → Ended p (analyze_loop get_proc sub p.instructions i is a c)
    unfolding analyze_loop
    loop-Ended p i [] a c d le m l all =
        (m.same, l ∙ drop-empty p.instructions i d le, Marked-IsFlagged p a m, all)
    loop-Ended p i (ins ∷ is) a c d le m l all =
        let (here, behind) = drop-cons p.instructions i ins is d in
        go (analyze_round get_proc sub p.instructions i ins a c)
          (round-AfterRound p i ins a c here m l all)
          (λ a' c' m' l' all'.
            loop-Ended p (suc i) is a' c' behind (get_elem?-some p.instructions i ins here) m' l'
              all')
      where
        go :
            (r : Progress)
            → AfterRound p (suc i) r
            → ((a' : Analysis) (c' : Config)
                → Marked p a'
                → length a'.tail_calls ≡ suc i
                → AllMarked c'
                → Ended p (analyze_loop get_proc sub p.instructions (suc i) is a' c'))
            → Ended p (elim r [
              | out_of_fuel ↦ out_of_fuel
              | failed a' c' ↦ failed a' c'
              | going a' c' ↦ analyze_loop get_proc sub p.instructions (suc i) is a' c'
            ])
        go out_of_fuel h ih = tt
        go (failed a' c') h ih = (h.0.same, Marked-IsFlagged p a' h.0, h.1)
        go (going a' c') h ih = ih a' c' h.0 h.1 h.2

  fresh-Marked : (p : Proc) → Marked p (fresh get_proc p)
  unfolding flag_at
  fresh-Marked p = record { same = refl; flags = λ j h. absurd (ground arith) }

  proc_analyze-Ended :
      (fuel : ℕ) (p : Proc) (c : Config) → AllMarked c → Ended p (proc_analyze get_proc fuel p c)
  unfolding proc_analyze
  proc_analyze-Ended zero p c all = tt
  proc_analyze-Ended (suc fuel) p c all =
      loop-Ended (proc_analyze get_proc fuel) (proc_analyze-Ended fuel) p 0 p.instructions _ c refl
        (omega arith) (fresh-Marked p) refl all

-- The analysis of `p` ended, and has its flags like all that were made on the way.
abbrev pub EndsMarked : Proc → Progress → Type 0
EndsMarked p out_of_fuel = ⊥
EndsMarked p (failed a c) = (a.proc ≡ p) × IsFlagged a × AllMarked c
EndsMarked p (going a c) =
    (a.proc ≡ p) × (length a.tail_calls ≡ length p.instructions) × IsFlagged a × AllMarked c

module _ (get_proc : ℕ → Option Proc)
    (stored : (slot : ℕ) (p : Proc) → get_proc slot ≡ some p → All IsValid p.instructions) where
  -- The analysis of a valid procedure over a store of valid procedures ends with fuel 257 as an analysis of that
  -- procedure, with a flag for each of its instructions if it did not fail. The flag of each call analysed is
  -- exactly the one that `analyze_tail_call` gives, that of any other instruction is 0; the same holds of every
  -- analysis that the configuration then points to, if it did of those at the start.
  pub proc_analyze-EndsMarked :
      (p : Proc) (c : Config)
      → All IsValid p.instructions
      → AllMarked c
      → EndsMarked p (proc_analyze get_proc 257 p c)
  proc_analyze-EndsMarked p c v all =
      go (proc_analyze get_proc 257 p c) (proc_analyze-Ended get_proc 257 p c all)
        (proc_analyze-ne-out_of_fuel get_proc stored p c v)
    where
      go : (r : Progress) → Ended p r → r ≢ out_of_fuel → EndsMarked p r
      go out_of_fuel h ends = ends refl
      go (failed a c') h ends = h
      go (going a c') h ends = h
