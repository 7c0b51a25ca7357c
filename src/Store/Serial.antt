-- ===== src/Store/Serial.antt =====
-- Simultaneous calls of the operations of src/store/proc_store_static.c against the same calls one after another.
use csp_proc.Common.{ℕ, ◌≡◌, refl, sym, subst, inl, inr, List, ◌∷◌, none}
use csp_proc.Store.{Store, update}
use csp_proc.Store.Sections.{Returned, Section, finish, read, write, run, Call, section_of}
use csp_proc.Store.Interleaving.{
  Phase, inside, over, refused, System, move, Reach, start, takes, refuses, reads, writes, gives,
  replay, Answers, Outside, Begins,
}
use csp_proc.Store.Exclusion.{
  set_phase-elim, HasMutex, holding, continues, refused-HasMutex, unheld-Free, taken-Held,
  given-Free,
}

module _ (st : Store) where
  abbrev HasAnswers : List (ℕ × Call) → System → Type 0
  HasAnswers log s = (t : ℕ) (r : Returned) → s.phase t ≡ over r → Answers log st t r

  moved-HasAnswers :
      (log : List (ℕ × Call)) (s : System) (t : ℕ) (phase : Phase)
      → ((r : Returned) → phase ≡ over r → Answers log st t r)
      → HasAnswers log s
      → HasAnswers log (move t phase s)
  moved-HasAnswers log s t phase here answers =
      set_phase-elim (λ u ph. (r : Returned) → ph ≡ over r → Answers log st u r) s.phase t phase
        here (λ i n. answers i)

  Reach-HasMutex :
      {s0 s : System} {log : List (ℕ × Call)}
      → Begins st s0
      → Reach s0 log s
      → HasMutex st log s × HasAnswers log s
  Reach-HasMutex {s0 = s0} b start = (
    inl (record {
      holder = b.holder;
      outside = λ t. let (c, e) = b.calls t in subst Outside (sym e) tt;
      procs = b.procs;
    }),
    λ t r e. let (c, e') = b.calls t in absurd cc,
  )
  Reach-HasMutex b (takes t c {log = log} {s = s} r free e) =
      let (mutex, answers) = Reach-HasMutex b r in
      (
        inr (t, section_of c, taken-Held st log s t c (unheld-Free st log s free mutex)),
        moved-HasAnswers ((t, c) ∷ log) s t (inside (section_of c)) (λ x e'. absurd cc)
            (λ u x e'. inr (answers u x e')),
      )
  Reach-HasMutex b (refuses t c {log = log} {s = s} r e) =
      let (mutex, answers) = Reach-HasMutex b r in
      (
        refused-HasMutex st log s t c e mutex,
        moved-HasAnswers log s t refused (λ x e'. absurd cc) answers,
      )
  Reach-HasMutex b (reads t i k {log = log} {s = s} r e) =
      let (mutex, answers) = Reach-HasMutex b r in
      let held = holding st log s t (read i k) e mutex in
      (
        inr (
          t,
          k (s.procs i),
          continues st log s (move t (inside (k (s.procs i))) s) t (read i k) (k (s.procs i)) held
              refl refl (unfold run in refl),
        ),
        moved-HasAnswers log s t (inside (k (s.procs i))) (λ x e'. absurd cc) answers,
      )
  Reach-HasMutex b (writes t i p k {log = log} {s = s} r e) =
      let (mutex, answers) = Reach-HasMutex b r in
      let held = holding st log s t (write i p k) e mutex in
      (
        inr (
          t,
          k,
          continues st log s (record (move t (inside k) s) { procs = update s.procs i p }) t
              (write i p k) k held refl refl (unfold run in refl),
        ),
        moved-HasAnswers log s t (inside k) (λ x e'. absurd cc) answers,
      )
  Reach-HasMutex b (gives t x {log = log} {s = s} r e) =
      let (mutex, answers) = Reach-HasMutex b r in
      let (free, answer) = given-Free st log s t x (holding st log s t (finish x) e mutex) in
      (
        inl free,
        moved-HasAnswers log s t (over x)
            (λ y e'. let same : x ≡ y = cc e' in subst (Answers log st t) same answer) answers,
      )

  -- Threads that call the store's operations at the same time, from before any call on: at most one of them is
  -- between taking and giving the mutex.
  pub Reach-exclusive :
      {s0 s : System} {log : List (ℕ × Call)} (t u : ℕ) (k l : Section)
      → Begins st s0
      → Reach s0 log s
      → s.phase t ≡ inside k
      → s.phase u ≡ inside l
      → t ≡ u
  Reach-exclusive {s = s} {log = log} t u k l b r here there =
      let (mutex, answers) = Reach-HasMutex b r in
      let one = holding st log s t k here mutex in
      let other = holding st log s u l there mutex in cc (one.holder, other.holder)

  -- Threads that call the store's operations at the same time, from before any call on, with the
  -- accesses of the array in any order: whenever no thread holds the mutex, the array is what the
  -- calls that have taken it leave one after another, in the order in which they took it, and a
  -- call that is over has returned what it returns there.
  pub Reach-sequential :
      {s0 s : System} {log : List (ℕ × Call)} (t : ℕ) (r : Returned)
      → Begins st s0
      → Reach s0 log s
      → s.holder ≡ none
      → s.phase t ≡ over r
      → (s.procs ≡ (replay log st).procs) × Answers log st t r
  Reach-sequential {s = s} {log = log} t r b reached free e =
      let (mutex, answers) = Reach-HasMutex b reached in
      let rest = unheld-Free st log s free mutex in (rest.procs, answers t r e)
