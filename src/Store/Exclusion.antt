-- ===== src/Store/Exclusion.antt =====
-- Who holds the mutex while threads call the operations of src/store/proc_store_static.c.
use csp_proc.Common.{
  ℕ, ◌≡◌, ◌≢◌, refl, sym, ap, subst, ◌∙◌, ◌⊎◌, inl, inr, List, ◌∷◌, none, some, ◌==◌, ==_iff,
  ==_refl, ne→==_false, Bool-cases,
}
use csp_proc.Store.{Store}
use csp_proc.Store.Sections.{
  Returned, Section, finish, run, Call, section_of, sequential, run-section_of,
}
use csp_proc.Store.Interleaving.{
  Phase, calling, inside, over, refused, System, set_phase, move, replay, Answers, Outside,
}

set_phase-same : (f : ℕ → Phase) (t : ℕ) (phase : Phase) → set_phase f t phase t ≡ phase
set_phase-same f t phase = rw (==_refl t) refl

set_phase-other :
    (f : ℕ → Phase) (t : ℕ) (phase : Phase) (i : ℕ) → i ≢ t → set_phase f t phase i ≡ f i
set_phase-other f t phase i n = rw (ne→==_false i t n) refl

pub set_phase-elim :
    (P : ℕ → Phase → Type 0) (f : ℕ → Phase) (t : ℕ) (phase : Phase)
    → P t phase
    → ((i : ℕ) → i ≢ t → P i (f i))
    → (i : ℕ) → P i (set_phase f t phase i)
set_phase-elim P f t phase here others i = elim (Bool-cases (i == t)) [
  | inl e ↦ let same : t ≡ i = sym ((==_iff i t).0 e) in rw e (subst (λ j. P j phase) same here)
  | inr e ↦ rw e (others i (λ same. cc (e, (==_iff i t).1 same)))
]

not_inside : (phase : Phase) (k : Section) → phase ≡ inside k → ¬ Outside phase
not_inside phase k e out = subst Outside e out

module _ (st : Store) where
  -- With the mutex free.
  pub record Free (log : List (ℕ × Call)) (s : System) : Type 0 where
    pub holder : s.holder ≡ none
    pub outside : (t : ℕ) → Outside (s.phase t)
    pub procs : s.procs ≡ (replay log st).procs

  -- With the thread `t` in its section, which it will end as its call does in the replay.
  pub record Held (log : List (ℕ × Call)) (s : System) (t : ℕ) (k : Section) : Type 0 where
    pub c : Call
    pub older : List (ℕ × Call)
    pub latest : log ≡ (t, c) ∷ older
    pub holder : s.holder ≡ some t
    pub here : s.phase t ≡ inside k
    pub others : (i : ℕ) → i ≢ t → Outside (s.phase i)
    pub runs : let r = sequential c (replay older st) in run k s.procs ≡ (r.0, r.1.procs)

  abbrev pub HasMutex : List (ℕ × Call) → System → Type 0
  HasMutex log s = Free log s ⊎ ((t : ℕ) × (k : Section) × Held log s t k)

  -- The thread that is in a section is the one that holds the mutex.
  pub holding :
      (log : List (ℕ × Call)) (s : System) (t : ℕ) (k : Section)
      → s.phase t ≡ inside k
      → HasMutex log s
      → Held log s t k
  holding log s t k e (inl free) = absurd (not_inside (s.phase t) k e (free.outside t))
  holding log s t k e (inr (u, k', held)) = elim (Bool-cases (t == u)) [
    | inl same ↦
        let at : u ≡ t = sym ((==_iff t u).0 same) in
        let left : k' ≡ k = cc (at, e, held.here) in
        subst (λ j. Held log s t j) left (subst (λ j. Held log s j k') at held)
    | inr other ↦
        absurd (not_inside (s.phase t) k e (held.others t (λ at. cc (other, (==_iff t u).1 at))))
  ]

  -- One more access of the section that is left.
  pub continues :
      (log : List (ℕ × Call)) (s s' : System) (t : ℕ) (k k' : Section)
      → Held log s t k
      → s'.holder ≡ s.holder
      → s'.phase ≡ set_phase s.phase t (inside k')
      → run k' s'.procs ≡ run k s.procs
      → Held log s' t k'
  continues log s s' t k k' held same_holder phases same_run = record {
    c = held.c;
    older = held.older;
    latest = held.latest;
    holder = same_holder ∙ held.holder;
    here = rw phases (set_phase-same s.phase t (inside k'));
    others = λ i n.
        rw phases
          (subst Outside (sym (set_phase-other s.phase t (inside k') i n)) (held.others i n));
    runs = same_run ∙ held.runs;
  }

  pub refused-HasMutex :
      (log : List (ℕ × Call)) (s : System) (t : ℕ) (c : Call)
      → s.phase t ≡ calling c
      → HasMutex log s
      → HasMutex log (move t refused s)
  refused-HasMutex log s t c e (inl free) = inl (record {
    holder = free.holder;
    outside = set_phase-elim (λ i. Outside) s.phase t refused tt (λ i n. free.outside i);
    procs = free.procs;
  })
  refused-HasMutex log s t c e (inr (u, k, held)) =
      let apart : u ≢ t = λ same. cc (same, e, held.here) in
      inr (
        u,
        k,
        record {
          c = held.c;
          older = held.older;
          latest = held.latest;
          holder = held.holder;
          here = set_phase-other s.phase t refused u apart ∙ held.here;
          others =
              set_phase-elim (λ i phase. i ≢ u → Outside phase) s.phase t refused (λ n. tt)
                (λ i n. held.others i);
          runs = held.runs;
        },
      )

  pub unheld-Free :
      (log : List (ℕ × Call)) (s : System) → s.holder ≡ none → HasMutex log s → Free log s
  unheld-Free log s e (inl free) = free
  unheld-Free log s e (inr (t, k, held)) = absurd cc

  pub taken-Held :
      (log : List (ℕ × Call)) (s : System) (t : ℕ) (c : Call)
      → Free log s
      → Held
          ((t, c) ∷ log)
          (record (move t (inside (section_of c)) s) { holder = some t })
          t
          (section_of c)
  taken-Held log s t c free = record {
    c = c;
    older = log;
    latest = refl;
    holder = refl;
    here = set_phase-same s.phase t (inside (section_of c));
    others =
        set_phase-elim (λ i phase. i ≢ t → Outside phase) s.phase t _ (λ n. absurd (n refl))
          (λ i n n'. free.outside i);
    runs = rw free.procs (run-section_of c (replay log st));
  }

  pub given-Free :
      (log : List (ℕ × Call)) (s : System) (t : ℕ) (r : Returned)
      → Held log s t (finish r)
      → Free log (record (move t (over r) s) { holder = none }) × Answers log st t r
  unfolding run
  given-Free log s t r held =
      let result : r ≡ (sequential held.c (replay held.older st)).0 = ap (λ x. x.0) held.runs in
      let left : s.procs ≡ (sequential held.c (replay held.older st)).1.procs =
        ap (λ x. x.1) held.runs in
      rw held.latest (
        record {
          holder = refl;
          outside = set_phase-elim (λ i. Outside) s.phase t (over r) tt (λ i n. held.others i n);
          procs = left;
        },
        inl (refl, sym result),
      )
