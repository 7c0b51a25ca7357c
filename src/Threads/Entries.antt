-- ===== src/Threads/Entries.antt =====
-- The array `running_threads` of src/runtime/proc_runtime_POSIX.c when an entry is removed from it.
use csp_proc.Common.{
  ℕ, suc, ◌≤◌, List, [], ◌∷◌, length, true, false, ◌==◌, ◌≡◌, ◌≢◌, refl, sym, ap, subst, All, arith,
  Bool-cases, inl, inr, ==_iff,
}
use csp_proc.Threads.{
  Thread, last_entry, but_last, fill_gap, remove_thread, is_running, join_thread, is_listed,
}

-- No entry has the thread `n`.
abbrev pub Misses : ℕ → List Thread → Type 0
Misses n ts = All (λ t. t.thread ≢ n) ts

abbrev pub Distinct : List Thread → Type 0
Distinct [] = Unit
Distinct (t ∷ ts) = Misses t.thread ts × Distinct ts

module _ {κ} (P : Thread → Type κ) where
  pub last_entry-All : (t : Thread) (ts : List Thread) → P t → All P ts → P (last_entry t ts)
  last_entry-All t [] p h = p
  last_entry-All t (u ∷ us) p h = last_entry-All u us h.0 h.1

  pub but_last-All : (t : Thread) (ts : List Thread) → P t → All P ts → All P (but_last t ts)
  but_last-All t [] p h = tt
  but_last-All t (u ∷ us) p h = (p, but_last-All u us h.0 h.1)

  pub fill_gap-All : (ts : List Thread) → All P ts → All P (fill_gap ts)
  fill_gap-All [] h = tt
  fill_gap-All (t ∷ ts) h = (last_entry-All t ts h.0 h.1, but_last-All t ts h.0 h.1)

  pub remove_thread-All : (n : ℕ) (ts : List Thread) → All P ts → All P (remove_thread n ts)
  unfolding remove_thread
  remove_thread-All n [] h = tt
  remove_thread-All n (t ∷ ts) h = elim (Bool-cases (t.thread == n)) [
    | inl e ↦ rw e (fill_gap-All ts h.1)
    | inr e ↦ rw e (h.0, remove_thread-All n ts h.1)
  ]

pub but_last-Misses :
    (t : Thread) (ts : List Thread)
    → Distinct (t ∷ ts)
    → Misses (last_entry t ts).thread (but_last t ts)
but_last-Misses t [] d = tt
but_last-Misses t (u ∷ us) d =
    let later = last_entry-All (λ v. v.thread ≢ t.thread) u us d.0.0 d.0.1 in
    (λ e. later (sym e), but_last-Misses u us d.1)

pub but_last-Distinct :
    (t : Thread) (ts : List Thread) → Distinct (t ∷ ts) → Distinct (but_last t ts)
but_last-Distinct t [] d = tt
but_last-Distinct t (u ∷ us) d =
    (but_last-All (λ v. v.thread ≢ t.thread) u us d.0.0 d.0.1, but_last-Distinct u us d.1)

pub fill_gap-Distinct : (ts : List Thread) → Distinct ts → Distinct (fill_gap ts)
fill_gap-Distinct [] d = tt
fill_gap-Distinct (t ∷ ts) d = (but_last-Misses t ts d, but_last-Distinct t ts d)

pub remove_thread-Distinct :
    (n : ℕ) (ts : List Thread) → Distinct ts → Distinct (remove_thread n ts)
unfolding remove_thread
remove_thread-Distinct n [] d = tt
remove_thread-Distinct n (t ∷ ts) d = elim (Bool-cases (t.thread == n)) [
  | inl e ↦ rw e (fill_gap-Distinct ts d.1)
  | inr e ↦ rw e (remove_thread-All _ n ts d.0, remove_thread-Distinct n ts d.1)
]

pub ==_false→ne : (a b : ℕ) → (a == b) ≡ false → a ≢ b
==_false→ne a b e q = ground (arith, (==_iff a b).1 q)

-- The entry that is removed was the only one of its thread.
pub remove_thread-Misses : (n : ℕ) (ts : List Thread) → Distinct ts → Misses n (remove_thread n ts)
unfolding remove_thread
remove_thread-Misses n [] d = tt
remove_thread-Misses n (t ∷ ts) d = elim (Bool-cases (t.thread == n)) [
  | inl e ↦ rw e (fill_gap-All _ ts (subst (λ m. Misses m ts) ((==_iff t.thread n).0 e) d.0))
  | inr e ↦ rw e (==_false→ne t.thread n e, remove_thread-Misses n ts d.1)
]

pub but_last-length : (t : Thread) (ts : List Thread) → length (but_last t ts) ≡ length ts
but_last-length t [] = refl
but_last-length t (u ∷ us) = ap suc (but_last-length u us)

pub fill_gap-length : (ts : List Thread) → length (fill_gap ts) ≡ length ts
fill_gap-length [] = refl
fill_gap-length (t ∷ ts) = ap suc (but_last-length t ts)

pub remove_thread-length :
    (n : ℕ) (ts : List Thread)
    → is_running n ts ≡ true
    → suc (length (remove_thread n ts)) ≡ length ts
unfolding remove_thread is_running
remove_thread-length n [] r = absurd cc
remove_thread-length n (t ∷ ts) r = elim (Bool-cases (t.thread == n)) [
  | inl e ↦ rw e (ap suc (fill_gap-length ts))
  | inr e ↦ rw e (ap suc (remove_thread-length n ts (rw e at r)))
]

pub remove_thread_le : (n : ℕ) (ts : List Thread) → length (remove_thread n ts) ≤ length ts
unfolding remove_thread
remove_thread_le n [] = omega arith
remove_thread_le n (t ∷ ts) = ground (arith, remove_thread_le n ts, fill_gap-length ts)

pub is_listed-join_thread :
    (m n : ℕ) (us : List ℕ) → m ≢ n → is_listed m us ≡ true → is_listed m (join_thread n us) ≡ true
unfolding is_listed join_thread
is_listed-join_thread m n [] d h = h
is_listed-join_thread m n (u ∷ us) d h = ground (arith, is_listed-join_thread m n us d)

pub listed_after_join :
    (n : ℕ) (us : List ℕ) (ts : List Thread)
    → Misses n ts
    → All (λ t. is_listed t.thread us ≡ true) ts
    → All (λ t. is_listed t.thread (join_thread n us) ≡ true) ts
listed_after_join n us [] m h = tt
listed_after_join n us (t ∷ ts) m h =
    (is_listed-join_thread t.thread n us m.0 h.0, listed_after_join n us ts m.1 h.1)
