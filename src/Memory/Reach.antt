-- ===== src/Memory/Reach.antt =====
-- The blocks of src/platform/proc_memory_FreeRTOS.c over any sequence of its operations.
use csp_proc.Common.{
  ℕ, zero, suc, ◌+◌, ◌*◌, ◌%◌, ◌^◌, ◌<◌, ◌≡◌, ◌≢◌, refl, sym, subst, ◌∙◌, ◌⊎◌, inl, inr, List, [],
  ◌∷◌, ◌++◌, length, length-append, Option, none, some, ◌==◌, ==_iff, Bool-cases, arith,
}
use csp_proc.Memory.{
  Heap, Pointer, null_pointer, pointer, set_block, Allocator, zeros, proc_free, proc_malloc,
  proc_calloc, proc_realloc, proc_strdup,
}
use csp_proc.Memory.Blocks.{IsAllocated, IsAllocator, set_block-same, set_block-other}
use csp_proc.Memory.Malloc.{proc_malloc-Gives, length-zeros, proc_calloc-zeros}
use csp_proc.Memory.Realloc.{proc_free_lem, Moves, proc_realloc-Moves, proc_realloc-zero}
use csp_proc.Memory.Strings.{IsString, proc_strdup-copies}

module _ (w : ℕ) (pvPortMalloc : Allocator) where
  -- The heaps that the operations reach from one without blocks: blocks that are in use are resized and freed,
  -- strings are copied, and sizes fit `size_t` with the header.
  pub data Reach : Heap → Type 0 where
    empty : Reach (λ b. none)
    mallocs :
        (size : ℕ) (p : Pointer) {h h' : Heap}
        → Reach h
        → size + w < 256 ^ w
        → proc_malloc w pvPortMalloc size h ≡ some (p, h')
        → Reach h'
    callocs :
        (num size : ℕ) (p : Pointer) {h h' : Heap}
        → Reach h
        → (num * size) % 256 ^ w + w < 256 ^ w
        → proc_calloc w pvPortMalloc num size h ≡ some (p, h')
        → Reach h'
    reallocs :
        (b size : ℕ) (p : Pointer) {h h' : Heap}
        → Reach h
        → h b ≢ none
        → size + w < 256 ^ w
        → proc_realloc w pvPortMalloc (pointer b w) size h ≡ some (p, h')
        → Reach h'
    frees :
        (b : ℕ) {h h' : Heap}
        → Reach h
        → h b ≢ none
        → proc_free w (pointer b w) h ≡ some h'
        → Reach h'
    strdups :
        (b offset : ℕ) (text : List ℕ) (p : Pointer) {h h' : Heap}
        → Reach h
        → IsString h b offset text
        → length text + 1 + w < 256 ^ w
        → proc_strdup w pvPortMalloc (pointer b offset) h ≡ some (p, h')
        → Reach h'

  -- A place of the heap is free, or has a block whose header is the size of the rest.
  abbrev IsManaged : Heap → ℕ → Type 0
  IsManaged h b =
      (h b ≡ none)
      ⊎ ((content : List ℕ) × IsAllocated w h b content × (length content + w < 256 ^ w))

  same-IsManaged : (h h' : Heap) (i : ℕ) → h' i ≡ h i → IsManaged h i → IsManaged h' i
  same-IsManaged h h' i e (inl free) = inl (e ∙ free)
  same-IsManaged h h' i e (inr (content, held, small)) = inr (content, e ∙ held, small)

  -- A new block, and every other one as it was.
  new-IsManaged :
      (h h' : Heap) (b : ℕ) (content : List ℕ)
      → IsAllocated w h' b content
      → length content + w < 256 ^ w
      → ((i : ℕ) → i ≢ b → h' i ≡ h i)
      → ((i : ℕ) → IsManaged h i)
      → (i : ℕ) → IsManaged h' i
  new-IsManaged h h' b content held small others managed i = elim (Bool-cases (i == b)) [
    | inl e ↦
        let same : b ≡ i = sym ((==_iff i b).0 e) in
        subst (IsManaged h') same (inr (content, held, small))
    | inr e ↦ same-IsManaged h h' i (others i (λ same. cc (e, (==_iff i b).1 same))) (managed i)
  ]

  -- A block that is freed, and every other one as it was.
  freed-IsManaged :
      (h h' : Heap) (b : ℕ)
      → h' b ≡ none
      → ((i : ℕ) → i ≢ b → IsManaged h' i)
      → (i : ℕ) → IsManaged h' i
  freed-IsManaged h h' b gone managed i = elim (Bool-cases (i == b)) [
    | inl e ↦ subst (IsManaged h') (sym ((==_iff i b).0 e)) (inl gone)
    | inr e ↦ managed i (λ same. cc (e, (==_iff i b).1 same))
  ]

  -- The block that is in use.
  in_use :
      (h : Heap) (b : ℕ)
      → h b ≢ none
      → IsManaged h b
      → (content : List ℕ) × IsAllocated w h b content × (length content + w < 256 ^ w)
  in_use h b used (inl free) = absurd (used free)
  in_use h b used (inr block) = block

  module _ (sound : IsAllocator pvPortMalloc) where
    -- The same result has the same heap.
    same_heap :
        {o : Option (Pointer × Heap)} (p q : Pointer) (h h' : Heap)
        → o ≡ some (p, h)
        → o ≡ some (q, h')
        → ((i : ℕ) → IsManaged h i)
        → (i : ℕ) → IsManaged h' i
    same_heap p q h h' e e' managed =
        let same : h ≡ h' = cc (e, e') in subst (λ x. (i : ℕ) → IsManaged x i) same managed

    proc_malloc-IsManaged :
        (size : ℕ) (p : Pointer) (h h' : Heap)
        → size + w < 256 ^ w
        → proc_malloc w pvPortMalloc size h ≡ some (p, h')
        → ((i : ℕ) → IsManaged h i)
        → (i : ℕ) → IsManaged h' i
    proc_malloc-IsManaged size p h h' small e managed =
        elim (proc_malloc-Gives w pvPortMalloc sound h size small) [
          | inl e' ↦ same_heap null_pointer p h h' e' e managed
          | inr (b, h1, e', g) ↦
              same_heap (pointer b w) p h1 h' e' e (
                new-IsManaged h h1 b g.content g.allocated (omega (arith, g.sized)) g.others
                  managed)
        ]

    proc_calloc-IsManaged :
        (num size : ℕ) (p : Pointer) (h h' : Heap)
        → (num * size) % 256 ^ w + w < 256 ^ w
        → proc_calloc w pvPortMalloc num size h ≡ some (p, h')
        → ((i : ℕ) → IsManaged h i)
        → (i : ℕ) → IsManaged h' i
    proc_calloc-IsManaged num size p h h' small e managed =
        elim (proc_calloc-zeros w pvPortMalloc sound h num size small) [
          | inl e' ↦ same_heap null_pointer p h h' e' e managed
          | inr (b, h1, e', fresh, allocated, others) ↦
              let all = length-zeros ((num * size) % 256 ^ w) in
              same_heap (pointer b w) p h1 h' e' e (
                new-IsManaged h h1 b (zeros ((num * size) % 256 ^ w)) allocated (omega (arith, all))
                  others managed)
        ]

    proc_strdup-IsManaged :
        (b offset : ℕ) (text : List ℕ) (p : Pointer) (h h' : Heap)
        → IsString h b offset text
        → length text + 1 + w < 256 ^ w
        → proc_strdup w pvPortMalloc (pointer b offset) h ≡ some (p, h')
        → ((i : ℕ) → IsManaged h i)
        → (i : ℕ) → IsManaged h' i
    proc_strdup-IsManaged b offset text p h h' string small e managed =
        elim (proc_strdup-copies w pvPortMalloc sound h b offset text string small) [
          | inl e' ↦ same_heap null_pointer p h h' e' e managed
          | inr (b', h1, e', fresh, allocated, others) ↦ same_heap (pointer b' w) p h1 h' e' e (
              new-IsManaged h h1 b' (text ++ 0 ∷ []) allocated
                (omega (arith, length-append text (0 ∷ []))) others managed)
        ]

    set_block-IsManaged :
        (b : ℕ) (h : Heap) → ((i : ℕ) → IsManaged h i) → (i : ℕ) → IsManaged (set_block h b none) i
    set_block-IsManaged b h managed =
        freed-IsManaged h (set_block h b none) b (set_block-same h b none) (λ i n.
          same-IsManaged h (set_block h b none) i (set_block-other h b none i n) (managed i))

    moved-IsManaged :
        (b size b' : ℕ) (old : List ℕ) (h h' : Heap)
        → Moves w pvPortMalloc sound h b old size b' h'
        → size + w < 256 ^ w
        → ((i : ℕ) → IsManaged h i)
        → (i : ℕ) → IsManaged h' i
    moved-IsManaged b size b' old h h' m small managed = freed-IsManaged h h' b m.freed λ i n.
        elim (Bool-cases (i == b')) [
          | inl e ↦
              subst (IsManaged h') (sym ((==_iff i b').0 e))
                (inr (m.content, m.allocated, omega (arith, m.sized)))
          | inr e ↦
              same-IsManaged h h' i (m.others i n (λ same. cc (e, (==_iff i b').1 same)))
                (managed i)
        ]

    -- Resizing a block that is in use is defined, and keeps the blocks managed.
    proc_realloc-IsManaged :
        (b size : ℕ) (h : Heap)
        → h b ≢ none
        → size + w < 256 ^ w
        → ((i : ℕ) → IsManaged h i)
        → (p : Pointer) × (h' : Heap) × (proc_realloc w pvPortMalloc (pointer b w) size h
            ≡ some (p, h'))
          × ((i : ℕ) → IsManaged h' i)
    proc_realloc-IsManaged b zero h used small managed =
        let (old, held, small_old) = in_use h b used (managed b) in
        (
          null_pointer,
          set_block h b none,
          proc_realloc-zero w pvPortMalloc sound h b old held,
          set_block-IsManaged b h managed,
        )
    proc_realloc-IsManaged b (suc n) h used small managed =
        let (old, held, small_old) = in_use h b used (managed b) in
        elim (proc_realloc-Moves w pvPortMalloc sound h b (suc n) old held
          (omega (arith, small_old)) (omega arith) small) [
            | inl e ↦ (null_pointer, h, e, managed)
            | inr (b', h', e, m) ↦
                (pointer b' w, h', e, moved-IsManaged b (suc n) b' old h h' m small managed)
          ]

    Reach-IsManaged : {h : Heap} → Reach h → (i : ℕ) → IsManaged h i
    Reach-IsManaged empty = λ i. inl refl
    Reach-IsManaged (mallocs size p {h = h} {h' = h'} r small e) =
        proc_malloc-IsManaged size p h h' small e (Reach-IsManaged r)
    Reach-IsManaged (callocs num size p {h = h} {h' = h'} r small e) =
        proc_calloc-IsManaged num size p h h' small e (Reach-IsManaged r)
    Reach-IsManaged (reallocs b size p {h = h} {h' = h'} r used small e) =
        let (q, h1, e', managed) = proc_realloc-IsManaged b size h used small (Reach-IsManaged r) in
        same_heap q p h1 h' e' e managed
    Reach-IsManaged (frees b {h = h} {h' = h'} r used e) =
        let (old, held, small) = in_use h b used (Reach-IsManaged r b) in
        let same : set_block h b none ≡ h' =
          cc (e, proc_free_lem w pvPortMalloc sound h b old held) in
        subst (λ x. (i : ℕ) → IsManaged x i) same (set_block-IsManaged b h (Reach-IsManaged r))
    Reach-IsManaged (strdups b offset text p {h = h} {h' = h'} r string small e) =
        proc_strdup-IsManaged b offset text p h h' string small e (Reach-IsManaged r)

    -- From a heap without blocks, after any sequence of `proc_malloc`, `proc_calloc`,
    -- `proc_realloc` and `proc_free` of blocks in use, and `proc_strdup`, with sizes that fit
    -- `size_t` with the header, where `pvPortMalloc` gives only blocks that are not in use, with
    -- the bytes that were asked for: a block in use can be resized to such a size and can be freed.
    -- Neither is undefined, and after the latter the block is not in use.
    pub Reach-defined :
        (b size : ℕ) (h : Heap)
        → Reach h
        → h b ≢ none
        → size + w < 256 ^ w
        → ((p : Pointer) × (h' : Heap) × (proc_realloc w pvPortMalloc (pointer b w) size h
              ≡ some (p, h')))
          × ((h' : Heap) × (proc_free w (pointer b w) h ≡ some h') × (h' b ≡ none))
    Reach-defined b size h r used small =
        let (p, h', e, managed) = proc_realloc-IsManaged b size h used small (Reach-IsManaged r) in
        let (old, held, small_old) = in_use h b used (Reach-IsManaged r b) in
        (
          (p, h', e),
          (
            set_block h b none,
            proc_free_lem w pvPortMalloc sound h b old held,
            set_block-same h b none,
          ),
        )
