-- ===== src/Memory/Realloc.antt =====
-- Reallocation in src/platform/proc_memory_FreeRTOS.c.
use csp_proc.Common.{
  ℕ, zero, suc, ◌+◌, ◌^◌, ◌≤◌, ◌<◌, ◌≡◌, ◌≢◌, refl, sym, ap, ◌∙◌, ◌⊎◌, inl, inr, List, ◌++◌, length,
  take, drop, none, some, length-take, take-append, ltb, if◌then◌else◌, Option-cases, arith,
}
use csp_proc.Common.Bytes.{bytes_of}
use csp_proc.Memory.{
  Heap, null_pointer, pointer, set_block, Allocator, proc_free, move_block, resize_block,
  proc_realloc,
}
use csp_proc.Memory.Blocks.{
  before_header-pointer, free_block_lem, after_header-pointer, copy_bytes_lem, load_content,
  store_content, overwritten, IsAllocated, IsAllocator, set_block-same, set_block-other,
  load_size-allocated,
}
use csp_proc.Memory.Malloc.{size_t-small, Gives, given}

module _ (w : ℕ) (pvPortMalloc : Allocator) (sound : IsAllocator pvPortMalloc) where
  -- How many bytes `proc_realloc` keeps.
  abbrev pub kept : ℕ → ℕ → ℕ
  kept old_size size = if ltb old_size size then old_size else size

  kept_le : (old_size size : ℕ) → (kept old_size size ≤ old_size) × (kept old_size size ≤ size)
  kept_le old_size size = ground arith

  -- What a reallocation of the block `b` gives: no block, and nothing changes; or a block of `size` bytes
  -- that starts with those of the old one, which is freed, and every other block as it was.
  pub record Moves (h : Heap) (b : ℕ) (old : List ℕ) (size : ℕ) (b' : ℕ) (h' : Heap) : Type 0 where
    pub content : List ℕ
    pub fresh : h b' ≡ none
    pub allocated : IsAllocated w h' b' content
    pub sized : length content ≡ size
    pub prefix : take (kept (length old) size) content ≡ take (kept (length old) size) old
    pub freed : h' b ≡ none
    pub others : (i : ℕ) → i ≢ b → i ≢ b' → h' i ≡ h i

  -- The heap after the copy into the new block `b'` of `h1` and the freeing of `b`.
  abbrev moved : Heap → ℕ → List ℕ → List ℕ → ℕ → Heap
  moved h1 b copied content b' =
      set_block
        (set_block h1 b'
          (some (bytes_of w (length content) ++ (copied ++ drop (length copied) content))))
        b none

  moved-Moves :
      (h h1 : Heap) (b size b' : ℕ) (old : List ℕ)
      → b ≢ b'
      → (gives : Gives w pvPortMalloc sound h size b' h1)
      → Moves h b old size b' (moved h1 b (take (kept (length old) size) old) gives.content b')
  moved-Moves h h1 b size b' old apart gives =
      let m = kept (length old) size in
      let (m_old, m_new) = kept_le (length old) size in
      let taken : length (take m old) ≡ m = length-take m old m_old in
      let fits : length (take m old) ≤ length gives.content =
        omega (arith, taken, gives.sized, m_new) in
      let content = take m old ++ drop (length (take m old)) gives.content in
      let same_size : length content ≡ length gives.content =
        overwritten w h1 b' gives.content gives.allocated (take m old) fits in
      record {
        content = content;
        fresh = gives.fresh;
        allocated =
            set_block-other _ b none b' (λ e. apart (sym e))
            ∙ rw same_size (set_block-same h1 b' _);
        sized = same_size ∙ gives.sized;
        prefix =
            ap (λ k. take k content) (sym taken)
            ∙ take-append (take m old) (drop (length (take m old)) gives.content);
        freed = set_block-same _ b none;
        others = λ i n n'.
            set_block-other _ b none i n ∙ (set_block-other h1 b' _ i n' ∙ gives.others i n');
      }

  move_block-Moves :
      (h : Heap) (b size : ℕ) (old : List ℕ)
      → IsAllocated w h b old
      → size + w < 256 ^ w
      → (move_block w pvPortMalloc (pointer b w) (pointer b 0) (length old) size h
          ≡ some (null_pointer, h))
        ⊎ ((b' : ℕ) × (h' : Heap) × (move_block w pvPortMalloc
                (pointer b w)
                (pointer b 0)
                (length old)
                size
                h
              ≡ some (pointer b' w, h'))
            × Moves h b old size b' h')
  unfolding move_block
  move_block-Moves h b size old holds small = elim (Option-cases (pvPortMalloc h (size + w))) [
    | inl e ↦ inl (rw (move_block, size_t-small w (size + w) small, e) refl)
    | inr ((b', bytes), e) ↦
        let (stored, gives) = given w pvPortMalloc sound h size b' bytes e in
        let h1 = set_block h b' (some (bytes_of w size ++ drop w bytes)) in
        let apart : b ≢ b' = λ same. cc (same, gives.fresh, holds) in
        let still : IsAllocated w h1 b old = set_block-other h b' _ b apart ∙ holds in
        let m = kept (length old) size in
        let (m_old, m_new) = kept_le (length old) size in
        let loaded = load_content w h1 b old still m m_old in
        let fits : length (take m old) ≤ length gives.content =
          omega (arith, length-take m old m_old, gives.sized, m_new) in
        let copied = store_content w h1 b' gives.content gives.allocated (take m old) fits in
        let h2 = set_block h1 b' (
          some (
            bytes_of w (length gives.content)
            ++ (take m old ++ drop (length (take m old)) gives.content))) in
        let there : h2 b ≡ some (bytes_of w (length old) ++ old) =
          set_block-other h1 b' _ b apart ∙ still in
        let header = after_header-pointer w b' in
        let both =
          (copy_bytes_lem w pvPortMalloc h1 _ (pointer b' w) (pointer b w) m (take m old) loaded
            copied) in
        let gone = free_block_lem h2 b _ there in
        inr (
          b',
          moved h1 b (take m old) gives.content b',
          rw (move_block, size_t-small w (size + w) small, e, stored, header, both, gone, header)
              refl,
          moved-Moves h h1 b size b' old apart gives,
        )
  ]

  -- `proc_realloc` of a block whose size fits `size_t`, to a size that is not 0 and fits it with
  -- the header, where `pvPortMalloc` gives only blocks that are not in use, with the bytes that
  -- were asked for: it returns NULL and changes nothing, or it returns a block of that size that
  -- starts with the old one's bytes, as many of them as fit; the old block is then freed, and every
  -- other block is as it was.
  pub proc_realloc-Moves :
      (h : Heap) (b size : ℕ) (old : List ℕ)
      → IsAllocated w h b old
      → length old < 256 ^ w
      → 0 < size
      → size + w < 256 ^ w
      → (proc_realloc w pvPortMalloc (pointer b w) size h ≡ some (null_pointer, h))
        ⊎ ((b' : ℕ) × (h' : Heap) × (proc_realloc w pvPortMalloc (pointer b w) size h
              ≡ some (pointer b' w, h'))
            × Moves h b old size b' h')
  unfolding proc_realloc resize_block
  proc_realloc-Moves h b zero old holds small_old some_size small = absurd (omega arith)
  proc_realloc-Moves h b (suc n) old holds small_old some_size small =
      rw (resize_block, before_header-pointer w b, load_size-allocated w h b old small_old holds)
        (move_block-Moves h b (suc n) old holds small)

  -- Freeing a block.
  pub proc_free_lem :
      (h : Heap) (b : ℕ) (old : List ℕ)
      → IsAllocated w h b old
      → proc_free w (pointer b w) h ≡ some (set_block h b none)
  unfolding proc_free
  proc_free_lem h b old holds =
      rw (proc_free, before_header-pointer w b, free_block_lem h b _ holds) refl

  -- `proc_realloc` to size 0 frees the block, and nothing else.
  pub proc_realloc-zero :
      (h : Heap) (b : ℕ) (old : List ℕ)
      → IsAllocated w h b old
      → proc_realloc w pvPortMalloc (pointer b w) 0 h ≡ some (null_pointer, set_block h b none)
  unfolding proc_realloc
  proc_realloc-zero h b old holds = rw (proc_realloc, proc_free_lem h b old holds) refl
