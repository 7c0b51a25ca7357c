-- ===== src/Memory/Malloc.antt =====
-- New blocks in src/platform/proc_memory_FreeRTOS.c.
use csp_proc.Common.{
  ℕ, zero, suc, ◌+◌, ◌-◌, ◌*◌, ◌%◌, ◌^◌, ◌≤◌, ◌<◌, ◌≡◌, ◌≢◌, refl, sym, ap, ◌∙◌, ◌⊎◌, inl, inr,
  List, ◌++◌, length, drop, none, some, leb, false, Option-cases, arith,
}
use native.Mathlib.Nat.{zero-add, mod-eq_of_lt, mod-eq-sub-mod, mod-le}
use csp_proc.Common.Bytes.{bytes_of, length-bytes_of}
use csp_proc.Memory.{
  Heap, null_pointer, pointer, set_block, store_bytes, Allocator, size_t, after_header, store_size,
  zeros, proc_malloc, proc_calloc,
}
use csp_proc.Memory.Blocks.{
  after_header-pointer, IsAllocated, IsAllocator, set_block-same, set_block-other,
  after_header-pointer, store_whole, store_size-fresh,
}

pub size_t-small : (w n : ℕ) → n < 256 ^ w → size_t w n ≡ n
size_t-small w n h = mod-eq_of_lt h

leb-false : (a b : ℕ) → b < a → leb a b ≡ false
leb-false a b h = ground arith

pub length-zeros : (n : ℕ) → length (zeros n) ≡ n
length-zeros zero = refl
length-zeros (suc n) = ap suc (length-zeros n)

module _ (w : ℕ) (pvPortMalloc : Allocator) (sound : IsAllocator pvPortMalloc) where
  -- A fresh block `b` whose content has `size` bytes, and every other block as it was.
  pub record Gives (h : Heap) (size : ℕ) (b : ℕ) (h' : Heap) : Type 0 where
    pub content : List ℕ
    pub fresh : h b ≡ none
    pub allocated : IsAllocated w h' b content
    pub sized : length content ≡ size
    pub others : (i : ℕ) → i ≢ b → h' i ≡ h i

  -- The header in a block that was just given.
  pub given :
      (h : Heap) (size b : ℕ) (bytes : List ℕ)
      → pvPortMalloc h (size + w) ≡ some (b, bytes)
      → let h' = set_block h b (some (bytes_of w size ++ drop w bytes)) in
        (store_size w (set_block h b (some bytes)) (pointer b 0) size ≡ some h') × Gives h size b h'
  given h size b bytes e =
      let (fresh, all) = sound h (size + w) b bytes e in
      let (stored, rest) = store_size-fresh w h b bytes size all in
      (
        stored,
        record {
          content = drop w bytes;
          fresh = fresh;
          allocated = rw rest (set_block-same h b _);
          sized = rest;
          others = set_block-other h b _;
        },
      )

  pub proc_malloc-Gives :
      (h : Heap) (size : ℕ)
      → size + w < 256 ^ w
      → (proc_malloc w pvPortMalloc size h ≡ some (null_pointer, h))
        ⊎ ((b : ℕ) × (h' : Heap) × (proc_malloc w pvPortMalloc size h ≡ some (pointer b w, h'))
            × Gives h size b h')
  unfolding proc_malloc after_header
  proc_malloc-Gives h size small = elim (Option-cases (pvPortMalloc h (size + w))) [
    | inl e ↦ inl (rw (proc_malloc, size_t-small w (size + w) small, e) refl)
    | inr ((b, bytes), e) ↦
        let (stored, gives) = given h size b bytes e in
        inr
          (b, _, rw (proc_malloc, size_t-small w (size + w) small, e, stored, zero-add) refl, gives)
  ]

  -- `proc_calloc`, where the product as a `size_t` fits with the header, and `pvPortMalloc` gives
  -- only blocks that are not in use, with the bytes that were asked for: it returns NULL and
  -- changes nothing, or it returns a block that was not in use, whose bytes are all zero, and every
  -- other block is as it was. The block has as many bytes as the product modulo the range of
  -- `size_t`: fewer than were asked for when the product overflows.
  pub proc_calloc-zeros :
      (h : Heap) (num size : ℕ)
      → (num * size) % 256 ^ w + w < 256 ^ w
      → (proc_calloc w pvPortMalloc num size h ≡ some (null_pointer, h))
        ⊎ ((b : ℕ) × (h' : Heap) × (proc_calloc w pvPortMalloc num size h ≡ some (pointer b w, h'))
            × (h b ≡ none)
            × IsAllocated w h' b (zeros ((num * size) % 256 ^ w))
            × ((i : ℕ) → i ≢ b → h' i ≡ h i))
  unfolding proc_calloc
  proc_calloc-zeros h num size small =
      let total = (num * size) % 256 ^ w in
      elim (Option-cases (pvPortMalloc h (total + w))) [
        | inl e ↦ inl (rw (proc_calloc, size_t-small w (total + w) small, e) refl)
        | inr ((b, bytes), e) ↦
            let (stored, gives) = given h total b bytes e in
            let h1 = set_block h b (some (bytes_of w total ++ drop w bytes)) in
            let header = after_header-pointer w b in
            let same : length (zeros total) ≡ length gives.content =
              length-zeros total ∙ sym gives.sized in
            let cleared = store_whole w h1 b gives.content gives.allocated (zeros total) same in
            let h2 = set_block h1 b (some (bytes_of w (length (zeros total)) ++ zeros total)) in
            inr (
              b,
              h2,
              rw (proc_calloc, size_t-small w (total + w) small, e, stored, header, cleared, header)
                  refl,
              gives.fresh,
              set_block-same h1 b _,
              λ i n. set_block-other h1 b _ i n ∙ gives.others i n,
            )
      ]

  -- A size that overflows with the header added: where `pvPortMalloc` gives a block for the sum, which is
  -- smaller than the header, writing the header leaves the block.
  proc_malloc-none :
      (h : Heap) (size b : ℕ) (bytes : List ℕ)
      → 256 ^ w ≤ size + w
      → size < 256 ^ w
      → pvPortMalloc h ((size + w) % 256 ^ w) ≡ some (b, bytes)
      → proc_malloc w pvPortMalloc size h ≡ none
  unfolding proc_malloc store_size store_bytes
  proc_malloc-none h size b bytes large one gives =
      let (fresh, all) = sound h ((size + w) % 256 ^ w) b bytes gives in
      let less : length bytes < w =
        omega (arith, all, mod-eq-sub-mod large, mod-le (size + w - 256 ^ w) (256 ^ w)) in
      let outside : leb (0 + length (bytes_of w size)) (length bytes) ≡ false =
        leb-false _ _ (omega (arith, less, length-bytes_of w size)) in
      rw (proc_malloc, gives, store_size, store_bytes, set_block-same h b (some bytes), outside)
        refl
