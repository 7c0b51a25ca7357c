-- ===== src/Memory/Strings.antt =====
-- Strings in src/platform/proc_memory_FreeRTOS.c.
use csp_proc.Common.{
  ℕ, zero, suc, ◌+◌, ◌^◌, ◌<◌, ◌≡◌, ◌≢◌, refl, sym, ap, ◌∙◌, ◌⊎◌, inl, inr, List, [], ◌∷◌, ◌++◌,
  length, take, drop, All, none, some, leb, true, length-append, length-drop, take-append,
  append_assoc, arith,
}
use csp_proc.Common.Bytes.{bytes_of}
use csp_proc.Memory.{
  Heap, null_pointer, pointer, set_block, load_bytes, Allocator, string_length, strlen, fill_string,
  proc_strdup,
}
use csp_proc.Memory.Blocks.{
  IsAllocated, IsAllocator, set_block-same, set_block-other, leb-true, copy_bytes_lem, store_whole,
}
use csp_proc.Memory.Malloc.{size_t-small, proc_malloc-Gives}

-- The string `text` at a pointer.
pub record IsString (h : Heap) (b offset : ℕ) (text : List ℕ) : Type 0 where
  pub bytes : List ℕ
  pub rest : List ℕ
  pub here : h b ≡ some bytes
  pub spelt : drop offset bytes ≡ text ++ 0 ∷ rest
  pub chars : All (λ c. 0 < c) text

string_length_lem :
    (text rest : List ℕ)
    → All (λ c. 0 < c) text
    → string_length (text ++ 0 ∷ rest) ≡ some (length text)
unfolding string_length
string_length_lem [] rest h = refl
string_length_lem (zero ∷ text) rest h = absurd (omega (arith, h.0))
string_length_lem (suc c ∷ text) rest h = rw (string_length_lem text rest h.1) refl

module _ (h : Heap) (b offset : ℕ) (text : List ℕ) (string : IsString h b offset text) where
  strlen_lem : strlen h (pointer b offset) ≡ some (length text)
  unfolding strlen
  strlen_lem =
      rw (strlen, string.here, string.spelt) (string_length_lem text string.rest string.chars)

  -- The string and its terminator are within the block.
  load_string :
      (h' : Heap)
      → h' b ≡ h b
      → load_bytes h' (pointer b offset) (length text + 1) ≡ some (text ++ 0 ∷ [])
  unfolding load_bytes
  load_string h' same =
      let long : length (drop offset string.bytes) ≡ length text + suc (length string.rest) =
        ap length string.spelt ∙ length-append text (0 ∷ string.rest) in
      let room : leb (offset + (length text + 1)) (length string.bytes) ≡ true =
        leb-true _ _ (omega (arith, long, length-drop offset string.bytes)) in
      let whole : length (text ++ 0 ∷ []) ≡ length text + 1 = length-append text (0 ∷ []) in
      let cut : take (length text + 1) (text ++ 0 ∷ string.rest) ≡ text ++ 0 ∷ [] =
        rw (append_assoc text (0 ∷ []) string.rest, whole) at
          (take-append (text ++ 0 ∷ []) string.rest) in
      rw (load_bytes, same, string.here, room, string.spelt, cut) refl

module _ (w : ℕ) (pvPortMalloc : Allocator) (sound : IsAllocator pvPortMalloc) where
  -- `proc_strdup` of a string whose size fits `size_t` with the header: it returns NULL and changes nothing,
  -- or it returns a block that was not in use and holds the string with its terminator, and every other
  -- block, with the string that was copied, is as it was.
  pub proc_strdup-copies :
      (h : Heap) (b offset : ℕ) (text : List ℕ)
      → IsString h b offset text
      → length text + 1 + w < 256 ^ w
      → (proc_strdup w pvPortMalloc (pointer b offset) h ≡ some (null_pointer, h))
        ⊎ ((b' : ℕ) × (h' : Heap) × (proc_strdup w pvPortMalloc (pointer b offset) h
              ≡ some (pointer b' w, h'))
            × (h b' ≡ none)
            × IsAllocated w h' b' (text ++ 0 ∷ [])
            × ((i : ℕ) → i ≢ b' → h' i ≡ h i))
  unfolding proc_strdup fill_string
  proc_strdup-copies h b offset text string small =
      let len = length text + 1 in
      let read = strlen_lem h b offset text string in
      let size = size_t-small w len (omega arith) in
      elim (proc_malloc-Gives w pvPortMalloc sound h len small) [
        | inl e ↦ inl (rw (proc_strdup, read, size, e, fill_string) refl)
        | inr (b', h1, e, gives) ↦
            let apart : b ≢ b' = λ same. cc (same, gives.fresh, string.here) in
            let loaded = load_string h b offset text string h1 (gives.others b apart) in
            let whole : length (text ++ 0 ∷ []) ≡ length gives.content =
              length-append text (0 ∷ []) ∙ sym gives.sized in
            let stored = store_whole w h1 b' gives.content gives.allocated (text ++ 0 ∷ []) whole in
            let h2 =
              set_block h1 b' (some (bytes_of w (length (text ++ 0 ∷ [])) ++ (text ++ 0 ∷ []))) in
            let copied =
              copy_bytes_lem w pvPortMalloc h1 h2 (pointer b' w) (pointer b offset) len
                (text ++ 0 ∷ []) loaded stored in
            inr (
              b',
              h2,
              rw (proc_strdup, read, size, e, fill_string, size, copied) refl,
              gives.fresh,
              set_block-same h1 b' _,
              λ i n. set_block-other h1 b' _ i n ∙ gives.others i n,
            )
      ]
