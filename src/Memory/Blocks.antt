-- ===== src/Memory/Blocks.antt =====
-- Blocks of src/platform/proc_memory_FreeRTOS.c: a header with the size, and the bytes that the caller sees.
use csp_proc.Common.{
  ℕ, ◌+◌, ◌-◌, ◌^◌, ◌≤◌, ◌<◌, ◌≡◌, ◌≢◌, refl, ap, ◌∙◌, fun_ext, List, [], ◌∷◌, ◌++◌, length, take,
  drop, Option, none, some, ==_refl, ne→==_false, length-append, length-drop, append-nil,
  take-append, drop-append, drop-append_add, leb, true, arith,
}
use native.Mathlib.Nat.{zero-add}
use csp_proc.Common.Bytes.{bytes_of, length-bytes_of, value_of-bytes_of}
use csp_proc.Memory.{
  Pointer, Heap, pointer, set_block, load_bytes, store_bytes, free_block, Allocator, after_header,
  before_header, load_size, store_size, copy_bytes,
}

-- A block of the allocator's with the bytes `content` behind the header.
abbrev pub IsAllocated : ℕ → Heap → ℕ → List ℕ → Type 0
IsAllocated w h b content = h b ≡ some (bytes_of w (length content) ++ content)

-- What FreeRTOS documents of `pvPortMalloc`: a block that is not in use, of the size that was asked for.
abbrev pub IsAllocator : Allocator → Type 0
IsAllocator pvPortMalloc =
    (h : Heap) (n b : ℕ) (bytes : List ℕ)
    → pvPortMalloc h n ≡ some (b, bytes)
    → (h b ≡ none) × (length bytes ≡ n)

drop-length : (xs : List ℕ) → drop (length xs) xs ≡ []
drop-length [] = refl
drop-length (x ∷ xs) = drop-length xs

pub set_block-same : (h : Heap) (b : ℕ) (o : Option (List ℕ)) → set_block h b o b ≡ o
unfolding set_block
set_block-same h b o = rw (==_refl b) refl

pub set_block-other :
    (h : Heap) (b : ℕ) (o : Option (List ℕ)) (i : ℕ) → i ≢ b → set_block h b o i ≡ h i
unfolding set_block
set_block-other h b o i n = rw (ne→==_false i b n) refl

pub set_block-set_block :
    (h : Heap) (b : ℕ) (o o' : Option (List ℕ))
    → set_block (set_block h b o) b o' ≡ set_block h b o'
unfolding set_block
set_block-set_block h b o o' = fun_ext λ i. ground arith

pub leb-true : (a b : ℕ) → a ≤ b → leb a b ≡ true
leb-true a b h = ground arith

module _ (h : Heap) (b : ℕ) (head rest : List ℕ) (holds : h b ≡ some (head ++ rest)) where
  pub load_rest :
      (m : ℕ) → m ≤ length rest → load_bytes h (pointer b (length head)) m ≡ some (take m rest)
  unfolding load_bytes
  load_rest m le =
      let room : leb (length head + m) (length (head ++ rest)) ≡ true =
        leb-true _ _ (omega (arith, length-append head rest)) in
      rw (load_bytes, holds, room, drop-append head rest) refl

  pub store_rest :
      (new : List ℕ)
      → length new ≤ length rest
      → store_bytes h (pointer b (length head)) new
        ≡ some (set_block h b (some (head ++ (new ++ drop (length new) rest))))
  unfolding store_bytes
  store_rest new le =
      let room : leb (length head + length new) (length (head ++ rest)) ≡ true =
        leb-true _ _ (omega (arith, length-append head rest)) in
      rw (store_bytes, holds, room, take-append head rest, drop-append_add head rest (length new))
        refl

pub free_block_lem :
    (h : Heap) (b : ℕ) (bytes : List ℕ)
    → h b ≡ some bytes
    → free_block h (pointer b 0) ≡ some (set_block h b none)
unfolding free_block
free_block_lem h b bytes holds = rw (free_block, holds) refl

pub after_header-pointer : (w b : ℕ) → after_header w (pointer b 0) ≡ pointer b w
unfolding after_header
after_header-pointer w b = rw zero-add

pub before_header-pointer : (w b : ℕ) → before_header w (pointer b w) ≡ some (pointer b 0)
unfolding before_header
before_header-pointer w b =
    let none_left : w - w ≡ 0 = omega arith in rw (leb-true w w (omega arith), none_left) refl

pub copy_bytes_lem :
    (w : ℕ) (pvPortMalloc : Allocator) (h h' : Heap) (to from : Pointer) (n : ℕ) (bytes : List ℕ)
    → load_bytes h from n ≡ some bytes
    → store_bytes h to bytes ≡ some h'
    → copy_bytes w pvPortMalloc h to from n ≡ some h'
unfolding copy_bytes
copy_bytes_lem w pvPortMalloc h h' to from n bytes loads stores =
    rw (copy_bytes, loads, stores) refl

module _ (w : ℕ) where
  -- Writing the header of a fresh block.
  pub store_size-fresh :
      (h : Heap) (b : ℕ) (bytes : List ℕ) (size : ℕ)
      → length bytes ≡ size + w
      → (store_size w (set_block h b (some bytes)) (pointer b 0) size
          ≡ some (set_block h b (some (bytes_of w size ++ drop w bytes))))
        × (length (drop w bytes) ≡ size)
  unfolding store_size
  store_size-fresh h b bytes size e =
      let stored =
        store_rest (set_block h b (some bytes)) b [] bytes (set_block-same h b (some bytes))
          (bytes_of w size) (omega (arith, length-bytes_of w size)) in
      (
        stored
            ∙ rw (length-bytes_of w size) (
                rw (set_block-set_block h b (some bytes) (some (bytes_of w size ++ drop w bytes)))
                  refl),
        omega (arith, length-drop w bytes),
      )

  -- Reading the header of a block.
  pub load_size-allocated :
      (h : Heap) (b : ℕ) (content : List ℕ)
      → length content < 256 ^ w
      → IsAllocated w h b content
      → load_size w h (pointer b 0) ≡ some (length content)
  unfolding load_size
  load_size-allocated h b content small holds =
      let header : List ℕ = bytes_of w (length content) in
      let size : length header ≡ w = length-bytes_of w (length content) in
      let loaded =
        load_rest h b [] (header ++ content) holds w
          (omega (arith, length-append header content)) in
      let header_read : load_bytes h (pointer b 0) w ≡ some header =
        loaded ∙ ap some (rw size at (take-append header content)) in
      rw (load_size, header_read, value_of-bytes_of w (length content) small) refl

  module _ (h : Heap) (b : ℕ) (content : List ℕ) (holds : IsAllocated w h b content) where
    pub load_content :
        (m : ℕ) → m ≤ length content → load_bytes h (pointer b w) m ≡ some (take m content)
    load_content m le =
        rw (length-bytes_of w (length content)) at
          (load_rest h b (bytes_of w (length content)) content holds m le)

    pub store_content :
        (new : List ℕ)
        → length new ≤ length content
        → store_bytes h (pointer b w) new
          ≡ some (
              set_block h b
                (some (bytes_of w (length content) ++ (new ++ drop (length new) content))))
    store_content new le =
        rw (length-bytes_of w (length content)) at
          (store_rest h b (bytes_of w (length content)) content holds new le)

    -- The content with its first bytes replaced has the same length.
    pub overwritten :
        (new : List ℕ)
        → length new ≤ length content
        → length (new ++ drop (length new) content) ≡ length content
    overwritten new le =
        omega
          (arith, length-append new (drop (length new) content), length-drop (length new) content)

    -- New content of the same size.
    pub store_whole :
        (new : List ℕ)
        → length new ≡ length content
        → store_bytes h (pointer b w) new
          ≡ some (set_block h b (some (bytes_of w (length new) ++ new)))
    store_whole new same =
        let nothing_left : drop (length new) content ≡ [] = rw same (drop-length content) in
        rw (nothing_left, append-nil, ← same) at (store_content new (omega (arith, same)))
