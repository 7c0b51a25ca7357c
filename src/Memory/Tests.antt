-- ===== src/Memory/Tests.antt =====
-- Runs of src/platform/proc_memory_FreeRTOS.c on a heap with room for two more blocks, where `size_t` has four
-- bytes, and the theorems applied to them.
use csp_proc.Common.{
  ℕ, ◌*◌, ◌%◌, ◌^◌, ◌≡◌, ◌≢◌, refl, ◌⊎◌, List, [], ◌∷◌, length, Option, none, some, ◌==◌,
  if◌then◌else◌, arith,
}
use csp_proc.Common.Bytes.{bytes_of}
use csp_proc.Memory.{
  Heap, null_pointer, pointer, set_block, free_block, Allocator, zeros, before_header, proc_free,
  proc_calloc, proc_realloc,
}
use csp_proc.Memory.Blocks.{IsAllocated, IsAllocator}
use csp_proc.Memory.Malloc.{length-zeros, proc_calloc-zeros}
use csp_proc.Memory.Realloc.{Moves, proc_realloc-Moves}
use csp_proc.Memory.{
  strlen, string_length, Pointer, proc_malloc, store_size, store_bytes, after_header,
}
use csp_proc.Memory.Reach.{Reach, empty, mallocs, Reach-defined}

-- It gives block 1 if that is free, and else block 2.
abbrev two_blocks : Allocator
two_blocks h n = elim (h 1) [
  | none ↦ some (1, zeros n)
  | some bytes ↦ elim (h 2) [ none ↦ some (2, zeros n) | some bytes' ↦ none ]
]

two_blocks-IsAllocator : IsAllocator two_blocks
two_blocks-IsAllocator h n b bytes e = go (h 1) (h 2) refl refl e
  where
    go :
        (one two : Option (List ℕ))
        → h 1 ≡ one
        → h 2 ≡ two
        → elim one as (λ x. Option (ℕ × List ℕ)) [
          | none ↦ some (1, zeros n)
          | some bytes' ↦ elim two [ none ↦ some (2, zeros n) | some bytes'' ↦ none ]
        ]
          ≡ some (b, bytes)
        → (h b ≡ none) × (length bytes ≡ n)
    go none two e1 e2 e =
        let same : 1 ≡ b = cc e in
        let all : zeros n ≡ bytes = cc e in (rw (← same) e1, rw (← all) (length-zeros n))
    go (some x) none e1 e2 e =
        let same : 2 ≡ b = cc e in
        let all : zeros n ≡ bytes = cc e in (rw (← same) e2, rw (← all) (length-zeros n))
    go (some x) (some y) e1 e2 e = cc e

-- Block 0 has the header 3 and the bytes 7, 8 and 0.
abbrev three_bytes : Heap
three_bytes b = if b == 0 then some (3 ∷ 0 ∷ 0 ∷ 0 ∷ 7 ∷ 8 ∷ 0 ∷ []) else none

three_bytes-IsAllocated : IsAllocated 4 three_bytes 0 (7 ∷ 8 ∷ 0 ∷ [])
unfolding bytes_of
three_bytes-IsAllocated = refl

realloc_test :
    proc_realloc 4 two_blocks (pointer 0 4) 0 three_bytes
    ≡ some (null_pointer, set_block three_bytes 0 none)
unfolding proc_realloc proc_free before_header free_block set_block
realloc_test = refl

proc_realloc-Moves_example :
    (proc_realloc 4 two_blocks (pointer 0 4) 2 three_bytes ≡ some (null_pointer, three_bytes))
    ⊎ ((b' : ℕ) × (h' : Heap) × (proc_realloc 4 two_blocks (pointer 0 4) 2 three_bytes
          ≡ some (pointer b' 4, h'))
        × Moves 4 two_blocks two_blocks-IsAllocator three_bytes 0 (7 ∷ 8 ∷ 0 ∷ []) 2 b' h')
proc_realloc-Moves_example =
    proc_realloc-Moves 4 two_blocks two_blocks-IsAllocator three_bytes 0 2 (7 ∷ 8 ∷ 0 ∷ [])
      three_bytes-IsAllocated (omega arith) (omega arith) (omega arith)

-- 65536 elements of 65537 bytes: the product as a `size_t` is 65536.
proc_calloc-zeros_example :
    (proc_calloc 4 two_blocks 65536 65537 three_bytes ≡ some (null_pointer, three_bytes))
    ⊎ ((b : ℕ) × (h' : Heap) × (proc_calloc 4 two_blocks 65536 65537 three_bytes
          ≡ some (pointer b 4, h'))
        × (three_bytes b ≡ none)
        × IsAllocated 4 h' b (zeros ((65536 * 65537) % 256 ^ 4))
        × ((i : ℕ) → i ≢ b → h' i ≡ three_bytes i))
proc_calloc-zeros_example =
    proc_calloc-zeros 4 two_blocks two_blocks-IsAllocator three_bytes 65536 65537 (omega arith)

-- A heap with one block of three bytes, as `proc_malloc` gives it.
abbrev one_block : Heap
one_block = set_block (set_block (λ b. none) 1 (some (zeros 7))) 1 (some (3 ∷ 0 ∷ 0 ∷ 0 ∷ zeros 3))

a_string : strlen three_bytes (pointer 0 5) ≡ some 1
unfolding strlen string_length
a_string = refl

one_block-Reach : Reach 4 two_blocks one_block
unfolding proc_malloc store_size store_bytes after_header set_block bytes_of
one_block-Reach = mallocs 3 (pointer 1 4) empty (omega arith) refl

Reach-defined_example :
    ((p : Pointer) × (h' : Heap) × (proc_realloc 4 two_blocks (pointer 1 4) 9 one_block
        ≡ some (p, h')))
    × ((h' : Heap) × (proc_free 4 (pointer 1 4) one_block ≡ some h') × (h' 1 ≡ none))
unfolding set_block
Reach-defined_example =
    Reach-defined 4 two_blocks two_blocks-IsAllocator 1 9 one_block one_block-Reach (λ e. cc)
      (omega arith)
