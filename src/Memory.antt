-- ===== src/Memory.antt =====
-- src/platform/proc_memory_FreeRTOS.c: an allocator that keeps the size of a block in front of it. Memory is
-- a set of blocks of bytes, and a pointer is a block with an offset. `none` is undefined behaviour: an
-- access outside a block, or the freeing of what is no block. `pvPortMalloc` is a parameter.
pub mod Blocks
pub mod Malloc
pub mod Realloc
pub mod Strings
pub mod Reach
mod Tests
use csp_proc.Common.{
  ℕ, zero, suc, ◌+◌, ◌-◌, ◌*◌, ◌%◌, ◌^◌, List, [], ◌∷◌, ◌++◌, length, take, drop, Bool, true, false,
  Option, none, some, ◌==◌, leb, ltb, if◌then◌else◌,
}
use csp_proc.Common.Bytes.{bytes_of, value_of}

-- The blocks in use, with their bytes.
abbrev pub Heap : Type 0
Heap = ℕ → Option (List ℕ)

pub data Pointer : Type 0 where
  null_pointer : Pointer
  pointer : ℕ → ℕ → Pointer

abbrev pub Fallible : Type 0 → Type 0
Fallible A = Option (A × Heap)

unfoldable pub set_block : Heap → ℕ → Option (List ℕ) → Heap
set_block h b o i = if i == b then o else h i

-- `n` bytes at a pointer.
unfoldable pub load_bytes : Heap → Pointer → ℕ → Option (List ℕ)
load_bytes h null_pointer n = none
load_bytes h (pointer b offset) n = elim (h b) [
  | none ↦ none
  | some bytes ↦ if leb (offset + n) (length bytes) then some (take n (drop offset bytes)) else none
]

unfoldable pub store_bytes : Heap → Pointer → List ℕ → Option Heap
store_bytes h null_pointer new = none
store_bytes h (pointer b offset) new = elim (h b) [
  | none ↦ none
  | some bytes ↦
      if leb (offset + length new) (length bytes)
      then some
          (set_block h b (some (take offset bytes ++ (new ++ drop (offset + length new) bytes))))
      else none
]

-- `vPortFree`
unfoldable pub free_block : Heap → Pointer → Option Heap
free_block h null_pointer = some h
free_block h (pointer b zero) = elim (h b) [ none ↦ none | some bytes ↦ some (set_block h b none) ]
free_block h (pointer b (suc offset)) = none

-- `strlen`, from the bytes at a pointer on; `none` is that no byte of the block is 0.
unfoldable pub string_length : List ℕ → Option ℕ
string_length [] = none
string_length (zero ∷ bytes) = some 0
string_length (suc c ∷ bytes) =
    let rest = string_length bytes in elim rest [ none ↦ none | some n ↦ some (suc n) ]

unfoldable pub strlen : Heap → Pointer → Option ℕ
strlen h null_pointer = none
strlen h (pointer b offset) = elim (h b) [
  | none ↦ none
  | some bytes ↦ string_length (drop offset bytes)
]

-- What `pvPortMalloc` gives for a number of bytes: no block, or the block and the bytes that are in it.
abbrev pub Allocator : Type 0
Allocator = Heap → ℕ → Option (ℕ × List ℕ)

-- The bytes that `memset(ptr, 0, n)` writes.
abbrev pub zeros : ℕ → List ℕ
zeros zero = []
zeros (suc n) = 0 ∷ zeros n

-- `size_t` has `w` bytes.
module _ (w : ℕ) where
  -- Arithmetic of `size_t` wraps around.
  abbrev pub size_t : ℕ → ℕ
  size_t n = n % 256 ^ w

  -- `(size_t *)ptr + 1` and `(size_t *)ptr - 1`
  unfoldable pub after_header : Pointer → Pointer
  after_header null_pointer = null_pointer
  after_header (pointer b offset) = pointer b (offset + w)

  unfoldable pub before_header : Pointer → Option Pointer
  before_header null_pointer = none
  before_header (pointer b offset) = if leb w offset then some (pointer b (offset - w)) else none

  -- `*actual_ptr`
  unfoldable pub load_size : Heap → Pointer → Option ℕ
  load_size h p = elim (load_bytes h p w) [ none ↦ none | some bytes ↦ some (value_of bytes) ]

  unfoldable pub store_size : Heap → Pointer → ℕ → Option Heap
  store_size h p size = store_bytes h p (bytes_of w size)

  unfoldable pub proc_free : Pointer → Heap → Option Heap
  proc_free null_pointer h = some h
  proc_free (pointer b offset) h = elim (before_header (pointer b offset)) [
    | none ↦ none
    | some actual_ptr ↦ free_block h actual_ptr
  ]

  module _ (pvPortMalloc : Allocator) where
    unfoldable pub proc_malloc : ℕ → Heap → Fallible Pointer
    proc_malloc size h = elim (pvPortMalloc h (size_t (size + w))) [
      | none ↦ some (null_pointer, h)
      | some (b, bytes) ↦ elim (store_size (set_block h b (some bytes)) (pointer b 0) size) [
        | none ↦ none
        | some h' ↦ some (after_header (pointer b 0), h')
      ]
    ]

    unfoldable pub proc_calloc : ℕ → ℕ → Heap → Fallible Pointer
    proc_calloc num size h =
        let total_size = size_t (num * size) in
        elim (pvPortMalloc h (size_t (total_size + w))) [
          | none ↦ some (null_pointer, h)
          | some (b, bytes) ↦
              elim (store_size (set_block h b (some bytes)) (pointer b 0) total_size) [
                | none ↦ none
                | some h' ↦ elim (store_bytes h' (after_header (pointer b 0)) (zeros total_size)) [
                  | none ↦ none
                  | some h'' ↦ some (after_header (pointer b 0), h'')
                ]
              ]
        ]

    -- `memcpy(to, from, n)`
    unfoldable pub copy_bytes : Heap → Pointer → Pointer → ℕ → Option Heap
    copy_bytes h to from n = elim (load_bytes h from n) [
      | none ↦ none
      | some bytes ↦ store_bytes h to bytes
    ]

    -- The case of a pointer and a size that is not 0: the header, and what follows.
    unfoldable pub move_block : Pointer → Pointer → ℕ → ℕ → Heap → Fallible Pointer
    move_block ptr actual_ptr old_size size h = elim (pvPortMalloc h (size_t (size + w))) [
      | none ↦ some (null_pointer, h)
      | some (b, bytes) ↦ elim (store_size (set_block h b (some bytes)) (pointer b 0) size) [
        | none ↦ none
        | some h' ↦
            elim (copy_bytes h' (after_header (pointer b 0)) ptr
              (if ltb old_size size then old_size else size)) [
                | none ↦ none
                | some h'' ↦ elim (free_block h'' actual_ptr) [
                  | none ↦ none
                  | some h3 ↦ some (after_header (pointer b 0), h3)
                ]
              ]
      ]
    ]

    unfoldable pub resize_block : Pointer → ℕ → Heap → Fallible Pointer
    resize_block ptr size h = elim (before_header ptr) [
      | none ↦ none
      | some actual_ptr ↦ elim (load_size h actual_ptr) [
        | none ↦ none
        | some old_size ↦ move_block ptr actual_ptr old_size size h
      ]
    ]

    unfoldable pub proc_realloc : Pointer → ℕ → Heap → Fallible Pointer
    proc_realloc ptr zero h = elim (proc_free ptr h) [
      | none ↦ none
      | some h' ↦ some (null_pointer, h')
    ]
    proc_realloc null_pointer (suc n) h = proc_malloc (suc n) h
    proc_realloc (pointer b offset) (suc n) h = resize_block (pointer b offset) (suc n) h

    -- The copy into the new string, where there is one.
    unfoldable pub fill_string : Pointer → ℕ → Pointer → Heap → Fallible Pointer
    fill_string s len null_pointer h = some (null_pointer, h)
    fill_string s len (pointer b offset) h = elim (copy_bytes h (pointer b offset) s len) [
      | none ↦ none
      | some h' ↦ some (pointer b offset, h')
    ]

    unfoldable pub proc_strdup : Pointer → Heap → Fallible Pointer
    proc_strdup s h = elim (strlen h s) [
      | none ↦ none
      | some n ↦ elim (proc_malloc (size_t (n + 1)) h) [
        | none ↦ none
        | some (new, h') ↦ fill_string s (size_t (n + 1)) new h'
      ]
    ]
