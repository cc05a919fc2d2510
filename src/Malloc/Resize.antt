-- ===== src/Malloc/Resize.antt =====
-- `sf_realloc` and `sf_memalign` of hw3/src/sfmm.c. A result `none` is as in `sf_malloc` and `sf_free`.
pub mod Shrink
pub mod Realloc
use Prim.Native.Nat.{bit_or}
use cse_320_repository.Base.{
  ℕ, zero, suc, ◌+◌, ◌-◌, ◌%◌, ◌^◌, ◌==◌, Bool, true, false, ◌&&◌, if◌then◌else◌, ltb, leb, Option,
  none, some,
}
use cse_320_repository.Malloc.Sizes.{compute_memory_size, adjusted_size, power_of2, size_mod}
use cse_320_repository.Malloc.Memory.{
  Heap, einval, enomem, this_block_allocated, prev_block_allocated, get_size_from_header, set_word,
  prev_bit,
}
use cse_320_repository.Malloc.Allocate.{sf_malloc}
use cse_320_repository.Malloc.Free.{is_valid, sf_free}

-- `memcpy` of `n` bytes, a multiple of 8, between places that are multiples of 8.
unfoldable pub copy_words : (to from n : ℕ) → Heap → Heap
copy_words to from n h = record h {
  words = λ a. if leb to a && ltb a (to + n) then h.words (from + (a - to)) else h.words a;
}

-- A larger block with the same contents; the old one is freed.
unfoldable pub move_block : (ptr size length : ℕ) → Heap → Option (ℕ × Heap)
move_block ptr size length h = elim (sf_malloc size h) [
  | none ↦ none
  | some (p, g) ↦
      if p == 0 then some (0, g) else elim (sf_free ptr (copy_words p ptr (length - 8) g)) [
        | none ↦ none
        | some f ↦ some (p, f)
      ]
]

-- The block is cut to the size, and the rest freed.
unfoldable pub shrink_block : (ptr need length : ℕ) → Heap → Option (ℕ × Heap)
shrink_block ptr need length h =
    let a = ptr - 8 in
    let rest = a + need in
    let cut = set_word a (bit_or (bit_or need this_block_allocated) (prev_bit (h.words a))) h in
    elim (sf_free (rest + 8) (
      set_word rest (bit_or (bit_or (length - need) this_block_allocated) prev_block_allocated)
        cut)) [ none ↦ none | some f ↦ some (ptr, f) ]

unfoldable pub resize_to : (ptr size need : ℕ) → Heap → Option (ℕ × Heap)
resize_to ptr size need h =
    let length = get_size_from_header (h.words (ptr - 8)) in
    if ltb length need
    then move_block ptr size length h
    else if ltb (length - need) 32
    then some (ptr, h)
    else shrink_block ptr need length h

unfoldable pub sf_realloc : (ptr size : ℕ) → Heap → Option (ℕ × Heap)
sf_realloc ptr size h =
    if is_valid ptr h
    then (if size == 0
        then elim (sf_free ptr h) [ none ↦ none | some f ↦ some (0, f) ]
        else elim (adjusted_size size) [ none ↦ none | some need ↦ resize_to ptr size need h ])
    else some (0, record h { sf_errno = einval })

-- The steps of a pointer to an aligned address at least 32 bytes behind the header.
unfoldable pub align_loop : (rounds moving align a : ℕ) → ℕ
align_loop zero moving align a = moving
align_loop (suc rounds) moving align a =
    let further = align_loop rounds (moving + 1) align a in
    if (moving + 1) % align == 0 && leb 32 (moving + 1 - a) then moving + 1 else further

-- The header of an allocated block behind another one.
abbrev pub cut_header : ℕ → ℕ
cut_header length = bit_or (bit_or length this_block_allocated) prev_block_allocated

-- The block in front of the aligned address, with the length that is left for it.
unfoldable pub cut_front : (a init : ℕ) → Heap → Heap
cut_front a init h = set_word a (bit_or (bit_or init (prev_bit (h.words a))) this_block_allocated) h

-- The part in front of the aligned address is freed, and the rest behind it if it is long enough.
unfoldable pub cut_aligned : (ptr moving size : ℕ) → Heap → Option (ℕ × Heap)
cut_aligned ptr moving size h =
    let a = ptr - 8 in
    let init = moving - 8 - a in
    let length = get_size_from_header (h.words a) - init in
    let first = cut_front a init h in
    elim (compute_memory_size ((size + 8) % size_mod)) [
      | none ↦ none
      | some actual ↦
          let spare = (length + size_mod - actual) % size_mod in
          let rest = moving + actual - 8 in
          if ltb spare 32
          then elim (sf_free ptr (set_word (moving - 8) (cut_header length) first)) [
            | none ↦ none
            | some f ↦ some (moving, f)
          ]
          else elim (sf_free ptr (
              set_word (moving - 8) (cut_header actual) (set_word rest (cut_header spare) first))) [
                | none ↦ none
                | some f ↦ elim (sf_free (rest + 8) f) [ none ↦ none | some g ↦ some (moving, g) ]
              ]
    ]

unfoldable pub align_block : (ptr size align : ℕ) → Heap → Option (ℕ × Heap)
align_block ptr size align h =
    if ptr == 0
    then some (0, record h { sf_errno = enomem })
    else if ptr % align == 0
    then sf_realloc ptr size h
    else cut_aligned ptr (align_loop (get_size_from_header (h.words (ptr - 8))) ptr align (ptr - 8))
        size h

unfoldable pub sf_memalign : (size align : ℕ) → Heap → Option (ℕ × Heap)
sf_memalign size align h =
    if size == 0
    then some (0, h)
    else if ltb size 32
    then some (0, record h { sf_errno = einval })
    else if power_of2 align
    then elim (sf_malloc ((size + align + 32) % size_mod) h) [
      | none ↦ none
      | some (ptr, g) ↦ align_block ptr size align g
    ]
    else some (0, record h { sf_errno = einval })
