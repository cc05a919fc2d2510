-- ===== src/Malloc/Free.antt =====
-- `sf_free` of hw3/src/sfmm.c. A result `none` is a call of `abort`.
pub mod Branches
pub mod Merge
pub mod Tiled
use Prim.Native.Nat.{bit_or}
use cse_320_repository.Base.{
  ℕ, ◌+◌, ◌-◌, ◌%◌, ◌==◌, Bool, true, false, not, ◌&&◌, ◌||◌, if◌then◌else◌, ltb, leb, Option, none,
  some,
}
use cse_320_repository.Malloc.Sizes.{compute_memory_index, multiple_of16, size_mod}
use cse_320_repository.Malloc.Memory.{
  Heap, this_block_allocated, get_size_from_header, set_word, set_new_epilogue, remove_block,
  insert_block, make_wilderness, allocated_bit, prev_bit, offset,
}

-- The address of a block's predecessor, by the footer in front of the block.
abbrev pub previous_length : ℕ → Heap → ℕ
previous_length a h = get_size_from_header (h.words (a - 8))

abbrev pub previous_block : ℕ → Heap → ℕ
previous_block a h = (a + size_mod - previous_length a h) % size_mod

abbrev pub next_block : ℕ → Heap → ℕ
next_block a h = offset a (get_size_from_header (h.words a))

-- An address between the first block and the epilogue.
abbrev pub in_heap : ℕ → Heap → Bool
in_heap b h = leb (h.start + 40) b && leb b (h.finish - 8)

-- The conditions of `sf_free` and `sf_realloc` on the pointer.
unfoldable pub is_valid : (ptr : ℕ) → Heap → Bool
is_valid ptr h =
    not (ptr == 0)
    && multiple_of16 ptr
    && multiple_of16 (get_size_from_header (h.words (ptr - 8)))
    && leb 32 (get_size_from_header (h.words (ptr - 8)))
    && not (allocated_bit (h.words (ptr - 8)) == 0)
    && leb (h.start + 40) (ptr - 8)
    && ltb (ptr - 8) (h.finish - 8)
    && in_heap (next_block (ptr - 8) h) h
    && (not (prev_bit (h.words (ptr - 8)) == 0)
        || (allocated_bit (h.words (previous_block (ptr - 8) h)) == 0))

-- Frees the last block of the heap.
unfoldable pub free_last : ℕ → Heap → Heap
free_last a h =
    let length = get_size_from_header (h.words a) in
    let footer = offset a length - 8 in
    let p = previous_block a h in
    let merged = bit_or (length + previous_length a h) (prev_bit (h.words p)) in
    let header = bit_or length (prev_bit (h.words a)) in
    if prev_bit (h.words a) == 0
    then set_new_epilogue
        (make_wilderness p (remove_block p (set_word footer merged (set_word p merged h))))
    else set_new_epilogue (insert_block 7 a (set_word footer header (set_word a header h)))

-- Between two allocated blocks.
unfoldable pub free_alone : ℕ → Heap → Heap
free_alone a h =
    let length = get_size_from_header (h.words a) in
    let header = bit_or length (prev_bit (h.words a)) in
    let n = next_block a h in
    set_word n (bit_or (get_size_from_header (h.words n)) (allocated_bit (h.words n)))
      (insert_block (compute_memory_index length) a (set_word (n - 8) header (set_word a header h)))

-- Behind a free block.
unfoldable pub free_after : ℕ → Heap → Heap
free_after a h =
    let merged = previous_length a h + get_size_from_header (h.words a) in
    let p = previous_block a h in
    let header = bit_or merged (prev_bit (h.words p)) in
    let n = next_block a h in
    set_word n (bit_or (get_size_from_header (h.words n)) this_block_allocated) (
      insert_block (compute_memory_index merged) p
        (remove_block p (set_word (n - 8) header (set_word p header h))))

-- In front of a free block, which may be the wilderness.
unfoldable pub free_before : ℕ → Heap → Heap
free_before a h =
    let n = next_block a h in
    let length = get_size_from_header (h.words n) in
    let last = n + length in
    let merged = get_size_from_header (h.words a) + length in
    let header = bit_or merged (prev_bit (h.words a)) in
    let tagged = set_word (last - 8) header (set_word a header h) in
    if get_size_from_header (h.words last) == 0
    then make_wilderness a tagged
    else set_word last (bit_or (get_size_from_header (h.words last)) (allocated_bit (h.words last)))
        (insert_block (compute_memory_index merged) a (remove_block n tagged))

-- Between two free blocks.
unfoldable pub free_between : ℕ → Heap → Heap
free_between a h =
    let n = next_block a h in
    let length = get_size_from_header (h.words n) in
    let last = n + length in
    let p = previous_block a h in
    let merged = get_size_from_header (h.words a) + length + previous_length a h in
    let header = bit_or merged (prev_bit (h.words p)) in
    let tagged = set_word (last - 8) header (set_word p header h) in
    if get_size_from_header (h.words last) == 0
    then make_wilderness p (remove_block p tagged)
    else set_word last (bit_or (get_size_from_header (h.words last)) (allocated_bit (h.words last)))
        (insert_block (compute_memory_index merged) p (remove_block n (remove_block p tagged)))

-- The case of the two neighbours.
unfoldable pub release : ℕ → Heap → Heap
release a h =
    let n = next_block a h in
    let before_is_free = prev_bit (h.words a) == 0 in
    let after_is_free = allocated_bit (h.words n) == 0 in
    if get_size_from_header (h.words n) == 0
    then free_last a h
    else if after_is_free
    then (if before_is_free then free_between a h else free_before a h)
    else (if before_is_free then free_after a h else free_alone a h)

unfoldable pub sf_free : (ptr : ℕ) → Heap → Option Heap
sf_free ptr h = if is_valid ptr h then some (release (ptr - 8) h) else none
