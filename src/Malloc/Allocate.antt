-- ===== src/Malloc/Allocate.antt =====
-- `sf_malloc` of hw3/src/sfmm.c. A result `none` is undefined behaviour of the C code (an `int` that
-- overflows, the NULL of a first page that is refused) or a list that does not end.
pub mod Place
pub mod FirstPage
pub mod Growth
pub mod Listed
pub mod Serve
use Prim.Native.Nat.{bit_or}
use cse_320_repository.Base.{
  ℕ, zero, suc, ◌+◌, ◌-◌, ◌*◌, ◌%◌, ◌==◌, Bool, true, false, if◌then◌else◌, ltb, leb, Option, none,
  some,
}
use cse_320_repository.Malloc.Sizes.{compute_memory_index, adjusted_size, size_mod}
use cse_320_repository.Malloc.Memory.{
  Ptr, block, dummy, Heap, enomem, page_sz, this_block_allocated, prev_block_allocated,
  get_size_from_header, set_word, set_next, set_prev, set_new_epilogue, set_tags, remove_block,
  insert_block, make_wilderness, prev_bit,
}

-- `sf_mem_grow`: one more page at the end, where the system gives it.
unfoldable pub sf_mem_grow : Heap → Option Heap
sf_mem_grow h = if h.grows h.finish then some (record h { finish = h.finish + page_sz }) else none

-- Every list is its dummy node alone.
unfoldable pub empty_lists : (rounds : ℕ) → Heap → Heap
empty_lists zero h = h
empty_lists (suc i) h =
    set_prev (dummy i) (dummy i) (set_next (dummy i) (dummy i) (empty_lists i h))

-- The first call: the prologue, the epilogue, the lists, and the rest of the page as the wilderness.
unfoldable pub initialize : Heap → Option Heap
initialize h = elim (sf_mem_grow h) [
  | none ↦ none
  | some g ↦
      let prologue = g.start + 8 in
      let first = prologue + 32 in
      some (
        make_wilderness first (
          set_tags first (bit_or 8144 prev_block_allocated) (
            empty_lists 8
              (set_new_epilogue (set_word prologue (bit_or 32 this_block_allocated) g)))))
]

-- The first block of the list `i` from `node` that is long enough.
unfoldable pub first_fit : (fuel : ℕ) → (node : Ptr) → (need : ℕ) → Heap → Option (Option ℕ)
first_fit zero node need h = none
first_fit (suc fuel) (dummy i) need h = some none
first_fit (suc fuel) (block a) need h =
    let rest = first_fit fuel (h.next (block a)) need h in
    if leb need (get_size_from_header (h.words a)) then some (some a) else rest

-- The page behind the old end, merged into the block of the list 7 if there is one.
unfoldable pub merge_page : (old_end : ℕ) → Heap → Heap
merge_page old_end h = elim (h.next (dummy 7)) [
  | dummy i ↦
      make_wilderness (old_end - 8)
        (set_new_epilogue (set_tags (old_end - 8) (bit_or page_sz prev_block_allocated) h))
  | block a ↦
      set_new_epilogue
        (set_tags a (bit_or (get_size_from_header (h.words a) + page_sz) (prev_bit (h.words a))) h)
]

-- What a search leaves: a block and whether it is from the list 7, or the failure of `sf_mem_grow`.
pub data Search : Type 0 where
  found : (a : ℕ) → (from_wilderness : Bool) → Heap → Search
  exhausted : Heap → Search

-- More pages for the wilderness at `a` until it is long enough.
unfoldable pub grow_loop : (fuel a need : ℕ) → Heap → Option Search
grow_loop zero a need h = none
grow_loop (suc fuel) a need h =
    let more : Option Search = elim (sf_mem_grow h) [
      | none ↦ some (exhausted (record h { sf_errno = enomem }))
      | some g ↦ grow_loop fuel a need (
          set_new_epilogue (
            set_tags a (bit_or (get_size_from_header (g.words a) + page_sz) (prev_bit (g.words a)))
              g))
    ] in
    if leb need (get_size_from_header (h.words a)) then some (found a true h) else more

-- No list has a block: the heap grows by a page, and then by more while that is not enough.
unfoldable pub grow : (need : ℕ) → Heap → Option Search
grow need h = elim (sf_mem_grow h) [
  | none ↦ some (exhausted (record h { sf_errno = enomem }))
  | some g ↦
      let merged = merge_page h.finish g in
      elim (merged.next (dummy 7)) [ dummy i ↦ none | block a ↦ grow_loop (suc need) a need merged ]
]

-- The lists from `i` on, `rounds` of them.
unfoldable pub search_lists : (rounds i need : ℕ) → Heap → Option Search
search_lists zero i need h = grow need h
search_lists (suc rounds) i need h =
    let rest = search_lists rounds (i + 1) need h in
    elim (first_fit (suc h.finish) (h.next (dummy i)) need h) [
      | none ↦ none
      | some (some a) ↦ some (found a (i == 7) h)
      | some none ↦ rest
    ]

unfoldable pub leave_splinter : (a wanted : ℕ) → Heap → Bool
leave_splinter a wanted h =
    ltb ((get_size_from_header (h.words a) + size_mod - wanted) % size_mod) 32

-- The whole block is taken.
unfoldable pub take_block : ℕ → Heap → Heap
take_block a h =
    let cut = remove_block a h in
    let taken = set_word a (bit_or (cut.words a) this_block_allocated) cut in
    let after = a + get_size_from_header (taken.words a) in
    set_word after (bit_or (taken.words after) prev_block_allocated) taken

-- In the wilderness the rest of a block takes its place in the list.
unfoldable pub replace_block : (a rest : ℕ) → Heap → Heap
replace_block a rest h =
    let before = h.prev (block a) in
    let after = h.next (block a) in
    set_next (block rest) after
      (set_prev (block rest) before (set_prev after (block rest) (set_next before (block rest) h)))

-- The block is cut to the size, and the rest stays free.
unfoldable pub split_block : (a need : ℕ) → (from_wilderness : Bool) → Heap → Heap
split_block a need from_wilderness h =
    let left_over = (get_size_from_header (h.words a) + size_mod - need) % size_mod in
    let inherited = prev_bit (h.words a) in
    let cut = set_word a (bit_or (bit_or need this_block_allocated) inherited) h in
    let tagged =
      set_word (a + need + left_over - 8) (bit_or left_over prev_block_allocated)
        (set_word (a + need) (bit_or left_over prev_block_allocated) cut) in
    if from_wilderness
    then replace_block a (a + need) tagged
    else insert_block (compute_memory_index left_over) (a + need) (remove_block a tagged)

unfoldable pub place : (a need : ℕ) → (from_wilderness : Bool) → Heap → Heap
place a need from_wilderness h =
    if leave_splinter a need h then take_block a h else split_block a need from_wilderness h

-- The pointer, 0 for NULL.
unfoldable pub sf_malloc : (size : ℕ) → Heap → Option (ℕ × Heap)
sf_malloc size h = elim (if h.start == h.finish then initialize h else some h) [
  | none ↦ none
  | some g ↦ if size == 0 then some (0, g) else elim (adjusted_size size) [
    | none ↦ none
    | some need ↦
        elim (search_lists (8 - compute_memory_index need) (compute_memory_index need) need g) [
          | none ↦ none
          | some (exhausted e) ↦ some (0, e)
          | some (found a from_wilderness f) ↦ some (a + 8, place a need from_wilderness f)
        ]
  ]
]
