-- ===== src/Malloc/Tests.antt =====
-- Runs of the allocator of hw3/src/sfmm.c, and its theorems at concrete heaps.
use cse_320_repository.Base.{
  ℕ, ◌+◌, ◌-◌, ◌^◌, ◌%◌, ◌≤◌, ◌<◌, ◌==◌, ◌≡◌, refl, true, ◌⊎◌, if◌then◌else◌, leb, leb→le, [], ◌∷◌,
  ◌++◌, Option, none, some, arith,
}
use cse_320_repository.Malloc.Sizes.{
  compute_memory_index, adjusted_size, double_loop, in_class, index_loop, compute_memory_size,
}
use cse_320_repository.Malloc.Sizes.Bounds.{adjusted_size-bounds}
use cse_320_repository.Malloc.Memory.{
  Heap, Ptr, dummy, no_error, einval, enomem, page_sz, get_size_from_header, set_word, set_next,
  set_prev, set_new_epilogue, set_tags, remove_block, insert_block, make_wilderness,
}
use cse_320_repository.Malloc.Tiling.{taken, spare, IsTiled, start, stop, block}
use cse_320_repository.Malloc.Allocate.{
  initialize, sf_mem_grow, empty_lists, first_fit, merge_page, Search, grow_loop, grow,
  search_lists, leave_splinter, take_block, replace_block, split_block, place, sf_malloc,
}
use cse_320_repository.Malloc.Allocate.Place.{placed, place-IsTiled}
use cse_320_repository.Malloc.Allocate.Growth.{IsGrown, grow_loop-IsGrown}
use cse_320_repository.Malloc.Allocate.FirstPage.{initialize-IsTiled}
use cse_320_repository.Malloc.Allocate.FirstPage.{paged, first_heap}
use cse_320_repository.Malloc.Allocate.Listed.{IsListed, first_heap-IsListed}
use cse_320_repository.Malloc.Allocate.Serve.{
  IsAnswer, sf_malloc-IsAnswer, sf_malloc-first, sf_malloc-freed,
}
use cse_320_repository.Malloc.Free.{sf_free}
use cse_320_repository.Malloc.Free.Tiled.{IsMerged, sf_free-IsMerged, sf_free-twice}
use cse_320_repository.Malloc.Resize.{sf_realloc}
use cse_320_repository.Malloc.Resize.Realloc.{sf_realloc-room, free_block-refused}

-- A heap without a page, where the system gives pages below 2 ^ 20.
abbrev no_pages : Heap
no_pages = record {
  start = 65536;
  finish = 65536;
  grows = λ f. leb f 1000000;
  words = λ a. 0;
  next = λ p. p;
  prev = λ p. p;
  sf_errno = no_error;
}

-- One page, which is free.
abbrev one_page : Heap
one_page = record {
  start = 65536;
  finish = 73728;
  grows = λ f. leb f 1000000;
  words =
      λ a. if a == 65576 then 8146 else if a == 73712 then 8146 else if a == 73720 then 1 else 0;
  next = wilderness;
  prev = wilderness;
  sf_errno = no_error;
}
  where
    wilderness : Ptr → Ptr
    wilderness (dummy i) = if i == 7 then Ptr.block 65576 else dummy i
    wilderness (Ptr.block a) = dummy 7

one_page-IsTiled : IsTiled one_page 65576 true [] (spare 8144 ∷ [])
one_page-IsTiled = record {
  aligned = refl;
  bounded = omega arith;
  before = start;
  after =
      block (spare 8144)
        (record {
          sixteen = refl;
          least = omega arith;
          header = refl;
          footer = λ f. refl;
          spaced = λ f. refl;
        })
        (stop refl);
}

-- The page with a block of 64 bytes.
two_blocks-IsTiled :
    IsTiled (place 65576 64 true one_page) 65576 true [] (taken 64 ∷ spare 8080 ∷ [])
two_blocks-IsTiled =
    place-IsTiled one_page 65576 8144 64 true true [] [] refl (omega arith) (omega arith)
      one_page-IsTiled

abbrev pointer : Option (ℕ × Heap) → ℕ
pointer none = 1
pointer (some (p, h)) = p

-- A part of the page, the whole page, three pages, and more than the system gives.
malloc_runs :
    (pointer (sf_malloc 24 no_pages) ≡ 65584)
    × (pointer (sf_malloc 8136 no_pages) ≡ 65584)
    × (pointer (sf_malloc 20000 no_pages) ≡ 65584)
    × (pointer (sf_malloc 2000000 no_pages) ≡ 0)
unfolding sf_malloc initialize sf_mem_grow empty_lists first_fit merge_page grow_loop grow
    search_lists leave_splinter take_block replace_block split_block place get_size_from_header
    set_word set_next set_prev set_new_epilogue set_tags remove_block insert_block make_wilderness
    compute_memory_index index_loop in_class double_loop adjusted_size compute_memory_size
malloc_runs = (refl, refl, refl, refl)

-- A request of 64 GB gets a block of 16 bytes.
huge_request : adjusted_size (2 ^ 36) ≡ some 16
unfolding adjusted_size compute_memory_size
huge_request = refl

pages : (f : ℕ) → leb f 1000000 ≡ true → f + page_sz ≤ 2 ^ 64
pages f h = omega (arith, leb→le f 1000000 h)

-- The page with one block.
one_block-IsTiled : IsTiled (place 65576 8144 true one_page) 65576 true [] (taken 8144 ∷ [])
one_block-IsTiled =
    place-IsTiled one_page 65576 8144 8144 true true [] [] refl (omega arith) (omega arith)
      one_page-IsTiled

place-IsTiled_example : IsTiled (place 65576 64 true one_page) 65576 true [] (placed 64 8144 ++ [])
place-IsTiled_example =
    place-IsTiled one_page 65576 8144 64 true true [] [] refl (omega arith) (omega arith)
      one_page-IsTiled

sf_free-IsMerged_example :
    (g : Heap) × (sf_free 65584 (place 65576 64 true one_page) ≡ some g)
    × IsMerged (place 65576 64 true one_page) g 65576 64 [] (spare 8080 ∷ [])
sf_free-IsMerged_example =
    sf_free-IsMerged (place 65576 64 true one_page) 65584 64 true [] (spare 8080 ∷ [])
      two_blocks-IsTiled

sf_free-twice_example :
    (g : Heap) × (sf_free 65584 (place 65576 64 true one_page) ≡ some g) × (sf_free 65584 g ≡ none)
sf_free-twice_example =
    sf_free-twice (place 65576 64 true one_page) 65584 64 [] (spare 8080 ∷ []) two_blocks-IsTiled

free_block-refused_example :
    (sf_free 65584 one_page ≡ none)
    × (sf_realloc 65584 100 one_page ≡ some (0, record one_page { sf_errno = einval }))
free_block-refused_example = free_block-refused one_page 65584 100 8144 true [] [] one_page-IsTiled

sf_realloc-room_example :
    (g : Heap) × (sf_realloc 65584 20 (place 65576 64 true one_page) ≡ some (65584, g))
    × (((64 < 32 + 32) × (g ≡ place 65576 64 true one_page))
        ⊎ ((32 + 32 ≤ 64)
            × IsTiled g (65576 + 32) true (taken 32 ∷ []) (spare (64 - 32 + 8080) ∷ [])
            × ((x : ℕ)
                → 65576 < x
                → x < 65576 + 32
                → g.words x ≡ (place 65576 64 true one_page).words x)))
unfolding adjusted_size
sf_realloc-room_example =
    sf_realloc-room (place 65576 64 true one_page) 65584 20 64 32 true [] (spare 8080 ∷ [])
      two_blocks-IsTiled (omega arith) (omega arith) refl (omega arith)

initialize-IsTiled_example :
    (g : Heap) × (initialize no_pages ≡ some g) × IsTiled g 65576 true [] (spare 8144 ∷ [])
initialize-IsTiled_example = initialize-IsTiled no_pages refl refl (omega arith) refl

grow_loop-IsGrown_example :
    (s : Search) × (grow_loop 20000 65576 20000 one_page ≡ some s) × IsGrown 65576 20000 [] s
grow_loop-IsGrown_example =
    grow_loop-IsGrown 20000 65576 20000 8144 [] one_page (omega arith) (omega arith) pages
      one_page-IsTiled

adjusted_size-bounds_example :
    (need : ℕ) × (adjusted_size 100 ≡ some need)
    × (need % 16 ≡ 0)
    × (32 ≤ need)
    × (100 + 8 ≤ need)
    × ((need ≡ 32) ⊎ (need < 100 + 24))
adjusted_size-bounds_example = adjusted_size-bounds 100 (omega arith)

first_page-IsListed : IsListed (first_heap (paged no_pages))
first_page-IsListed = first_heap-IsListed (paged no_pages) refl refl (omega arith) pages

sf_malloc-IsAnswer_example :
    (ptr : ℕ) × (g : Heap) × (sf_malloc 24 (first_heap (paged no_pages)) ≡ some (ptr, g))
    × IsAnswer 24 ptr g
unfolding set_word set_next set_prev set_new_epilogue set_tags empty_lists make_wilderness
sf_malloc-IsAnswer_example =
    sf_malloc-IsAnswer 24 (first_heap (paged no_pages)) (λ e. omega (arith, e)) (omega arith)
      (omega arith) first_page-IsListed

sf_malloc-first_example :
    (ptr : ℕ) × (g : Heap) × (sf_malloc 24 no_pages ≡ some (ptr, g)) × IsAnswer 24 ptr g
sf_malloc-first_example =
    sf_malloc-first 24 no_pages refl refl refl pages (omega arith) (omega arith)

sf_malloc-freed_example :
    (ptr : ℕ) × (g : Heap) × (sf_malloc 24 (first_heap (paged no_pages)) ≡ some (ptr, g))
    × (((ptr ≡ 0) × (g.sf_errno ≡ enomem))
        ⊎ ((k : Heap) × (sf_free ptr g ≡ some k) × (sf_free ptr k ≡ none)))
unfolding set_word set_next set_prev set_new_epilogue set_tags empty_lists make_wilderness
sf_malloc-freed_example =
    sf_malloc-freed 24 (first_heap (paged no_pages)) (λ e. omega (arith, e)) (omega arith)
      (omega arith) first_page-IsListed
