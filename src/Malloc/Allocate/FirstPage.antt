-- ===== src/Malloc/Allocate/FirstPage.antt =====
-- The first page of `sf_malloc` in hw3/src/sfmm.c.
use Prim.Native.Nat.{bit_or}
use cse_320_repository.Base.{
  ℕ, ◌+◌, ◌-◌, ◌%◌, ◌≤◌, ◌≡◌, refl, true, false, if-true, if-false, [], ◌∷◌, none, some, update,
  update_self, arith,
}
use cse_320_repository.Malloc.Sizes.{size_mod}
use cse_320_repository.Malloc.Memory.{
  Heap, page_sz, get_size_from_header, set_word, set_next, set_prev, set_new_epilogue, set_tags,
  make_wilderness,
}
use cse_320_repository.Malloc.Tiling.{spare, start, IsTiled}
use cse_320_repository.Malloc.Spans.{span_two, span-last}
use cse_320_repository.Malloc.Allocate.{sf_mem_grow, empty_lists, initialize}

-- The heap with one more page.
abbrev pub paged : Heap → Heap
paged h = record h { finish = h.finish + page_sz }

pub sf_mem_grow-some : (h : Heap) → h.grows h.finish ≡ true → sf_mem_grow h ≡ some (paged h)
unfolding sf_mem_grow
sf_mem_grow-some h grows = if-true (λ o. o ≡ some (paged h)) _ _ grows refl

pub sf_mem_grow-none : (h : Heap) → h.grows h.finish ≡ false → sf_mem_grow h ≡ none
unfolding sf_mem_grow
sf_mem_grow-none h grows = if-false (λ o. o ≡ none) _ _ grows refl

-- The first page with its tags.
abbrev pub first_heap : Heap → Heap
first_heap g = make_wilderness (g.start + 8 + 32) (
    set_tags (g.start + 8 + 32) (bit_or 8144 2)
      (empty_lists 8 (set_new_epilogue (set_word (g.start + 8) (bit_or 32 1) g))))

pub first_heap-IsTiled :
    (g : Heap)
    → g.finish ≡ g.start + page_sz
    → g.start % 16 ≡ 0
    → g.finish ≤ size_mod
    → IsTiled (first_heap g) (g.start + 40) true [] (spare 8144 ∷ [])
unfolding make_wilderness set_tags empty_lists set_new_epilogue set_word set_next set_prev
    get_size_from_header
first_heap-IsTiled g page aligned bounded =
    let q = g.finish - 8 in
    let w : ℕ → ℕ = update (update g.words (g.start + 8) 33) q 1 in
    record {
      aligned = aligned;
      bounded = bounded;
      before = start;
      after = span-last (omega (arith, page)) refl (omega arith) (
          span_two {w = w} (omega (arith, page)) (omega arith) (omega arith) (omega (arith, page))
            refl refl (update_self (update g.words (g.start + 8) 33) q 1));
    }

pub initialize-first :
    (h : Heap) → h.grows h.finish ≡ true → initialize h ≡ some (first_heap (paged h))
unfolding initialize
initialize-first h grows = rw (sf_mem_grow-some h grows, initialize) refl

-- On an empty heap whose start is a multiple of 16 and that the system lets grow by a page within
-- the address space, the first call sets up a heap that is a row of one free block of 8144 bytes.
pub initialize-IsTiled :
    (h : Heap)
    → h.start ≡ h.finish
    → h.start % 16 ≡ 0
    → h.finish + page_sz ≤ size_mod
    → h.grows h.finish ≡ true
    → (g : Heap) × (initialize h ≡ some g) × IsTiled g (h.start + 40) true [] (spare 8144 ∷ [])
unfolding initialize
initialize-IsTiled h empty aligned bounded grows = (
  first_heap (paged h),
  rw (sf_mem_grow-some h grows, initialize) refl,
  first_heap-IsTiled (paged h) (omega (arith, empty)) aligned bounded,
)
