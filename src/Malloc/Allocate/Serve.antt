-- ===== src/Malloc/Allocate/Serve.antt =====
-- `sf_malloc` of hw3/src/sfmm.c as a whole.
use cse_320_repository.Base.{
  ℕ, ◌+◌, ◌-◌, ◌%◌, ◌^◌, ◌≤◌, ◌<◌, ◌==◌, ◌≡◌, ◌≢◌, refl, subst, Bool, true, false, ◌⊎◌, inl, inr,
  Bool-cases, if-true, if-false, ==_ne, ==_eq, if◌then◌else◌, ltb, List, [], ◌∷◌, ◌++◌, none, some,
  arith,
}
use cse_320_repository.Malloc.Sizes.{compute_memory_index, adjusted_size, size_mod}
use cse_320_repository.Malloc.Sizes.Bounds.{adjusted_size-bounds, compute_memory_index_le}
use cse_320_repository.Malloc.Memory.{
  Heap, enomem, page_sz, make_wilderness, set_tags, set_new_epilogue, set_word, set_next, set_prev,
}
use cse_320_repository.Malloc.Tiling.{Block, taken, spare, IsTiled, IsAfter-head}
use cse_320_repository.Malloc.Allocate.{
  initialize, empty_lists, search_lists, Search, found, exhausted, place, sf_malloc,
}
use cse_320_repository.Malloc.Free.{sf_free}
use cse_320_repository.Malloc.Free.Tiled.{sf_free-twice}
use cse_320_repository.Malloc.Allocate.Place.{placed, place-IsTiled}
use cse_320_repository.Malloc.Allocate.FirstPage.{first_heap, paged, initialize-first}
use cse_320_repository.Malloc.Allocate.Listed.{
  first_heap-IsListed, IsRoom, IsListed, IsServed, search_lists-IsServed,
}

-- The block behind the pointer is allocated in a row of blocks, and has `least` bytes or more.
pub record IsHeld (least ptr : ℕ) (h : Heap) : Type 0 where
  pub length_of : ℕ
  pub before : List Block
  pub after : List Block
  pub room : least ≤ length_of
  pub tiled : IsTiled h (ptr - 8) true before (taken length_of ∷ after)

-- An answer to a request of `size` bytes.
pub IsAnswer : (size ptr : ℕ) → Heap → Type 0
IsAnswer size ptr h =
    ((ptr ≡ 0)
      × (h.sf_errno ≡ enomem)
      × ((a : ℕ) × (ls : List Block) × (rs : List Block) × IsTiled h a true ls rs))
    ⊎ IsHeld (size + 8) ptr h

placed-whole : (need n : ℕ) → ltb (n - need) 32 ≡ true → placed need n ≡ taken n ∷ []
placed-whole need n short = if-true (λ bs. bs ≡ taken n ∷ []) _ _ short refl

placed-cut :
    (need n : ℕ) → ltb (n - need) 32 ≡ false → placed need n ≡ taken need ∷ spare (n - need) ∷ []
placed-cut need n more = if-false (λ bs. bs ≡ taken need ∷ spare (n - need) ∷ []) _ _ more refl

-- The block placed for `need` bytes.
place-IsHeld :
    (size need a : ℕ) (z : Bool) (h : Heap)
    → need % 16 ≡ 0
    → 32 ≤ need
    → size + 8 ≤ need
    → IsRoom need a h
    → IsHeld (size + 8) (a + 8) (place a need z h)
place-IsHeld size need a z h even long large r =
    let n = r.length_of in
    let g = place a need z h in
    let tiled : IsTiled g (a + 8 - 8) true r.before (placed need n ++ r.after) =
      subst (λ x. IsTiled g x true r.before (placed need n ++ r.after)) (omega arith)
        (place-IsTiled h a n need true z r.before r.after even long r.room (
          subst (λ p. IsTiled h a p r.before (spare n ∷ r.after))
            ((IsAfter-head r.tiled.after).0.spaced refl) r.tiled)) in
    elim (Bool-cases (ltb (n - need) 32)) [
      | inl short ↦ record {
        length_of = n;
        before = r.before;
        after = r.after;
        room = omega (arith, large, r.room);
        tiled =
            subst (λ bs. IsTiled g (a + 8 - 8) true r.before (bs ++ r.after))
              (placed-whole need n short) tiled;
      }
      | inr more ↦ record {
        length_of = need;
        before = r.before;
        after = spare (n - need) ∷ r.after;
        room = large;
        tiled =
            subst (λ bs. IsTiled g (a + 8 - 8) true r.before (bs ++ r.after))
              (placed-cut need n more) tiled;
      }
    ]

-- The pointer and the heap after a search for `need` bytes.
abbrev finished : (need : ℕ) → Search → ℕ × Heap
finished need (exhausted g) = (0, g)
finished need (found a z g) = (a + 8, place a need z g)

-- The run on a heap that is `g` once it has its first page.
sf_malloc-finished :
    (size need : ℕ) (h g : Heap) (s : Search)
    → (if h.start == h.finish then initialize h else some h) ≡ some g
    → (size == 0) ≡ false
    → adjusted_size size ≡ some need
    → search_lists (8 - compute_memory_index need) (compute_memory_index need) need g ≡ some s
    → sf_malloc size h ≡ some (finished need s)
unfolding sf_malloc
sf_malloc-finished size need h g (exhausted e) opened asked adjusted done =
    rw (opened, asked, adjusted, done, sf_malloc) refl
sf_malloc-finished size need h g (found a z e) opened asked adjusted done =
    rw (opened, asked, adjusted, done, sf_malloc) refl

finished-IsAnswer :
    (size need : ℕ) (s : Search)
    → need % 16 ≡ 0
    → 32 ≤ need
    → size + 8 ≤ need
    → IsServed need s
    → IsAnswer size (finished need s).0 (finished need s).1
unfolding IsAnswer
finished-IsAnswer size need (exhausted g) even long large (failed, row) = inl (refl, failed, row)
finished-IsAnswer size need (found a z g) even long large room =
    inr (place-IsHeld size need a z g even long large room)

sf_malloc-answers :
    (size : ℕ) (h g : Heap)
    → (if h.start == h.finish then initialize h else some h) ≡ some g
    → 1 ≤ size
    → size + 24 < 2 ^ 31
    → IsListed g
    → (ptr : ℕ) × (k : Heap) × (sf_malloc size h ≡ some (ptr, k)) × IsAnswer size ptr k
sf_malloc-answers size h g opened some_size small listed =
    let (need, adjusted, even, long, large, _) = adjusted_size-bounds size small in
    let index = compute_memory_index need in
    let (s, done, served) =
      search_lists-IsServed (8 - index) index need g (omega (arith, compute_memory_index_le need))
        listed in
    (
      (finished need s).0,
      (finished need s).1,
      sf_malloc-finished size need h g s opened (==_ne size 0 (λ z. omega (arith, z, some_size)))
          adjusted done,
      finished-IsAnswer size need s even long large served,
    )

-- On a heap with pages whose free lists are chains of free blocks in a row of blocks, list 7 with
-- the last block if that is free, and where the system gives pages only within the address space,
-- sf_malloc of a size above 0 and below 2 ^ 31 - 24 ends: with a pointer to an allocated block in
-- a row of blocks, with room for the size and the header, or with NULL, sf_errno at ENOMEM and a
-- row of blocks.
pub sf_malloc-IsAnswer :
    (size : ℕ) (h : Heap)
    → h.start ≢ h.finish
    → 1 ≤ size
    → size + 24 < 2 ^ 31
    → IsListed h
    → (ptr : ℕ) × (g : Heap) × (sf_malloc size h ≡ some (ptr, g)) × IsAnswer size ptr g
sf_malloc-IsAnswer size h started some_size small listed =
    sf_malloc-answers size h h
      (if-false (λ o. o ≡ some h) _ _ (==_ne h.start h.finish started) refl) some_size small listed

-- On an empty heap whose start is a multiple of 16, where the system gives a first page, and pages
-- only within the address space, sf_malloc of a size above 0 and below 2 ^ 31 - 24 ends: with a
-- pointer to an allocated block in a row of blocks, with room for the size and the header, or with
-- NULL, sf_errno at ENOMEM and a row of blocks.
pub sf_malloc-first :
    (size : ℕ) (h : Heap)
    → h.start ≡ h.finish
    → h.start % 16 ≡ 0
    → h.grows h.finish ≡ true
    → ((f : ℕ) → h.grows f ≡ true → f + page_sz ≤ size_mod)
    → 1 ≤ size
    → size + 24 < 2 ^ 31
    → (ptr : ℕ) × (g : Heap) × (sf_malloc size h ≡ some (ptr, g)) × IsAnswer size ptr g
unfolding make_wilderness set_tags empty_lists set_new_epilogue set_word set_next set_prev
sf_malloc-first size h empty aligned grows pages some_size small =
    sf_malloc-answers size h (first_heap (paged h))
      (if-true (λ o. o ≡ some (first_heap (paged h))) _ _ (==_eq empty) (initialize-first h grows))
      some_size small
      (first_heap-IsListed (paged h) (omega (arith, empty)) aligned (pages h.finish grows) pages)

-- On a heap with pages whose free lists are chains of free blocks in a row of blocks, list 7 with
-- the last block if that is free, and where the system gives pages only within the address space,
-- sf_malloc of a size above 0 and below 2 ^ 31 - 24 returns NULL with sf_errno at ENOMEM, or a
-- pointer that sf_free takes without an abort and a second sf_free at once does not.
pub sf_malloc-freed :
    (size : ℕ) (h : Heap)
    → h.start ≢ h.finish
    → 1 ≤ size
    → size + 24 < 2 ^ 31
    → IsListed h
    → (ptr : ℕ) × (g : Heap) × (sf_malloc size h ≡ some (ptr, g))
      × (((ptr ≡ 0) × (g.sf_errno ≡ enomem))
          ⊎ ((k : Heap) × (sf_free ptr g ≡ some k) × (sf_free ptr k ≡ none)))
unfolding IsAnswer
sf_malloc-freed size h started some_size small listed =
    let (ptr, g, done, answer) = sf_malloc-IsAnswer size h started some_size small listed in
    elim answer [
      | inl (null, failed, row) ↦ (ptr, g, done, inl (null, failed))
      | inr held ↦
          (ptr, g, done, inr (sf_free-twice g ptr held.length_of held.before held.after held.tiled))
    ]
