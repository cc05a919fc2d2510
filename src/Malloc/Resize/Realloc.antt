-- ===== src/Malloc/Resize/Realloc.antt =====
-- `sf_realloc` of hw3/src/sfmm.c on the row of blocks.
use cse_320_repository.Base.{
  ℕ, ◌+◌, ◌-◌, ◌^◌, ◌≤◌, ◌<◌, ◌≡◌, refl, Bool, true, ◌⊎◌, if-true, if-false, ==_ne, List, ◌∷◌, none,
  some, arith,
}
use cse_320_repository.Malloc.Sizes.{adjusted_size}
use cse_320_repository.Malloc.Sizes.Bounds.{adjusted_size-bounds}
use cse_320_repository.Malloc.Memory.{Heap, einval}
use cse_320_repository.Malloc.Tiling.{Block, taken, spare, IsTiled}
use cse_320_repository.Malloc.Tiling.FreeEnds.{free_size, without_free}
use cse_320_repository.Malloc.Free.{sf_free}
use cse_320_repository.Malloc.Free.Tiled.{
  IsMerged, is_valid-allocated, not_allocated, sf_free-IsMerged, sf_free-not_allocated,
}
use cse_320_repository.Malloc.Resize.{sf_realloc}
use cse_320_repository.Malloc.Resize.Shrink.{resize_to-room}

-- On a heap that is a row of blocks, sf_realloc of an allocated block to a size above 0 and below
-- 2 ^ 31 - 24 whose adjusted size the block has room for returns the same pointer: the heap is
-- unchanged if less than 32 bytes would be left, and otherwise it is a row of blocks where the
-- block has the adjusted size, the rest is one free block with the free block that follows, and no
-- payload word of the block changes.
pub sf_realloc-room :
    (h : Heap) (ptr size n need : ℕ) (pal : Bool) (ls rs : List Block)
    → IsTiled h (ptr - 8) pal ls (taken n ∷ rs)
    → 1 ≤ size
    → size + 24 < 2 ^ 31
    → adjusted_size size ≡ some need
    → need ≤ n
    → (g : Heap) × (sf_realloc ptr size h ≡ some (ptr, g))
      × (((n < need + 32) × (g ≡ h))
          ⊎ ((need + 32 ≤ n)
              × IsTiled g
                  (ptr - 8 + need)
                  true
                  (taken need ∷ ls)
                  (spare (n - need + free_size rs) ∷ without_free rs)
              × ((x : ℕ) → ptr - 8 < x → x < ptr - 8 + need → g.words x ≡ h.words x)))
unfolding sf_realloc
sf_realloc-room h ptr size n need pal ls rs tiled some_size small adjusted fits =
    let (m, same, even, long, _, _) = adjusted_size-bounds size small in
    let equal : m ≡ need = cc (same, adjusted) in
    let (g, done, result) =
      resize_to-room h ptr size n need pal ls rs tiled (omega (arith, even, equal))
        (omega (arith, long, equal)) fits in
    (
      g,
      if-true (λ o. o ≡ some (ptr, g)) _ _ (is_valid-allocated h ptr n pal ls rs tiled)
          (if-false (λ o. o ≡ some (ptr, g)) _ _ (==_ne size 0 (λ z. omega (arith, z, some_size)))
            (rw adjusted done)),
      result,
    )

-- On a heap that is a row of blocks, sf_realloc of an allocated block to the size 0 returns NULL
-- and merges the block with the free ones beside it, as sf_free does.
pub sf_realloc-zero :
    (h : Heap) (ptr n : ℕ) (pal : Bool) (ls rs : List Block)
    → IsTiled h (ptr - 8) pal ls (taken n ∷ rs)
    → (g : Heap) × (sf_realloc ptr 0 h ≡ some (0, g)) × IsMerged h g (ptr - 8) n ls rs
unfolding sf_realloc
sf_realloc-zero h ptr n pal ls rs tiled =
    let (g, done, merged) = sf_free-IsMerged h ptr n pal ls rs tiled in
    (
      g,
      if-true (λ o. o ≡ some (0, g)) _ _ (is_valid-allocated h ptr n pal ls rs tiled)
          (rw done refl),
      merged,
    )

-- On a heap that is a row of blocks, for a pointer to a free block sf_free aborts, and sf_realloc
-- returns NULL, sets sf_errno to EINVAL and changes nothing else.
pub free_block-refused :
    (h : Heap) (ptr size n : ℕ) (pal : Bool) (ls rs : List Block)
    → IsTiled h (ptr - 8) pal ls (spare n ∷ rs)
    → (sf_free ptr h ≡ none) × (sf_realloc ptr size h ≡ some (0, record h { sf_errno = einval }))
unfolding sf_realloc
free_block-refused h ptr size n pal ls rs tiled = (
  sf_free-not_allocated h ptr n pal ls rs tiled,
  if-false (λ o. o ≡ some (0, record h { sf_errno = einval })) _ _
      (not_allocated h ptr n pal ls rs tiled) refl,
)
