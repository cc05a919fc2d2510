-- ===== src/Malloc/Free/Tiled.antt =====
-- `sf_free` of hw3/src/sfmm.c keeps the row of blocks.
use cse_320_repository.Base.{
  ℕ, ◌+◌, ◌-◌, ◌*◌, ◌%◌, ◌≤◌, ◌<◌, ◌==◌, ◌≡◌, refl, sym, ap, subst, ◌∙◌, Bool, true, false, not,
  ◌||◌, if-true, if-false, ==_eq, lt→ltb, le→leb, &&-true, &&-false_left, &&-false_right, ==_ne,
  inl, inr, ◌⊎◌, List, [], ◌∷◌, none, some, arith,
}
use cse_320_repository.Malloc.Sizes.{size_mod, multiple_of16}
use cse_320_repository.Malloc.Memory.{Heap, get_size_from_header, allocated_bit, prev_bit}
use cse_320_repository.Malloc.Tags.{tag, flag, read-size, read-allocated, read-prev}
use cse_320_repository.Malloc.Tiling.{
  Block, taken, spare, IsBlock, IsBefore, IsBefore-le, IsBefore-mod, IsAfter, IsTiled, head_size,
  IsAfter-le, IsAfter-head, IsBefore-kept,
}
use cse_320_repository.Malloc.Tiling.FreeEnds.{
  free_size, without_free, free_in_front, no_free, IsBefore-free, IsAfter-free, IsAfter-without,
  head-without, IsBefore-without,
}
use cse_320_repository.Malloc.Spans.{span-IsAfter}
use cse_320_repository.Malloc.Free.{next_block, previous_block, is_valid, release, sf_free}
use cse_320_repository.Malloc.Free.Branches.{IsFreed, next-address, previous-word}
use cse_320_repository.Malloc.Free.Merge.{release-IsFreed}

module _ (h : Heap) (ptr n : ℕ) (pal : Bool) (ls rs : List Block) (aligned : h.start % 16 ≡ 0)
    (bounded : h.finish ≤ size_mod) (before : IsBefore h.words (h.start + 40) (ptr - 8) pal ls)
    (i : IsBlock h.words pal (ptr - 8) (taken n))
    (after : IsAfter h.words (h.finish - 8) true (ptr - 8 + n) rs) where
  in_range : ptr - 8 + n < size_mod
  in_range = omega (arith, IsAfter-le after, bounded)

  front-status :
      (not (prev_bit (h.words (ptr - 8)) == 0)
        || (allocated_bit (h.words (previous_block (ptr - 8) h)) == 0))
      ≡ true
  front-status = elim (free_in_front before) [
    | inl (firm, lone) ↦
        let bits : prev_bit (h.words (ptr - 8)) ≡ 2 =
          read-prev n true pal i.header i.sixteen ∙ ap (λ y. 2 * flag y) firm in
        rw bits
    | inr (loose, fits, even, footer, header) ↦
        let word : h.words (previous_block (ptr - 8) h) ≡ tag (free_size ls) false true =
          previous-word h (ptr - 8) n pal i.sixteen i.least in_range i.header (free_size ls) fits
            even loose footer header in
        let bits : prev_bit (h.words (ptr - 8)) ≡ 0 =
          read-prev n true pal i.header i.sixteen ∙ ap (λ y. 2 * flag y) loose in
        rw (bits, read-allocated (free_size ls) false true word even)
  ]

  is_valid-true : is_valid ptr h ≡ true
  unfolding is_valid multiple_of16
  is_valid-true =
      let from : h.start + 40 ≤ ptr - 8 = IsBefore-le before in
      let far : ptr - 8 + n ≤ h.finish - 8 = IsAfter-le after in
      let size : get_size_from_header (h.words (ptr - 8)) ≡ n =
        read-size n true pal i.header i.sixteen in
      let next : next_block (ptr - 8) h ≡ ptr - 8 + n =
        next-address h (ptr - 8) n pal i.sixteen i.least in_range i.header in
      let held : allocated_bit (h.words (ptr - 8)) ≡ 1 =
        read-allocated n true pal i.header i.sixteen in
      &&-true
        (&&-true
          (&&-true
            (&&-true
              (&&-true
                (&&-true
                  (&&-true
                    (&&-true (ap not (==_ne ptr 0 (λ z. omega (arith, z, from)))) (
                      ==_eq (
                        omega
                          (arith, from, aligned, IsBefore-mod before (omega (arith, aligned))))))
                    (==_eq (omega (arith, size, i.sixteen))))
                  (le→leb _ _ (omega (arith, size, i.least))))
                (ap (λ x. not (x == 0)) held))
              (le→leb _ _ from))
            (lt→ltb _ _ (omega (arith, far, i.least))))
          (&&-true (le→leb (h.start + 40) (next_block (ptr - 8) h) (omega (arith, next, from)))
            (le→leb (next_block (ptr - 8) h) (h.finish - 8) (omega (arith, next, far)))))
        front-status

  freed :
      IsFreed h
        (ptr - 8 - free_size ls)
        (free_size ls + n + free_size rs)
        (ptr - 8 + n + free_size rs)
        (head_size (without_free rs))
        (release (ptr - 8) h)
  freed = release-IsFreed h (ptr - 8) n pal ls before i in_range refl refl after

  freed-IsTiled :
      IsTiled
        (release (ptr - 8) h)
        (ptr - 8 - free_size ls)
        true
        (without_free ls)
        (spare (free_size ls + n + free_size rs) ∷ without_free rs)
  freed-IsTiled =
      let f = freed in
      let (low, even) = IsBefore-free before in
      record {
        aligned = ap (λ x. x % 16) f.same_start ∙ aligned;
        bounded = omega (arith, f.same_finish, bounded);
        before =
            subst
              (λ x.
                IsBefore (release (ptr - 8) h).words (x + 40) (ptr - 8 - free_size ls) true
                  (without_free ls))
              (sym f.same_start) (IsBefore-kept f.span.below (IsBefore-without before));
        after =
            subst
              (λ x.
                IsAfter (release (ptr - 8) h).words (x - 8) true (ptr - 8 - free_size ls)
                  (spare (free_size ls + n + free_size rs) ∷ without_free rs))
              (sym f.same_finish)
              (span-IsAfter (omega (arith, low))
                (omega (arith, even, i.sixteen, IsAfter-free after)) (omega (arith, i.least)) f.span
                (head-without after) (IsAfter-without after));
      }

-- Is an address behind the header of an allocated block and within it? The blocks start at `a`, or end
-- there, the last one first.
abbrev pub InTakenAfter : (a : ℕ) → List Block → (x : ℕ) → Type 0
InTakenAfter a [] x = ⊥
InTakenAfter a (taken n ∷ rs) x = ((a < x) × (x < a + n)) ⊎ InTakenAfter (a + n) rs x
InTakenAfter a (spare n ∷ rs) x = InTakenAfter (a + n) rs x

abbrev pub InTakenBefore : (a : ℕ) → List Block → (x : ℕ) → Type 0
InTakenBefore a [] x = ⊥
InTakenBefore a (taken n ∷ ls) x = ((a - n < x) × (x < a)) ⊎ InTakenBefore (a - n) ls x
InTakenBefore a (spare n ∷ ls) x = InTakenBefore (a - n) ls x

InTakenAfter-lt : (a : ℕ) (rs : List Block) (x : ℕ) → InTakenAfter a rs x → a + free_size rs < x
InTakenAfter-lt a [] x h = elim h [ ]
InTakenAfter-lt a (taken n ∷ rs) x (inl (low, high)) = omega arith
InTakenAfter-lt a (taken n ∷ rs) x (inr h) = omega (arith, InTakenAfter-lt (a + n) rs x h)
InTakenAfter-lt a (spare n ∷ rs) x h = omega (arith, InTakenAfter-lt (a + n) rs x h)

InTakenBefore-lt : (a : ℕ) (ls : List Block) (x : ℕ) → InTakenBefore a ls x → x < a - free_size ls
InTakenBefore-lt a [] x h = elim h [ ]
InTakenBefore-lt a (taken n ∷ ls) x (inl (low, high)) = omega arith
InTakenBefore-lt a (taken n ∷ ls) x (inr h) = omega (arith, InTakenBefore-lt (a - n) ls x h)
InTakenBefore-lt a (spare n ∷ ls) x h = omega (arith, InTakenBefore-lt (a - n) ls x h)

-- The block of `n` bytes at `a` of `h` is free in `g`, in one with the free blocks at its sides, and
-- the contents of the allocated blocks do not change.
pub record IsMerged (h g : Heap) (a n : ℕ) (ls rs : List Block) : Type 0 where
  pub tiled :
      IsTiled g
        (a - free_size ls)
        true
        (without_free ls)
        (spare (free_size ls + n + free_size rs) ∷ without_free rs)
  pub below : (x : ℕ) → InTakenBefore a ls x → g.words x ≡ h.words x
  pub above : (x : ℕ) → InTakenAfter (a + n) rs x → g.words x ≡ h.words x

pub is_valid-allocated :
    (h : Heap) (ptr n : ℕ) (pal : Bool) (ls rs : List Block)
    → IsTiled h (ptr - 8) pal ls (taken n ∷ rs)
    → is_valid ptr h ≡ true
is_valid-allocated h ptr n pal ls rs tiled =
    let (i, after) = IsAfter-head tiled.after in
    is_valid-true h ptr n pal ls rs tiled.aligned tiled.bounded tiled.before i after

-- On a heap that is a row of blocks from the first block to the epilogue, sf_free of an allocated
-- block does not abort, and it leaves a row of blocks in which that block and the free blocks
-- beside it are one free block; no word behind the header of another allocated block and within
-- that block changes.
pub sf_free-IsMerged :
    (h : Heap) (ptr n : ℕ) (pal : Bool) (ls rs : List Block)
    → IsTiled h (ptr - 8) pal ls (taken n ∷ rs)
    → (g : Heap) × (sf_free ptr h ≡ some g) × IsMerged h g (ptr - 8) n ls rs
unfolding sf_free
sf_free-IsMerged h ptr n pal ls rs tiled =
    let (i, after) = IsAfter-head tiled.after in
    let f = freed h ptr n pal ls rs tiled.aligned tiled.bounded tiled.before i after in
    (
      release (ptr - 8) h,
      if-true (λ o. o ≡ some (release (ptr - 8) h)) _ _ (is_valid-allocated h ptr n pal ls rs tiled)
          refl,
      record {
        tiled = freed-IsTiled h ptr n pal ls rs tiled.aligned tiled.bounded tiled.before i after;
        below = λ x held. f.span.below x (InTakenBefore-lt (ptr - 8) ls x held);
        above = λ x held. f.span.above x (InTakenAfter-lt (ptr - 8 + n) rs x held);
      },
    )

-- A block that is free is not a block to free.
pub not_allocated :
    (h : Heap) (ptr n : ℕ) (pal : Bool) (ls rs : List Block)
    → IsTiled h (ptr - 8) pal ls (spare n ∷ rs)
    → is_valid ptr h ≡ false
unfolding is_valid
not_allocated h ptr n pal ls rs tiled =
    let (i, after) = IsAfter-head tiled.after in
    let held : not (allocated_bit (h.words (ptr - 8)) == 0) ≡ false =
      ap (λ x. not (x == 0)) (read-allocated n false pal i.header i.sixteen) in
    &&-false_left _ _
      (&&-false_left _ _ (&&-false_left _ _ (&&-false_left _ _ (&&-false_right _ _ held))))

pub sf_free-not_allocated :
    (h : Heap) (ptr n : ℕ) (pal : Bool) (ls rs : List Block)
    → IsTiled h (ptr - 8) pal ls (spare n ∷ rs)
    → sf_free ptr h ≡ none
unfolding sf_free
sf_free-not_allocated h ptr n pal ls rs tiled =
    if-false (λ o. o ≡ none) _ _ (not_allocated h ptr n pal ls rs tiled) refl

-- On a heap that is a row of blocks, sf_free of an allocated block behind an allocated one ends,
-- and a second sf_free of the same pointer aborts.
pub sf_free-twice :
    (h : Heap) (ptr n : ℕ) (ls rs : List Block)
    → IsTiled h (ptr - 8) true ls (taken n ∷ rs)
    → (g : Heap) × (sf_free ptr h ≡ some g) × (sf_free ptr g ≡ none)
sf_free-twice h ptr n ls rs tiled =
    let (g, done, merged) = sf_free-IsMerged h ptr n true ls rs tiled in
    let lone : free_size ls ≡ 0 = no_free refl tiled.before in
    let total = free_size ls + n + free_size rs in
    (
      g,
      done,
      sf_free-not_allocated g ptr total true (without_free ls) (without_free rs) (
          subst (λ x. IsTiled g x true (without_free ls) (spare total ∷ without_free rs))
            (omega (arith, lone)) merged.tiled),
    )
