-- ===== src/Malloc/Tiling/FreeEnds.antt =====
-- The free blocks at the two sides of an address in the row of blocks of hw3/src/sfmm.c.
use cse_320_repository.Base.{
  ℕ, ◌+◌, ◌-◌, ◌%◌, ◌≤◌, ◌≡◌, refl, ap, subst, ◌∙◌, Bool, true, false, List, [], ◌∷◌, ◌⊎◌, inl, inr,
  arith,
}
use cse_320_repository.Malloc.Tags.{tag}
use cse_320_repository.Malloc.Tiling.{
  Block, taken, spare, IsBefore, start, later, IsAfter, stop, block, Words, head_allocated,
  head-taken,
}

-- The free block at the front of a row, and the row without it.
abbrev pub free_size : List Block → ℕ
free_size [] = 0
free_size (taken n ∷ bs) = 0
free_size (spare n ∷ bs) = n

abbrev pub without_free : List Block → List Block
without_free [] = []
without_free (taken n ∷ bs) = taken n ∷ bs
without_free (spare n ∷ bs) = bs

-- Without the free block in front of the address.
pub IsBefore-without :
    {w : Words} {first a : ℕ} {pal : Bool} {ls : List Block}
    → IsBefore w first a pal ls
    → IsBefore w first (a - free_size ls) true (without_free ls)
IsBefore-without {w} {first} start = subst (λ x. IsBefore w first x true []) (omega arith) start
IsBefore-without {w} {first} (later {a} {pal} {ls} (taken n) before i) =
    subst (λ x. IsBefore w first x true (taken n ∷ ls)) (omega arith) (later (taken n) before i)
IsBefore-without {w} {first} (later {a} {pal} {ls} (spare n) before i) =
    let back : a ≡ a + n - n = omega arith in
    let firm : IsBefore w first a true ls =
      subst (λ x. IsBefore w first a x ls) (i.spaced refl) before in
    subst (λ x. IsBefore w first x true ls) back firm

-- The status of what stands in front of `without_free`.
abbrev pub front : Bool → List Block → Bool
front pal [] = pal
front pal (taken n ∷ rs) = pal
front pal (spare n ∷ rs) = false

-- Without the free block at the front.
pub IsAfter-without :
    {w : Words} {e a : ℕ} {pal : Bool} {rs : List Block}
    → IsAfter w e pal a rs
    → IsAfter w e (front pal rs) (a + free_size rs) (without_free rs)
IsAfter-without {w} {e} (stop {pal} h) = subst (λ x. IsAfter w e pal x []) (omega arith) (stop h)
IsAfter-without {w} {e} (block {a} {pal} {rs} (taken n) i after) =
    subst (λ x. IsAfter w e pal x (taken n ∷ rs)) (omega arith) (block (taken n) i after)
IsAfter-without (block (spare n) i after) = after

pub head-without :
    {w : Words} {e a : ℕ} {pal : Bool} {rs : List Block}
    → IsAfter w e pal a rs
    → head_allocated (without_free rs) ≡ true
head-without (stop h) = refl
head-without (block (taken n) i after) = refl
head-without (block (spare n) i after) = head-taken after

pub IsBefore-free :
    {w : Words} {first a : ℕ} {pal : Bool} {ls : List Block}
    → IsBefore w first a pal ls
    → (free_size ls ≤ a) × (free_size ls % 16 ≡ 0)
IsBefore-free start = (omega arith, refl)
IsBefore-free (later (taken n) before i) = (omega arith, refl)
IsBefore-free (later (spare n) before i) = (omega arith, i.sixteen)

pub IsAfter-free :
    {w : Words} {e a : ℕ} {pal : Bool} {rs : List Block}
    → IsAfter w e pal a rs
    → free_size rs % 16 ≡ 0
IsAfter-free (stop h) = refl
IsAfter-free (block (taken n) i after) = refl
IsAfter-free (block (spare n) i after) = i.sixteen

-- What a block finds in front of it: an allocated block or the start of the row, or the header and
-- the footer of a free block.
pub free_in_front :
    {w : Words} {first a : ℕ} {pal : Bool} {ls : List Block}
    → IsBefore w first a pal ls
    → ((pal ≡ true) × (free_size ls ≡ 0))
      ⊎ ((pal ≡ false)
          × (free_size ls ≤ a)
          × (free_size ls % 16 ≡ 0)
          × (w (a - 8) ≡ tag (free_size ls) false true)
          × (w (a - free_size ls) ≡ tag (free_size ls) false true))
free_in_front start = inl (refl, refl)
free_in_front (later (taken n) before i) = inl (refl, refl)
free_in_front {w} (later {a} {pal} (spare n) before i) =
    let known : tag n false pal ≡ tag n false true = ap (tag n false) (i.spaced refl) in
    inr (refl, omega arith, i.sixteen, i.footer refl ∙ known, ap w (omega arith) ∙ i.header ∙ known)

pub no_free :
    {w : Words} {first a : ℕ} {pal : Bool} {ls : List Block}
    → pal ≡ true
    → IsBefore w first a pal ls
    → free_size ls ≡ 0
no_free firm start = refl
no_free firm (later (taken n) before i) = refl
no_free firm (later (spare n) before i) = absurd (cc firm)
