-- ===== src/Malloc/Tiling.antt =====
-- The heap of hw3/src/sfmm.c as a row of blocks: the headers tile it from the first block to the
-- epilogue, each says whether its predecessor is allocated, a free block has a footer, and no two
-- free blocks are neighbours.
pub mod FreeEnds
use cse_320_repository.Base.{
  ℕ, ◌+◌, ◌-◌, ◌%◌, ◌≤◌, ◌<◌, ◌≡◌, refl, sym, ap, subst, ◌∙◌, Bool, true, false, List, [], ◌∷◌, ◌⊎◌,
  inl, inr, arith,
}
use cse_320_repository.Malloc.Sizes.{size_mod}
use cse_320_repository.Malloc.Memory.{Heap}
use cse_320_repository.Malloc.Tags.{tag}

pub data Block : Type 0 where
  taken : ℕ → Block
  spare : ℕ → Block

abbrev pub size : Block → ℕ
size (taken n) = n
size (spare n) = n

abbrev pub allocated : Block → Bool
allocated (taken n) = true
allocated (spare n) = false

-- The block at the address `a`, behind one whose status is `pal`.
pub record IsBlock (words : ℕ → ℕ) (pal : Bool) (a : ℕ) (b : Block) : Type 0 where
  pub sixteen : size b % 16 ≡ 0
  pub least : 32 ≤ size b
  pub header : words a ≡ tag (size b) (allocated b) pal
  pub footer : allocated b ≡ false → words (a + size b - 8) ≡ tag (size b) false pal
  pub spaced : allocated b ≡ false → pal ≡ true

-- The blocks from `first` up to the address `a`, the last one first.
pub data IsBefore (words : ℕ → ℕ) (first : ℕ) : ℕ → Bool → List Block → Type 0 where
  start : IsBefore words first first true []
  later :
      {a : ℕ} {pal : Bool} {ls : List Block} (b : Block)
      → IsBefore words first a pal ls
      → IsBlock words pal a b
      → IsBefore words first (a + size b) (allocated b) (b ∷ ls)

-- The blocks from the address up to the epilogue.
pub data IsAfter (words : ℕ → ℕ) (epilogue : ℕ) : Bool → ℕ → List Block → Type 0 where
  stop : {pal : Bool} → words epilogue ≡ tag 0 true pal → IsAfter words epilogue pal epilogue []
  block :
      {a : ℕ} {pal : Bool} {rs : List Block} (b : Block)
      → IsBlock words pal a b
      → IsAfter words epilogue (allocated b) (a + size b) rs
      → IsAfter words epilogue pal a (b ∷ rs)

abbrev pub Words : Type 0
Words = ℕ → ℕ

IsBlock-kept :
    {w v : Words} {pal : Bool} {a : ℕ} {b : Block}
    → ((x : ℕ) → a ≤ x → x < a + size b → v x ≡ w x)
    → IsBlock w pal a b
    → IsBlock v pal a b
IsBlock-kept {a = a} {b = b} same i = record {
  sixteen = i.sixteen;
  least = i.least;
  header = same a (omega arith) (omega (arith, i.least)) ∙ i.header;
  footer =
      λ f. same (a + size b - 8) (omega (arith, i.least)) (omega (arith, i.least)) ∙ i.footer f;
  spaced = i.spaced;
}

pub IsBefore-le :
    {w : Words} {first a : ℕ} {pal : Bool} {ls : List Block} → IsBefore w first a pal ls → first ≤ a
IsBefore-le start = omega arith
IsBefore-le (later b before i) = omega (arith, IsBefore-le before)

pub IsBefore-mod :
    {w : Words} {first a : ℕ} {pal : Bool} {ls : List Block}
    → IsBefore w first a pal ls
    → first % 16 ≡ 8
    → a % 16 ≡ 8
IsBefore-mod start h = h
IsBefore-mod (later b before i) h = omega (arith, IsBefore-mod before h, i.sixteen)

pub IsBefore-kept :
    {w v : Words} {first a : ℕ} {pal : Bool} {ls : List Block}
    → ((x : ℕ) → x < a → v x ≡ w x)
    → IsBefore w first a pal ls
    → IsBefore v first a pal ls
IsBefore-kept same start = start
IsBefore-kept same (later b before i) =
    later b (IsBefore-kept (λ x h. same x (omega (arith, i.least))) before)
      (IsBlock-kept (λ x l h. same x h) i)

pub IsAfter-le : {w : Words} {e a : ℕ} {pal : Bool} {rs : List Block} → IsAfter w e pal a rs → a ≤ e
IsAfter-le (stop h) = omega arith
IsAfter-le (block b i after) = omega (arith, IsAfter-le after)

pub IsAfter-kept :
    {w v : Words} {e a : ℕ} {pal : Bool} {rs : List Block}
    → ((x : ℕ) → a ≤ x → v x ≡ w x)
    → IsAfter w e pal a rs
    → IsAfter v e pal a rs
IsAfter-kept {e = e} same (stop h) = stop (same e (omega arith) ∙ h)
IsAfter-kept same (block b i after) =
    block b (IsBlock-kept (λ x l h. same x l) i)
      (IsAfter-kept (λ x l. same x (omega (arith, i.least))) after)

-- The size and status in the header at the front of a row, that of the epilogue at its end.
abbrev pub head_size : List Block → ℕ
head_size [] = 0
head_size (b ∷ rs) = size b

abbrev pub head_allocated : List Block → Bool
head_allocated [] = true
head_allocated (b ∷ rs) = allocated b

pub head-header :
    {w : Words} {e a : ℕ} {pal : Bool} {rs : List Block}
    → IsAfter w e pal a rs
    → w a ≡ tag (head_size rs) (head_allocated rs) pal
head-header (stop h) = h
head-header (block b i after) = i.header

pub head-sixteen :
    {w : Words} {e a : ℕ} {pal : Bool} {rs : List Block}
    → IsAfter w e pal a rs
    → head_size rs % 16 ≡ 0
head-sixteen (stop h) = refl
head-sixteen (block b i after) = i.sixteen

pub head-short :
    {w : Words} {e a : ℕ} {pal : Bool} {rs : List Block}
    → IsAfter w e pal a rs
    → a + head_size rs ≤ e
head-short (stop h) = omega arith
head-short (block b i after) = IsAfter-le after

-- A row that does not begin with a free block, behind a block whose status changes.
pub IsAfter-retagged :
    {w v : Words} {e a : ℕ} {pal : Bool} {rs : List Block} (new : Bool)
    → head_allocated rs ≡ true
    → v a ≡ tag (head_size rs) true new
    → ((x : ℕ) → a < x → v x ≡ w x)
    → IsAfter w e pal a rs
    → IsAfter v e new a rs
IsAfter-retagged new firm now same (stop h) = stop now
IsAfter-retagged {a = a} new firm now same (block b i after) =
    block b
      (record {
        sixteen = i.sixteen;
        least = i.least;
        header = now ∙ subst (λ x. tag (size b) true new ≡ tag (size b) x new) (sym firm) refl;
        footer = λ f. absurd (cc (firm, f));
        spaced = λ f. absurd (cc (firm, f));
      })
      (IsAfter-kept (λ x l. same x (omega (arith, i.least))) after)

-- Behind a free block a row begins with an allocated one.
pub head-taken :
    {w : Words} {e a : ℕ} {rs : List Block} → IsAfter w e false a rs → head_allocated rs ≡ true
head-taken (stop h) = refl
head-taken (block (taken n) i after) = refl
head-taken (block (spare n) i after) = absurd (cc (i.spaced refl))

pub IsAfter-head :
    {w : Words} {e a : ℕ} {pal : Bool} {b : Block} {rs : List Block}
    → IsAfter w e pal a (b ∷ rs)
    → IsBlock w pal a b × IsAfter w e (allocated b) (a + size b) rs
IsAfter-head (block b i after) = (i, after)

pub IsAfter-end : {w : Words} {e a : ℕ} {pal : Bool} → IsAfter w e pal a [] → a ≡ e
IsAfter-end (stop h) = refl

-- A heap whose words are tiled, seen from the block at `a`.
pub record IsTiled (h : Heap) (a : ℕ) (pal : Bool) (ls rs : List Block) : Type 0 where
  pub aligned : h.start % 16 ≡ 0
  pub bounded : h.finish ≤ size_mod
  pub before : IsBefore h.words (h.start + 40) a pal ls
  pub after : IsAfter h.words (h.finish - 8) pal a rs

-- A heap with the same bounds and the same words in front of `a`.
pub IsTiled-kept :
    {h g : Heap} {a : ℕ} {pal : Bool} {ls rs bs : List Block}
    → g.start ≡ h.start
    → g.finish ≡ h.finish
    → ((x : ℕ) → x < a → g.words x ≡ h.words x)
    → IsAfter g.words (h.finish - 8) pal a bs
    → IsTiled h a pal ls rs
    → IsTiled g a pal ls bs
IsTiled-kept {g = g} {a} {pal} {ls} {bs = bs} begin end same after tiled = record {
  aligned = ap (λ x. x % 16) begin ∙ tiled.aligned;
  bounded = omega (arith, end, tiled.bounded);
  before =
      subst (λ x. IsBefore g.words (x + 40) a pal ls) (sym begin) (IsBefore-kept same tiled.before);
  after = subst (λ x. IsAfter g.words (x - 8) pal a bs) (sym end) after;
}

-- The same heap, seen from the next block.
pub IsTiled-next :
    {h : Heap} {a : ℕ} {pal : Bool} {b : Block} {ls rs : List Block}
    → IsTiled h a pal ls (b ∷ rs)
    → IsTiled h (a + size b) (allocated b) (b ∷ ls) rs
IsTiled-next {b = b} tiled =
    let (i, after) = IsAfter-head tiled.after in
    record {
      aligned = tiled.aligned;
      bounded = tiled.bounded;
      before = later b tiled.before i;
      after = after;
    }
