-- ===== src/Malloc/Free/Merge.antt =====
-- `sf_free` of hw3/src/sfmm.c on the row of blocks: the block and the free ones beside it become one.
use cse_320_repository.Base.{
  ℕ, ◌+◌, ◌-◌, ◌*◌, ◌%◌, ◌≤◌, ◌<◌, ◌==◌, ◌≡◌, refl, sym, ap, subst, ◌∙◌, Bool, true, false, if-true,
  if-false, ==_ne, inl, inr, List, arith,
}
use cse_320_repository.Malloc.Sizes.{size_mod}
use cse_320_repository.Malloc.Memory.{Heap, get_size_from_header, allocated_bit, prev_bit}
use cse_320_repository.Malloc.Tags.{tag, flag, read-size, read-allocated, read-prev}
use cse_320_repository.Malloc.Tiling.{
  Block, taken, spare, IsBlock, IsBefore, IsAfter, stop, block, head_size, head-header,
  head-sixteen, head-taken,
}
use cse_320_repository.Malloc.Tiling.FreeEnds.{free_size, without_free, free_in_front}
use cse_320_repository.Malloc.Free.{next_block, release}
use cse_320_repository.Malloc.Free.Branches.{
  IsFreed, next-address, free_last-alone, free_last-after, free_alone-IsFreed, free_after-IsFreed,
  free_before-IsFreed, free_between-IsFreed,
}

recount :
    {h g : Heap} {s a b t u p q : ℕ}
    → a ≡ b
    → t ≡ u
    → p ≡ q
    → IsFreed h a t p s g
    → IsFreed h b u q s g
recount {h} {g} {s} {a} {b} {t} {u} {p} {q} x y z f =
    subst (λ i. IsFreed h i u q s g) x
      (subst (λ i. IsFreed h a i q s g) y (subst (λ i. IsFreed h a t i s g) z f))

-- The block at `a` of `n` bytes in a tiled row.
module _ (h : Heap) (a n : ℕ) (pal : Bool) (ls : List Block)
    (before : IsBefore h.words (h.start + 40) a pal ls) (i : IsBlock h.words pal a (taken n))
    (bounded : a + n < size_mod) where
  next-word : {w : ℕ} → h.words (a + n) ≡ w → h.words (next_block a h) ≡ w
  next-word word = ap h.words (next-address h a n pal i.sixteen i.least bounded i.header) ∙ word

  occupied : (prev_bit (h.words a) == 0) ≡ (2 * flag pal == 0)
  occupied = ap (λ x. x == 0) (read-prev n true pal i.header i.sixteen)

  release-last :
      h.finish - 8 ≡ a + n
      → h.words (a + n) ≡ tag 0 true true
      → IsFreed h (a - free_size ls) (free_size ls + n + 0) (a + n + 0) 0 (release a h)
  unfolding release
  release-last last word =
      if-true (IsFreed h (a - free_size ls) (free_size ls + n + 0) (a + n + 0) 0) _ _
        (ap (λ x. x == 0) (read-size 0 true true (next-word word) refl))
        (elim (free_in_front before) [
          | inl (firm, lone) ↦
              recount (omega (arith, lone)) (omega (arith, lone)) (omega arith)
                (free_last-alone h a n pal i.sixteen i.least bounded i.header firm last)
          | inr (loose, fits, even, footer, header) ↦ recount refl (omega arith) (omega arith) (
              free_last-after h a n pal i.sixteen i.least bounded i.header (free_size ls) fits even
                loose footer header last)
        ])

  -- In front of a block of `s` bytes.
  module _ (s : ℕ) (x : Bool) (even_s : s % 16 ≡ 0) (least_s : 32 ≤ s)
      (word : h.words (a + n) ≡ tag s x true) where
    not_last : (get_size_from_header (h.words (next_block a h)) == 0) ≡ false
    not_last =
        ap (λ y. y == 0) (read-size s x true (next-word word) even_s)
        ∙ ==_ne s 0 (λ z. omega (arith, z, least_s))

    next_status : (allocated_bit (h.words (next_block a h)) == 0) ≡ (flag x == 0)
    next_status = ap (λ y. y == 0) (read-allocated s x true (next-word word) even_s)

    release-taken :
        x ≡ true → IsFreed h (a - free_size ls) (free_size ls + n + 0) (a + n + 0) s (release a h)
    unfolding release
    release-taken held =
        let P : Heap → Type 0 = IsFreed h (a - free_size ls) (free_size ls + n + 0) (a + n + 0) s in
        let held_word : h.words (a + n) ≡ tag s true true = word ∙ ap (λ y. tag s y true) held in
        if-false P _ _ not_last (
          if-false P _ _ (next_status ∙ ap (λ y. flag y == 0) held) (elim (free_in_front before) [
            | inl (firm, lone) ↦ if-false P _ _ (occupied ∙ ap (λ y. 2 * flag y == 0) firm) (
                recount (omega (arith, lone)) (omega (arith, lone)) (omega arith) (
                  free_alone-IsFreed h a n pal i.sixteen i.least bounded i.header s firm even_s
                    held_word))
            | inr (loose, fits, even, footer, header) ↦
                if-true P _ _ (occupied ∙ ap (λ y. 2 * flag y == 0) loose) (
                  recount refl (omega arith) (omega arith) (
                    free_after-IsFreed h a n pal i.sixteen i.least bounded i.header (free_size ls)
                      fits even loose footer header s even_s held_word))
          ]))

    release-spare :
        (k : ℕ)
        → x ≡ false
        → k % 16 ≡ 0
        → h.words (a + n + s) ≡ tag k true false
        → IsFreed h (a - free_size ls) (free_size ls + n + s) (a + n + s) k (release a h)
    unfolding release
    release-spare k bare even_k last =
        let P : Heap → Type 0 = IsFreed h (a - free_size ls) (free_size ls + n + s) (a + n + s) k in
        let bare_word : h.words (a + n) ≡ tag s false true = word ∙ ap (λ y. tag s y true) bare in
        if-false P _ _ not_last (
          if-true P _ _ (next_status ∙ ap (λ y. flag y == 0) bare) (elim (free_in_front before) [
            | inl (firm, lone) ↦ if-false P _ _ (occupied ∙ ap (λ y. 2 * flag y == 0) firm) (
                recount (omega (arith, lone)) (omega (arith, lone)) refl (
                  free_before-IsFreed h a n pal i.sixteen i.least bounded i.header s k firm even_s
                    even_k bare_word last))
            | inr (loose, fits, even, footer, header) ↦
                if-true P _ _ (occupied ∙ ap (λ y. 2 * flag y == 0) loose) (
                  free_between-IsFreed h a n pal i.sixteen i.least bounded i.header (free_size ls)
                    fits even loose footer header s k even_s even_k bare_word last)
          ]))

  pub release-IsFreed :
      {rs : List Block} {e q : ℕ}
      → h.finish - 8 ≡ e
      → a + n ≡ q
      → IsAfter h.words e true q rs
      → IsFreed h
          (a - free_size ls)
          (free_size ls + n + free_size rs)
          (a + n + free_size rs)
          (head_size (without_free rs))
          (release a h)
  release-IsFreed end place (stop word) = release-last (end ∙ sym place) (ap h.words place ∙ word)
  release-IsFreed end place (block (taken s) j after) =
      release-taken s true j.sixteen j.least (ap h.words place ∙ j.header) refl
  release-IsFreed end place (block {rs = rs} (spare s) j after) =
      release-spare s false j.sixteen j.least (ap h.words place ∙ j.header) (head_size rs) refl
        (head-sixteen after)
        (ap (λ x. h.words (x + s)) place
          ∙ head-header after
          ∙ ap (λ y. tag (head_size rs) y false) (head-taken after))
