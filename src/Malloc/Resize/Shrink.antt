-- ===== src/Malloc/Resize/Shrink.antt =====
-- `sf_realloc` of hw3/src/sfmm.c to a size that the block has room for.
use Prim.Native.Nat.{bit_or}
use cse_320_repository.Base.{
  ℕ, ◌+◌, ◌-◌, ◌%◌, ◌≤◌, ◌<◌, ◌≡◌, ◌≢◌, refl, ap, subst, ◌∙◌, Bool, true, false, if-true, if-false,
  ltb, ltb→lt, ltb→ge, ge→ltb, ◌⊎◌, Bool-cases, inl, inr, List, ◌∷◌, none, some, update,
  update_self, update_ne, arith,
}
use cse_320_repository.Malloc.Memory.{Heap, get_size_from_header, prev_bit, set_word}
use cse_320_repository.Malloc.Tags.{tag, read-size, or-prev, or-allocated, taken-with-prev}
use cse_320_repository.Malloc.Tiling.{
  Block, taken, spare, IsBlock, later, IsBefore-kept, IsAfter, block, IsTiled, IsAfter-head,
  IsAfter-kept,
}
use cse_320_repository.Malloc.Tiling.FreeEnds.{free_size, without_free}
use cse_320_repository.Malloc.Free.Tiled.{sf_free-IsMerged}
use cse_320_repository.Malloc.Resize.{shrink_block, resize_to}

module _ (h : Heap) (ptr n need : ℕ) (pal : Bool) (ls rs : List Block)
    (tiled : IsTiled h (ptr - 8) pal ls (taken n ∷ rs)) (even : need % 16 ≡ 0) (long : 32 ≤ need)
    (rest : need + 32 ≤ n) where
  i : IsBlock h.words pal (ptr - 8) (taken n)
  i = (IsAfter-head tiled.after).0

  front_header : ℕ
  front_header = bit_or (bit_or need 1) (prev_bit (h.words (ptr - 8)))

  back_header : ℕ
  back_header = bit_or (bit_or (n - need) 1) 2

  -- The heap with the block cut in two allocated ones.
  two_blocks : Heap
  two_blocks = set_word (ptr - 8 + need) back_header (set_word (ptr - 8) front_header h)

  front_header-tag : front_header ≡ tag need true pal
  unfolding front_header
  front_header-tag = taken-with-prev n true pal i.header i.sixteen need even

  back_header-tag : back_header ≡ tag (n - need) true true
  unfolding back_header
  back_header-tag =
      let even_rest : (n - need) % 16 ≡ 0 = omega (arith, even, rest, i.sixteen) in
      ap (λ x. bit_or (bit_or x 1) 2) (omega arith)
      ∙ ap (λ x. bit_or x 2) (or-allocated (n - need) true false even_rest)
      ∙ or-prev (n - need) true true even_rest

  two_blocks-IsTiled :
      IsTiled two_blocks (ptr - 8 + need) true (taken need ∷ ls) (taken (n - need) ∷ rs)
  unfolding two_blocks set_word
  two_blocks-IsTiled =
      let v : ℕ → ℕ = update (update h.words (ptr - 8) front_header) (ptr - 8 + need) back_header in
      let same : (x : ℕ) → x ≢ ptr - 8 → x ≢ ptr - 8 + need → v x ≡ h.words x = λ x p q.
        update_ne (update h.words (ptr - 8) front_header) (ptr - 8 + need) x back_header q
        ∙ update_ne h.words (ptr - 8) x front_header p in
      record {
        aligned = tiled.aligned;
        bounded = tiled.bounded;
        before =
            later (taken need)
              (IsBefore-kept (λ x l. same x (omega arith) (omega arith)) tiled.before)
              (record {
                sixteen = even;
                least = long;
                header =
                    update_ne (update h.words (ptr - 8) front_header) (ptr - 8 + need) (ptr - 8)
                      back_header (omega (arith, long))
                    ∙ update_self h.words (ptr - 8) front_header
                    ∙ front_header-tag;
                footer = λ f. absurd (cc f);
                spaced = λ f. absurd (cc f);
              });
        after =
            block (taken (n - need))
              (record {
                sixteen = omega (arith, even, rest, i.sixteen);
                least = omega (arith, rest);
                header =
                    update_self (update h.words (ptr - 8) front_header) (ptr - 8 + need) back_header
                    ∙ back_header-tag;
                footer = λ f. absurd (cc f);
                spaced = λ f. absurd (cc f);
              })
              (subst (λ x. IsAfter v (h.finish - 8) true x rs) (omega (arith, rest))
                (IsAfter-kept (λ x l. same x (omega (arith, rest)) (omega (arith, rest, long)))
                  (IsAfter-head tiled.after).1));
      }

  shrink-IsTiled :
      (g : Heap) × (shrink_block ptr need n h ≡ some (ptr, g))
      × IsTiled g
          (ptr - 8 + need)
          true
          (taken need ∷ ls)
          (spare (n - need + free_size rs) ∷ without_free rs)
      × ((x : ℕ) → ptr - 8 < x → x < ptr - 8 + need → g.words x ≡ h.words x)
  unfolding shrink_block two_blocks front_header back_header set_word
  shrink-IsTiled =
      let a = ptr - 8 + need in
      let back : a ≡ a + 8 - 8 = omega arith in
      let (g, done, merged) =
        sf_free-IsMerged two_blocks (a + 8) (n - need) true (taken need ∷ ls) rs (
          subst (λ x. IsTiled two_blocks x true (taken need ∷ ls) (taken (n - need) ∷ rs)) back
            two_blocks-IsTiled) in
      (
        g,
        ap (λ o. elim o [ none ↦ none | some f ↦ some (ptr, f) ]) done,
        subst
            (λ x.
              IsTiled g x true (taken need ∷ ls)
                (spare (n - need + free_size rs) ∷ without_free rs))
            (omega (arith, back))
            (subst
              (λ x.
                IsTiled g (a + 8 - 8 - 0) true (taken need ∷ ls)
                  (spare (x + free_size rs) ∷ without_free rs))
              (omega arith) merged.tiled),
        λ x l r.
            merged.below x (inl (omega (arith, back), omega (arith, back)))
            ∙ update_ne (update h.words (ptr - 8) front_header) a x back_header (omega arith)
            ∙ update_ne h.words (ptr - 8) x front_header (omega arith),
      )

pub resize_to-room :
    (h : Heap) (ptr size n need : ℕ) (pal : Bool) (ls rs : List Block)
    → IsTiled h (ptr - 8) pal ls (taken n ∷ rs)
    → need % 16 ≡ 0
    → 32 ≤ need
    → need ≤ n
    → (g : Heap) × (resize_to ptr size need h ≡ some (ptr, g))
      × (((n < need + 32) × (g ≡ h))
          ⊎ ((need + 32 ≤ n)
              × IsTiled g
                  (ptr - 8 + need)
                  true
                  (taken need ∷ ls)
                  (spare (n - need + free_size rs) ∷ without_free rs)
              × ((x : ℕ) → ptr - 8 < x → x < ptr - 8 + need → g.words x ≡ h.words x)))
unfolding resize_to
resize_to-room h ptr size n need pal ls rs tiled even long fits =
    let j : IsBlock h.words pal (ptr - 8) (taken n) = (IsAfter-head tiled.after).0 in
    let length = get_size_from_header (h.words (ptr - 8)) in
    let same : length ≡ n = read-size n true pal j.header j.sixteen in
    let enough : ltb length need ≡ false = ge→ltb length need (omega (arith, same, fits)) in
    elim (Bool-cases (ltb (length - need) 32)) [
      | inl short ↦ (
        h,
        if-false (λ o. o ≡ some (ptr, h)) _ _ enough
            (if-true (λ o. o ≡ some (ptr, h)) _ _ short refl),
        inl (omega (arith, same, ltb→lt (length - need) 32 short), refl),
      )
      | inr more ↦
          let room : need + 32 ≤ n = omega (arith, same, fits, ltb→ge (length - need) 32 more) in
          let (g, done, shrunk, payload) =
            shrink-IsTiled h ptr n need pal ls rs tiled even long room in
          (
            g,
            if-false (λ o. o ≡ some (ptr, g)) _ _ enough
                (if-false (λ o. o ≡ some (ptr, g)) _ _ more
                  (ap (λ x. shrink_block ptr need x h) same ∙ done)),
            inr (room, shrunk, payload),
          )
    ]
