-- ===== src/Malloc/Allocate/Place.antt =====
-- What `sf_malloc` of hw3/src/sfmm.c does with the free block that it found.
use Prim.Native.Nat.{bit_or}
use cse_320_repository.Base.{
  ℕ, ◌+◌, ◌-◌, ◌%◌, ◌≤◌, ◌≡◌, refl, ap, ◌∙◌, Bool, true, false, if◌then◌else◌, if-true, if-false,
  ltb, ltb→ge, Bool-cases, inl, inr, List, [], ◌∷◌, ◌++◌, update, update_self, update_at, update_ne,
  arith,
}
use cse_320_repository.Malloc.Sizes.{size_mod}
use cse_320_repository.Malloc.Memory.{
  Heap, get_size_from_header, prev_bit, set_word, set_next, set_prev, remove_block, insert_block,
}
use cse_320_repository.Malloc.Tags.{tag, read-size, or-prev, or-one, or-two, taken-with-prev}
use cse_320_repository.Malloc.Tiling.{
  Block, taken, spare, IsBlock, IsAfter, block, IsTiled, IsTiled-kept, IsAfter-head, IsAfter-le,
  IsAfter-kept, IsAfter-retagged, head_size, head-header, head-sixteen, head-taken,
}
use cse_320_repository.Malloc.Spans.{IsSpanned, span_two, span-IsAfter}
use cse_320_repository.Malloc.Allocate.{
  take_block, replace_block, split_block, leave_splinter, place,
}

module _ (h : Heap) (a n : ℕ) (pal : Bool) (ls rs : List Block)
    (tiled : IsTiled h a pal ls (spare n ∷ rs)) (i : IsBlock h.words pal a (spare n))
    (after : IsAfter h.words (h.finish - 8) false (a + n) rs) where
  behind : h.words (a + n) ≡ tag (head_size rs) true false
  behind = head-header after ∙ ap (λ y. tag (head_size rs) y false) (head-taken after)

  take-IsTiled : IsTiled (take_block a h) a pal ls (taken n ∷ rs)
  unfolding take_block remove_block set_word set_next set_prev
  take-IsTiled =
      let one = bit_or (h.words a) 1 in
      let w : ℕ → ℕ = update h.words a one in
      let header : w a ≡ tag n true pal =
        update_self h.words a one ∙ or-one n false pal i.header i.sixteen in
      let next = a + get_size_from_header (w a) in
      let place : next ≡ a + n = ap (λ x. a + x) (read-size n true pal header i.sixteen) in
      let next_word : w next ≡ tag (head_size rs) true false =
        ap w place ∙ update_ne h.words a (a + n) one (omega (arith, i.least)) ∙ behind in
      let two = bit_or (w next) 2 in
      IsTiled-kept refl refl
        (λ x l.
          update_ne w next x two (omega (arith, place)) ∙ update_ne h.words a x one (omega arith))
        (block (taken n)
          (record {
            sixteen = i.sixteen;
            least = i.least;
            header = update_ne w next a two (omega (arith, place, i.least)) ∙ header;
            footer = λ f. absurd (cc f);
            spaced = λ f. absurd (cc f);
          })
          (IsAfter-retagged true (head-taken after)
            (update_at w next (a + n) two place
              ∙ or-two (head_size rs) true false next_word (head-sixteen after))
            (λ x l.
              update_ne w next x two (omega (arith, place))
              ∙ update_ne h.words a x one (omega (arith, i.least)))
            after))
        tiled

  -- The block is cut at `need`.
  module _ (need : ℕ) (even : need % 16 ≡ 0) (long : 32 ≤ need) (rest : need + 32 ≤ n) where
    piece_header : ℕ
    piece_header = bit_or (bit_or need 1) (prev_bit (h.words a))

    left_over : ℕ
    left_over = (get_size_from_header (h.words a) + size_mod - need) % size_mod

    -- The words when the block is cut, and when the rest has its tags.
    cut_words : ℕ → ℕ
    cut_words = update h.words a piece_header

    all_words : ℕ → ℕ
    all_words =
        update (update cut_words (a + need) (bit_or left_over 2)) (a + need + left_over - 8)
          (bit_or left_over 2)

    left : left_over ≡ n - need
    unfolding left_over
    left =
        omega
          (arith, read-size n false pal i.header i.sixteen, IsAfter-le after, tiled.bounded, rest)

    rest-tag : bit_or left_over 2 ≡ tag (n - need) false true
    rest-tag =
        ap (λ x. bit_or x 2) (left ∙ omega arith)
        ∙ or-prev (n - need) false true (omega (arith, even, i.sixteen, rest))

    cut_words-header : cut_words a ≡ tag need true pal
    unfolding cut_words piece_header
    cut_words-header =
        update_self h.words a piece_header
        ∙ taken-with-prev n false pal i.header i.sixteen need even

    split-span : IsSpanned cut_words all_words (a + need) (n - need) (a + n) (head_size rs)
    unfolding all_words cut_words
    split-span =
        span_two (omega (arith, rest)) (omega (arith, rest)) refl (omega (arith, left, rest))
          rest-tag rest-tag
          (update_ne h.words a (a + n) piece_header (omega (arith, i.least)) ∙ behind)

    split-IsAfter : IsAfter all_words (h.finish - 8) pal a (taken need ∷ spare (n - need) ∷ rs)
    unfolding cut_words
    split-IsAfter =
        block (taken need)
          (record {
            sixteen = even;
            least = long;
            header = split-span.below a (omega (arith, long)) ∙ cut_words-header;
            footer = λ f. absurd (cc f);
            spaced = λ f. absurd (cc f);
          })
          (span-IsAfter (omega (arith, rest)) (omega (arith, even, i.sixteen, rest))
            (omega (arith, rest)) split-span (head-taken after)
            (IsAfter-kept (λ x l. update_ne h.words a x piece_header (omega (arith, i.least)))
              after))

    split-IsTiled :
        (z : Bool) → IsTiled (split_block a need z h) a pal ls (taken need ∷ spare (n - need) ∷ rs)
    unfolding split_block remove_block insert_block replace_block set_word set_next set_prev
        all_words cut_words piece_header left_over
    split-IsTiled true =
        IsTiled-kept refl refl
          (λ x l.
            split-span.below x (omega arith) ∙ update_ne h.words a x piece_header (omega arith))
          split-IsAfter tiled
    split-IsTiled false =
        IsTiled-kept refl refl
          (λ x l.
            split-span.below x (omega arith) ∙ update_ne h.words a x piece_header (omega arith))
          split-IsAfter tiled

-- The blocks that a free block of `n` bytes becomes for a request of `need`.
abbrev pub placed : (need n : ℕ) → List Block
placed need n = if ltb (n - need) 32 then taken n ∷ [] else taken need ∷ spare (n - need) ∷ []

-- On a heap that is a row of blocks, placing a request of a multiple of 16 bytes, at least 32, in
-- a free block that has room for it leaves a row of blocks, where the block is allocated as a
-- whole if less than 32 bytes would be left, and is cut in an allocated and a free one otherwise.
pub place-IsTiled :
    (h : Heap) (a n need : ℕ) (pal from_wilderness : Bool) (ls rs : List Block)
    → need % 16 ≡ 0
    → 32 ≤ need
    → need ≤ n
    → IsTiled h a pal ls (spare n ∷ rs)
    → IsTiled (place a need from_wilderness h) a pal ls (placed need n ++ rs)
unfolding place leave_splinter
place-IsTiled h a n need pal z ls rs even long fits tiled =
    let (i, after) = IsAfter-head tiled.after in
    let size : get_size_from_header (h.words a) ≡ n = read-size n false pal i.header i.sixteen in
    let test : ltb ((get_size_from_header (h.words a) + size_mod - need) % size_mod) 32
        ≡ ltb (n - need) 32 =
      ap (λ x. ltb x 32) (omega (arith, size, IsAfter-le after, tiled.bounded, fits)) in
    elim (Bool-cases (ltb (n - need) 32)) [
      | inl short ↦
          if-true (λ bs. IsTiled (place a need z h) a pal ls (bs ++ rs)) _ _ short
            (if-true (λ g. IsTiled g a pal ls (taken n ∷ rs)) _ _ (test ∙ short)
              (take-IsTiled h a n pal ls rs tiled i after))
      | inr more ↦
          if-false (λ bs. IsTiled (place a need z h) a pal ls (bs ++ rs)) _ _ more
            (if-false (λ g. IsTiled g a pal ls (taken need ∷ spare (n - need) ∷ rs)) _ _
              (test ∙ more)
              (split-IsTiled h a n pal ls rs tiled i after need even long
                (omega (arith, ltb→ge (n - need) 32 more, fits)) z))
    ]
