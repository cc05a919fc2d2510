-- ===== src/Bdd/Apply/Correct.antt =====
-- `bdd_apply` of hw1/src/bdd.c reads the pixel of the image that the diagram stands for.
use Prim.Native.Nat.{bit_and}
use cse_320_repository.Base.{
  ℕ, zero, suc, ◌-◌, ◌/◌, ◌%◌, ◌≤◌, ◌<◌, ◌≡◌, refl, sym, ap, subst, ◌∙◌, inl, inr, Bool, true,
  false, Option, some, arith, if◌then◌else◌, ltb, ◌==◌, Bool-cases,
}
use cse_320_repository.Bdd.Store.{Store, bdd_num_leaves}
use cse_320_repository.Bdd.Lookup.Invariant.{level_of, IsTable}
use cse_320_repository.Bdd.Image.{
  digit, child, pixel, pixel_skip, child-used, child-levelled, leaf_of_level,
}
use cse_320_repository.Bdd.Apply.{
  follow, shift_loop, helper_recursion_bdd_apply2, bdd_apply, to_uchar,
}
use cse_320_repository.Bdd.Apply.Masks.{
  mask, row_digits, col_digits, parity, shift_loop-mask, mask_even, mask_odd, bit_and-mask,
  row_even, col_odd, digit-rows, digit-cols, mask_loop_start,
}

pub to_uchar_lem : (x : ℕ) → x < bdd_num_leaves → to_uchar x ≡ x
to_uchar_lem x h = omega arith

module _ (s : Store) (v : IsTable s) (r c : ℕ) where
  -- The masks at level `l`, and the call with them.
  abbrev at_level : ℕ → ℕ → ℕ → Option ℕ
  at_level fuel k l =
      helper_recursion_bdd_apply2 fuel k r c l (mask (row_digits l)) (mask (col_digits l)) s

  leaf_pixel : (l j : ℕ) → ltb j bdd_num_leaves ≡ true → pixel s.nodes l j r c ≡ j
  unfolding pixel
  leaf_pixel l j h =
      let e : level_of s.nodes j ≡ 0 = rw h in pixel_skip l j r c s.nodes (omega (arith, e)) ∙ rw e

  node_pixel :
      (l j : ℕ)
      → bdd_num_leaves ≤ j
      → (s.nodes j).level ≤ l
      → pixel s.nodes l j r c ≡ pixel s.nodes (s.nodes j).level j r c
  node_pixel l j low h =
      let e : level_of s.nodes j ≡ (s.nodes j).level = ground arith in
      pixel_skip l j r c s.nodes (omega (arith, e)) ∙ rw e

  -- One level down no level is skipped; the next call has the masks of its level.
  follow_near :
      (fuel l j : ℕ) (rows : Bool)
      → (s.nodes j).level ≡ l
      → (suc l % 2 == 0) ≡ rows
      → (if rows
          then helper_recursion_bdd_apply2 fuel j r c
              (s.nodes j).level
              (mask (row_digits (suc l)) / 2)
              (mask (col_digits (suc l)))
              s
          else helper_recursion_bdd_apply2 fuel j r c
              (s.nodes j).level
              (mask (row_digits (suc l)))
              (mask (col_digits (suc l)) / 2)
              s)
        ≡ at_level fuel j l
  follow_near fuel l j rows e parity_l = elim (parity l) [
    | inl (even, odd) ↦
        let (p, q) = mask_even l even in
        let is : rows ≡ true = ground arith in rw (is, p, q, e) refl
    | inr (odd, even) ↦
        let (p, q) = mask_odd l odd in let is : rows ≡ false = ground arith in rw (is, p, q, e) refl
  ]

  -- The call on a node below level `suc l`, with or without skipped levels.
  follow-at_level :
      (fuel l j : ℕ) (rows : Bool)
      → bdd_num_leaves ≤ j
      → (s.nodes j).level ≤ l
      → (suc l % 2 == 0) ≡ rows
      → follow
          (λ k l mr mc. helper_recursion_bdd_apply2 fuel k r c l mr mc s)
          s.nodes
          (suc l)
          rows
          (mask (row_digits (suc l)))
          (mask (col_digits (suc l)))
          j
        ≡ at_level fuel j (s.nodes j).level
  unfolding follow
  follow-at_level fuel l j rows low below e = rw inner (elim (Bool-cases (suc l - x == 1)) [
    | inl one ↦ let eq : x ≡ l = ground arith in rw one (follow_near fuel l j rows eq e ∙ rw eq)
    | inr far ↦ rw (far, shifted) refl
  ])
    where
      x : ℕ
      x = (s.nodes j).level

      inner : ltb j bdd_num_leaves ≡ false
      inner = ground arith

      shifted :
          shift_loop (suc l - x) rows (mask (row_digits (suc l))) (mask (col_digits (suc l)))
          ≡ (mask (row_digits x), mask (col_digits x))
      shifted = rw e at (shift_loop-mask (suc l - x) x (suc l) (omega arith))

  abbrev Deeper : ℕ → ℕ → Type 0
  Deeper fuel l =
      (j : ℕ)
      → bdd_num_leaves ≤ j
      → j < s.free_node_counter
      → (s.nodes j).level ≤ l
      → at_level fuel j (s.nodes j).level ≡ some (pixel s.nodes (s.nodes j).level j r c)

  follow-pixel :
      (fuel l j : ℕ) (rows : Bool)
      → Deeper fuel l
      → j < s.free_node_counter
      → level_of s.nodes j ≤ l
      → (suc l % 2 == 0) ≡ rows
      → follow
          (λ k l mr mc. helper_recursion_bdd_apply2 fuel k r c l mr mc s)
          s.nodes
          (suc l)
          rows
          (mask (row_digits (suc l)))
          (mask (col_digits (suc l)))
          j
        ≡ some (pixel s.nodes l j r c)
  follow-pixel fuel l j rows next u h e = elim (Bool-cases (ltb j bdd_num_leaves)) [
    | inl leaf ↦ unfold follow in rw (leaf, leaf_pixel l j leaf) (ground arith)
    | inr inner ↦
        let low : bdd_num_leaves ≤ j = ground arith in
        let below : (s.nodes j).level ≤ l = ground arith in
        follow-at_level fuel l j rows low below e
        ∙ next j low u below
        ∙ ap some (sym (node_pixel l j low below))
  ]

  chosen :
      (l k : ℕ)
      → bdd_num_leaves ≤ k
      → (s.nodes k).level ≡ suc l
      → child s.nodes l k r c ≡ (if digit l r c == 0 then (s.nodes k).left else (s.nodes k).right)
  chosen l k low e = ground arith

  -- The masked coordinate picks the child of the image.
  picks_row :
      (l k : ℕ)
      → bdd_num_leaves ≤ k
      → (s.nodes k).level ≡ suc l
      → suc l % 2 ≡ 0
      → (if bit_and r (mask (row_digits (suc l))) == 0 then (s.nodes k).left else (s.nodes k).right)
        ≡ child s.nodes l k r c
  picks_row l k low e even =
      let odd : l % 2 ≡ 1 = omega arith in
      rw (chosen l k low e, digit-rows l r c odd, row_even l even, bit_and-mask r (row_digits l))
        refl

  picks_col :
      (l k : ℕ)
      → bdd_num_leaves ≤ k
      → (s.nodes k).level ≡ suc l
      → suc l % 2 ≡ 1
      → (if bit_and c (mask (col_digits (suc l))) == 0 then (s.nodes k).left else (s.nodes k).right)
        ≡ child s.nodes l k r c
  picks_col l k low e odd =
      let even : l % 2 ≡ 0 = omega arith in
      rw (chosen l k low e, digit-cols l r c even, col_odd l odd, bit_and-mask c (col_digits l))
        refl

  abbrev call : ℕ → ℕ → ℕ → ℕ → ℕ → Option ℕ
  call fuel k l mr mc = helper_recursion_bdd_apply2 fuel k r c l mr mc s

  apply-one :
      (fuel k : ℕ)
      → at_level (suc fuel) k 1
        ≡ some (
            to_uchar (
              if bit_and c (mask (col_digits 1)) == 0 then (s.nodes k).left else (s.nodes k).right))
  unfolding helper_recursion_bdd_apply2
  apply-one fuel k = refl

  apply-even :
      (fuel k l : ℕ)
      → suc (suc l) % 2 ≡ 0
      → at_level (suc fuel) k (suc (suc l))
        ≡ follow
            (call fuel)
            s.nodes
            (s.nodes k).level
            true
            (mask (row_digits (suc (suc l))))
            (mask (col_digits (suc (suc l))))
            (if bit_and r (mask (row_digits (suc (suc l)))) == 0
              then (s.nodes k).left
              else (s.nodes k).right)
  unfolding helper_recursion_bdd_apply2
  apply-even fuel k l even =
      let big : (suc (suc l) == 1) ≡ false = ground arith in
      rw (helper_recursion_bdd_apply2, big, even) refl

  apply-odd :
      (fuel k l : ℕ)
      → suc (suc l) % 2 ≡ 1
      → at_level (suc fuel) k (suc (suc l))
        ≡ follow
            (call fuel)
            s.nodes
            (s.nodes k).level
            false
            (mask (row_digits (suc (suc l))))
            (mask (col_digits (suc (suc l))))
            (if bit_and c (mask (col_digits (suc (suc l)))) == 0
              then (s.nodes k).left
              else (s.nodes k).right)
  unfolding helper_recursion_bdd_apply2
  apply-odd fuel k l odd =
      let big : (suc (suc l) == 1) ≡ false = ground arith in
      rw (helper_recursion_bdd_apply2, big, odd) refl

  follow-child :
      (fuel k l : ℕ) (rows : Bool)
      → bdd_num_leaves ≤ k
      → k < s.free_node_counter
      → (s.nodes k).level ≡ suc l
      → Deeper fuel l
      → (suc l % 2 == 0) ≡ rows
      → follow
          (call fuel)
          s.nodes
          (s.nodes k).level
          rows
          (mask (row_digits (suc l)))
          (mask (col_digits (suc l)))
          (child s.nodes l k r c)
        ≡ some (pixel s.nodes (suc l) k r c)
  unfolding pixel
  follow-child fuel k l rows low u e next parity_l =
      subst
        (λ m.
          follow (call fuel) s.nodes m rows (mask (row_digits (suc l))) (mask (col_digits (suc l)))
            (child s.nodes l k r c)
          ≡ some (pixel s.nodes l (child s.nodes l k r c) r c))
        (sym e)
        (follow-pixel fuel l _ rows next (child-used l k r c v u)
          (child-levelled l k r c v u (ground arith)) parity_l)

  node_step :
      (fuel k l : ℕ)
      → bdd_num_leaves ≤ k
      → k < s.free_node_counter
      → (s.nodes k).level ≡ suc l
      → Deeper fuel l
      → at_level (suc fuel) k (suc l) ≡ some (pixel s.nodes (suc l) k r c)
  node_step fuel k zero low u e next =
      apply-one fuel k ∙ ap some (ap to_uchar (picks_col 0 k low e refl) ∙ uchar)
    where
      uchar : to_uchar (child s.nodes 0 k r c) ≡ pixel s.nodes 1 k r c
      uchar =
          unfold pixel in
          to_uchar_lem _
            (leaf_of_level _ v (child-used 0 k r c v u) (child-levelled 0 k r c v u (ground arith)))
  node_step fuel k (suc l) low u e next = elim (parity (suc l)) [
    | inl (even, odd) ↦
        apply-even fuel k l even
        ∙ ap (follow (call fuel) s.nodes (s.nodes k).level true _ _)
            (picks_row (suc l) k low e even)
        ∙ follow-child fuel k (suc l) true low u e next (rw even refl)
    | inr (odd, even) ↦
        apply-odd fuel k l odd
        ∙ ap (follow (call fuel) s.nodes (s.nodes k).level false _ _)
            (picks_col (suc l) k low e odd)
        ∙ follow-child fuel k (suc l) false low u e next (rw odd refl)
  ]

  step_at :
      (fuel j x : ℕ)
      → bdd_num_leaves ≤ j
      → j < s.free_node_counter
      → x ≤ suc fuel
      → (s.nodes j).level ≡ x
      → ((m : ℕ) → m ≤ fuel → Deeper fuel m)
      → at_level (suc fuel) j x ≡ some (pixel s.nodes x j r c)
  step_at fuel j zero low u h e deeper = absurd (omega (arith, (v.shaped j low u).left_level))
  step_at fuel j (suc m) low u h e deeper = node_step fuel j m low u e (deeper m (omega arith))

  helper-pixel : (fuel l : ℕ) → l ≤ fuel → Deeper fuel l
  helper-pixel zero l h j low u b = absurd (omega (arith, (v.shaped j low u).left_level))
  helper-pixel (suc fuel) l h j low u b =
      step_at fuel j (s.nodes j).level low u (omega arith) refl (λ m le. helper-pixel fuel m le)

  -- On a node in use of level at most 62 in a well-formed table, `bdd_apply` ends and reads the pixel
  -- of the image.
  pub bdd_apply-pixel :
      (k : ℕ)
      → bdd_num_leaves ≤ k
      → k < s.free_node_counter
      → (s.nodes k).level ≤ 62
      → bdd_apply k r c s ≡ some (pixel s.nodes (s.nodes k).level k r c)
  unfolding bdd_apply
  bdd_apply-pixel k low u small =
      rw (mask_loop_start (s.nodes k).level small)
        (helper-pixel (suc (s.nodes k).level) (s.nodes k).level (omega arith) k low u (omega arith))
