-- ===== src/Bdd/Raster/Split.antt =====
-- The two recursions that halve the square, in hw1/src/bdd.c.
use mathlib.Core.Path.{fun_ext, ap₂}
use cse_320_repository.Base.{
  ℕ, zero, suc, ◌+◌, ◌*◌, ◌^◌, ◌<◌, ◌≡◌, refl, inl, inr, some, arith, List, length, get_or,
  get_elem?-get_or, ltb, ◌&&◌, if◌then◌else◌, Bool-cases,
}
use cse_320_repository.Base.Bits.{low}
use cse_320_repository.Bdd.Store.{Store, M, bdd_num_leaves}
use cse_320_repository.Bdd.Lookup.{construct_node}
use cse_320_repository.Bdd.Build.{Picture, leaf-IsBuilt, Builds, Builds-congr, Builds-halves}
use cse_320_repository.Bdd.Square.{twice, halves_cols, halves_rows, pow_ne_one, pow-half, suc-sub}
use cse_320_repository.Bdd.Raster.{
  read_pixel, helper_recursive_function_split_row, helper_recursive_function_split_col,
}

-- The pixels of a raster, row by row; 0 outside.
abbrev pub raster_picture : List ℕ → ℕ → ℕ → Picture
raster_picture raster w h r c = if ltb r h && ltb c w then get_or raster (w * r + c) 0 else 0

-- The array holds w * h bytes.
pub record IsRaster (raster : List ℕ) (w h : ℕ) : Type 0 where
  pub size : length raster ≡ w * h
  pub bytes : (i : ℕ) → i < length raster → get_or raster i 0 < 256

raster_index : (w h r c : ℕ) → r < h → c < w → w * r + c < w * h
raster_index w h r c p q = grind arith

module _ (raster : List ℕ) (w h : ℕ) (v : IsRaster raster w h) where
  abbrev picture : Picture
  picture = raster_picture raster w h

  picture-lt : (r c : ℕ) → picture r c < bdd_num_leaves
  picture-lt r c = elim (Bool-cases (ltb r h && ltb c w)) [
    | inl inside ↦ rw inside (v.bytes (w * r + c) (ground (arith, v.size, raster_index w h r c)))
    | inr outside ↦ rw outside (omega arith)
  ]

  read_pixel-picture :
      (row col : ℕ) (s : Store) → read_pixel raster row col w w h s ≡ some (picture row col, s)
  unfolding read_pixel
  read_pixel-picture row col s = elim (Bool-cases (ltb row h && ltb col w)) [
    | inl inside ↦
        let i : w * row + col < length raster = ground (arith, v.size, raster_index w h row col) in
        rw (inside, get_elem?-get_or raster (w * row + col) 0 i) refl
    | inr outside ↦ rw outside refl
  ]

  module _ (base : Store) where
    read_pixel-Builds :
        (row col : ℕ) → Builds base 0 0 (λ r c. picture row col) (read_pixel raster row col w w h)
    read_pixel-Builds row col s t e room = record {
      value = picture row col;
      store = s;
      ran = read_pixel-picture row col s;
      holds = leaf-IsBuilt (picture row col) s t (picture-lt row col);
    }

    abbrev split_row : ℕ → ℕ → ℕ → ℕ → ℕ → M ℕ
    split_row l row col width height =
        helper_recursive_function_split_row l raster row col width height l w w h

    abbrev split_col : ℕ → ℕ → ℕ → ℕ → ℕ → M ℕ
    split_col l row col width height =
        helper_recursive_function_split_col l raster row col width height l w w h

    split_col_step :
        (l m row col height : ℕ)
        → split_col (suc l) row col (2 ^ suc m) height
          ≡ construct_node
              (suc l)
              (split_row l row col (2 ^ m) height)
              (split_row l row (col + 2 ^ m) (2 ^ m) height)
    unfolding helper_recursive_function_split_row
    split_col_step l m row col height =
        fun_ext
          λ s. rw (helper_recursive_function_split_col, pow_ne_one m, pow-half m, suc-sub l) refl

    split_row_step :
        (l m row col : ℕ)
        → split_row (suc l) row col (2 ^ suc m) (2 ^ suc m)
          ≡ construct_node
              (suc l)
              (split_col l row col (2 ^ suc m) (2 ^ m))
              (split_col l (row + 2 ^ m) col (2 ^ suc m) (2 ^ m))
    unfolding helper_recursive_function_split_row
    split_row_step l m row col =
        fun_ext
          λ s. rw (helper_recursive_function_split_row, pow_ne_one m, pow-half m, suc-sub l) refl

    abbrev Rows : ℕ → Type 0
    Rows m =
        (row col : ℕ)
        → Builds base (twice m) (twice m) (λ r c. picture (row + low m r) (col + low m c))
            (split_row (twice m) row col (2 ^ m) (2 ^ m))

    split_col-Builds :
        (m row col : ℕ)
        → suc (twice m) < 128
        → Rows m
        → Builds base
            (suc (twice m))
            (suc (twice m))
            (λ r c. picture (row + low m r) (col + low (suc m) c))
            (split_col (suc (twice m)) row col (2 ^ suc m) (2 ^ m))
    split_col-Builds m row col small rows = rw (split_col_step (twice m) m row col (2 ^ m)) (
        Builds-congr _ _ (halves_cols picture m row col)
          (Builds-halves (twice m) (twice m) _ _ _ _ small (rows row col) (rows row (col + 2 ^ m))))

    one_pixel : (row col : ℕ) → split_row 0 row col 1 1 ≡ read_pixel raster row col w w h
    unfolding helper_recursive_function_split_row
    one_pixel row col = refl

    -- A square of side 2 ^ m is drawn from its corner.
    pub split_row-Builds : (m : ℕ) → twice m < 128 → Rows m
    split_row-Builds zero small row col = rw (one_pixel row col) (
        Builds-congr _ _ (λ r c. ap₂ picture (omega arith) (omega arith))
          (read_pixel-Builds row col))
    split_row-Builds (suc m) small row col =
        let rows : Rows m = split_row-Builds m (omega arith) in
        rw (split_row_step (suc (twice m)) m row col) (
          Builds-congr _ _ (halves_rows picture m row col) (
            Builds-halves (suc (twice m)) (suc (twice m)) _ _ _ _ small
              (split_col-Builds m row col (omega arith) rows)
              (split_col-Builds m (row + 2 ^ m) col (omega arith) rows)))

    pub square-Builds :
        (m : ℕ)
        → twice m < 128
        → Builds base
            (twice m)
            (twice m)
            (λ r c. picture (low m r) (low m c))
            (split_row (twice m) 0 0 (2 ^ m) (2 ^ m))
    square-Builds m small =
        Builds-congr _ _ (λ r c. ap₂ picture (omega arith) (omega arith))
          (split_row-Builds m small 0 0)
