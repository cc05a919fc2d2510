-- ===== src/Bdd/Apply/Raster.antt =====
-- `bdd_to_raster` of hw1/src/bdd.c, and the way from a raster to a diagram and back.
use cse_320_repository.Base.{
  ℕ, zero, suc, pos, ◌+◌, ◌*◌, ◌^◌, ◌≤◌, ◌<◌, ◌≡◌, refl, sym, ap, ◌∙◌, inl, inr, false, Option,
  some, arith, List, [], ◌∷◌, ◌++◌, length, get_or, ltb, lt→ltb, ltb→lt, ◌==◌, Bool-cases,
}
use native.Mathlib.Nat.{pow-le-pow_right, zero-add, add-zero, mul-zero}
use cse_320_repository.Base.Bits.{low, low_of_lt}
use cse_320_repository.Bdd.Store.{Store, Returns, Returns-mono, bdd_nodes_max}
use cse_320_repository.Bdd.Lookup.Invariant.{level_of, IsTable}
use cse_320_repository.Bdd.Image.{pixel, pixel_skip}
use cse_320_repository.Bdd.Build.{Picture}
use cse_320_repository.Bdd.Square.{twice}
use cse_320_repository.Bdd.Root.{IsRoot, whole, inner}
use cse_320_repository.Bdd.Raster.{special_level, bdd_min_level, bdd_from_raster}
use cse_320_repository.Bdd.Raster.Split.{raster_picture, IsRaster}
use cse_320_repository.Bdd.Raster.Build.{bdd_from_raster-IsLoaded}
use cse_320_repository.Bdd.Apply.{bdd_to_raster, cols_loop, rows_loop, to_uchar}
use cse_320_repository.Bdd.Apply.Correct.{bdd_apply-pixel, to_uchar_lem}

-- `n` elements of the array from index `from` on.
abbrev values : ℕ → ℕ → List ℕ → List ℕ
values from zero xs = []
values from (suc n) xs = get_or xs from 0 ∷ values (suc from) n xs

values-suc : (from n x : ℕ) (xs : List ℕ) → values (suc from) n (x ∷ xs) ≡ values from n xs
values-suc from zero x xs = refl
values-suc from (suc n) x xs = ap (λ t. get_or xs from 0 ∷ t) (values-suc (suc from) n x xs)

values_all : (xs : List ℕ) → values 0 (length xs) xs ≡ xs
values_all [] = refl
values_all (x ∷ xs) = ap (λ t. x ∷ t) (values-suc 0 (length xs) x xs ∙ values_all xs)

suc_add : (m n : ℕ) → suc m + n ≡ suc (m + n)
suc_add m n = omega arith

add_suc : (from m : ℕ) → from + suc m ≡ suc from + m
add_suc from m = omega arith

values-append :
    (from m n : ℕ) (xs : List ℕ)
    → values from m xs ++ values (from + m) n xs ≡ values from (m + n) xs
values-append from zero n xs = rw (add-zero from, zero-add n) refl
values-append from (suc m) n xs =
    rw (suc_add m n, add_suc from m)
      (ap (λ t. get_or xs from 0 ∷ t) (values-append (suc from) m n xs))

next_col : (w r c : ℕ) → w * r + (c + 1) ≡ suc (w * r + c)
next_col w r c = omega arith

next_row : (w r : ℕ) → w * (r + 1) ≡ w * r + w
next_row w r = omega arith

row_start : (w r : ℕ) → w * r + 0 ≡ w * r
row_start w r = omega arith

row_count : (w rounds : ℕ) → w * suc rounds ≡ w + w * rounds
row_count w rounds = omega arith

get_or_outside : (xs : List ℕ) (i d : ℕ) → length xs ≤ i → get_or xs i d ≡ d
get_or_outside [] i d h = refl
get_or_outside (x ∷ xs) zero d h = elim h [ ]
get_or_outside (x ∷ xs) (suc i) d h = get_or_outside xs i d (omega arith)

module _ (raster : List ℕ) (w h : ℕ) (cell : ℕ → ℕ → Option ℕ)
    (bytes : (i : ℕ) → to_uchar (get_or raster i 0) ≡ get_or raster i 0)
    (cells : (r c : ℕ) → r < h → c < w → cell r c ≡ some (get_or raster (w * r + c) 0)) where
  cols_loop-values :
      (rounds r c : ℕ)
      → r < h
      → c + rounds ≤ w
      → cols_loop rounds r c cell ≡ some (values (w * r + c) rounds raster)
  unfolding cols_loop
  cols_loop-values zero r c p q = refl
  cols_loop-values (suc rounds) r c p q =
      rw
        (
          cols_loop,
          cells r c p (omega arith),
          cols_loop-values rounds r (c + 1) p (omega arith),
          bytes (w * r + c),
          next_col w r c,
        )
        refl

  rows_loop-values :
      (rounds r : ℕ)
      → r + rounds ≤ h
      → rows_loop rounds r w cell ≡ some (values (w * r) (w * rounds) raster)
  unfolding rows_loop
  rows_loop-values zero r q = rw (mul-zero w) refl
  rows_loop-values (suc rounds) r q =
      rw
        (
          rows_loop,
          cols_loop-values w r 0 (omega arith) (omega arith),
          rows_loop-values rounds (r + 1) (omega arith),
          next_row w r,
          row_start w r,
          row_count w rounds,
        )
        (ap some (values-append (w * r) w (w * rounds) raster))

raster-picture :
    (raster : List ℕ) (w h r c : ℕ)
    → r < h
    → c < w
    → raster_picture raster w h r c ≡ get_or raster (w * r + c) 0
raster-picture raster w h r c p q = rw (lt→ltb r h p, lt→ltb c w q) refl

byte_at :
    (raster : List ℕ) (w h : ℕ)
    → IsRaster raster w h
    → (i : ℕ) → to_uchar (get_or raster i 0) ≡ get_or raster i 0
byte_at raster w h v i = elim (Bool-cases (ltb i (length raster))) [
  | inl inside ↦ to_uchar_lem _ (v.bytes i (ltb→lt i (length raster) inside))
  | inr outside ↦ rw (get_or_outside raster i 0 (ground arith)) (omega arith)
]

module _ (raster : List ℕ) (w h n : ℕ) (s : Store) (v : IsRaster raster w h) (wide : w ≤ 2 ^ n)
    (high : h ≤ 2 ^ n) where
  abbrev padded : Picture
  padded r c = raster_picture raster w h (low n r) (low n c)

  padded-raster : (r c : ℕ) → r < h → c < w → padded r c ≡ get_or raster (w * r + c) 0
  padded-raster r c p q =
      rw (low_of_lt n r (omega arith), low_of_lt n c (omega arith))
        (raster-picture raster w h r c p q)

  rows_loop-raster :
      (cell : ℕ → ℕ → Option ℕ)
      → ((r c : ℕ) → r < h → c < w → cell r c ≡ some (padded r c))
      → rows_loop h 0 w cell ≡ some raster
  rows_loop-raster cell cells =
      rows_loop-values raster w h cell (byte_at raster w h v)
        (λ r c p q. cells r c p q ∙ ap some (padded-raster r c p q)) h 0 (omega arith)
      ∙ rw (mul-zero w, ← v.size, values_all raster) refl

  -- A pointer to the image of the raster: what `bdd_to_raster` stores is the raster.
  pub root-raster :
      (p : ℕ)
      → IsTable s
      → twice n ≤ 62
      → IsRoot (twice n) padded s p
      → bdd_to_raster p w h s ≡ some raster
  unfolding bdd_to_raster
  root-raster p t small (whole value lt is constant) = rw is (
      rows_loop-raster _
        λ r c below left. rw (lt→ltb r h below, lt→ltb c w left, constant r c) refl)
  root-raster p t small (inner node d) =
      let level : level_of s.nodes p ≡ (s.nodes p).level = ground arith in
      let below : (s.nodes p).level ≤ twice n = omega (arith, d.levelled, level) in
      let ordinary : ((s.nodes p).level == special_level) ≡ false = ground arith in
      rw ordinary (
        rows_loop-raster _ λ r c _ _.
          bdd_apply-pixel s t r c p node d.used (omega arith)
          ∙ ap some (
              ap (λ m. pixel s.nodes m p r c) (sym level)
              ∙ sym (pixel_skip (twice n) p r c s.nodes d.levelled)
              ∙ d.draws r c))

small_exponent : (n : ℕ) → 2 ^ n ≤ bdd_nodes_max → n ≤ 62
small_exponent n h = elim (Bool-cases (ltb 62 n)) [
  | inl big ↦
      let le : 63 ≤ n = ltb→lt 62 n big in
      absurd (omega (arith, pow-le-pow_right {n = 2} (omega arith) le))
  | inr small ↦ ground arith
]

-- From a well-formed table with room for as many nodes as the covering square has pixels,
-- `bdd_from_raster` on an array of w * h bytes ends without a fault, in a pointer from which
-- `bdd_to_raster` stores the same array.
pub from_to_raster :
    (raster : List ℕ) (w h : ℕ) (s : Store)
    → IsRaster raster w h
    → IsTable s
    → s.free_node_counter + 2 ^ bdd_min_level w h ≤ bdd_nodes_max
    → Returns
        (λ result t. (p : ℕ) × (result ≡ some p) × (bdd_to_raster p w h t ≡ some raster))
        (bdd_from_raster (pos w) (pos h) raster s)
from_to_raster raster w h s v t room =
    Returns-mono _ (bdd_from_raster-IsLoaded raster w h s v t room) λ result u x.
      let small : 2 ^ twice x.exponent ≤ bdd_nodes_max = rw x.level at (within room) in
      (
        x.pointer,
        x.returned,
        root-raster raster w h x.exponent u v x.wide x.high x.pointer x.table
            (small_exponent _ small) x.root,
      )
  where
    within :
        s.free_node_counter + 2 ^ bdd_min_level w h ≤ bdd_nodes_max
        → 2 ^ bdd_min_level w h ≤ bdd_nodes_max
    within h = omega arith
