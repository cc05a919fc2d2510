-- ===== src/Bdd/Transform/Rotate.antt =====
-- `bdd_rotate` of hw1/src/bdd.c turns the image to the left.
use cse_320_repository.Base.{
  ℕ, zero, suc, ◌+◌, ◌-◌, ◌*◌, ◌/◌, ◌^◌, ◌≤◌, ◌<◌, ◌≡◌, refl, ap, ◌∙◌, inl, inr, arith, Bool-cases,
  ◌==◌, if◌then◌else◌, some,
}
use native.Mathlib.Nat.{pow-suc}
use cse_320_repository.Base.Bits.{bit, low, low-lt, bit-le-one}
use mathlib.Core.Path.{ap₂}
use cse_320_repository.Bdd.Store.{Node, Store, M, ◌>>=◌, Returns, bdd_num_leaves, bdd_nodes_max}
use cse_320_repository.Bdd.Lookup.{bdd_lookup}
use cse_320_repository.Bdd.Lookup.Invariant.{IsTable, Extends, Extends-refl}
use cse_320_repository.Bdd.Image.{pixel, pixel-lt, pixel-Extends}
use cse_320_repository.Bdd.Build.{
  Picture, IsBuilt, Builds, Builds-congr, Builds-at, leaf-IsBuilt, halves,
}
use cse_320_repository.Bdd.Square.{
  twice, twice-mul, digit-even, digit-odd, pow_ne_one, pow-half, split_low,
}
use cse_320_repository.Bdd.Raster.Level.{pow2-pow}
use cse_320_repository.Bdd.Apply.{bdd_apply}
use cse_320_repository.Bdd.Apply.Correct.{bdd_apply-pixel}
use cse_320_repository.Bdd.Transform.{read_apply, helper_recursion_bdd_rotate, bdd_rotate}
use cse_320_repository.Bdd.Transform.Quarters.{Builds-quarters}

module _ (base : Store) (v : IsTable base) (root : ℕ) (inner : bdd_num_leaves ≤ root)
    (used : root < base.free_node_counter) (small : (base.nodes root).level ≤ 62) where
  abbrev image : Picture
  image r c = pixel base.nodes (base.nodes root).level root r c

  -- The square of side 2 ^ m from row `r` and column `c`, turned to the left.
  abbrev turned : ℕ → ℕ → ℕ → Picture
  turned m r c i j = image (r + low m j) (c + (2 ^ m - 1 - low m i))

  applied :
      (r c : ℕ) (s : Store) → IsTable s → Extends base s → bdd_apply root r c s ≡ some (image r c)
  applied r c s t e =
      let same : s.nodes root ≡ base.nodes root = e.kept root used in
      bdd_apply-pixel s t r c root inner (omega (arith, e.grows)) (rw same small)
      ∙ ap (λ (n : Node). some (pixel s.nodes n.level root r c)) same
      ∙ ap some (pixel-Extends (base.nodes root).level root r c v e used)

  read-Builds : (r c : ℕ) → Builds base 0 0 (λ i j. image r c) (read_apply root r c)
  unfolding read_apply
  read-Builds r c s t e room = record {
    value = image r c;
    store = s;
    ran = rw (read_apply, applied r c s t e) refl;
    holds =
        leaf-IsBuilt (image r c) s t
          (pixel-lt (base.nodes root).level root r c v used (ground arith));
  }

  abbrev run : ℕ → ℕ → ℕ → ℕ → M ℕ
  run fuel m r c = helper_recursion_bdd_rotate fuel root r c (2 ^ m) (twice m)

  -- The body of the recursion, on squares of half the width and two levels down.
  parts : (fuel level r c half down up : ℕ) → M ℕ
  parts fuel level r c half down up = helper_recursion_bdd_rotate fuel root r c half down >>= λ i.
      helper_recursion_bdd_rotate fuel root r (c + half) half down >>= λ j.
      helper_recursion_bdd_rotate fuel root (r + half) c half down >>= λ k.
      helper_recursion_bdd_rotate fuel root (r + half) (c + half) half down >>= λ n.
      bdd_lookup up j n >>= λ top. bdd_lookup up i k >>= λ bottom. bdd_lookup level top bottom

  run_step :
      (fuel m r c : ℕ) (s : Store)
      → run (suc fuel) (suc m) r c s
        ≡ parts fuel (suc (suc (twice m))) r c (2 ^ m) (twice m) (suc (twice m)) s
  unfolding helper_recursion_bdd_rotate parts
  run_step fuel m r c s =
      let back : suc (suc (twice m)) - 2 ≡ twice m = omega arith in
      let one : suc (suc (twice m)) - 2 + 1 ≡ suc (twice m) = omega arith in
      body
      ∙ ap
          (λ h.
            parts fuel (suc (suc (twice m))) r c h (suc (suc (twice m)) - 2)
              (suc (suc (twice m)) - 2 + 1) s)
          (pow-half m)
      ∙ ap₂ (λ d u. parts fuel (suc (suc (twice m))) r c (2 ^ m) d u s) back one
    where
      body :
          run (suc fuel) (suc m) r c s
          ≡ parts fuel
              (suc (suc (twice m)))
              r
              c
              (2 ^ suc m / 2)
              (suc (suc (twice m)) - 2)
              (suc (suc (twice m)) - 2 + 1)
              s
      body = rw (helper_recursion_bdd_rotate, pow_ne_one m) refl

  -- The upper half comes from the right.
  split_cols :
      (row m c i : ℕ)
      → (if bit m i == 0
          then image row (c + 2 ^ m + (2 ^ m - 1 - low m i))
          else image row (c + (2 ^ m - 1 - low m i)))
        ≡ image row (c + (2 ^ suc m - 1 - low (suc m) i))
  split_cols row m c i = elim (Bool-cases (bit m i == 0)) [
    | inl z ↦
        let e : bit m i ≡ 0 = ground arith in
        rw z (ap (image row) (omega (arith, low-lt m i, pow-suc 2 m, ap (λ (t : ℕ). t * 2 ^ m) e)))
    | inr o ↦
        let e : bit m i ≡ 1 = ground (arith, bit-le-one m i) in
        rw o (ap (image row) (omega (arith, low-lt m i, pow-suc 2 m, ap (λ (t : ℕ). t * 2 ^ m) e)))
  ]

  turned-quarters :
      (m r c i j : ℕ)
      → halves
          (suc (twice m))
          (halves (twice m) (turned m r (c + 2 ^ m)) (turned m (r + 2 ^ m) (c + 2 ^ m)))
          (halves (twice m) (turned m r c) (turned m (r + 2 ^ m) c))
          i
          j
        ≡ turned (suc m) r c i j
  turned-quarters m r c i j =
      rw (digit-odd m i j, digit-even m i j)
        (ap₂ (λ x y. if bit m i == 0 then x else y)
            (split_low (λ a. image a (c + 2 ^ m + (2 ^ m - 1 - low m i))) m r j)
            (split_low (λ a. image a (c + (2 ^ m - 1 - low m i))) m r j)
          ∙ split_cols (r + low (suc m) j) m c i)

  run-Builds :
      (fuel m r c : ℕ)
      → m < fuel
      → twice m < 128
      → Builds base (twice m) (twice m) (turned m r c) (run fuel m r c)
  unfolding helper_recursion_bdd_rotate parts
  run-Builds zero m r c h small = absurd (omega arith)
  run-Builds (suc fuel) zero r c h small =
      Builds-congr (λ i j. image r c) (turned 0 r c) (λ i j. ap₂ image (omega arith) (omega arith))
        (read-Builds r c)
  run-Builds (suc fuel) (suc m) r c h small =
      let rest : (r c : ℕ) → Builds base (twice m) (twice m) (turned m r c) (run fuel m r c) =
        λ r c. run-Builds fuel m r c (omega arith) (omega arith) in
      Builds-at _ _ (λ s e. run_step fuel m r c s)
        (Builds-congr _ (turned (suc m) r c) (turned-quarters m r c) (
          Builds-quarters (twice m) (twice m) _ _ _ _ _ _ _ _ small (rest r c) (rest r (c + 2 ^ m))
            (rest (r + 2 ^ m) c) (rest (r + 2 ^ m) (c + 2 ^ m))))

-- On a node in use of level at most 62 in a well-formed table, where 2 * n is below 128 and the square
-- of side 2 ^ n has room, `bdd_rotate` at level 2 * n ends in a well-formed table, keeps all nodes, and its index draws at row i and column j the old pixel at row j
-- and column 2 ^ n - 1 - i, of the digits below n.
pub bdd_rotate-IsBuilt :
    (n root : ℕ) (s : Store)
    → IsTable s
    → bdd_num_leaves ≤ root
    → root < s.free_node_counter
    → (s.nodes root).level ≤ 62
    → twice n < 128
    → s.free_node_counter + 2 ^ twice n ≤ bdd_nodes_max + 1
    → Returns
        (IsBuilt
          (twice n)
          (twice n)
          (λ i j. pixel s.nodes (s.nodes root).level root (low n j) (2 ^ n - 1 - low n i))
          s)
        (bdd_rotate root (twice n) s)
unfolding bdd_rotate
bdd_rotate-IsBuilt n root s v inner used small square room =
    let half : twice n / 2 ≡ n = omega (arith, twice-mul n) in
    rw (half, pow2-pow n)
      (Builds-congr _ _
        (λ i j. ap₂ (pixel s.nodes (s.nodes root).level root) (omega arith) (omega arith))
        (run-Builds s v root inner used small (suc (twice n)) n 0 0 (omega (arith, twice-mul n))
          square)
        s v (Extends-refl s) room)
