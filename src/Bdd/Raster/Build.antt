-- ===== src/Bdd/Raster/Build.antt =====
-- `bdd_from_raster` of hw1/src/bdd.c as a whole.
use cse_320_repository.Base.{
  ℕ, pos, ◌+◌, ◌/◌, ◌^◌, ◌≤◌, ◌<◌, ◌≡◌, refl, sym, ◌∙◌, inl, inr, Option, some, arith, List,
  Bool-cases, ltb,
}
use native.Mathlib.Nat.{pow-le-pow_right}
use cse_320_repository.Base.Bits.{low}
use cse_320_repository.Bdd.Store.{Store, Returns, Returns-bind, bdd_nodes_max}
use cse_320_repository.Bdd.Lookup.Invariant.{IsTable, Extends, Extends-refl, Extends-trans}
use cse_320_repository.Bdd.Square.{twice, twice-mul}
use cse_320_repository.Bdd.Root.{IsRoot, root_of-IsRooted}
use cse_320_repository.Bdd.Raster.{
  bdd_min_level, root_of, bdd_from_raster, helper_recursive_function_split_row,
}
use cse_320_repository.Bdd.Raster.Level.{bdd_min_level_lem, pow2-pow}
use cse_320_repository.Bdd.Raster.Split.{raster_picture, IsRaster, square-Builds}

-- The image of the raster in a square of side 2 ^ exponent that covers it.
pub record IsLoaded (raster : List ℕ) (w h : ℕ) (s : Store) (result : Option ℕ) (t : Store)
    : Type 0 where
  pub pointer : ℕ
  pub returned : result ≡ some pointer
  pub exponent : ℕ
  pub level : bdd_min_level w h ≡ twice exponent
  pub wide : w ≤ 2 ^ exponent
  pub high : h ≤ 2 ^ exponent
  pub table : IsTable t
  pub extends : Extends s t
  pub root :
      IsRoot
        (twice exponent)
        (λ r c. raster_picture raster w h (low exponent r) (low exponent c))
        t
        pointer

small_level : (l : ℕ) → 2 ^ l ≤ bdd_nodes_max → l < 128
small_level l h = elim (Bool-cases (ltb l 128)) [
  | inl lt ↦ ground arith
  | inr ge ↦
      let le : 128 ≤ l = ground arith in
      absurd (omega (arith, pow-le-pow_right {n = 2} (omega arith) le))
]

-- On a raster of w * h bytes and a well-formed table with room for the covering square, the call ends
-- in a well-formed table that keeps all nodes. Its pointer is the image of the raster, 0 outside it, in
-- a square of side 2 ^ exponent that covers it, where bdd_min_level is twice the exponent.
pub bdd_from_raster-IsLoaded :
    (raster : List ℕ) (w h : ℕ) (s : Store)
    → IsRaster raster w h
    → IsTable s
    → s.free_node_counter + 2 ^ bdd_min_level w h ≤ bdd_nodes_max
    → Returns (IsLoaded raster w h s) (bdd_from_raster (pos w) (pos h) raster s)
unfolding bdd_from_raster
bdd_from_raster-IsLoaded raster w h s v t room =
    let (n, level, wide, high, least) = bdd_min_level_lem w h in
    let e : bdd_min_level w h ≡ twice n = level ∙ sym (twice-mul n) in
    let half : twice n / 2 ≡ n = omega (arith, twice-mul n) in
    let room' : s.free_node_counter + 2 ^ twice n ≤ bdd_nodes_max = rw e at room in
    let small : twice n < 128 = small_level (twice n) (omega arith) in
    rw (e, half, pow2-pow n)
      (Returns-bind _
        (helper_recursive_function_split_row (twice n) raster 0 0 (2 ^ n) (2 ^ n) (twice n) w w h) _
        s (square-Builds raster w h v s n small s t (Extends-refl s) (omega arith))
        λ k u x.
          Returns-bind _ (root_of k) _ u
            (root_of-IsRooted (twice n) k _ u x.table x.drawn (omega arith))
            λ p z y. record {
              value = some p;
              store = z;
              ran = refl;
              holds = record {
                pointer = p;
                returned = refl;
                exponent = n;
                level = e;
                wide = wide;
                high = high;
                table = y.table;
                extends = Extends-trans x.extends y.extends;
                root = y.root;
              };
            })
