-- ===== src/Bdd/Transform/Visit.antt =====
-- The recursion of `bdd_map` and `bdd_zoom` in hw1/src/bdd.c over the nodes of a diagram.
use cse_320_repository.Base.{
  ℕ, suc, ◌+◌, ◌≤◌, ◌<◌, ◌^◌, ◌≡◌, refl, sym, ap, ◌∙◌, inl, inr, arith, Bool-cases, ltb, ◌==◌,
  if◌then◌else◌,
}
use cse_320_repository.Bdd.Store.{
  Node, node, Store, M, ◌>>=◌, Returns, Returns-bind, Returns-mono, bdd_num_leaves, bdd_nodes_max,
}
use cse_320_repository.Bdd.Lookup.Invariant.{
  level_of, IsShaped, IsTable, Extends, Extends-refl, Extends-trans,
}
use cse_320_repository.Bdd.Image.{digit, child, pixel, pixel_skip}
use cse_320_repository.Bdd.Build.{Picture, Builds, Builds-at, halves}
use cse_320_repository.Bdd.Raster.{root_of}
use cse_320_repository.Bdd.Root.{IsRoot, root_of-IsRooted}
use cse_320_repository.Bdd.Transform.{visit}

-- The node that a call on the index `k` is made on.
abbrev pub seen : Store → ℕ → Node
seen s k = if ltb k bdd_num_leaves then node 0 k k else s.nodes k

visit-seen :
    (rec : Node → M ℕ) (base s : Store) (k : ℕ)
    → k < base.free_node_counter
    → Extends base s
    → visit rec k s ≡ rec (seen base k) s
unfolding visit
visit-seen rec base s k u e = rw (e.kept k u) refl

module _ (base : Store) (v : IsTable base) where
  -- The picture of the index `k` in the base store, at its own level.
  abbrev pub drawing : ℕ → Picture
  drawing k r c = pixel base.nodes (level_of base.nodes k) k r c

  pub Builds-visit :
      {b l : ℕ} {p : Picture} (rec : Node → M ℕ) (k : ℕ)
      → k < base.free_node_counter
      → Builds base b l p (rec (seen base k))
      → Builds base b l p (visit rec k)
  Builds-visit rec k u =
      Builds-at (visit rec k) (rec (seen base k)) (λ s e. visit-seen rec base s k u e)

  -- A node of level `suc l` draws its children's pictures in halves.
  pub drawing-halves :
      (l k r c : ℕ)
      → bdd_num_leaves ≤ k
      → k < base.free_node_counter
      → (base.nodes k).level ≡ suc l
      → halves l (drawing (base.nodes k).left) (drawing (base.nodes k).right) r c ≡ drawing k r c
  unfolding pixel
  drawing-halves l k r c low u e =
      let top : level_of base.nodes k ≡ suc l = ground arith in
      let shaped : IsShaped base.nodes (base.nodes k) k = v.shaped k low u in
      let below : child base.nodes l k r c ≡ lower = ground arith in
      half shaped
      ∙ ap (λ j. pixel base.nodes l j r c) (sym below)
      ∙ ap (λ m. pixel base.nodes m k r c) (sym top)
    where
      lower : ℕ
      lower = if digit l r c == 0 then (base.nodes k).left else (base.nodes k).right

      half :
          IsShaped base.nodes (base.nodes k) k
          → halves l (drawing (base.nodes k).left) (drawing (base.nodes k).right) r c
            ≡ pixel base.nodes l lower r c
      half shaped = elim (Bool-cases (digit l r c == 0)) [
        | inl first ↦
            rw first (sym (pixel_skip l _ r c base.nodes (omega (arith, shaped.left_level))))
        | inr second ↦
            rw second (sym (pixel_skip l _ r c base.nodes (omega (arith, shaped.right_level))))
      ]

-- A pointer to the picture of `l` levels, in a table that keeps the nodes of `s`.
pub record IsRedrawn (l : ℕ) (picture : Picture) (s : Store) (p : ℕ) (t : Store) : Type 0 where
  pub table : IsTable t
  pub extends : Extends s t
  pub root : IsRoot l picture t p

pub redrawn :
    (s : Store) (b l : ℕ) (picture : Picture) (m : M ℕ)
    → IsTable s
    → s.free_node_counter + 2 ^ b ≤ bdd_nodes_max
    → Builds s b l picture m
    → Returns (IsRedrawn l picture s) ((m >>= root_of) s)
redrawn s b l picture m v room built =
    Returns-bind _ m root_of s (built s v (Extends-refl s) (omega arith)) λ k t w.
      Returns-mono _ (root_of-IsRooted l k picture t w.table w.drawn (omega (arith, w.growth)))
        λ p u x. record {
          table = x.table;
          extends = Extends-trans w.extends x.extends;
          root = x.root;
        }
