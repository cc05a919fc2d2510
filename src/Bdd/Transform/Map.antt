-- ===== src/Bdd/Transform/Map.antt =====
-- `bdd_map` of hw1/src/bdd.c draws the image with every pixel mapped.
use cse_320_repository.Base.{
  ℕ, zero, suc, ◌+◌, ◌-◌, ◌≤◌, ◌<◌, ◌≡◌, refl, true, sym, ap, subst, inl, inr, false, arith,
  Bool-cases, ltb, ◌==◌, ◌^◌, if◌then◌else◌,
}
use cse_320_repository.Bdd.Store.{Node, node, Store, M, Returns, bdd_num_leaves, bdd_nodes_max}
use cse_320_repository.Bdd.Lookup.{construct_node}
use cse_320_repository.Bdd.Lookup.Invariant.{level_of, IsShaped, IsTable}
use cse_320_repository.Bdd.Image.{digit, pixel, pixel-lt}
use cse_320_repository.Bdd.Build.{
  Picture, Builds, Builds-at, Builds-congr, Builds-halves, Builds-lift, leaf-IsBuilt, halves,
}
use cse_320_repository.Bdd.Apply.{to_uchar}
use cse_320_repository.Bdd.Apply.Correct.{to_uchar_lem}
use cse_320_repository.Bdd.Transform.{mapped, visit, helper_recursion_bdd_map, bdd_map}
use cse_320_repository.Bdd.Transform.Visit.{
  seen, drawing, drawing-halves, Builds-visit, IsRedrawn, redrawn,
}

module _ (func : ℕ → ℕ) (base : Store) (v : IsTable base) where
  abbrev mapped_drawing : ℕ → Picture
  mapped_drawing k r c = mapped func (drawing base v k r c)

  -- What the induction below shows of the index `k`.
  abbrev IsMapped : ℕ → ℕ → Type 0
  IsMapped fuel k =
      Builds base (level_of base.nodes k) (level_of base.nodes k) (mapped_drawing k)
        (helper_recursion_bdd_map fuel func (seen base k))

  leaf-IsMapped : (fuel k : ℕ) → k < bdd_num_leaves → IsMapped (suc fuel) k
  unfolding helper_recursion_bdd_map pixel
  leaf-IsMapped fuel k h =
      let leaf : ltb k bdd_num_leaves ≡ true = ground arith in
      let bottom : level_of base.nodes k ≡ 0 = ground arith in
      Builds-lift 0 (level_of base.nodes k) 0 (level_of base.nodes k) (mapped_drawing k)
        (omega arith) (omega arith)
        (Builds-congr (λ r c. mapped func k) (mapped_drawing k) (λ r c. rw bottom refl)
          (λ s t x room. record {
            value = mapped func k;
            store = s;
            ran = rw leaf refl;
            holds = leaf-IsBuilt (mapped func k) s t (omega arith);
          }))

  run_node :
      (fuel l : ℕ) (n : Node) (s : Store)
      → n.level ≡ suc l
      → helper_recursion_bdd_map (suc fuel) func n s
        ≡ construct_node
            (suc l)
            (visit (helper_recursion_bdd_map fuel func) n.left)
            (visit (helper_recursion_bdd_map fuel func) n.right)
            s
  unfolding helper_recursion_bdd_map
  run_node fuel l n s e =
      let above : (n.level == 0) ≡ false = ground arith in
      rw (helper_recursion_bdd_map, above)
        (ap
          (λ m.
            construct_node m (visit (helper_recursion_bdd_map fuel func) n.left)
              (visit (helper_recursion_bdd_map fuel func) n.right) s)
          e)

  node-IsMapped :
      (fuel l k : ℕ)
      → bdd_num_leaves ≤ k
      → k < base.free_node_counter
      → (base.nodes k).level ≡ suc l
      → IsMapped fuel (base.nodes k).left
      → IsMapped fuel (base.nodes k).right
      → IsMapped (suc fuel) k
  node-IsMapped fuel l k low u e left right =
      subst
        (λ m.
          Builds base m m (mapped_drawing k)
            (helper_recursion_bdd_map (suc fuel) func (seen base k)))
        (sym top)
        (Builds-at _
          (construct_node (suc l) (child_call (base.nodes k).left)
            (child_call (base.nodes k).right))
          (λ s x. rw inner (run_node fuel l (base.nodes k) s e))
          (Builds-congr
            (halves l (mapped_drawing (base.nodes k).left) (mapped_drawing (base.nodes k).right))
            (mapped_drawing k) half
            (Builds-halves l l _ _ _ _ (omega (arith, shaped.char_level))
              (Builds-visit base v _ _ (omega (arith, shaped.left_below)) (
                Builds-lift _ l _ l _ (omega (arith, shaped.left_level))
                  (omega (arith, shaped.left_level)) left))
              (Builds-visit base v _ _ (omega (arith, shaped.right_below)) (
                Builds-lift _ l _ l _ (omega (arith, shaped.right_level))
                  (omega (arith, shaped.right_level)) right)))))
    where
      inner : ltb k bdd_num_leaves ≡ false
      inner = ground arith

      top : level_of base.nodes k ≡ suc l
      top = ground arith

      shaped : IsShaped base.nodes (base.nodes k) k
      shaped = v.shaped k low u

      child_call : ℕ → M ℕ
      child_call = visit (helper_recursion_bdd_map fuel func)

      half :
          (r c : ℕ)
          → halves l (mapped_drawing (base.nodes k).left) (mapped_drawing (base.nodes k).right) r c
            ≡ mapped_drawing k r c
      half r c = elim (Bool-cases (digit l r c == 0)) [
        | inl first ↦
            rw first (ap (mapped func) (rw first at (drawing-halves base v l k r c low u e)))
        | inr second ↦
            rw second (ap (mapped func) (rw second at (drawing-halves base v l k r c low u e)))
      ]

  pub map-Builds :
      (fuel k : ℕ) → k < base.free_node_counter → level_of base.nodes k < fuel → IsMapped fuel k
  map-Builds zero k u h = absurd (omega arith)
  map-Builds (suc fuel) k u h = elim (Bool-cases (ltb k bdd_num_leaves)) [
    | inl leaf ↦ leaf-IsMapped fuel k (ground arith)
    | inr inner ↦
        let low : bdd_num_leaves ≤ k = ground arith in
        let shaped : IsShaped base.nodes (base.nodes k) k = v.shaped k low u in
        let top : level_of base.nodes k ≡ (base.nodes k).level = ground arith in
        node-IsMapped fuel ((base.nodes k).level - 1) k low u (omega (arith, shaped.left_level))
          (map-Builds fuel (base.nodes k).left (omega (arith, shaped.left_below))
            (omega (arith, shaped.left_level, top)))
          (map-Builds fuel (base.nodes k).right (omega (arith, shaped.right_below))
            (omega (arith, shaped.right_level, top)))
  ]

-- Maps every pixel of the image below the node `k` in use of a well-formed table, if 2 ^ level free
-- indices are left: the call
-- returns a pointer to the mapped image in a table that keeps the old nodes.
pub bdd_map-IsRedrawn :
    (func : ℕ → ℕ) (k : ℕ) (s : Store)
    → IsTable s
    → bdd_num_leaves ≤ k
    → k < s.free_node_counter
    → s.free_node_counter + 2 ^ (s.nodes k).level ≤ bdd_nodes_max
    → Returns
        (IsRedrawn
          (s.nodes k).level
          (λ r c. to_uchar (func (pixel s.nodes (s.nodes k).level k r c)))
          s)
        (bdd_map k func s)
unfolding bdd_map
bdd_map-IsRedrawn func k s v low u room = redrawn s _ _ _ _ v room (Builds-congr _ _ colour built)
  where
    inner : ltb k bdd_num_leaves ≡ false
    inner = ground arith

    top : level_of s.nodes k ≡ (s.nodes k).level
    top = ground arith

    colour :
        (r c : ℕ)
        → mapped func (pixel s.nodes (s.nodes k).level k r c)
          ≡ to_uchar (func (pixel s.nodes (s.nodes k).level k r c))
    colour r c =
        ap (λ x. to_uchar (func x))
          (to_uchar_lem _ (pixel-lt (s.nodes k).level k r c v u (omega (arith, top))))

    built :
        Builds s
          (s.nodes k).level
          (s.nodes k).level
          (λ r c. mapped func (pixel s.nodes (s.nodes k).level k r c))
          (helper_recursion_bdd_map (suc (s.nodes k).level) func (s.nodes k))
    built =
        subst
          (λ b.
            let l : ℕ = if b then 0 else (s.nodes k).level in
            Builds s l l (λ r c. mapped func (pixel s.nodes l k r c))
              (helper_recursion_bdd_map (suc (s.nodes k).level) func
                (if b then node 0 k k else s.nodes k)))
          inner (map-Builds func s v (suc (s.nodes k).level) k u (omega (arith, top)))
