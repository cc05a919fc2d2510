-- ===== src/Bdd/Transform/Zoom.antt =====
-- `bdd_zoom` of hw1/src/bdd.c with a factor that enlarges: every pixel becomes a square of pixels.
use cse_320_repository.Base.{
  ℕ, zero, suc, ◌+◌, ◌-◌, ◌*◌, ◌/◌, ◌%◌, ◌≤◌, ◌<◌, ◌≡◌, refl, true, false, sym, ap, subst, ◌∙◌, inl,
  inr, arith, Bool-cases, ltb, ◌==◌, ◌^◌, if◌then◌else◌, leb,
}
use native.Mathlib.Nat.{pow-suc, div-div-eq-div-mul}
use cse_320_repository.Base.Bits.{bit}
use cse_320_repository.Bdd.Store.{Node, node, Store, M, Returns, bdd_num_leaves, bdd_nodes_max}
use cse_320_repository.Bdd.Lookup.{construct_node}
use cse_320_repository.Bdd.Lookup.Invariant.{level_of, IsShaped, IsTable}
use cse_320_repository.Bdd.Image.{digit, pixel}
use cse_320_repository.Bdd.Build.{
  Picture, Builds, Builds-at, Builds-congr, Builds-halves, Builds-lift, leaf-IsBuilt, halves,
}
use cse_320_repository.Bdd.Transform.{visit, helper_recursion_bdd_zoom_in, bdd_zoom}
use cse_320_repository.Bdd.Transform.Visit.{
  seen, drawing, drawing-halves, Builds-visit, IsRedrawn, redrawn,
}

-- Division by 2 ^ f drops the lowest f digits.
bit-shift : (f e a : ℕ) → bit (e + f) a ≡ bit e (a / 2 ^ f)
bit-shift zero e a =
    let same : e + 0 ≡ e = omega arith in
    let whole : a / 2 ^ 0 ≡ a = omega arith in ap (λ m. bit m a) same ∙ ap (bit e) (sym whole)
bit-shift (suc f) e a =
    ap (λ m. bit m a) up
    ∙ bit-shift f e (a / 2)
    ∙ ap (bit e) (div-div-eq-div-mul a 2 (2 ^ f) ∙ ap (λ n. a / n) power)
  where
    up : e + suc f ≡ suc (e + f)
    up = omega arith

    power : 2 * 2 ^ f ≡ 2 ^ suc f
    power = omega (arith, pow-suc 2 f)

digit-shift : (f l r c : ℕ) → digit (l + 2 * f) r c ≡ digit l (r / 2 ^ f) (c / 2 ^ f)
digit-shift f l r c =
    let parity : (l + 2 * f) % 2 ≡ l % 2 = omega arith in
    let half : (l + 2 * f) / 2 ≡ l / 2 + f = omega arith in
    rw (parity, half, bit-shift f (l / 2) r, bit-shift f (l / 2) c) refl

module _ (f : ℕ) (base : Store) (v : IsTable base) where
  abbrev zoomed_drawing : ℕ → Picture
  zoomed_drawing k r c = drawing base v k (r / 2 ^ f) (c / 2 ^ f)

  -- What the induction below shows of the index `k`.
  abbrev IsZoomed : ℕ → ℕ → Type 0
  IsZoomed fuel k =
      Builds base (level_of base.nodes k) (level_of base.nodes k + 2 * f) (zoomed_drawing k)
        (helper_recursion_bdd_zoom_in fuel (seen base k) f)

  leaf-IsZoomed : (fuel k : ℕ) → k < bdd_num_leaves → IsZoomed (suc fuel) k
  unfolding helper_recursion_bdd_zoom_in pixel
  leaf-IsZoomed fuel k h =
      let leaf : ltb k bdd_num_leaves ≡ true = ground arith in
      let bottom : level_of base.nodes k ≡ 0 = ground arith in
      Builds-lift 0 (level_of base.nodes k) 0 (level_of base.nodes k + 2 * f) (zoomed_drawing k)
        (omega arith) (omega arith)
        (Builds-congr (λ r c. k) (zoomed_drawing k) (λ r c. rw bottom refl)
          (λ s t x room. record {
            value = k;
            store = s;
            ran = rw leaf refl;
            holds = leaf-IsBuilt k s t h;
          }))

  child_call : ℕ → ℕ → M ℕ
  child_call fuel = visit (λ child. helper_recursion_bdd_zoom_in fuel child f)

  run_node :
      (fuel l : ℕ) (n : Node) (s : Store)
      → n.level ≡ suc l
      → helper_recursion_bdd_zoom_in (suc fuel) n f s
        ≡ construct_node (suc (l + 2 * f)) (child_call fuel n.left) (child_call fuel n.right) s
  unfolding helper_recursion_bdd_zoom_in child_call
  run_node fuel l n s e =
      let above : (n.level == 0) ≡ false = ground arith in
      let level : n.level + 2 * f ≡ suc (l + 2 * f) = omega (arith, e) in
      rw (helper_recursion_bdd_zoom_in, above)
        (ap (λ m. construct_node m (child_call fuel n.left) (child_call fuel n.right) s) level)

  node-IsZoomed :
      (fuel l k : ℕ)
      → bdd_num_leaves ≤ k
      → k < base.free_node_counter
      → (base.nodes k).level ≡ suc l
      → suc l + 2 * f < 128
      → IsZoomed fuel (base.nodes k).left
      → IsZoomed fuel (base.nodes k).right
      → IsZoomed (suc fuel) k
  unfolding child_call
  node-IsZoomed fuel l k low u e small left right =
      subst
        (λ m.
          Builds base m (m + 2 * f) (zoomed_drawing k)
            (helper_recursion_bdd_zoom_in (suc fuel) (seen base k) f))
        (sym top)
        (subst
          (λ n.
            Builds base (suc l) n (zoomed_drawing k)
              (helper_recursion_bdd_zoom_in (suc fuel) (seen base k) f))
          lifted
          (Builds-at _
            (construct_node (suc (l + 2 * f)) (child_call fuel (base.nodes k).left)
              (child_call fuel (base.nodes k).right))
            (λ s x. rw inner (run_node fuel l (base.nodes k) s e))
            (Builds-congr
              (halves (l + 2 * f) (zoomed_drawing (base.nodes k).left)
                (zoomed_drawing (base.nodes k).right))
              (zoomed_drawing k) half
              (Builds-halves l (l + 2 * f) _ _ _ _ (omega arith)
                (Builds-visit base v _ _ (omega (arith, shaped.left_below)) (
                  Builds-lift _ l _ (l + 2 * f) _ (omega (arith, shaped.left_level))
                    (omega (arith, shaped.left_level)) left))
                (Builds-visit base v _ _ (omega (arith, shaped.right_below)) (
                  Builds-lift _ l _ (l + 2 * f) _ (omega (arith, shaped.right_level))
                    (omega (arith, shaped.right_level)) right))))))
    where
      inner : ltb k bdd_num_leaves ≡ false
      inner = ground arith

      top : level_of base.nodes k ≡ suc l
      top = ground arith

      lifted : suc (l + 2 * f) ≡ suc l + 2 * f
      lifted = omega arith

      shaped : IsShaped base.nodes (base.nodes k) k
      shaped = v.shaped k low u

      half :
          (r c : ℕ)
          → halves
              (l + 2 * f)
              (zoomed_drawing (base.nodes k).left)
              (zoomed_drawing (base.nodes k).right)
              r
              c
            ≡ zoomed_drawing k r c
      half r c =
          rw (digit-shift f l r c) (drawing-halves base v l k (r / 2 ^ f) (c / 2 ^ f) low u e)

  pub zoom_in-Builds :
      (fuel k : ℕ)
      → k < base.free_node_counter
      → level_of base.nodes k < fuel
      → level_of base.nodes k + 2 * f < 128
      → IsZoomed fuel k
  zoom_in-Builds zero k u h small = absurd (omega arith)
  zoom_in-Builds (suc fuel) k u h small = elim (Bool-cases (ltb k bdd_num_leaves)) [
    | inl leaf ↦ leaf-IsZoomed fuel k (ground arith)
    | inr inner ↦
        let low : bdd_num_leaves ≤ k = ground arith in
        let shaped : IsShaped base.nodes (base.nodes k) k = v.shaped k low u in
        let top : level_of base.nodes k ≡ (base.nodes k).level = ground arith in
        let e : (base.nodes k).level ≡ suc ((base.nodes k).level - 1) =
          omega (arith, shaped.left_level) in
        node-IsZoomed fuel ((base.nodes k).level - 1) k low u e (omega (arith, e, top))
          (zoom_in-Builds fuel (base.nodes k).left (omega (arith, shaped.left_below))
            (omega (arith, shaped.left_level, top)) (omega (arith, shaped.left_level, top)))
          (zoom_in-Builds fuel (base.nodes k).right (omega (arith, shaped.right_below))
            (omega (arith, shaped.right_level, top)) (omega (arith, shaped.right_level, top)))
  ]

-- On a node in use of a well-formed table with 2 ^ level free indices left, for a factor of at most 16
-- with level + 2 * factor below 128, the call ends, keeps all nodes and returns a pointer to the image
-- whose pixel at row r and column c is the old one at r / 2 ^ factor and c / 2 ^ factor.
pub bdd_zoom-IsRedrawn :
    (factor k : ℕ) (s : Store)
    → IsTable s
    → factor ≤ 16
    → bdd_num_leaves ≤ k
    → k < s.free_node_counter
    → (s.nodes k).level + 2 * factor < 128
    → s.free_node_counter + 2 ^ (s.nodes k).level ≤ bdd_nodes_max
    → Returns
        (IsRedrawn
          ((s.nodes k).level + 2 * factor)
          (λ r c. pixel s.nodes (s.nodes k).level k (r / 2 ^ factor) (c / 2 ^ factor))
          s)
        (bdd_zoom k factor s)
unfolding bdd_zoom
bdd_zoom-IsRedrawn factor k s v h low u small room =
    let enlarges : leb factor 16 ≡ true = ground arith in
    rw enlarges (redrawn s _ _ _ _ v room built)
  where
    inner : ltb k bdd_num_leaves ≡ false
    inner = ground arith

    top : level_of s.nodes k ≡ (s.nodes k).level
    top = ground arith

    built :
        Builds s
          (s.nodes k).level
          ((s.nodes k).level + 2 * factor)
          (λ r c. pixel s.nodes (s.nodes k).level k (r / 2 ^ factor) (c / 2 ^ factor))
          (helper_recursion_bdd_zoom_in (suc (s.nodes k).level) (s.nodes k) factor)
    built =
        subst
          (λ b.
            let l : ℕ = if b then 0 else (s.nodes k).level in
            Builds s l (l + 2 * factor) (λ r c. pixel s.nodes l k (r / 2 ^ factor) (c / 2 ^ factor))
              (helper_recursion_bdd_zoom_in (suc (s.nodes k).level)
                (if b then node 0 k k else s.nodes k) factor))
          inner
          (zoom_in-Builds factor s v (suc (s.nodes k).level) k u (omega (arith, top))
            (omega (arith, top)))
