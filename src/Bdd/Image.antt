-- ===== src/Bdd/Image.antt =====
-- The image that a diagram stands for: the reading of LEFT and RIGHT in hw1/src/bdd.c, where a node
-- also stands for the nodes of higher levels whose two children are equal to it.
use cse_320_repository.Base.{
  ℕ, zero, suc, ◌/◌, ◌%◌, ◌≤◌, ◌<◌, ◌≡◌, refl, sym, ap, ◌∙◌, inl, inr, if◌then◌else◌, ltb, ◌==◌,
  arith, Bool-cases, ltb→lt,
}
use cse_320_repository.Base.Bits.{bit}
use cse_320_repository.Bdd.Store.{Node, Store, bdd_num_leaves}
use cse_320_repository.Bdd.Lookup.Invariant.{level_of, IsTable, Extends}
use cse_320_repository.Bdd.Lookup.Correct.{IsNode, IsCall}

-- The coordinate digit that a node of level `suc l` tests: even levels split rows, odd ones columns.
abbrev pub digit : ℕ → ℕ → ℕ → ℕ
digit l r c = if l % 2 == 0 then bit (l / 2) c else bit (l / 2) r

abbrev pub child : (ℕ → Node) → ℕ → ℕ → ℕ → ℕ → ℕ
child nodes l k r c =
    if ltb (level_of nodes k) (suc l)
    then k
    else if digit l r c == 0
    then (nodes k).left
    else (nodes k).right

-- The pixel at row `r` and column `c` of the diagram `k`, read as one of `l` levels.
unfoldable pub pixel : (ℕ → Node) → ℕ → ℕ → ℕ → ℕ → ℕ
pixel nodes zero k r c = k
pixel nodes (suc l) k r c = pixel nodes l (child nodes l k r c) r c

-- The two children of a node in use are in use.
pub child-used :
    (l k r c : ℕ) {s : Store}
    → IsTable s
    → k < s.free_node_counter
    → child s.nodes l k r c < s.free_node_counter
child-used l k r c {s} v h = elim (Bool-cases (ltb k bdd_num_leaves)) [
  | inl leaf ↦ ground arith
  | inr inner ↦ ground (arith, v.shaped k (ground arith) h)
]

-- And one level lower.
pub child-levelled :
    (l k r c : ℕ) {s : Store}
    → IsTable s
    → k < s.free_node_counter
    → level_of s.nodes k ≤ suc l
    → level_of s.nodes (child s.nodes l k r c) ≤ l
child-levelled l k r c {s} v u h = elim (Bool-cases (ltb (level_of s.nodes k) (suc l))) [
  | inl lower ↦ rw lower (ground (arith, lower))
  | inr top ↦
      let low : bdd_num_leaves ≤ k = ground arith in rw top (ground (arith, v.shaped k low u))
]

pub leaf_of_level :
    (k : ℕ) {s : Store}
    → IsTable s
    → k < s.free_node_counter
    → level_of s.nodes k ≤ 0
    → k < bdd_num_leaves
leaf_of_level k v u h = elim (Bool-cases (ltb k bdd_num_leaves)) [
  | inl leaf ↦ ground arith
  | inr inner ↦ ground (arith, v.shaped k (ground arith) u)
]

-- The value read is a colour.
pub pixel-lt :
    (l k r c : ℕ) {s : Store}
    → IsTable s
    → k < s.free_node_counter
    → level_of s.nodes k ≤ l
    → pixel s.nodes l k r c < bdd_num_leaves
unfolding pixel
pixel-lt zero k r c v u h = leaf_of_level k v u h
pixel-lt (suc l) k r c v u h =
    pixel-lt l _ r c v (child-used l k r c v u) (child-levelled l k r c v u h)

pub pixel-Extends :
    (l k r c : ℕ) {s t : Store}
    → IsTable s
    → Extends s t
    → k < s.free_node_counter
    → pixel t.nodes l k r c ≡ pixel s.nodes l k r c
unfolding pixel
pixel-Extends zero k r c v e h = refl
pixel-Extends (suc l) k r c {s} {t} v e h =
    ap (λ m. pixel t.nodes l m r c) same ∙ pixel-Extends l _ r c v e (child-used l k r c v h)
  where
    same : child t.nodes l k r c ≡ child s.nodes l k r c
    same = rw (e.kept k h)

child-IsNode :
    (l left right k r c : ℕ) {s t : Store}
    → IsTable s
    → IsCall s (suc l) left right
    → IsNode s (suc l) left right k t
    → child t.nodes l k r c ≡ (if digit l r c == 0 then left else right)
child-IsNode l left right k r c {s} {t} v call n = elim n.denotes [
  | inl (e, k≡left) ↦
      let same : t.nodes left ≡ s.nodes left = n.extends.kept left call.left_used in
      rw (k≡left, same) (ground arith)
  | inr (apart, low, is) ↦ ground arith
]

pub pixel-IsNode :
    (l left right k r c : ℕ) {s t : Store}
    → IsTable s
    → IsCall s (suc l) left right
    → IsNode s (suc l) left right k t
    → pixel t.nodes (suc l) k r c ≡ pixel s.nodes l (if digit l r c == 0 then left else right) r c
unfolding pixel
pixel-IsNode l left right k r c {s} {t} v call n =
    ap (λ m. pixel t.nodes l m r c) (child-IsNode l left right k r c v call n)
    ∙ pixel-Extends l _ r c v n.extends (ground arith)

-- Levels above that of the root test nothing.
pub pixel_skip :
    (l k r c : ℕ) (nodes : ℕ → Node)
    → level_of nodes k ≤ l
    → pixel nodes l k r c ≡ pixel nodes (level_of nodes k) k r c
unfolding pixel
pixel_skip zero k r c nodes h =
    let e : level_of nodes k ≡ 0 = omega arith in sym (ap (λ m. pixel nodes m k r c) e)
pixel_skip (suc l) k r c nodes h = elim (Bool-cases (ltb (level_of nodes k) (suc l))) [
  | inl lower ↦
      ap (λ m. pixel nodes l m r c) (rw lower)
      ∙ pixel_skip l k r c nodes (omega (arith, ltb→lt (level_of nodes k) (suc l) lower))
  | inr top ↦ let e : suc l ≡ level_of nodes k = ground arith in ap (λ m. pixel nodes m k r c) e
]
