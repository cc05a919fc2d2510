-- ===== src/Bdd/Transform.antt =====
-- `bdd_map`, `bdd_rotate` and `bdd_zoom` of hw1/src/bdd.c: new diagrams from old ones.
pub mod Visit
pub mod Map
pub mod Zoom
pub mod Quarters
pub mod Rotate
use cse_320_repository.Base.{
  ℕ, zero, suc, ◌+◌, ◌-◌, ◌*◌, ◌/◌, true, false, none, some, if◌then◌else◌, ltb, leb, ◌==◌,
}
use cse_320_repository.Bdd.Store.{Node, node, Store, M, ◌>>=◌, bdd_num_leaves}
use cse_320_repository.Bdd.Lookup.{bdd_lookup, construct_node}
use cse_320_repository.Bdd.Raster.{pow2, root_of}
use cse_320_repository.Bdd.Apply.{to_uchar, bdd_apply}

-- The recursive call on the child `k`: on a node of level 0 made for a leaf, else on the stored one.
unfoldable pub visit : (Node → M ℕ) → ℕ → M ℕ
visit rec k s = rec (if ltb k bdd_num_leaves then node 0 k k else s.nodes k) s

-- `func` takes and returns an `unsigned char`.
abbrev pub mapped : (ℕ → ℕ) → ℕ → ℕ
mapped func value = to_uchar (func (to_uchar value))

unfoldable pub helper_recursion_bdd_map : (fuel : ℕ) → (ℕ → ℕ) → Node → M ℕ
helper_recursion_bdd_map zero func n s = none
helper_recursion_bdd_map (suc fuel) func n s = elim (n.level == 0) [
  | true ↦ some (mapped func n.left, s)
  | false ↦
      construct_node n.level (visit (helper_recursion_bdd_map fuel func) n.left)
        (visit (helper_recursion_bdd_map fuel func) n.right) s
]

unfoldable pub bdd_map : (root : ℕ) → (ℕ → ℕ) → M ℕ
bdd_map root func s =
    (helper_recursion_bdd_map (suc (s.nodes root).level) func (s.nodes root) >>= root_of) s

unfoldable pub helper_recursion_bdd_zoom_in : (fuel : ℕ) → Node → (factor : ℕ) → M ℕ
helper_recursion_bdd_zoom_in zero n factor s = none
helper_recursion_bdd_zoom_in (suc fuel) n factor s = elim (n.level == 0) [
  | true ↦ some (n.left, s)
  | false ↦
      construct_node (n.level + 2 * factor)
        (visit (λ child. helper_recursion_bdd_zoom_in fuel child factor) n.left)
        (visit (λ child. helper_recursion_bdd_zoom_in fuel child factor) n.right) s
]

-- A child of `helper_recursion_bdd_zoom_out`: a leaf is white unless it is black.
unfoldable pub zoom_out_child : (Node → M ℕ) → ℕ → M ℕ
zoom_out_child rec k s =
    if ltb k bdd_num_leaves then some (if k == 0 then 0 else 255, s) else rec (s.nodes k) s

-- `shrink` is the factor without its sign.
unfoldable pub helper_recursion_bdd_zoom_out : (fuel : ℕ) → Node → (shrink : ℕ) → M ℕ
helper_recursion_bdd_zoom_out zero n shrink s = none
helper_recursion_bdd_zoom_out (suc fuel) n shrink s = elim (leb n.level (2 * shrink)) [
  | true ↦ some (255, s)
  | false ↦
      construct_node (n.level - 2 * shrink)
        (zoom_out_child (λ child. helper_recursion_bdd_zoom_out fuel child shrink) n.left)
        (zoom_out_child (λ child. helper_recursion_bdd_zoom_out fuel child shrink) n.right) s
]

-- The factor is a byte: up to 16 it enlarges, above it stands for itself less 256.
unfoldable pub bdd_zoom : (root factor : ℕ) → M ℕ
bdd_zoom root factor s =
    ((if leb factor 16
          then helper_recursion_bdd_zoom_in (suc (s.nodes root).level) (s.nodes root) factor
          else helper_recursion_bdd_zoom_out (suc (s.nodes root).level) (s.nodes root)
              (256 - factor))
        >>= root_of)
      s

-- `bdd_apply` within a computation.
unfoldable pub read_apply : (root r c : ℕ) → M ℕ
read_apply root r c s = elim (bdd_apply root r c s) [ none ↦ none | some v ↦ some (v, s) ]

unfoldable pub helper_recursion_bdd_rotate : (fuel root r c width passed_level : ℕ) → M ℕ
helper_recursion_bdd_rotate zero root r c width passed_level s = none
helper_recursion_bdd_rotate (suc fuel) root r c width passed_level s = elim (width == 1) [
  | true ↦ read_apply root r c s
  | false ↦
      (helper_recursion_bdd_rotate fuel root r c (width / 2) (passed_level - 2) >>= λ top_left.
      helper_recursion_bdd_rotate fuel root r (c + width / 2) (width / 2) (passed_level - 2)
      >>= λ top_right.
          helper_recursion_bdd_rotate fuel root (r + width / 2) c (width / 2) (passed_level - 2)
          >>= λ bot_left.
              helper_recursion_bdd_rotate fuel root (r + width / 2) (c + width / 2) (width / 2)
                (passed_level - 2)
              >>= λ bot_right. bdd_lookup (passed_level - 2 + 1) top_right bot_right >>= λ top_node.
                  bdd_lookup (passed_level - 2 + 1) top_left bot_left >>= λ bot_node.
                  bdd_lookup passed_level top_node bot_node)
        s
]

unfoldable pub bdd_rotate : (root level : ℕ) → M ℕ
bdd_rotate root level = helper_recursion_bdd_rotate (suc level) root 0 0 (pow2 (level / 2)) level
