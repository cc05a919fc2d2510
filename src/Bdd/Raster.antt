-- ===== src/Bdd/Raster.antt =====
-- `bdd_min_level`, `bdd_from_raster` and their helpers in hw1/src/bdd.c and
-- hw1/src/helpingFunctions.c: from an array of pixels to a diagram.
pub mod Level
pub mod Split
pub mod Build
use cse_320_repository.Base.{
  ℕ, zero, suc, ℤ, pos, negsuc, ◌+◌, ◌-◌, ◌*◌, ◌/◌, Option, none, some, List, true, false, ◌&&◌,
  if◌then◌else◌, ltb, ◌==◌, get_elem?, update,
}
use cse_320_repository.Bdd.Store.{Store, node, M, pure, ◌>>=◌, ◌>>◌, bdd_num_leaves, bdd_nodes_max}
use cse_320_repository.Bdd.Lookup.{construct_node}

-- `while (working_product < bound) { working_product *= 2; count++; }`, with fuel.
min_level_loop : (fuel bound working_product count : ℕ) → ℕ
min_level_loop zero bound working_product count = count
min_level_loop (suc fuel) bound working_product count = elim (ltb working_product bound) [
  | true ↦ min_level_loop fuel bound (working_product * 2) (count + 1)
  | false ↦ count
]

unfoldable pub bdd_min_level : ℕ → ℕ → ℕ
unfolding min_level_loop
bdd_min_level w h = 2 * (if ltb w h then min_level_loop h h 1 0 else min_level_loop w w 1 0)

pow2_loop : (rounds sum : ℕ) → ℕ
pow2_loop zero sum = sum
pow2_loop (suc rounds) sum = pow2_loop rounds (sum * 2)

unfoldable pub pow2 : ℕ → ℕ
unfolding pow2_loop
pow2 num = pow2_loop num 1

-- The node of level 69 for an image of one colour, in the last cell of `bdd_nodes`.
abbrev pub special_level : ℕ
special_level = 69

unfoldable pub write_special : ℕ → M ℕ
write_special value s = some (
  bdd_nodes_max - 1,
  record s { nodes = update s.nodes (bdd_nodes_max - 1) (node special_level value value) },
)

-- The base case of both recursions; a read outside the array is a fault.
unfoldable pub read_pixel :
    (raster : List ℕ) (row col whole_width original_width original_height : ℕ) → M ℕ
read_pixel raster row col whole_width original_width original_height s =
    if ltb row original_height && ltb col original_width
    then elim (get_elem? raster (whole_width * row + col)) [ none ↦ none | some p ↦ some (p, s) ]
    else some (0, s)

-- The two helpers call each other with the level one lower, so the fuel is the level.
unfoldable mutual
  pub helper_recursive_function_split_row :
      (fuel : ℕ) (raster : List ℕ)
      (row col width height level whole_width original_width original_height : ℕ)
      → M ℕ
  helper_recursive_function_split_row zero raster row col width height level ww ow oh s =
      if width == 1 && height == 1 then read_pixel raster row col ww ow oh s else none
  helper_recursive_function_split_row (suc fuel) raster row col width height level ww ow oh s =
      elim (width == 1 && height == 1) [
        | true ↦ read_pixel raster row col ww ow oh s
        | false ↦
            construct_node level
              (helper_recursive_function_split_col fuel raster row col width (height / 2)
                (level - 1) ww ow oh)
              (helper_recursive_function_split_col fuel raster (row + height / 2) col width
                (height / 2) (level - 1) ww ow oh)
              s
      ]

  pub helper_recursive_function_split_col :
      (fuel : ℕ) (raster : List ℕ)
      (row col width height level whole_width original_width original_height : ℕ)
      → M ℕ
  helper_recursive_function_split_col zero raster row col width height level ww ow oh s =
      if width == 1 && height == 1 then read_pixel raster row col ww ow oh s else none
  helper_recursive_function_split_col (suc fuel) raster row col width height level ww ow oh s =
      elim (width == 1 && height == 1) [
        | true ↦ read_pixel raster row col ww ow oh s
        | false ↦
            construct_node level
              (helper_recursive_function_split_row fuel raster row col (width / 2) height
                (level - 1) ww ow oh)
              (helper_recursive_function_split_row fuel raster row (col + width / 2) (width / 2)
                height (level - 1) ww ow oh)
              s
      ]

-- A pointer into `bdd_nodes` for an index: a leaf's goes to the special node.
unfoldable pub root_of : ℕ → M ℕ
root_of k s = if ltb k bdd_num_leaves then write_special k s else some (k, s)

-- `none` in the result is NULL.
unfoldable pub bdd_from_raster : ℤ → ℤ → List ℕ → M (Option ℕ)
bdd_from_raster (negsuc _) h raster = pure none
bdd_from_raster (pos w) (negsuc _) raster = pure none
bdd_from_raster (pos w) (pos h) raster = do
  let level = bdd_min_level w h
  let dimension = pow2 (level / 2)
  k ← helper_recursive_function_split_row level raster 0 0 dimension dimension level w w h
  p ← root_of k
  pure (some p)
