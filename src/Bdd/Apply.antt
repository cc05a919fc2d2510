-- ===== src/Bdd/Apply.antt =====
-- `bdd_apply` and `bdd_to_raster` of hw1/src/bdd.c: from a diagram back to pixels. They only read
-- the store. `none` is a run that does not end.
pub mod Masks
pub mod Correct
pub mod Raster
use Prim.Native.Nat.{bit_and}
use cse_320_repository.Base.{
  ℕ, zero, suc, ◌+◌, ◌-◌, ◌*◌, ◌/◌, ◌%◌, ◌^◌, Bool, true, false, ◌&&◌, Option, none, some, List, [],
  ◌∷◌, ◌++◌, if◌then◌else◌, ltb, ◌==◌,
}
use cse_320_repository.Bdd.Store.{Node, Store, bdd_num_leaves}
use cse_320_repository.Bdd.Raster.{special_level}

abbrev pub to_uchar : ℕ → ℕ
to_uchar x = x % 256

-- `mask == 0 ? 1 : mask << 1` on an `int`.
unfoldable pub grow_mask : ℕ → ℕ
grow_mask mask = if mask == 0 then 1 else (mask * 2) % 2 ^ 32

-- The loop of `bdd_apply` that makes the masks of the two highest coordinate digits.
unfoldable pub mask_loop : (rounds : ℕ) (shift_r : Bool) (mask_r mask_c : ℕ) → ℕ × ℕ
mask_loop zero shift_r mask_r mask_c = (mask_r, mask_c)
mask_loop (suc rounds) true mask_r mask_c = mask_loop rounds false (grow_mask mask_r) mask_c
mask_loop (suc rounds) false mask_r mask_c = mask_loop rounds true mask_r (grow_mask mask_c)

-- The loop that shifts the masks past the levels that an edge skips.
unfoldable pub shift_loop : (rounds : ℕ) (shift_r : Bool) (mask_r mask_c : ℕ) → ℕ × ℕ
shift_loop zero shift_r mask_r mask_c = (mask_r, mask_c)
shift_loop (suc rounds) true mask_r mask_c = shift_loop rounds false (mask_r / 2) mask_c
shift_loop (suc rounds) false mask_r mask_c = shift_loop rounds true mask_r (mask_c / 2)

-- What each of the four branches does with the child that it takes; `rows` tells the level's parity,
-- and `next` is the recursive call on a node, its level and the masks.
unfoldable pub follow :
    (next : ℕ → ℕ → ℕ → ℕ → Option ℕ) (nodes : ℕ → Node) (level : ℕ) (rows : Bool)
    (mask_r mask_c child : ℕ)
    → Option ℕ
follow next nodes level rows mask_r mask_c child =
    let child_level = (nodes child).level in
    let (shifted_r, shifted_c) = shift_loop (level - child_level) rows mask_r mask_c in
    if ltb child bdd_num_leaves
    then some (to_uchar child)
    else (if level - child_level == 1
        then (if rows
            then next child child_level (mask_r / 2) mask_c
            else next child child_level mask_r (mask_c / 2))
        else next child child_level shifted_r shifted_c)

unfoldable pub helper_recursion_bdd_apply2 :
    (fuel node r c level mask_r mask_c : ℕ) → Store → Option ℕ
unfolding follow shift_loop
helper_recursion_bdd_apply2 zero node r c level mask_r mask_c s = none
helper_recursion_bdd_apply2 (suc fuel) node r c level mask_r mask_c s =
    let n = s.nodes node in
    let next = λ (k l mr mc : ℕ). helper_recursion_bdd_apply2 fuel k r c l mr mc s in
    elim (level == 1) [
      | true ↦ some (to_uchar (if bit_and c mask_c == 0 then n.left else n.right))
      | false ↦ elim (level % 2 == 0) [
        | true ↦
            follow next s.nodes n.level true mask_r mask_c
              (if bit_and r mask_r == 0 then n.left else n.right)
        | false ↦
            follow next s.nodes n.level false mask_r mask_c
              (if bit_and c mask_c == 0 then n.left else n.right)
      ]
    ]

-- A well-formed node has children of lower levels, so the level bounds the depth.
unfoldable pub bdd_apply : (node r c : ℕ) → Store → Option ℕ
bdd_apply node r c s =
    let level = (s.nodes node).level in
    let (mask_r, mask_c) = mask_loop level (level % 2 == 0) 0 0 in
    helper_recursion_bdd_apply2 (suc level) node r c level mask_r mask_c s

-- The nested loops over the array: what is stored, in the order of `rasterCounter`.
unfoldable pub cols_loop : (rounds r c : ℕ) → (ℕ → ℕ → Option ℕ) → Option (List ℕ)
cols_loop zero r c cell = some []
cols_loop (suc rounds) r c cell =
    let rest = cols_loop rounds r (c + 1) cell in
    elim (cell r c) [
      | none ↦ none
      | some v ↦ elim rest [ none ↦ none | some vs ↦ some (to_uchar v ∷ vs) ]
    ]

unfoldable pub rows_loop : (rounds r w : ℕ) → (ℕ → ℕ → Option ℕ) → Option (List ℕ)
unfolding cols_loop
rows_loop zero r w cell = some []
rows_loop (suc rounds) r w cell =
    let rest = rows_loop rounds (r + 1) w cell in
    elim (cols_loop w r 0 cell) [
      | none ↦ none
      | some v ↦ elim rest [ none ↦ none | some vs ↦ some (v ++ vs) ]
    ]

unfoldable pub bdd_to_raster : (node w h : ℕ) → Store → Option (List ℕ)
unfolding rows_loop
bdd_to_raster node w h s =
    if (s.nodes node).level == special_level
    then rows_loop h 0 w (λ r c. some (if ltb r h && ltb c w then (s.nodes node).left else 0))
    else rows_loop h 0 w (λ r c. bdd_apply node r c s)
