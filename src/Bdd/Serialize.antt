-- ===== src/Bdd/Serialize.antt =====
-- `bdd_serialize` of hw1/src/bdd.c. The bytes that a call writes are part of its result.
use cse_320_repository.Base.{
  ℕ, zero, suc, ◌+◌, ◌%◌, ◌==◌, Bool, true, false, not, if◌then◌else◌, ltb, none, some, List, [],
  ◌∷◌, ◌++◌, update,
}
use cse_320_repository.Bdd.Store.{Store, M, bdd_num_leaves}
use cse_320_repository.Bdd.Lookup.{bdd_lookup}
use cse_320_repository.Bdd.Raster.{special_level}

-- The loop of `printSerialNumberChild` counts in four bytes; then it writes them.
unfoldable pub count_loop : (rounds first second third fourth : ℕ) → List ℕ
count_loop zero first second third fourth =
    first % 256 ∷ second % 256 ∷ third % 256 ∷ fourth % 256 ∷ []
count_loop (suc rounds) first second third fourth =
    let next = first + 1 in
    let next_second = if ltb 255 next then second + 1 else second in
    let next_third = if ltb 255 next_second then third + 1 else third in
    let next_fourth = if ltb 255 next_third then fourth + 1 else fourth in
    count_loop rounds (if ltb 255 next then 0 else next)
      (if ltb 255 next_second then 0 else next_second)
      (if ltb 255 next_third then 0 else next_third) next_fourth

unfoldable pub print_serial_number_child : (serial : ℕ) → List ℕ
print_serial_number_child serial = count_loop serial 0 0 0 0

unfoldable pub initialize_bdd_index_map : Store → Store
initialize_bdd_index_map s = record s { index_map = λ i. 0 }

unfoldable pub set_index : (index value : ℕ) → Store → Store
set_index index value s = record s { index_map = update s.index_map index value }

-- A leaf: it is written with '@' unless it has a serial number.
unfoldable pub visit_leaf : (left serial : ℕ) → M (ℕ × List ℕ)
visit_leaf left serial s =
    if s.index_map left == 0
    then some ((serial + 1, 64 ∷ left % 256 ∷ []), set_index left serial s)
    else some ((serial, []), s)

-- The serial number of a child.
unfoldable pub child_serial : (index : ℕ) → M ℕ
child_serial index s =
    if ltb index bdd_num_leaves
    then some (s.index_map index, s)
    else elim (bdd_lookup (s.nodes index).level (s.nodes index).left (s.nodes index).right s) [
      | none ↦ none
      | some (k, t) ↦ some (t.index_map k, t)
    ]

-- A node whose children are written: its own serial number, its level, and those of the children.
unfoldable pub write_node : (index level left right serial : ℕ) → M (ℕ × List ℕ)
write_node index level left right serial s = elim (child_serial left (set_index index serial s)) [
  | none ↦ none
  | some (left_serial, t) ↦ elim (child_serial right t) [
    | none ↦ none
    | some (right_serial, u) ↦ some (
      (
        serial + 1,
        (64 + level) % 256
            ∷ (print_serial_number_child left_serial ++ print_serial_number_child right_serial),
      ),
      u,
    )
  ]
]

-- A child: the recursion on a leaf, or on a node with its parts.
unfoldable pub visit_child :
    (visit : (level left right serial : ℕ) → M (ℕ × List ℕ)) (index serial : ℕ) → M (ℕ × List ℕ)
visit_child visit index serial s =
    if ltb index bdd_num_leaves
    then visit 0 index index serial s
    else visit (s.nodes index).level (s.nodes index).left (s.nodes index).right serial s

-- The recursion on a node, with the next serial number: the one after it, and the bytes written.
unfoldable pub helping_bdd_serialize_recursive_function :
    (fuel level left right serial : ℕ) → M (ℕ × List ℕ)
helping_bdd_serialize_recursive_function zero level left right serial s = none
helping_bdd_serialize_recursive_function (suc fuel) level left right serial s = elim (level == 0) [
  | true ↦ visit_leaf left serial s
  | false ↦ elim (bdd_lookup level left right s) [
    | none ↦ none
    | some (index, t) ↦ elim (t.index_map index == 0) [
      | false ↦ some ((serial, []), t)
      | true ↦ elim (visit_child (helping_bdd_serialize_recursive_function fuel) left serial t) [
        | none ↦ none
        | some ((second, bytes), u) ↦
            elim (visit_child (helping_bdd_serialize_recursive_function fuel) right second u) [
              | none ↦ none
              | some ((third, more), v) ↦ elim (write_node index level left right third v) [
                | none ↦ none
                | some ((next, last), w) ↦ some ((next, bytes ++ more ++ last), w)
              ]
            ]
      ]
    ]
  ]
]

-- The result is 0, or `false` for -1.
unfoldable pub bdd_serialize : (node : ℕ) → M (Bool × List ℕ)
bdd_serialize node s =
    let n = s.nodes node in
    if n.level == special_level
    then some ((true, 64 ∷ n.left % 256 ∷ []), s)
    else elim (helping_bdd_serialize_recursive_function (n.level + 1) n.level n.left n.right 1
        (initialize_bdd_index_map s)) [
          | none ↦ none
          | some ((result, bytes), t) ↦ some ((not (result == 1), bytes), t)
        ]
