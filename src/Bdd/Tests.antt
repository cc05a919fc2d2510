-- ===== src/Bdd/Tests.antt =====
-- The diagrams of hw1/src/bdd.c at small inputs.
use cse_320_repository.Base.{
  ℕ, zero, suc, pos, ◌≤◌, ◌<◌, ◌≡◌, refl, subst, some, none, Option, Bool, true, arith, List, [],
  ◌∷◌, length, get_or, update, ◌^◌, ◌-◌, ◌/◌,
}
use cse_320_repository.Bdd.Store.{Store, node, initial_store, Returns, Returns-at}
use cse_320_repository.Bdd.Lookup.{bdd_lookup, hash_function, insert_node, first_look}
use cse_320_repository.Bdd.Lookup.Invariant.{IsTable, initial_store-IsTable}
use cse_320_repository.Bdd.Lookup.Correct.{IsCall, IsNode, bdd_lookup-IsNode, bdd_lookup-known}
use cse_320_repository.Bdd.Image.{pixel}
use cse_320_repository.Bdd.Raster.{bdd_min_level, bdd_from_raster}
use cse_320_repository.Bdd.Raster.Split.{IsRaster}
use cse_320_repository.Bdd.Raster.Build.{IsLoaded, bdd_from_raster-IsLoaded}
use cse_320_repository.Bdd.Apply.{bdd_apply, bdd_to_raster, to_uchar}
use cse_320_repository.Bdd.Apply.Correct.{bdd_apply-pixel}
use cse_320_repository.Bdd.Apply.Raster.{from_to_raster}
use cse_320_repository.Bdd.Transform.{bdd_map, bdd_zoom, bdd_rotate}
use cse_320_repository.Base.Bits.{low}
use cse_320_repository.Bdd.Build.{IsBuilt}
use cse_320_repository.Bdd.Transform.Rotate.{bdd_rotate-IsBuilt}
use cse_320_repository.Bdd.Transform.Visit.{IsRedrawn}
use cse_320_repository.Bdd.Transform.Map.{bdd_map-IsRedrawn}
use cse_320_repository.Bdd.Transform.Zoom.{bdd_zoom-IsRedrawn}
use cse_320_repository.Bdd.Birp.{negate_operation, birp_to_birp}
use cse_320_repository.Bdd.Birp.Pictures.{IsDrawnImage, birp_to_birp-negated, birp_to_birp-enlarged}
use cse_320_repository.Bdd.Serialize.{
  bdd_serialize, helping_bdd_serialize_recursive_function, visit_child, visit_leaf, write_node,
  child_serial, set_index, initialize_bdd_index_map, print_serial_number_child, count_loop,
}
use cse_320_repository.Bdd.Deserialize.{
  Streams, bdd_deserialize, fgetc, deserialize_loop, read_serial, construct, get_index, put_index,
  four_byte_into_integer, my_pow,
}
use cse_320_repository.Bdd.Deserialize.RoundTrip.{serialize_deserialize}

abbrev two_by_two : List ℕ
two_by_two = 1 ∷ 2 ∷ 2 ∷ 1 ∷ []

two_by_two-bytes : (i : ℕ) → i < length two_by_two → get_or two_by_two i 0 < 256
two_by_two-bytes zero h = omega arith
two_by_two-bytes (suc zero) h = omega arith
two_by_two-bytes (suc (suc zero)) h = omega arith
two_by_two-bytes (suc (suc (suc zero))) h = omega arith
two_by_two-bytes (suc (suc (suc (suc i)))) h = absurd (omega arith)

two_by_two-IsRaster : IsRaster two_by_two 2 2
two_by_two-IsRaster = record { size = refl; bytes = two_by_two-bytes }

from_to_raster_example :
    Returns
      (λ result t. (p : ℕ) × (result ≡ some p) × (bdd_to_raster p 2 2 t ≡ some two_by_two))
      (bdd_from_raster (pos 2) (pos 2) two_by_two initial_store)
unfolding bdd_min_level
from_to_raster_example =
    from_to_raster two_by_two 2 2 initial_store two_by_two-IsRaster initial_store-IsTable
      (omega arith)

bdd_from_raster-IsLoaded_example :
    Returns
      (IsLoaded two_by_two 2 2 initial_store)
      (bdd_from_raster (pos 2) (pos 2) two_by_two initial_store)
unfolding bdd_min_level
bdd_from_raster-IsLoaded_example =
    bdd_from_raster-IsLoaded two_by_two 2 2 initial_store two_by_two-IsRaster initial_store-IsTable
      (omega arith)

first-IsCall : IsCall initial_store 1 7 9
first-IsCall = record {
  left_used = omega arith;
  right_used = omega arith;
  left_level = omega arith;
  right_level = omega arith;
  char_level = omega arith;
  room = omega arith;
}

bdd_lookup-IsNode_example : Returns (IsNode initial_store 1 7 9) (bdd_lookup 1 7 9 initial_store)
bdd_lookup-IsNode_example = bdd_lookup-IsNode 1 7 9 initial_store initial_store-IsTable first-IsCall

-- The store after the first node.
one_node : Store
one_node = record initial_store {
  nodes = update initial_store.nodes 256 (node 1 7 9);
  hash_map = update initial_store.hash_map 17 (some 256);
  free_node_counter = 257;
}

bdd_lookup_runs : bdd_lookup 1 7 9 initial_store ≡ some (256, one_node)
unfolding bdd_lookup first_look hash_function insert_node one_node
bdd_lookup_runs = refl

one_node-IsTable : IsTable one_node
one_node-IsTable =
    let n : IsNode initial_store 1 7 9 256 one_node =
      Returns-at (IsNode initial_store 1 7 9) 256 one_node
        (bdd_lookup-IsNode 1 7 9 initial_store initial_store-IsTable first-IsCall)
        bdd_lookup_runs in
    n.table

bdd_lookup-known_example : bdd_lookup 1 7 9 one_node ≡ some (256, one_node)
unfolding one_node
bdd_lookup-known_example =
    bdd_lookup-known one_node 256 one_node-IsTable (omega arith) (omega arith)

bdd_apply-pixel_example : bdd_apply 256 0 1 one_node ≡ some 9
unfolding one_node pixel
bdd_apply-pixel_example =
    bdd_apply-pixel one_node one_node-IsTable 0 1 256 (omega arith) (omega arith) (omega arith)

-- The diagram of one node, inverted and enlarged.
bdd_map-IsRedrawn_example :
    Returns
      (IsRedrawn 1 (λ r c. to_uchar (255 - pixel one_node.nodes 1 256 r c)) one_node)
      (bdd_map 256 (λ x. 255 - x) one_node)
unfolding one_node
bdd_map-IsRedrawn_example =
    bdd_map-IsRedrawn (λ x. 255 - x) 256 one_node one_node-IsTable (omega arith) (omega arith)
      (omega arith)

bdd_zoom-IsRedrawn_example :
    Returns
      (IsRedrawn 3 (λ r c. pixel one_node.nodes 1 256 (r / 2 ^ 1) (c / 2 ^ 1)) one_node)
      (bdd_zoom 256 1 one_node)
unfolding one_node
bdd_zoom-IsRedrawn_example =
    bdd_zoom-IsRedrawn 1 256 one_node one_node-IsTable (omega arith) (omega arith) (omega arith)
      (omega arith) (omega arith)

bdd_rotate-IsBuilt_example :
    Returns
      (IsBuilt 2 2 (λ i j. pixel one_node.nodes 1 256 (low 1 j) (2 ^ 1 - 1 - low 1 i)) one_node)
      (bdd_rotate 256 2 one_node)
unfolding one_node
bdd_rotate-IsBuilt_example =
    bdd_rotate-IsBuilt 1 256 one_node one_node-IsTable (omega arith) (omega arith) (omega arith)
      (omega arith) (omega arith)

one_node-levels : (j : ℕ) → 256 ≤ j → j < one_node.free_node_counter → (one_node.nodes j).level ≤ 32
unfolding one_node
one_node-levels j low used =
    let only : 256 ≡ j = omega (arith, low, used) in
    subst (λ x. (one_node.nodes x).level ≤ 32) only (omega arith)

serialize_deserialize_example :
    (bytes : List ℕ) × (t : Store) × (bdd_serialize 256 one_node ≡ some ((true, bytes), t))
    × ((st : Streams)
        → st 0 ≡ bytes
        → (u : Store) × (bdd_deserialize 0 st t ≡ some (some 256, u)) × (u.nodes ≡ one_node.nodes))
unfolding one_node
serialize_deserialize_example =
    serialize_deserialize one_node 256 one_node-IsTable (omega arith) one_node-levels (omega arith)
      (omega arith)

-- The bytes of a single node, and the table that is made from them.
serialized : List ℕ
serialized = 64 ∷ 7 ∷ 64 ∷ 9 ∷ 65 ∷ 1 ∷ 0 ∷ 0 ∷ 0 ∷ 2 ∷ 0 ∷ 0 ∷ 0 ∷ []

pointer_of : Option (Option ℕ × Store) → Option ℕ
pointer_of none = none
pointer_of (some (p, t)) = p

written_of : Option ((Bool × List ℕ) × Store) → List ℕ
written_of none = []
written_of (some ((result, bytes), t)) = bytes

serialize_runs : written_of (bdd_serialize 256 one_node) ≡ serialized
unfolding written_of serialized one_node bdd_serialize helping_bdd_serialize_recursive_function
    visit_child visit_leaf write_node child_serial set_index initialize_bdd_index_map
    print_serial_number_child count_loop bdd_lookup first_look hash_function insert_node
serialize_runs = refl

deserialize_runs : pointer_of (bdd_deserialize 0 (λ f. serialized) initial_store) ≡ some 256
unfolding pointer_of serialized bdd_deserialize fgetc deserialize_loop read_serial construct
    get_index put_index set_index initialize_bdd_index_map four_byte_into_integer my_pow bdd_lookup
    first_look hash_function insert_node
deserialize_runs = refl

birp_to_birp-negated_example :
    Returns
      (IsDrawnImage 1
        (λ r c. to_uchar (negate_operation (pixel one_node.nodes 1 256 r c)))
        2
        1
        one_node)
      (birp_to_birp 256 256 2 1 one_node)
unfolding one_node
birp_to_birp-negated_example =
    birp_to_birp-negated 256 256 2 1 one_node refl one_node-IsTable (omega arith) (omega arith)
      (λ e. omega (arith, e)) (omega arith)

-- The options of an enlargement by 2, transformation 3 and parameter 1.
birp_to_birp-enlarged_example :
    Returns
      (IsDrawnImage 3 (λ r c. pixel one_node.nodes 1 256 (r / 2 ^ 1) (c / 2 ^ 1)) 4 2 one_node)
      (birp_to_birp 66304 256 2 1 one_node)
unfolding one_node bdd_min_level
birp_to_birp-enlarged_example =
    birp_to_birp-enlarged 66304 256 2 1 one_node refl (omega arith) (omega arith) (omega arith)
      (omega arith) (omega arith) one_node-IsTable (omega arith) (omega arith) (omega arith)
