-- ===== src/Bdd/Lookup.antt =====
-- `bdd_lookup` of hw1/src/bdd.c and `hashFunction` of hw1/src/helpingFunctions.c: the unique table,
-- an open-addressed hash map with linear probing.
pub mod Invariant
pub mod Scan
pub mod Insert
pub mod Correct
use cse_320_repository.Base.{
  ℕ, zero, suc, ◌+◌, ◌-◌, ◌%◌, Bool, true, false, ◌&&◌, Option, none, some, if◌then◌else◌, ◌==◌,
  ltb, update,
}
use cse_320_repository.Bdd.Store.{Node, node, Store, M, ◌>>=◌, bdd_nodes_max, bdd_hash_size}

unfoldable pub hash_function : ℕ → ℕ → ℕ → ℕ
hash_function left right level = (left + right + level) % bdd_hash_size

abbrev pub matches : Node → ℕ → ℕ → ℕ → Bool
matches n level left right = n.level == level && (n.left == left && n.right == right)

-- The new node goes to the free end of `bdd_nodes`, and a pointer to it to the empty slot. The
-- writes are within bounds only while `free_node_counter` is below BDD_NODES_MAX.
unfoldable pub insert_node : ℕ → ℕ → ℕ → ℕ → M ℕ
insert_node slot level left right s =
    if ltb s.free_node_counter bdd_nodes_max && ltb level 128
    then some (
      s.free_node_counter,
      record s {
        nodes = update s.nodes s.free_node_counter (node level left right);
        hash_map = update s.hash_map slot (some s.free_node_counter);
        free_node_counter = s.free_node_counter + 1;
      },
    )
    else none

-- The probing loop with `rounds` rounds left, at offset `i`; it falls through to `indexOutput`, 0.
unfoldable pub probe : (size rounds i hashed level left right : ℕ) → M ℕ
probe size zero i hashed level left right s = some (0, s)
probe size (suc rounds) i hashed level left right s = elim (s.hash_map ((hashed + i) % size)) [
  | none ↦ insert_node ((hashed + i) % size) level left right s
  | some k ↦ elim (matches (s.nodes k) level left right) [
    | true ↦ some (k, s)
    | false ↦ probe size rounds (i + 1) hashed level left right s
  ]
]

-- The look at the slot that the key hashes to, and the loop if another node is there.
unfoldable pub first_look : (size hashed level left right : ℕ) → M ℕ
first_look size hashed level left right s = elim (s.hash_map hashed) [
  | none ↦ insert_node hashed level left right s
  | some k ↦ elim (matches (s.nodes k) level left right) [
    | true ↦ some (k, s)
    | false ↦ probe size (size - 1) 1 hashed level left right s
  ]
]

unfoldable pub bdd_lookup : ℕ → ℕ → ℕ → M ℕ
bdd_lookup level left right s =
    if left == right
    then some (left, s)
    else first_look bdd_hash_size (hash_function left right level) level left right s

-- The two halves one after the other, then the node above them: the shape of every recursion.
unfoldable pub construct_node : ℕ → M ℕ → M ℕ → M ℕ
construct_node level first second = do left ← first; right ← second; bdd_lookup level left right
