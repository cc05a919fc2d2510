-- ===== src/Bdd/Lookup/Invariant.antt =====
-- What holds of the unique table of hw1/src/bdd.c between two calls.
use cse_320_repository.Base.{
  ℕ, zero, suc, ◌+◌, ◌%◌, ◌≤◌, ◌<◌, ◌≡◌, ◌≢◌, refl, inl, inr, Option, none, some, if◌then◌else◌,
  ltb, update, update_ne, arith, Option-cases,
}
use cse_320_repository.Bdd.Store.{
  Node, Store, initial_store, bdd_num_leaves, bdd_nodes_max, bdd_hash_size,
}
use cse_320_repository.Bdd.Lookup.{hash_function}

-- A leaf has level 0, and its index for a value.
abbrev pub level_of : (ℕ → Node) → ℕ → ℕ
level_of nodes k = if ltb k bdd_num_leaves then 0 else (nodes k).level

-- The slot that is probed at offset `i`.
abbrev pub slot : ℕ → ℕ → ℕ
slot hashed i = (hashed + i) % bdd_hash_size

abbrev pub key_of : Node → ℕ
key_of n = hash_function n.left n.right n.level

-- Probing for the node at `k` meets its pointer before any empty slot.
pub record IsReached (s : Store) (k : ℕ) : Type 0 where
  pub offset : ℕ
  pub in_range : offset < bdd_hash_size
  pub found : s.hash_map (slot (key_of (s.nodes k)) offset) ≡ some k
  pub before : (i : ℕ) → i < offset → s.hash_map (slot (key_of (s.nodes k)) i) ≢ none

-- The node `n` at index `k` is reduced and stands above its children, in level and in index.
pub record IsShaped (nodes : ℕ → Node) (n : Node) (k : ℕ) : Type 0 where
  pub reduced : n.left ≢ n.right
  pub left_below : n.left < k
  pub right_below : n.right < k
  pub left_level : level_of nodes n.left < n.level
  pub right_level : level_of nodes n.right < n.level
  pub char_level : n.level < 128

-- How many of the first `n` slots hold a pointer.
pub occupied : (ℕ → Option ℕ) → ℕ → ℕ
occupied hash_map zero = 0
occupied hash_map (suc n) = occupied hash_map n + elim (hash_map n) [ none ↦ 0 | some _ ↦ 1 ]

pub record IsTable (s : Store) : Type 0 where
  pub leaves : bdd_num_leaves ≤ s.free_node_counter
  pub within : s.free_node_counter ≤ bdd_nodes_max
  pub stored : (i k : ℕ) → s.hash_map i ≡ some k → (bdd_num_leaves ≤ k) × (k < s.free_node_counter)
  pub load : occupied s.hash_map bdd_hash_size + bdd_num_leaves ≤ s.free_node_counter
  pub reached : (k : ℕ) → bdd_num_leaves ≤ k → k < s.free_node_counter → IsReached s k
  pub shaped :
      (k : ℕ) → bdd_num_leaves ≤ k → k < s.free_node_counter → IsShaped s.nodes (s.nodes k) k
  pub unique :
      (j k : ℕ)
      → bdd_num_leaves ≤ j
      → j < s.free_node_counter
      → bdd_num_leaves ≤ k
      → k < s.free_node_counter
      → s.nodes j ≡ s.nodes k
      → j ≡ k

-- The nodes of `s` are nodes of `t`.
pub record Extends (s t : Store) : Type 0 where
  pub grows : s.free_node_counter ≤ t.free_node_counter
  pub kept : (k : ℕ) → k < s.free_node_counter → t.nodes k ≡ s.nodes k

pub Extends-refl : (s : Store) → Extends s s
Extends-refl s = record { grows = omega arith; kept = λ k h. refl }

pub Extends-trans : {s t u : Store} → Extends s t → Extends t u → Extends s u
Extends-trans {s} {t} {u} e f = record {
  grows = omega arith;
  kept = λ k h. cc (e.kept k h, f.kept k (omega arith));
}

occupied-beyond :
    (f : ℕ → Option ℕ) (i v n : ℕ) → n ≤ i → occupied (update f i (some v)) n ≡ occupied f n
unfolding occupied
occupied-beyond f i v zero h = refl
occupied-beyond f i v (suc n) h =
    rw (update_ne f i n (some v) (omega arith), occupied-beyond f i v n (omega arith)) refl

pub occupied-update :
    (f : ℕ → Option ℕ) (i v n : ℕ)
    → f i ≡ none
    → i < n
    → occupied (update f i (some v)) n ≡ occupied f n + 1
unfolding occupied
occupied-update f i v zero e h = elim h [ ]
occupied-update f i v (suc n) e h =
    ground (arith, occupied-update f i v n e, occupied-beyond f i v n)

pub occupied_full : (f : ℕ → Option ℕ) (n : ℕ) → ((i : ℕ) → i < n → f i ≢ none) → occupied f n ≡ n
unfolding occupied
occupied_full f zero h = refl
occupied_full f (suc n) h = elim (Option-cases (f n)) [
  | inl e ↦ absurd (h n (omega arith) e)
  | inr (k, e) ↦ rw e (omega (arith, occupied_full f n (λ i lt. h i (omega arith))))
]

occupied-none : (n : ℕ) → occupied (λ i. none) n ≡ 0
unfolding occupied
occupied-none zero = refl
occupied-none (suc n) = omega (arith, occupied-none n)

-- The table is well formed before the first call.
pub initial_store-IsTable : IsTable initial_store
initial_store-IsTable = record {
  leaves = omega arith;
  within = omega arith;
  stored = λ i k e. cc e;
  load = omega (arith, occupied-none bdd_hash_size);
  reached = λ k low high. absurd (omega arith);
  shaped = λ k low high. absurd (omega arith);
  unique = λ j k jl jh kl kh e. absurd (omega arith);
}
