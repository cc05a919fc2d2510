-- ===== src/Bdd/Lookup/Insert.antt =====
-- `bdd_lookup` of hw1/src/bdd.c where probing ends at an empty slot: the map is never full, the key
-- is new, and the table with the new node is well formed.
use cse_320_repository.Base.{
  ℕ, ◌+◌, ◌-◌, ◌%◌, ◌≤◌, ◌<◌, ◌≡◌, ◌≢◌, refl, sym, ap, subst, ◌∙◌, inl, inr, Option, none, some,
  arith, Bool-cases, ◌==◌, ==_iff, update, update_self, update_ne, ltb,
}
use cse_320_repository.Bdd.Store.{node, Store, bdd_num_leaves, bdd_nodes_max, bdd_hash_size}
use cse_320_repository.Bdd.Lookup.{hash_function}
use cse_320_repository.Bdd.Lookup.Invariant.{
  slot, key_of, level_of, IsReached, IsShaped, IsTable, occupied-update, occupied_full,
}
use cse_320_repository.Bdd.Lookup.Scan.{Passed, Gap}

hash_function-lt : (left right level : ℕ) → hash_function left right level < bdd_hash_size
unfolding hash_function
hash_function-lt left right level = omega arith

slot_offset :
    (h i : ℕ)
    → h < bdd_hash_size
    → i < bdd_hash_size
    → slot h ((i + bdd_hash_size - h) % bdd_hash_size) ≡ i
slot_offset h i p q = omega arith

some≢none : {i : ℕ} (o : Option ℕ) → o ≡ some i → o ≢ none
some≢none o e h = cc

module _ (level left right : ℕ) (s : Store) (v : IsTable s) where
  abbrev pub key : ℕ
  key = hash_function left right level

  -- In a well-formed table no key's probe sequence meets other nodes at all of its offsets.
  pub never_full : ¬ ((t : ℕ) → t < bdd_hash_size → Passed key level left right s t)
  never_full all =
      absurd (omega (arith, v.load, v.within, occupied_full s.hash_map bdd_hash_size full))
    where
      full : (i : ℕ) → i < bdd_hash_size → s.hash_map i ≢ none
      full i lt =
          let t : ℕ = (i + bdd_hash_size - key) % bdd_hash_size in
          let p : Passed key level left right s t = all t (omega arith) in
          subst (λ m. s.hash_map m ≢ none)
            (slot_offset key i (hash_function-lt left right level) lt) (some≢none _ p.points)

  module _ {run : Option (ℕ × Store)} (gap : Gap key level left right s run) where
    -- No node of the table has the key that probing did not find.
    pub absent :
        (k : ℕ) → bdd_num_leaves ≤ k → k < s.free_node_counter → s.nodes k ≢ node level left right
    absent k low high e = elim (Bool-cases (ltb r.offset gap.offset)) [
      | inl earlier ↦
          let p : Passed key level left right s r.offset = gap.passed r.offset (ground arith) in
          p.other (subst (λ m. s.nodes m ≡ node level left right) (cc (found, p.points)) e)
      | inr late ↦ elim (Bool-cases (r.offset == gap.offset)) [
        | inl same ↦
            some≢none (s.hash_map (slot key gap.offset))
              (subst (λ m. s.hash_map (slot key m) ≡ some k) (ground arith) found) gap.empty
        | inr after ↦
            subst (λ h. s.hash_map (slot h gap.offset) ≢ none) (ap key_of e)
              (r.before gap.offset (ground arith)) gap.empty
      ]
    ]
      where
        r : IsReached s k
        r = v.reached k low high

        found : s.hash_map (slot key r.offset) ≡ some k
        found = subst (λ h. s.hash_map (slot h r.offset) ≡ some k) (ap key_of e) r.found

    abbrev pub grown : Store
    grown = record s {
      nodes = update s.nodes s.free_node_counter (node level left right);
      hash_map = update s.hash_map (slot key gap.offset) (some s.free_node_counter);
      free_node_counter = s.free_node_counter + 1;
    }

    pub kept : (k : ℕ) → k < s.free_node_counter → grown.nodes k ≡ s.nodes k
    kept k h = update_ne s.nodes s.free_node_counter k _ (omega arith)

    pub fresh : grown.nodes s.free_node_counter ≡ node level left right
    fresh = update_self s.nodes s.free_node_counter _

    map_kept : (i k : ℕ) → s.hash_map i ≡ some k → grown.hash_map i ≡ some k
    map_kept i k e = elim (Bool-cases (i == slot key gap.offset)) [
      | inl same ↦ absurd (
          some≢none (s.hash_map (slot key gap.offset))
            (subst (λ m. s.hash_map m ≡ some k) ((==_iff i _).0 same) e) gap.empty)
      | inr other ↦ rw other e
    ]

    map_filled : (i : ℕ) → s.hash_map i ≢ none → grown.hash_map i ≢ none
    map_filled i h e = elim (Bool-cases (i == slot key gap.offset)) [
      | inl same ↦ some≢none (some s.free_node_counter) refl (rw same at e)
      | inr other ↦ h (rw other at e)
    ]

    IsReached-old : (k : ℕ) → bdd_num_leaves ≤ k → k < s.free_node_counter → IsReached grown k
    IsReached-old k low high = record {
      offset = r.offset;
      in_range = r.in_range;
      found =
          subst (λ n. grown.hash_map (slot (key_of n) r.offset) ≡ some k) (sym (kept k high))
            (map_kept _ k r.found);
      before = λ i lt.
          subst (λ n. grown.hash_map (slot (key_of n) i) ≢ none) (sym (kept k high))
            (map_filled _ (r.before i lt));
    }
      where
        r : IsReached s k
        r = v.reached k low high

    IsReached-new : IsReached grown s.free_node_counter
    IsReached-new = record {
      offset = gap.offset;
      in_range = gap.in_range;
      found =
          subst (λ n. grown.hash_map (slot (key_of n) gap.offset) ≡ some s.free_node_counter)
            (sym fresh) (update_self s.hash_map (slot key gap.offset) _);
      before = λ i lt.
          subst (λ n. grown.hash_map (slot (key_of n) i) ≢ none) (sym fresh)
            (map_filled _ (some≢none _ (gap.passed i lt).points));
    }

    level_kept : (k : ℕ) → k < s.free_node_counter → level_of grown.nodes k ≡ level_of s.nodes k
    level_kept k h = rw (kept k h)

    stored_grown :
        (i k : ℕ) → grown.hash_map i ≡ some k → (bdd_num_leaves ≤ k) × (k < grown.free_node_counter)
    stored_grown i k e = elim (Bool-cases (i == slot key gap.offset)) [
      | inl same ↦
          let q : some s.free_node_counter ≡ some k = rw same at e in
          let e' : s.free_node_counter ≡ k = cc q in omega (arith, v.leaves)
      | inr other ↦ omega (arith, v.stored i k (rw other at e))
    ]

    IsShaped-old :
        (k : ℕ)
        → bdd_num_leaves ≤ k
        → k < s.free_node_counter
        → IsShaped grown.nodes (grown.nodes k) k
    IsShaped-old k low high =
        subst (λ n. IsShaped grown.nodes n k) (sym (kept k high))
          (record {
            reduced = r.reduced;
            left_below = r.left_below;
            right_below = r.right_below;
            left_level =
                rw (level_kept (s.nodes k).left (omega (arith, r.left_below))) r.left_level;
            right_level =
                rw (level_kept (s.nodes k).right (omega (arith, r.right_below))) r.right_level;
            char_level = r.char_level;
          })
      where
        r : IsShaped s.nodes (s.nodes k) k
        r = v.shaped k low high

    unique_new :
        (k : ℕ)
        → bdd_num_leaves ≤ k
        → k < s.free_node_counter
        → grown.nodes k ≢ grown.nodes s.free_node_counter
    unique_new k low high e = absent k low high (sym (kept k high) ∙ e ∙ fresh)

    unique_grown :
        (j k : ℕ)
        → bdd_num_leaves ≤ j
        → j < grown.free_node_counter
        → bdd_num_leaves ≤ k
        → k < grown.free_node_counter
        → grown.nodes j ≡ grown.nodes k
        → j ≡ k
    unique_grown j k jl jh kl kh e = elim (Bool-cases (ltb j s.free_node_counter)) [
      | inl old_j ↦ elim (Bool-cases (ltb k s.free_node_counter)) [
        | inl old_k ↦
            v.unique j k jl (ground arith) kl (ground arith)
              (sym (kept j (ground arith)) ∙ e ∙ kept k (ground arith))
        | inr new_k ↦ absurd (
            unique_new j jl (ground arith)
              (subst (λ m. grown.nodes j ≡ grown.nodes m) (ground arith) e))
      ]
      | inr new_j ↦ elim (Bool-cases (ltb k s.free_node_counter)) [
        | inl old_k ↦ absurd (
            unique_new k kl (ground arith)
              (subst (λ m. grown.nodes k ≡ grown.nodes m) (ground arith) (sym e)))
        | inr new_k ↦ ground arith
      ]
    ]

    module _ (below : (left < s.free_node_counter) × (right < s.free_node_counter))
        (levels : (level_of s.nodes left < level)
          × (level_of s.nodes right < level)
          × (level < 128))
        (apart : left ≢ right) where
      IsShaped-new : IsShaped grown.nodes (grown.nodes s.free_node_counter) s.free_node_counter
      IsShaped-new =
          subst (λ n. IsShaped grown.nodes n s.free_node_counter) (sym fresh)
            (record {
              reduced = apart;
              left_below = below.0;
              right_below = below.1;
              left_level = rw (level_kept left below.0) levels.0;
              right_level = rw (level_kept right below.1) levels.1;
              char_level = levels.2;
            })

      by_age :
          (P : ℕ → Type 0)
          → ((k : ℕ) → bdd_num_leaves ≤ k → k < s.free_node_counter → P k)
          → P s.free_node_counter
          → (k : ℕ) → bdd_num_leaves ≤ k
          → k < grown.free_node_counter
          → P k
      by_age P old new k low high = elim (Bool-cases (ltb k s.free_node_counter)) [
        | inl h ↦ old k low (ground arith)
        | inr h ↦ subst P (ground arith) new
      ]

      pub grown-IsTable : s.free_node_counter < bdd_nodes_max → IsTable grown
      grown-IsTable room = record {
        leaves = omega (arith, v.leaves);
        within = omega arith;
        stored = stored_grown;
        load = omega (
          arith,
          v.load,
          occupied-update s.hash_map (slot key gap.offset) s.free_node_counter bdd_hash_size
              gap.empty (omega arith),
        );
        reached = by_age (λ k. IsReached grown k) IsReached-old IsReached-new;
        shaped = by_age (λ k. IsShaped grown.nodes (grown.nodes k) k) IsShaped-old IsShaped-new;
        unique = unique_grown;
      }
