-- ===== src/Bdd/Deserialize/Recursion.antt =====
-- The recursion of `bdd_serialize` in hw1/src/bdd.c on a whole diagram.
use cse_320_repository.Base.{
  ℕ, zero, suc, ◌+◌, ◌≤◌, ◌<◌, ◌==◌, ◌≡◌, refl, inl, inr, Bool-cases, if-true, if-false, ==_iff,
  ==_eq, ==_ne, ltb→lt, ltb→ge, ge→ltb, ltb, arith,
}
use cse_320_repository.Bdd.Store.{Store, bdd_num_leaves, bdd_nodes_max}
use cse_320_repository.Bdd.Lookup.Invariant.{IsTable, level_of}
use cse_320_repository.Bdd.Serialize.{visit_child, helping_bdd_serialize_recursive_function}
use cse_320_repository.Bdd.Deserialize.Numbers.{indexed, lookup_indexed, IsNumbered}
use cse_320_repository.Bdd.Deserialize.Written.{
  IsWritten, seen-IsWritten, leaf-IsWritten, new-IsWritten,
}

module _ (s : Store) (v : IsTable s) (room : s.free_node_counter + 1 < bdd_nodes_max)
    (levels : (k : ℕ) → bdd_num_leaves ≤ k → k < s.free_node_counter → (s.nodes k).level ≤ 32) where
  child-IsWritten :
      (fuel j m : ℕ) (g d : ℕ → ℕ)
      → IsNumbered s.free_node_counter g d m
      → (bdd_num_leaves ≤ j
          → IsWritten s j m g d (
              helping_bdd_serialize_recursive_function
                (suc fuel)
                (s.nodes j).level
                (s.nodes j).left
                (s.nodes j).right
                m
                (indexed s g)))
      → IsWritten s j m g d
          (visit_child (helping_bdd_serialize_recursive_function (suc fuel)) j m (indexed s g))
  unfolding visit_child
  child-IsWritten fuel j m g d u inner = elim (Bool-cases (ltb j bdd_num_leaves)) [
    | inl leaf ↦
        if-true (IsWritten s j m g d) _ _ leaf
          (leaf-IsWritten s v room levels fuel j m g d (ltb→lt j bdd_num_leaves leaf) u)
    | inr node ↦ if-false (IsWritten s j m g d) _ _ node (inner (ltb→ge j bdd_num_leaves node))
  ]

  inner_level : (j : ℕ) → bdd_num_leaves ≤ j → level_of s.nodes j ≡ (s.nodes j).level
  inner_level j h =
      if-false (λ x. x ≡ (s.nodes j).level) 0 (s.nodes j).level (ge→ltb j bdd_num_leaves h) refl

  pub node-IsWritten :
      (fuel k n : ℕ) (g d : ℕ → ℕ)
      → bdd_num_leaves ≤ k
      → k < s.free_node_counter
      → (s.nodes k).level ≤ fuel
      → IsNumbered s.free_node_counter g d n
      → IsWritten s k n g d (
          helping_bdd_serialize_recursive_function
            (suc fuel)
            (s.nodes k).level
            (s.nodes k).left
            (s.nodes k).right
            n
            (indexed s g))
  unfolding helping_bdd_serialize_recursive_function
  node-IsWritten zero k n g d low used enough u =
      absurd (omega (arith, enough, (v.shaped k low used).left_level))
  node-IsWritten (suc fuel) k n g d low used enough u = elim (Bool-cases (g k == 0)) [
    | inl new ↦
        let shape = v.shaped k low used in
        let l = (s.nodes k).left in
        let r = (s.nodes k).right in
        let x = child-IsWritten fuel l n g d u (λ h.
          node-IsWritten fuel l n g d h (omega (arith, shape.left_below, used))
            (omega (arith, inner_level l h, shape.left_level, enough)) u) in
        let y = child-IsWritten fuel r x.next x.numbers x.decoded_map x.numbered (λ h.
          node-IsWritten fuel r x.next x.numbers x.decoded_map h
            (omega (arith, shape.right_below, used))
            (omega (arith, inner_level r h, shape.right_level, enough)) x.numbered) in
        new-IsWritten s v room levels (suc fuel) k n g d low used ((==_iff (g k) 0).0 new) x y
    | inr old ↦
        seen-IsWritten s v room levels k n g d _ u (λ e. absurd (cc (old, ==_eq e)))
          (rw
            (
              ==_ne (s.nodes k).level 0 (λ e. omega (arith, e, (v.shaped k low used).left_level)),
              lookup_indexed s g k v low used,
              old,
              helping_bdd_serialize_recursive_function,
            )
            refl)
  ]
