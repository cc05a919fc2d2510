-- ===== src/Bdd/Deserialize/Written.antt =====
-- What the recursion of `bdd_serialize` in hw1/src/bdd.c writes, and how it is read back.
use cse_320_repository.Base.{
  ℕ, suc, ◌+◌, ◌%◌, ◌≤◌, ◌<◌, ◌==◌, ◌≡◌, ◌≢◌, refl, sym, ap, ◌∙◌, inl, inr, Bool-cases, if-true,
  if-false, ==_iff, ==_eq, ==_ne, ltb→ge, ltb, Option, some, List, [], ◌∷◌, ◌++◌, update,
  update_self, update_ne, arith,
}
use cse_320_repository.Bdd.Store.{Store, bdd_num_leaves, bdd_nodes_max}
use cse_320_repository.Bdd.Lookup.Invariant.{IsTable, IsShaped}
use cse_320_repository.Bdd.Serialize.{
  print_serial_number_child, set_index, visit_leaf, child_serial, write_node, visit_child,
  helping_bdd_serialize_recursive_function,
}
use cse_320_repository.Bdd.Deserialize.Numbers.{
  indexed, lookup_indexed, marked_le, IsNumbered, IsNumbered-next,
}
use cse_320_repository.Bdd.Deserialize.Decode.{
  IsDecoded, IsDecoded-none, IsDecoded-append, leaf-IsDecoded, node-IsDecoded,
}

-- A run of the recursion on the index `k`, from the numbers `g` below `n`.
pub record IsWritten (s : Store) (k n : ℕ) (g d : ℕ → ℕ) (run : Option ((ℕ × List ℕ) × Store))
    : Type 0 where
  pub bytes : List ℕ
  pub next : ℕ
  pub numbers : ℕ → ℕ
  pub decoded_map : ℕ → ℕ
  pub ran : run ≡ some ((next, bytes), indexed s numbers)
  pub numbered : IsNumbered s.free_node_counter numbers decoded_map next
  pub kept : (i : ℕ) → g i ≢ 0 → numbers i ≡ g i
  pub above : (i : ℕ) → k < i → numbers i ≡ g i
  pub written : numbers k ≢ 0
  pub newest : g k ≡ 0 → next ≡ numbers k + 1
  pub decoded : IsDecoded s bytes n d next decoded_map

module _ (s : Store) (v : IsTable s) (room : s.free_node_counter + 1 < bdd_nodes_max)
    (levels : (k : ℕ) → bdd_num_leaves ≤ k → k < s.free_node_counter → (s.nodes k).level ≤ 32) where
  number-lt : (g d : ℕ → ℕ) (n : ℕ) → IsNumbered s.free_node_counter g d n → n < bdd_nodes_max
  number-lt g d n u = omega (arith, u.counted, marked_le g s.free_node_counter, room)

  -- An index that has a number.
  pub seen-IsWritten :
      (k n : ℕ) (g d : ℕ → ℕ) (run : Option ((ℕ × List ℕ) × Store))
      → IsNumbered s.free_node_counter g d n
      → g k ≢ 0
      → run ≡ some ((n, []), indexed s g)
      → IsWritten s k n g d run
  seen-IsWritten k n g d run u old ran = record {
    bytes = [];
    next = n;
    numbers = g;
    decoded_map = d;
    ran = ran;
    numbered = u;
    kept = λ i p. refl;
    above = λ i p. refl;
    written = old;
    newest = λ e. absurd (old e);
    decoded = IsDecoded-none s n d;
  }

  pub leaf-IsWritten :
      (fuel k n : ℕ) (g d : ℕ → ℕ)
      → k < 256
      → IsNumbered s.free_node_counter g d n
      → IsWritten s k n g d
          (helping_bdd_serialize_recursive_function (suc fuel) 0 k k n (indexed s g))
  unfolding helping_bdd_serialize_recursive_function visit_leaf set_index
  leaf-IsWritten fuel k n g d small u = elim (Bool-cases (g k == 0)) [
    | inl new ↦
        let fresh : g k ≡ 0 = (==_iff (g k) 0).0 new in
        record {
          bytes = 64 ∷ k % 256 ∷ [];
          next = n + 1;
          numbers = update g k n;
          decoded_map = update d n k;
          ran =
              if-true (λ o. o ≡ some ((n + 1, 64 ∷ k % 256 ∷ []), indexed s (update g k n))) _ _ new
                refl;
          numbered =
              IsNumbered-next s.free_node_counter g d n k u (omega (arith, small, v.leaves)) fresh;
          kept = λ i p. update_ne g k i n (λ e. p (ap g e ∙ fresh));
          above = λ i p. update_ne g k i n (omega (arith, p));
          written = λ e. omega (arith, e, update_self g k n, u.one);
          newest = λ e. omega (arith, update_self g k n);
          decoded = leaf-IsDecoded s k n d small (number-lt g d n u);
        }
    | inr old ↦
        seen-IsWritten k n g d _ u (λ e. absurd (cc (old, ==_eq e)))
          (if-false (λ o. o ≡ some ((n, []), indexed s g)) _ _ old refl)
  ]

  child_serial-known :
      (k : ℕ) (g : ℕ → ℕ)
      → k < s.free_node_counter
      → child_serial k (indexed s g) ≡ some (g k, indexed s g)
  unfolding child_serial
  child_serial-known k g used = elim (Bool-cases (ltb k bdd_num_leaves)) [
    | inl leaf ↦ if-true (λ o. o ≡ some (g k, indexed s g)) _ _ leaf refl
    | inr inner ↦
        if-false (λ o. o ≡ some (g k, indexed s g)) _ _ inner
          (rw (lookup_indexed s g k v (ltb→ge k bdd_num_leaves inner) used) refl)
  ]

  write_node-known :
      (k level l r n : ℕ) (g : ℕ → ℕ)
      → l < s.free_node_counter
      → r < s.free_node_counter
      → write_node k level l r n (indexed s g)
        ≡ some (
          (
            n + 1,
            (64 + level) % 256
                ∷ (print_serial_number_child (update g k n l)
                    ++ print_serial_number_child (update g k n r)),
          ),
          indexed s (update g k n),
        )
  unfolding write_node set_index
  write_node-known k level l r n g hl hr =
      rw
        (child_serial-known l (update g k n) hl, write_node, child_serial-known r (update g k n) hr)
        refl

  -- A node that has no number, between the runs on its children and its own bytes.
  module _ (fuel k n : ℕ) (g d : ℕ → ℕ) (low : bdd_num_leaves ≤ k) (used : k < s.free_node_counter)
      (fresh : g k ≡ 0)
      (x : IsWritten s (s.nodes k).left n g d (
        visit_child
          (helping_bdd_serialize_recursive_function fuel)
          (s.nodes k).left
          n
          (indexed s g)))
      (y : IsWritten s (s.nodes k).right x.next x.numbers x.decoded_map (
        visit_child
          (helping_bdd_serialize_recursive_function fuel)
          (s.nodes k).right
          x.next
          (indexed s x.numbers))) where
    shape : IsShaped s.nodes (s.nodes k) k
    shape = v.shaped k low used

    still_fresh : y.numbers k ≡ 0
    still_fresh = y.above k shape.right_below ∙ x.above k shape.left_below ∙ fresh

    left_number : update y.numbers k y.next (s.nodes k).left ≡ y.numbers (s.nodes k).left
    left_number =
        update_ne y.numbers k (s.nodes k).left y.next (λ e. omega (arith, e, shape.left_below))

    right_number : update y.numbers k y.next (s.nodes k).right ≡ y.numbers (s.nodes k).right
    right_number =
        update_ne y.numbers k (s.nodes k).right y.next (λ e. omega (arith, e, shape.right_below))

    left_written : y.numbers (s.nodes k).left ≢ 0
    left_written e = x.written (sym (y.kept (s.nodes k).left x.written) ∙ e)

    new_bytes : List ℕ
    new_bytes =
        (64 + (s.nodes k).level) % 256
        ∷ (print_serial_number_child (update y.numbers k y.next (s.nodes k).left)
            ++ print_serial_number_child (update y.numbers k y.next (s.nodes k).right))

    positive : 1 ≤ (s.nodes k).level
    positive = omega (arith, shape.left_level)

    new-ran :
        helping_bdd_serialize_recursive_function
          (suc fuel)
          (s.nodes k).level
          (s.nodes k).left
          (s.nodes k).right
          n
          (indexed s g)
        ≡ some
            ((y.next + 1, x.bytes ++ y.bytes ++ new_bytes), indexed s (update y.numbers k y.next))
    unfolding helping_bdd_serialize_recursive_function new_bytes
    new-ran =
        rw
          (
            ==_ne (s.nodes k).level 0 (λ e. omega (arith, e, positive)),
            lookup_indexed s g k v low used,
            ==_eq fresh,
            x.ran,
            y.ran,
            write_node-known k (s.nodes k).level (s.nodes k).left (s.nodes k).right y.next y.numbers
                (omega (arith, shape.left_below, used)) (omega (arith, shape.right_below, used)),
            helping_bdd_serialize_recursive_function,
          )
          refl

    new-IsDecoded :
        IsDecoded s new_bytes y.next y.decoded_map (y.next + 1) (update y.decoded_map y.next k)
    unfolding new_bytes
    new-IsDecoded =
        let u = y.numbered in
        let hn : y.next < bdd_nodes_max = number-lt y.numbers y.decoded_map y.next u in
        let hl : (s.nodes k).left < s.free_node_counter = omega (arith, shape.left_below, used) in
        let hr : (s.nodes k).right < s.free_node_counter = omega (arith, shape.right_below, used) in
        node-IsDecoded s y.decoded_map k y.next _ _ v low used positive (levels k low used)
          (omega (arith, left_number, u.below (s.nodes k).left hl left_written, hn))
          (omega (arith, right_number, u.below (s.nodes k).right hr y.written, hn)) hn
          (ap y.decoded_map left_number ∙ u.back (s.nodes k).left hl left_written)
          (ap y.decoded_map right_number ∙ u.back (s.nodes k).right hr y.written)

    pub new-IsWritten : IsWritten s k n g d (
        helping_bdd_serialize_recursive_function
          (suc fuel)
          (s.nodes k).level
          (s.nodes k).left
          (s.nodes k).right
          n
          (indexed s g))
    new-IsWritten =
        let other : (i : ℕ) → i ≢ k → update y.numbers k y.next i ≡ y.numbers i =
          λ i p. update_ne y.numbers k i y.next p in
        record {
          bytes = x.bytes ++ y.bytes ++ new_bytes;
          next = y.next + 1;
          numbers = update y.numbers k y.next;
          decoded_map = update y.decoded_map y.next k;
          ran = new-ran;
          numbered =
              IsNumbered-next s.free_node_counter y.numbers y.decoded_map y.next k y.numbered used
                still_fresh;
          kept = λ i p.
              let same : x.numbers i ≡ g i = x.kept i p in
              other i (λ e. p (ap g e ∙ fresh)) ∙ y.kept i (λ z. p (sym same ∙ z)) ∙ same;
          above = λ i p.
              other i (λ e. omega (arith, e, p))
              ∙ y.above i (omega (arith, p, shape.right_below))
              ∙ x.above i (omega (arith, p, shape.left_below));
          written = λ e. omega (arith, e, update_self y.numbers k y.next, y.numbered.one);
          newest = λ e. omega (arith, update_self y.numbers k y.next);
          decoded = IsDecoded-append (IsDecoded-append x.decoded y.decoded) new-IsDecoded;
        }
