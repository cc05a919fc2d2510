-- ===== src/Bdd/Deserialize/RoundTrip.antt =====
-- `bdd_serialize` and `bdd_deserialize` of hw1/src/bdd.c one after the other.
use cse_320_repository.Base.{
  ℕ, zero, suc, ◌+◌, ◌-◌, ◌^◌, ◌≤◌, ◌<◌, ◌≡◌, ◌≢◌, refl, sym, ap, ◌∙◌, true, ==_ne, ge→ltb, gt→leb,
  Option, some, List, [], ◌∷◌, ◌++◌, length, update, arith,
}
use cse_320_repository.Bdd.Store.{Store, bdd_num_leaves, bdd_nodes_max}
use cse_320_repository.Bdd.Lookup.Invariant.{IsTable}
use cse_320_repository.Bdd.Serialize.{
  helping_bdd_serialize_recursive_function, bdd_serialize, initialize_bdd_index_map,
}
use cse_320_repository.Bdd.Deserialize.{
  Streams, eof, first_byte, later_bytes, fgetc, deserialize_loop, bdd_deserialize,
}
use cse_320_repository.Bdd.Deserialize.Numbers.{indexed, IsNumbered}
use cse_320_repository.Bdd.Deserialize.Written.{IsWritten}
use cse_320_repository.Bdd.Deserialize.Recursion.{node-IsWritten}

append_nil : (xs : List ℕ) → xs ++ [] ≡ xs
append_nil [] = refl
append_nil (x ∷ xs) = ap (λ l. x ∷ l) (append_nil xs)

no_numbers : (bound : ℕ) → IsNumbered bound (λ i. 0) (λ i. 0) 1
no_numbers bound = record {
  one = omega arith;
  counted = omega arith;
  below = λ k h p. absurd (p refl);
  back = λ k h p. absurd (p refl);
}

-- The end of the loop.
loop_end :
    (fuel n : ℕ) (st : Streams) (s : Store)
    → 1 ≤ fuel
    → deserialize_loop fuel 0 n eof st s ≡ some (some n, s)
unfolding deserialize_loop
loop_end zero n st s h = absurd (omega (arith, h))
loop_end (suc fuel) n st s h = refl

-- The bytes read back into a store with the same table.
module _ (s : Store) (k : ℕ) (run : Option ((ℕ × List ℕ) × Store))
    (w : IsWritten s k 1 (λ i. 0) (λ i. 0) run) (low : bdd_num_leaves ≤ k)
    (used : k < s.free_node_counter) (small : k < bdd_nodes_max) where
  loop-known :
      (st : Streams)
      → st 0 ≡ w.bytes
      → deserialize_loop
          (suc (length (st 0)))
          0
          1
          (first_byte (st 0))
          (update st 0 (later_bytes (st 0)))
          (indexed s (λ i. 0))
        ≡ some (some w.next, indexed s w.decoded_map)
  loop-known st q =
      let size : length (st 0) ≡ length w.bytes = ap length q in
      let fuel = suc (length (st 0)) - w.decoded.steps in
      let (rest, end, run) =
        w.decoded.runs fuel (suc (length (st 0))) [] (update st 0 (later_bytes (st 0)))
          (omega (arith, size, w.decoded.short)) (ap later_bytes (q ∙ sym (append_nil w.bytes))) in
      ap
        (λ x.
          deserialize_loop (suc (length (st 0))) 0 1 x (update st 0 (later_bytes (st 0)))
            (indexed s (λ i. 0)))
        (ap first_byte (q ∙ sym (append_nil w.bytes)))
      ∙ run
      ∙ loop_end fuel w.next rest (indexed s w.decoded_map) (omega (arith, size, w.decoded.short))

  last_index : w.decoded_map (w.next - 1) ≡ k
  last_index = ap w.decoded_map (omega (arith, w.newest refl)) ∙ w.numbered.back k used w.written

  next_large : w.next ≢ 1
  next_large e = w.written (omega (arith, e, w.newest refl))

  read_back :
      (g : ℕ → ℕ) (st : Streams)
      → st 0 ≡ w.bytes
      → bdd_deserialize 0 st (indexed s g) ≡ some (some k, indexed s w.decoded_map)
  unfolding bdd_deserialize fgetc initialize_bdd_index_map
  read_back g st q =
      rw
        (
          loop-known st q,
          ==_ne w.next 1 next_large,
          last_index,
          ge→ltb k bdd_num_leaves low,
          gt→leb (2 ^ 31) k (omega (arith, small)),
          bdd_deserialize,
        )
        (ap (λ x. some (some x, indexed s w.decoded_map)) last_index)

-- On a node in use of a well-formed table that is not full, whose levels are at most 32,
-- bdd_serialize succeeds, and bdd_deserialize on the bytes that it wrote, read from stdin, returns
-- the same node and leaves the nodes as they were.
pub serialize_deserialize :
    (s : Store) (k : ℕ)
    → IsTable s
    → s.free_node_counter + 1 < bdd_nodes_max
    → ((j : ℕ) → bdd_num_leaves ≤ j → j < s.free_node_counter → (s.nodes j).level ≤ 32)
    → bdd_num_leaves ≤ k
    → k < s.free_node_counter
    → (bytes : List ℕ) × (t : Store) × (bdd_serialize k s ≡ some ((true, bytes), t))
      × ((st : Streams)
          → st 0 ≡ bytes
          → (u : Store) × (bdd_deserialize 0 st t ≡ some (some k, u)) × (u.nodes ≡ s.nodes))
unfolding bdd_serialize initialize_bdd_index_map
serialize_deserialize s k v room levels low used =
    let run =
      helping_bdd_serialize_recursive_function (suc (s.nodes k).level) (s.nodes k).level
        (s.nodes k).left (s.nodes k).right 1 (indexed s (λ i. 0)) in
    let w : IsWritten s k 1 (λ i. 0) (λ i. 0) run =
      node-IsWritten s v room levels (s.nodes k).level k 1 (λ i. 0) (λ i. 0) low used (omega arith)
        (no_numbers s.free_node_counter) in
    let fuel : suc (s.nodes k).level ≡ (s.nodes k).level + 1 = omega arith in
    (
      w.bytes,
      indexed s w.numbers,
      rw
          (
            ==_ne (s.nodes k).level 69 (λ e. omega (arith, e, levels k low used)),
            sym fuel,
            w.ran,
            ==_ne w.next 1 (next_large s k run w low used (omega (arith, used, room))),
            bdd_serialize,
          )
          refl,
      λ st q. (
        indexed s w.decoded_map,
        read_back s k run w low used (omega (arith, used, room)) w.numbers st q,
        refl,
      ),
    )
