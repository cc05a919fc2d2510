-- ===== src/Bdd/Deserialize/Decode.antt =====
-- What the loop of `bdd_deserialize` in hw1/src/bdd.c does on bytes that `bdd_serialize` writes.
use mathlib.Core.List.{append_assoc}
use cse_320_repository.Base.{
  ℕ, suc, ◌+◌, ◌-◌, ◌*◌, ◌%◌, ◌≤◌, ◌<◌, ◌==◌, ◌≡◌, refl, ap, ◌∙◌, ◌||◌, if◌then◌else◌, if-true,
  ==_ne, lt→ltb, le→leb, &&-true, Option, none, some, List, [], ◌∷◌, ◌++◌, length, length-append,
  update, arith,
}
use cse_320_repository.Bdd.Store.{Store, ◌>>=◌, bdd_num_leaves, bdd_nodes_max}
use cse_320_repository.Bdd.Lookup.Invariant.{IsTable}
use cse_320_repository.Bdd.Serialize.{set_index, print_serial_number_child}
use cse_320_repository.Bdd.Deserialize.{
  Streams, eof, first_byte, later_bytes, fgetc, four_byte_into_integer, my_pow, read_serial,
  get_index, put_index, construct, deserialize_loop,
}
use cse_320_repository.Bdd.Deserialize.Bytes.{IsBytes, print_serial_number_child-IsBytes}
use cse_320_repository.Bdd.Deserialize.Numbers.{indexed, lookup_indexed}

-- The loop over these bytes leads from the counter `n` and the map `d` to `m` and `e`.
pub record IsDecoded (s : Store) (bytes : List ℕ) (n : ℕ) (d : ℕ → ℕ) (m : ℕ) (e : ℕ → ℕ)
    : Type 0 where
  pub steps : ℕ
  pub short : steps ≤ length bytes
  pub runs :
      (fuel total : ℕ) (tail : List ℕ) (st : Streams)
      → total ≡ steps + fuel
      → st 0 ≡ later_bytes (bytes ++ tail)
      → (rest : Streams) × (rest 0 ≡ later_bytes tail)
        × (deserialize_loop total 0 n (first_byte (bytes ++ tail)) st (indexed s d)
            ≡ deserialize_loop fuel 0 m (first_byte tail) rest (indexed s e))

pub IsDecoded-none : (s : Store) (n : ℕ) (d : ℕ → ℕ) → IsDecoded s [] n d n d
IsDecoded-none s n d = record {
  steps = 0;
  short = omega arith;
  runs = λ fuel total tail st e q. (
    st,
    q,
    ap (λ x. deserialize_loop x 0 n (first_byte tail) st (indexed s d)) (omega (arith, e)),
  );
}

pub IsDecoded-append :
    {s : Store} {xs ys : List ℕ} {n m o : ℕ} {d e f : ℕ → ℕ}
    → IsDecoded s xs n d m e
    → IsDecoded s ys m e o f
    → IsDecoded s (xs ++ ys) n d o f
IsDecoded-append {s} {xs} {ys} {n} {m} {o} {d} {e} {f} x y = record {
  steps = x.steps + y.steps;
  short = omega (arith, x.short, y.short, length-append xs ys);
  runs = λ fuel total tail st t q.
      let whole = append_assoc xs ys tail in
      let (middle, at, first) =
        x.runs (y.steps + fuel) total (ys ++ tail) st (omega (arith, t))
          (q ∙ ap later_bytes whole) in
      let (rest, end, second) = y.runs fuel (y.steps + fuel) tail middle refl at in
      (
        rest,
        end,
        ap (λ l. deserialize_loop total 0 n (first_byte l) st (indexed s d)) whole ∙ first ∙ second,
      );
}

put_index-some :
    (n i : ℕ) (s : Store) → n < bdd_nodes_max → put_index n i s ≡ some (n + 1, set_index n i s)
unfolding put_index
put_index-some n i s h =
    if-true (λ o. o ≡ some (n + 1, set_index n i s)) _ _ (lt→ltb n bdd_nodes_max h) refl

pub leaf-IsDecoded :
    (s : Store) (value n : ℕ) (d : ℕ → ℕ)
    → value < 256
    → n < bdd_nodes_max
    → IsDecoded s (64 ∷ value % 256 ∷ []) n d (n + 1) (update d n value)
unfolding deserialize_loop fgetc set_index
leaf-IsDecoded s value n d small room = record {
  steps = 1;
  short = omega arith;
  runs = λ fuel total tail st t q.
      let one : total ≡ suc fuel = omega (arith, t) in
      let rest : Streams =
        update (update st 0 (later_bytes (st 0))) 0 (later_bytes (later_bytes (st 0))) in
      (
        rest,
        ap (λ l. later_bytes (later_bytes l)) q,
        ap (λ x. deserialize_loop x 0 n 64 st (indexed s d)) one
            ∙ rw (put_index-some n (first_byte (st 0)) (indexed s d) room, deserialize_loop)
                (ap
                    (λ l.
                      deserialize_loop fuel 0 (n + 1) (first_byte (later_bytes l)) rest
                        (indexed s (update d n (first_byte l))))
                    q
                  ∙ ap
                      (λ x.
                        deserialize_loop fuel 0 (n + 1) (first_byte tail) rest
                          (indexed s (update d n x)))
                      (omega (arith, small))),
      );
}

-- Four bytes of a number at the front of `stdin`.
read_serial-number :
    (n : ℕ) (rest bytes : List ℕ) (st : Streams)
    → IsBytes bytes n
    → st 0 ≡ bytes ++ rest
    → (after : Streams) × (after 0 ≡ rest) × (read_serial st ≡ (some n, after))
unfolding read_serial fgetc four_byte_into_integer my_pow
read_serial-number n rest bytes st b q =
    let front : st 0 ≡ b.first ∷ b.second ∷ b.third ∷ b.fourth ∷ rest =
      q ∙ ap (λ l. l ++ rest) b.four in
    let after : Streams = (read_serial st).1 in
    (
      after,
      ap (λ l. later_bytes (later_bytes (later_bytes (later_bytes l)))) front,
      ap (λ x. (x, after))
          (ap
              (λ l.
                four (first_byte l) (first_byte (later_bytes l))
                  (first_byte (later_bytes (later_bytes l)))
                  (first_byte (later_bytes (later_bytes (later_bytes l)))))
              front
            ∙ four-some b.first b.second b.third b.fourth n b.first_byte b.second_byte b.third_byte
                b.fourth_byte b.sum),
    )
  where
    four : ℕ → ℕ → ℕ → ℕ → Option ℕ
    four w x y z =
        if w == eof || x == eof || y == eof || z == eof
        then none
        else some (four_byte_into_integer w x y z)

    four-some :
        (w x y z n : ℕ)
        → w < 256
        → x < 256
        → y < 256
        → z < 256
        → w + 256 * x + 65536 * y + 16777216 * z ≡ n
        → four w x y z ≡ some n
    four-some w x y z n hw hx hy hz e =
        rw
          (
            ==_ne w eof (λ p. omega (arith, p, hw)),
            ==_ne x eof (λ p. omega (arith, p, hx)),
            ==_ne y eof (λ p. omega (arith, p, hy)),
            ==_ne z eof (λ p. omega (arith, p, hz)),
          )
          (ap some (omega (arith, e)))

get_index-known :
    (s : Store) (d : ℕ → ℕ) (a x : ℕ)
    → a < bdd_nodes_max
    → d a ≡ x
    → get_index a (indexed s d) ≡ some (x, indexed s d)
unfolding get_index
get_index-known s d a x h e =
    if-true (λ o. o ≡ some (x, indexed s d)) _ _ (lt→ltb a bdd_nodes_max h)
      (ap (λ y. some (y, indexed s d)) e)

construct-known :
    (s : Store) (d : ℕ → ℕ) (k n a b : ℕ)
    → IsTable s
    → bdd_num_leaves ≤ k
    → k < s.free_node_counter
    → a < bdd_nodes_max
    → b < bdd_nodes_max
    → n < bdd_nodes_max
    → d a ≡ (s.nodes k).left
    → d b ≡ (s.nodes k).right
    → construct (s.nodes k).level n a b (indexed s d) ≡ some (n + 1, indexed s (update d n k))
unfolding construct set_index
construct-known s d k n a b v low high ha hb hn left right =
    rw
      (
        get_index-known s d a (s.nodes k).left ha left,
        construct,
        ◌>>=◌,
        get_index-known s d b (s.nodes k).right hb right,
        lookup_indexed s d k v low high,
      )
      (put_index-some n k (indexed s d) hn)

-- One round of the loop for a node.
node_round :
    (fuel n level a b : ℕ) (st middle last : Streams) (s t : Store)
    → 1 ≤ level
    → level ≤ 32
    → read_serial st ≡ (some a, middle)
    → read_serial middle ≡ (some b, last)
    → construct level n a b s ≡ some (n + 1, t)
    → deserialize_loop (suc fuel) 0 n (64 + level) st s
      ≡ deserialize_loop fuel 0
          (n + 1)
          (first_byte (last 0))
          (update last 0 (later_bytes (last 0)))
          t
unfolding deserialize_loop fgetc
node_round fuel n level a b st middle last s t one most first second built =
    let same : 64 + level - 64 ≡ level = omega arith in
    let to_middle : (read_serial st).1 ≡ middle = ap (λ x. x.1) first in
    rw
      (
        ==_ne (64 + level) eof (λ p. omega (arith, p, most)),
        ==_ne (64 + level) 64 (λ p. omega (arith, p, one)),
        &&-true (le→leb 65 (64 + level) (omega (arith, one)))
            (le→leb (64 + level) 96 (omega (arith, most))),
        ap (λ x. x.0) first,
        to_middle,
        ap (λ x. x.0) second,
        same,
        built,
        to_middle,
        ap (λ x. x.1) second,
        deserialize_loop,
      )
      refl

-- A node whose children have the serial numbers `a` and `b`.
pub node-IsDecoded :
    (s : Store) (d : ℕ → ℕ) (k n a b : ℕ)
    → IsTable s
    → bdd_num_leaves ≤ k
    → k < s.free_node_counter
    → 1 ≤ (s.nodes k).level
    → (s.nodes k).level ≤ 32
    → a < bdd_nodes_max
    → b < bdd_nodes_max
    → n < bdd_nodes_max
    → d a ≡ (s.nodes k).left
    → d b ≡ (s.nodes k).right
    → IsDecoded s
        ((64 + (s.nodes k).level) % 256
          ∷ (print_serial_number_child a ++ print_serial_number_child b))
        n
        d
        (n + 1)
        (update d n k)
unfolding deserialize_loop fgetc
node-IsDecoded s d k n a b v low high one most ha hb hn left right = record {
  steps = 1;
  short = omega arith;
  runs = λ fuel total tail st t q.
      let level = (s.nodes k).level in
      let character = (64 + level) % 256 in
      let value : character ≡ 64 + level = omega (arith, most) in
      let as_bytes = print_serial_number_child-IsBytes a (omega (arith, ha)) in
      let bs_bytes = print_serial_number_child-IsBytes b (omega (arith, hb)) in
      let (middle, at, first) =
        read_serial-number a (print_serial_number_child b ++ tail) (print_serial_number_child a) st
          as_bytes
          (q ∙ append_assoc (print_serial_number_child a) (print_serial_number_child b) tail) in
      let (last, end, second) =
        read_serial-number b tail (print_serial_number_child b) middle bs_bytes at in
      let rest : Streams = update last 0 (later_bytes (last 0)) in
      let one_more : total ≡ suc fuel = omega (arith, t) in
      (
        rest,
        ap later_bytes end,
        ap (λ x. deserialize_loop x 0 n character st (indexed s d)) one_more
            ∙ ap (λ x. deserialize_loop (suc fuel) 0 n x st (indexed s d)) value
            ∙ node_round fuel n level a b st middle last (indexed s d) (indexed s (update d n k))
                one most first second (construct-known s d k n a b v low high ha hb hn left right)
            ∙ ap
                (λ l.
                  deserialize_loop fuel 0 (n + 1) (first_byte l) rest (indexed s (update d n k)))
                end,
      );
}
