-- ===== src/Bdd/Deserialize.antt =====
-- `bdd_deserialize` of hw1/src/bdd.c. The streams are lists of bytes by their number, `stdin` is 0;
-- EOF is -1 in 32 bits. A result `none` in the list is NULL.
pub mod Bytes
pub mod Numbers
pub mod Decode
pub mod Written
pub mod Recursion
pub mod RoundTrip
use cse_320_repository.Base.{
  ℕ, zero, suc, ◌+◌, ◌-◌, ◌*◌, ◌%◌, ◌^◌, ◌==◌, Bool, true, false, ◌&&◌, ◌||◌, if◌then◌else◌, ltb,
  leb, Option, none, some, List, [], ◌∷◌, ◌++◌, update, length,
}
use cse_320_repository.Bdd.Store.{Node, Store, M, pure, fault, ◌>>=◌, bdd_num_leaves, bdd_nodes_max}
use cse_320_repository.Bdd.Lookup.{bdd_lookup}
use cse_320_repository.Bdd.Raster.{write_special}
use cse_320_repository.Bdd.Serialize.{initialize_bdd_index_map, set_index}

abbrev pub Streams : Type 0
Streams = ℕ → List ℕ

abbrev pub eof : ℕ
eof = 2 ^ 32 - 1

abbrev pub first_byte : List ℕ → ℕ
first_byte [] = eof
first_byte (c ∷ cs) = c

abbrev pub later_bytes : List ℕ → List ℕ
later_bytes [] = []
later_bytes (c ∷ cs) = cs

-- The next byte of a stream, and the streams without it.
unfoldable pub fgetc : (stream : ℕ) → Streams → ℕ × Streams
fgetc stream bytes = (first_byte (bytes stream), update bytes stream (later_bytes (bytes stream)))

unfoldable pub my_pow : (power output : ℕ) → ℕ
my_pow zero output = output
my_pow (suc power) output = my_pow power (output * 256)

unfoldable pub four_byte_into_integer : (first second third fourth : ℕ) → ℕ
four_byte_into_integer first second third fourth =
    first * my_pow 0 1 + second * my_pow 1 1 + third * my_pow 2 1 + fourth * my_pow 3 1

-- Four bytes of `stdin` as a serial number, `none` where it ends.
unfoldable pub read_serial : Streams → Option ℕ × Streams
read_serial bytes =
    let (first, bytes1) = fgetc 0 bytes in
    let (second, bytes2) = fgetc 0 bytes1 in
    let (third, bytes3) = fgetc 0 bytes2 in
    let (fourth, bytes4) = fgetc 0 bytes3 in
    (
      (if first == eof || second == eof || third == eof || fourth == eof
          then none
          else some (four_byte_into_integer first second third fourth)),
      bytes4,
    )

-- A read of `bdd_index_map`, and a write to it.
unfoldable pub get_index : (serial : ℕ) → M ℕ
get_index serial s = if ltb serial bdd_nodes_max then some (s.index_map serial, s) else none

unfoldable pub put_index : (serial index : ℕ) → M ℕ
put_index serial index s =
    if ltb serial bdd_nodes_max then some (serial + 1, set_index serial index s) else none

-- The node of a level with the serial numbers of its children.
unfoldable pub construct : (level serial left right : ℕ) → M ℕ
construct level serial left right = do
  left_index ← get_index left
  right_index ← get_index right
  index ← bdd_lookup level left_index right_index
  put_index serial index

-- The loop over the stream `file`, with the character read last; its result is the counter.
unfoldable pub deserialize_loop : (fuel file serial reading : ℕ) → Streams → M (Option ℕ)
deserialize_loop zero file serial reading bytes s = none
deserialize_loop (suc fuel) file serial reading bytes s = elim (reading == eof) [
  | true ↦ some (some serial, s)
  | false ↦ elim (reading == 64) [
    | true ↦
        let (value, rest) = fgetc file bytes in
        elim (put_index serial value s) [
          | none ↦ none
          | some (next, t) ↦
              deserialize_loop fuel file next (fgetc file rest).0 (fgetc file rest).1 t
        ]
    | false ↦ elim (leb 65 reading && leb reading 96) [
      | false ↦ some (none, s)
      | true ↦
          let (left, rest) = read_serial bytes in
          let (right, last) = read_serial rest in
          elim left [
            | none ↦ some (none, s)
            | some l ↦ elim right [
              | none ↦ some (none, s)
              | some r ↦ elim (construct (reading - 64) serial l r s) [
                | none ↦ none
                | some (next, t) ↦
                    deserialize_loop fuel file next (fgetc file last).0 (fgetc file last).1 t
              ]
            ]
          ]
    ]
  ]
]

-- Is the index that of a leaf? So is a negative one.
abbrev pub is_leaf : ℕ → Bool
is_leaf index = ltb index bdd_num_leaves || leb (2 ^ 31) index

unfoldable pub bdd_deserialize : (file : ℕ) → Streams → M (Option ℕ)
bdd_deserialize file bytes s =
    let (reading, rest) = fgetc file bytes in
    elim (deserialize_loop (suc (length (bytes file))) file 1 reading rest
      (initialize_bdd_index_map s)) [
        | none ↦ none
        | some (none, t) ↦ some (none, t)
        | some (some serial, t) ↦ elim (serial == 1) [
          | true ↦ some (none, t)
          | false ↦ elim (is_leaf (t.index_map (serial - 1))) [
            | true ↦ (do p ← write_special (t.index_map (serial - 1)); pure (some p)) t
            | false ↦ some (some (t.index_map (serial - 1)), t)
          ]
        ]
      ]
