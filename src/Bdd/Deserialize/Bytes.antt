-- ===== src/Bdd/Deserialize/Bytes.antt =====
-- The four bytes of a serial number in hw1/src/helpingFunctions.c.
use cse_320_repository.Base.{
  ℕ, zero, suc, ◌+◌, ◌*◌, ◌%◌, ◌^◌, ◌<◌, ◌≡◌, refl, List, [], ◌∷◌, arith, if◌then◌else◌, ltb,
}
use cse_320_repository.Bdd.Serialize.{count_loop, print_serial_number_child}
use cse_320_repository.Bdd.Deserialize.{my_pow, four_byte_into_integer}

-- The bytes of a list, each below 256, and the number that they stand for, the lowest first.
pub record IsBytes (bytes : List ℕ) (n : ℕ) : Type 0 where
  pub first : ℕ
  pub second : ℕ
  pub third : ℕ
  pub fourth : ℕ
  pub four : bytes ≡ first ∷ second ∷ third ∷ fourth ∷ []
  pub first_byte : first < 256
  pub second_byte : second < 256
  pub third_byte : third < 256
  pub fourth_byte : fourth < 256
  pub sum : first + 256 * second + 65536 * third + 16777216 * fourth ≡ n

count_loop-IsBytes :
    (n a b c d total : ℕ)
    → a < 256
    → b < 256
    → c < 256
    → n + a + 256 * b + 65536 * c + 16777216 * d ≡ total
    → total < 2 ^ 32
    → IsBytes (count_loop n a b c d) total
unfolding count_loop
count_loop-IsBytes zero a b c d total ha hb hc e h = record {
  first = a % 256;
  second = b % 256;
  third = c % 256;
  fourth = d % 256;
  four = refl;
  first_byte = omega arith;
  second_byte = omega arith;
  third_byte = omega arith;
  fourth_byte = omega arith;
  sum = omega (arith, e, h);
}
count_loop-IsBytes (suc n) a b c d total ha hb hc e h =
    let next_second = if ltb 255 (a + 1) then b + 1 else b in
    let next_third = if ltb 255 next_second then c + 1 else c in
    count_loop-IsBytes n (if ltb 255 (a + 1) then 0 else a + 1)
      (if ltb 255 next_second then 0 else next_second)
      (if ltb 255 next_third then 0 else next_third) (if ltb 255 next_third then d + 1 else d) total
      (ground arith) (ground arith) (ground arith) (ground arith) h

pub print_serial_number_child-IsBytes :
    (n : ℕ) → n < 2 ^ 32 → IsBytes (print_serial_number_child n) n
unfolding print_serial_number_child
print_serial_number_child-IsBytes n h =
    count_loop-IsBytes n 0 0 0 0 n (omega arith) (omega arith) (omega arith) (omega arith) h

-- print_serial_number_child writes a serial number below 2 ^ 32 as four bytes from which
-- four_byte_into_integer makes the same number.
pub print_serial_number_child-integer :
    (n : ℕ)
    → n < 2 ^ 32
    → (a : ℕ) × (b : ℕ) × (c : ℕ) × (d : ℕ) × (print_serial_number_child n ≡ a ∷ b ∷ c ∷ d ∷ [])
      × (four_byte_into_integer a b c d ≡ n)
unfolding four_byte_into_integer my_pow
print_serial_number_child-integer n h =
    let r = print_serial_number_child-IsBytes n h in
    (r.first, r.second, r.third, r.fourth, r.four, omega (arith, r.sum))
