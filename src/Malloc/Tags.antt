-- ===== src/Malloc/Tags.antt =====
-- Headers and footers of hw3/src/sfmm.c: a multiple of 16 with the two status bits.
use Prim.Native.Nat.{bit_or}
use cse_320_repository.Base.{ℕ, ◌+◌, ◌*◌, ◌%◌, ◌≡◌, ap, ◌∙◌, Bool, true, false, arith}
use cse_320_repository.Base.Bits.{bit_and-pow, bit_or-zero, bit_or-pow}
use cse_320_repository.Malloc.Memory.{get_size_from_header, allocated_bit, prev_bit}

abbrev pub flag : Bool → ℕ
flag true = 1
flag false = 0

abbrev pub tag : ℕ → Bool → Bool → ℕ
tag n allocated before = n + flag allocated + 2 * flag before

pub size-tag : (n : ℕ) (x y : Bool) → n % 16 ≡ 0 → get_size_from_header (tag n x y) ≡ n
unfolding get_size_from_header
size-tag n true true h = omega arith
size-tag n true false h = omega arith
size-tag n false true h = omega arith
size-tag n false false h = omega arith

pub allocated-tag : (n : ℕ) (x y : Bool) → n % 16 ≡ 0 → allocated_bit (tag n x y) ≡ flag x
allocated-tag n true true h = omega (arith, bit_and-pow (tag n true true) 0)
allocated-tag n true false h = omega (arith, bit_and-pow (tag n true false) 0)
allocated-tag n false true h = omega (arith, bit_and-pow (tag n false true) 0)
allocated-tag n false false h = omega (arith, bit_and-pow (tag n false false) 0)

pub prev-tag : (n : ℕ) (x y : Bool) → n % 16 ≡ 0 → prev_bit (tag n x y) ≡ 2 * flag y
prev-tag n true true h = omega (arith, bit_and-pow (tag n true true) 1)
prev-tag n true false h = omega (arith, bit_and-pow (tag n true false) 1)
prev-tag n false true h = omega (arith, bit_and-pow (tag n false true) 1)
prev-tag n false false h = omega (arith, bit_and-pow (tag n false false) 1)

-- The status of the predecessor joined to a header that lacks it.
pub or-prev : (n : ℕ) (x y : Bool) → n % 16 ≡ 0 → bit_or (tag n x false) (2 * flag y) ≡ tag n x y
or-prev n true true h = omega (arith, bit_or-pow (tag n true false) 1)
or-prev n true false h = omega (arith, bit_or-zero (tag n true false))
or-prev n false true h = omega (arith, bit_or-pow (tag n false false) 1)
or-prev n false false h = omega (arith, bit_or-zero (tag n false false))

pub or-allocated : (n : ℕ) (x y : Bool) → n % 16 ≡ 0 → bit_or (tag n false y) (flag x) ≡ tag n x y
or-allocated n true true h = omega (arith, bit_or-pow (tag n false true) 0)
or-allocated n true false h = omega (arith, bit_or-pow (tag n false false) 0)
or-allocated n false true h = omega (arith, bit_or-zero (tag n false true))
or-allocated n false false h = omega (arith, bit_or-zero (tag n false false))

-- A bit that is set stays set.
pub or-prev-again : (n : ℕ) (x y : Bool) → n % 16 ≡ 0 → bit_or (tag n x y) 2 ≡ tag n x true
or-prev-again n true true h = omega (arith, bit_or-pow (tag n true true) 1)
or-prev-again n true false h = omega (arith, bit_or-pow (tag n true false) 1)
or-prev-again n false true h = omega (arith, bit_or-pow (tag n false true) 1)
or-prev-again n false false h = omega (arith, bit_or-pow (tag n false false) 1)

or-one-tag : (n : ℕ) (x y : Bool) → n % 16 ≡ 0 → bit_or (tag n x y) 1 ≡ tag n true y
or-one-tag n true true h = omega (arith, bit_or-pow (tag n true true) 0)
or-one-tag n true false h = omega (arith, bit_or-pow (tag n true false) 0)
or-one-tag n false true h = omega (arith, bit_or-pow (tag n false true) 0)
or-one-tag n false false h = omega (arith, bit_or-pow (tag n false false) 0)

-- What the code reads from a word that is a tag, and the words it makes from it.
module _ {w : ℕ} (n : ℕ) (x y : Bool) (word : w ≡ tag n x y) (sixteen : n % 16 ≡ 0) where
  pub read-size : get_size_from_header w ≡ n
  read-size = ap get_size_from_header word ∙ size-tag n x y sixteen

  pub read-allocated : allocated_bit w ≡ flag x
  read-allocated = ap allocated_bit word ∙ allocated-tag n x y sixteen

  pub read-prev : prev_bit w ≡ 2 * flag y
  read-prev = ap prev_bit word ∙ prev-tag n x y sixteen

  -- A size with the status of the predecessor.
  pub with-prev : {m k : ℕ} → m ≡ k → k % 16 ≡ 0 → bit_or m (prev_bit w) ≡ tag k false y
  with-prev {m} {k} size h =
      ap (λ i. bit_or i (prev_bit w)) (size ∙ omega arith)
      ∙ ap (bit_or (tag k false false)) read-prev
      ∙ or-prev k false y h

  pub taken-with-prev : (k : ℕ) → k % 16 ≡ 0 → bit_or (bit_or k 1) (prev_bit w) ≡ tag k true y
  taken-with-prev k h =
      let one : bit_or k 1 ≡ tag k true false =
        ap (λ i. bit_or i 1) (omega arith) ∙ or-allocated k true false h in
      ap (λ i. bit_or i (prev_bit w)) one
      ∙ ap (bit_or (tag k true false)) read-prev
      ∙ or-prev k true y h

  -- The size and the status, without the status of the predecessor.
  pub without-prev : bit_or (get_size_from_header w) (allocated_bit w) ≡ tag n x false
  without-prev =
      ap (λ i. bit_or i (allocated_bit w)) (read-size ∙ omega arith)
      ∙ ap (bit_or (tag n false false)) read-allocated
      ∙ or-allocated n x false sixteen

  -- The word with the status of an allocated block.
  pub or-one : bit_or w 1 ≡ tag n true y
  or-one = ap (λ i. bit_or i 1) word ∙ or-one-tag n x y sixteen

  pub or-two : bit_or w 2 ≡ tag n x true
  or-two = ap (λ i. bit_or i 2) word ∙ or-prev-again n x y sixteen

  pub as-allocated : bit_or (get_size_from_header w) 1 ≡ tag n true false
  as-allocated = ap (λ i. bit_or i 1) (read-size ∙ omega arith) ∙ or-allocated n true false sixteen
