-- ===== src/Bdd/Apply/Masks.antt =====
-- The masks of `bdd_apply` in hw1/src/bdd.c: at each level they select the digits that it tests.
use Prim.Native.Nat.{bit_and}
use cse_320_repository.Base.{
  ℕ, zero, suc, ◌+◌, ◌/◌, ◌%◌, ◌^◌, ◌≤◌, ◌≡◌, refl, ◌∙◌, ◌⊎◌, inl, inr, arith, ◌==◌, Bool-cases,
}
use native.Mathlib.Nat.{zero-add, add-zero, pow-suc, one-le-pow, pow-le-pow_right}
use cse_320_repository.Base.Bits.{bit, bit-le-one, bit_and-pow}
use cse_320_repository.Bdd.Image.{digit}
use cse_320_repository.Bdd.Apply.{grow_mask, mask_loop, shift_loop}

-- The mask of digit `n - 1`; 0 where there is none.
abbrev pub mask : ℕ → ℕ
mask zero = 0
mask (suc n) = 2 ^ n

-- The digits of the row and of the column that are left at level `l`.
pub row_digits : ℕ → ℕ
row_digits l = l / 2

pub col_digits : ℕ → ℕ
col_digits l = suc l / 2

mask-half : (n : ℕ) → mask (suc n) / 2 ≡ mask n
mask-half zero = refl
mask-half (suc n) = omega (arith, pow-suc 2 n)

-- At an even level the rows lose a digit, at an odd one the columns.
pub row_even : (n : ℕ) → suc n % 2 ≡ 0 → row_digits (suc n) ≡ suc (row_digits n)
unfolding row_digits
row_even n h = omega arith

col_even : (n : ℕ) → suc n % 2 ≡ 0 → col_digits (suc n) ≡ col_digits n
unfolding col_digits
col_even n h = omega arith

row_odd : (n : ℕ) → suc n % 2 ≡ 1 → row_digits (suc n) ≡ row_digits n
unfolding row_digits
row_odd n h = omega arith

pub col_odd : (n : ℕ) → suc n % 2 ≡ 1 → col_digits (suc n) ≡ suc (col_digits n)
unfolding col_digits
col_odd n h = omega arith

pub parity : (n : ℕ) → ((suc n % 2 ≡ 0) × (n % 2 ≡ 1)) ⊎ ((suc n % 2 ≡ 1) × (n % 2 ≡ 0))
parity n = elim (Bool-cases (n % 2 == 0)) [
  | inl e ↦ inr (ground arith, ground arith)
  | inr e ↦ inl (ground arith, ground arith)
]

shift_step :
    (d n : ℕ)
    → shift_loop (suc d) (suc n % 2 == 0) (mask (row_digits (suc n))) (mask (col_digits (suc n)))
      ≡ shift_loop d (n % 2 == 0) (mask (row_digits n)) (mask (col_digits n))
unfolding shift_loop
shift_step d n = elim (parity n) [
  | inl (even, odd) ↦
      rw (even, odd, row_even n even, col_even n even, mask-half (row_digits n)) refl
  | inr (odd, even) ↦ rw (even, odd, row_odd n odd, col_odd n odd, mask-half (col_digits n)) refl
]

pub shift_loop-mask :
    (d l n : ℕ)
    → n ≡ d + l
    → shift_loop d (n % 2 == 0) (mask (row_digits n)) (mask (col_digits n))
      ≡ (mask (row_digits l), mask (col_digits l))
unfolding shift_loop
shift_loop-mask zero l n e = let e' : n ≡ l = omega arith in rw e' refl
shift_loop-mask (suc d) l zero e = absurd (omega arith)
shift_loop-mask (suc d) l (suc n) e = shift_step d n ∙ shift_loop-mask d l n (omega arith)

-- One level down: the masks that the recursive call gets where no level is skipped.
pub mask_even :
    (n : ℕ)
    → suc n % 2 ≡ 0
    → (mask (row_digits (suc n)) / 2 ≡ mask (row_digits n))
      × (mask (col_digits (suc n)) ≡ mask (col_digits n))
mask_even n h = (rw (row_even n h) (mask-half (row_digits n)), rw (col_even n h) refl)

pub mask_odd :
    (n : ℕ)
    → suc n % 2 ≡ 1
    → (mask (row_digits (suc n)) ≡ mask (row_digits n))
      × (mask (col_digits (suc n)) / 2 ≡ mask (col_digits n))
mask_odd n h = (rw (row_odd n h) refl, rw (col_odd n h) (mask-half (col_digits n)))

grow_mask-mask : (n : ℕ) → n ≤ 31 → grow_mask (mask n) ≡ mask (suc n)
unfolding grow_mask
grow_mask-mask zero h = refl
grow_mask-mask (suc n) h = ground (
  arith,
  pow-suc 2 n,
  one-le-pow n 2 (omega arith),
  pow-le-pow_right {n = 2} (omega arith) {i = n} {j = 30} (omega arith),
)

no_row_digits : row_digits 0 ≡ 0
unfolding row_digits
no_row_digits = refl

no_col_digits : col_digits 0 ≡ 0
unfolding col_digits
no_col_digits = refl

add_shift : (a n : ℕ) → a + suc n ≡ suc a + n
add_shift a n = omega arith

-- The masks that `bdd_apply` starts with, while they fit an `int`.
pub mask_loop-mask :
    (n a b : ℕ)
    → a + row_digits n ≤ 31
    → b + col_digits n ≤ 31
    → mask_loop n (n % 2 == 0) (mask a) (mask b)
      ≡ (mask (a + row_digits n), mask (b + col_digits n))
unfolding mask_loop
mask_loop-mask zero a b h k = rw (no_row_digits, no_col_digits, add-zero a, add-zero b) refl
mask_loop-mask (suc n) a b h k = elim (parity n) [
  | inl (even, odd) ↦
      let more : row_digits (suc n) ≡ suc (row_digits n) = row_even n even in
      let same : col_digits (suc n) ≡ col_digits n = col_even n even in
      let ih = mask_loop-mask n (suc a) b (omega arith) (omega arith) in
      rw (even, more, same, grow_mask-mask a (omega arith), add_shift a (row_digits n))
        (rw odd at ih)
  | inr (odd, even) ↦
      let same : row_digits (suc n) ≡ row_digits n = row_odd n odd in
      let more : col_digits (suc n) ≡ suc (col_digits n) = col_odd n odd in
      let ih = mask_loop-mask n a (suc b) (omega arith) (omega arith) in
      rw (odd, more, same, grow_mask-mask b (omega arith), add_shift b (col_digits n))
        (rw even at ih)
]

-- The test of a mask is the test of its digit.
pub bit_and-mask : (a n : ℕ) → (bit_and a (mask (suc n)) == 0) ≡ (bit n a == 0)
bit_and-mask a n = rw (bit_and-pow a n) (elim (Bool-cases (bit n a == 0)) [
  | inl z ↦ let e : bit n a ≡ 0 = ground arith in rw e (ground arith)
  | inr o ↦
      let e : bit n a ≡ 1 = ground (arith, bit-le-one n a) in
      rw e (ground (arith, one-le-pow n 2 (omega arith)))
])

pub level_digits : (n : ℕ) → n ≤ 62 → (row_digits n ≤ 31) × (col_digits n ≤ 31)
unfolding row_digits col_digits
level_digits n h = (omega arith, omega arith)

-- The digit tested one level down, in terms of the digits that are left.
pub digit-rows : (l r c : ℕ) → l % 2 ≡ 1 → digit l r c ≡ bit (row_digits l) r
unfolding row_digits
digit-rows l r c odd = rw odd refl

pub digit-cols : (l r c : ℕ) → l % 2 ≡ 0 → digit l r c ≡ bit (col_digits l) c
unfolding col_digits
digit-cols l r c even = let e : suc l / 2 ≡ l / 2 = omega arith in rw (even, e) refl

pub mask_loop_start :
    (n : ℕ) → n ≤ 62 → mask_loop n (n % 2 == 0) 0 0 ≡ (mask (row_digits n), mask (col_digits n))
mask_loop_start n h =
    let (p, q) = level_digits n h in
    mask_loop-mask n 0 0 (omega arith) (omega arith)
    ∙ rw (zero-add (row_digits n), zero-add (col_digits n)) refl
