-- ===== src/Bdd/Square.antt =====
-- Squares of side 2 ^ m and the two levels of tests that halve them, in hw1/src/bdd.c.
use cse_320_repository.Base.{
  ℕ, zero, suc, ◌+◌, ◌-◌, ◌*◌, ◌/◌, ◌%◌, ◌^◌, ◌≡◌, refl, ap, inl, inr, false, arith, if◌then◌else◌,
  ◌==◌, Bool-cases,
}
use native.Mathlib.Nat.{pow-suc, one-le-pow}
use cse_320_repository.Base.Bits.{bit, low, bit-le-one}
use cse_320_repository.Bdd.Image.{digit}
use cse_320_repository.Bdd.Build.{Picture, halves}

-- The level of a square of side 2 ^ m.
abbrev pub twice : ℕ → ℕ
twice zero = zero
twice (suc m) = suc (suc (twice m))

pub twice-mul : (m : ℕ) → twice m ≡ 2 * m
twice-mul zero = refl
twice-mul (suc m) = omega (arith, twice-mul m)

pub digit-even : (m r c : ℕ) → digit (twice m) r c ≡ bit m c
digit-even m r c =
    let even : twice m % 2 ≡ 0 = omega (arith, twice-mul m) in
    let half : twice m / 2 ≡ m = omega (arith, twice-mul m) in rw (even, half) refl

pub digit-odd : (m r c : ℕ) → digit (suc (twice m)) r c ≡ bit m r
digit-odd m r c =
    let odd : suc (twice m) % 2 ≡ 1 = omega (arith, twice-mul m) in
    let half : suc (twice m) / 2 ≡ m = omega (arith, twice-mul m) in rw (odd, half) refl

pub pow_ne_one : (m : ℕ) → (2 ^ suc m == 1) ≡ false
pow_ne_one m = ground (arith, pow-suc 2 m, one-le-pow m 2 (omega arith))

pub pow-half : (m : ℕ) → 2 ^ suc m / 2 ≡ 2 ^ m
pow-half m = omega (arith, pow-suc 2 m)

pub suc-sub : (l : ℕ) → suc l - 1 ≡ l
suc-sub l = omega arith

-- The digit that a level tests is the top digit of the coordinate within the square.
pub split_low :
    (p : ℕ → ℕ) (m from a : ℕ)
    → (if bit m a == 0 then p (from + low m a) else p (from + 2 ^ m + low m a))
      ≡ p (from + low (suc m) a)
split_low p m from a = elim (Bool-cases (bit m a == 0)) [
  | inl z ↦
      let e : bit m a ≡ 0 = ground arith in rw z (ap p (omega (arith, ap (λ (t : ℕ). t * 2 ^ m) e)))
  | inr o ↦
      let e : bit m a ≡ 1 = ground (arith, bit-le-one m a) in
      rw o (ap p (omega (arith, ap (λ (t : ℕ). t * 2 ^ m) e)))
]

pub halves_cols :
    (p : Picture) (m row col r c : ℕ)
    → halves
        (twice m)
        (λ r c. p (row + low m r) (col + low m c))
        (λ r c. p (row + low m r) (col + 2 ^ m + low m c))
        r
        c
      ≡ p (row + low m r) (col + low (suc m) c)
halves_cols p m row col r c = rw (digit-even m r c) (split_low (λ j. p (row + low m r) j) m col c)

pub halves_rows :
    (p : Picture) (m row col r c : ℕ)
    → halves
        (suc (twice m))
        (λ r c. p (row + low m r) (col + low (suc m) c))
        (λ r c. p (row + 2 ^ m + low m r) (col + low (suc m) c))
        r
        c
      ≡ p (row + low (suc m) r) (col + low (suc m) c)
halves_rows p m row col r c =
    rw (digit-odd m r c) (split_low (λ i. p i (col + low (suc m) c)) m row r)
