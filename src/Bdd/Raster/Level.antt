-- ===== src/Bdd/Raster/Level.antt =====
-- The loops of `bdd_min_level` and `pow2` in hw1/src/bdd.c and hw1/src/helpingFunctions.c.
use cse_320_repository.Base.{
  ℕ, zero, suc, ◌+◌, ◌*◌, ◌^◌, ◌≤◌, ◌<◌, ◌≡◌, ap, inl, inr, arith, Bool-cases, ltb, ltb→lt,
}
use native.Mathlib.Nat.{pow-suc, pow-le-pow_right, one-le-pow}
use cse_320_repository.Bdd.Raster.{min_level_loop, bdd_min_level, pow2_loop, pow2}

pow2_loop-pow : (rounds sum : ℕ) → pow2_loop rounds sum ≡ sum * 2 ^ rounds
unfolding pow2_loop
pow2_loop-pow zero sum = omega arith
pow2_loop-pow (suc rounds) sum =
    omega (arith, pow2_loop-pow rounds (sum * 2), ap (λ (t : ℕ). sum * t) (pow-suc 2 rounds))

pub pow2-pow : (n : ℕ) → pow2 n ≡ 2 ^ n
unfolding pow2
pow2-pow n = omega (arith, pow2_loop-pow n 1)

-- `n` is the least exponent from `count` on with `bound ≤ 2 ^ n`.
pub record IsLeast (bound count n : ℕ) : Type 0 where
  pub covers : bound ≤ 2 ^ n
  pub least : (m : ℕ) → count ≤ m → bound ≤ 2 ^ m → n ≤ m

pow_exceeds : (a b : ℕ) → 2 ^ a < 2 ^ b → a < b
pow_exceeds a b h = elim (Bool-cases (ltb a b)) [
  | inl lt ↦ ltb→lt a b lt
  | inr ge ↦
      let le : b ≤ a = ground arith in
      absurd (omega (arith, pow-le-pow_right {n = 2} (omega arith) le))
]

IsLeast-earlier :
    {bound count n : ℕ} → 2 ^ count < bound → IsLeast bound (suc count) n → IsLeast bound count n
IsLeast-earlier {bound} {count} h l = record {
  covers = l.covers;
  least = λ m le c. l.least m (pow_exceeds count m (omega arith)) c;
}

next_count : (count : ℕ) → count + 1 ≡ suc count
next_count count = omega arith

min_level_loop-IsLeast :
    (fuel bound count : ℕ)
    → bound ≤ fuel + 2 ^ count
    → IsLeast bound count (min_level_loop fuel bound (2 ^ count) count)
unfolding min_level_loop
min_level_loop-IsLeast zero bound count h = record { covers = omega arith; least = λ m le c. le }
min_level_loop-IsLeast (suc fuel) bound count h = elim (Bool-cases (ltb (2 ^ count) bound)) [
  | inl more ↦
      rw (min_level_loop, more, ← pow-suc 2 count, next_count count)
        (IsLeast-earlier (ltb→lt _ _ more) (
          min_level_loop-IsLeast fuel bound (suc count)
            (omega (arith, pow-suc 2 count, one-le-pow count 2 (omega arith)))))
  | inr done ↦ rw (min_level_loop, done) (record { covers = ground arith; least = λ m le c. le })
]

-- The level is even, its half is an exponent that covers both sides, and no smaller one does.
pub bdd_min_level_lem :
    (w h : ℕ)
    → (n : ℕ) × (bdd_min_level w h ≡ 2 * n)
      × (w ≤ 2 ^ n)
      × (h ≤ 2 ^ n)
      × ((m : ℕ) → w ≤ 2 ^ m → h ≤ 2 ^ m → n ≤ m)
unfolding bdd_min_level
bdd_min_level_lem w h = elim (Bool-cases (ltb w h)) [
  | inl taller ↦
      let l = min_level_loop-IsLeast h h 0 (omega arith) in
      (_, rw taller, ground arith, l.covers, λ m p q. l.least m (omega arith) q)
  | inr wider ↦
      let l = min_level_loop-IsLeast w w 0 (omega arith) in
      (_, rw wider, l.covers, ground arith, λ m p q. l.least m (omega arith) p)
]
