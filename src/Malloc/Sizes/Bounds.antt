-- ===== src/Malloc/Sizes/Bounds.antt =====
-- Bounds on the sizes and the list indices of hw3/src/helpingFunction.c.
use native.Mathlib.Nat.{pow-suc, one-le-pow, pow-le-pow_right}
use cse_320_repository.Base.{
  ap, sym, ◌∙◌, ==_iff, ==_eq, lt→ltb, ◌↔◌, Bool-cases, ltb→lt, ltb→ge, if-true, if-false, ℕ, zero,
  suc, ◌+◌, ◌*◌, ◌/◌, ◌%◌, ◌^◌, ◌≤◌, ◌<◌, ◌==◌, ◌≡◌, refl, ◌⊎◌, inl, inr, true, false,
  if◌then◌else◌, ltb, leb, some, arith,
}
use cse_320_repository.Malloc.Sizes.{
  double_loop, in_class, index_loop, compute_memory_index, compute_memory_size, adjusted_size,
  power_of2, halving_loop,
}

adjusted_size-rounded :
    (size : ℕ)
    → size + 24 < 2 ^ 31
    → adjusted_size size ≡ some (if leb size 24 then 32 else (size + 23) / 16 * 16)
unfolding adjusted_size compute_memory_size
adjusted_size-rounded size h = ground arith

-- For a request below 2 ^ 31 - 24 the size of the block is a multiple of 16, at least 32, has room
-- for the request and the header, and is 32 or less than 24 bytes more than the request.
pub adjusted_size-bounds :
    (size : ℕ)
    → size + 24 < 2 ^ 31
    → (need : ℕ) × (adjusted_size size ≡ some need)
      × (need % 16 ≡ 0)
      × (32 ≤ need)
      × (size + 8 ≤ need)
      × ((need ≡ 32) ⊎ (need < size + 24))
adjusted_size-bounds size h = (
  (if leb size 24 then 32 else (size + 23) / 16 * 16),
  adjusted_size-rounded size h,
  ground arith,
  ground arith,
  ground arith,
  ground arith,
)

-- The lists by their bounds.
abbrev pub list_of : ℕ → ℕ
list_of size =
    if leb size 32
    then 0
    else if leb size 64
    then 1
    else if leb size 128
    then 2
    else if leb size 256
    then 3
    else if leb size 512
    then 4
    else if leb size 1024
    then 5
    else 6

-- compute_memory_index is the choice of a list by the bounds 32, 64, 128, 256, 512 and 1024.
pub compute_memory_index-list_of : (size : ℕ) → compute_memory_index size ≡ list_of size
unfolding compute_memory_index index_loop in_class double_loop
compute_memory_index-list_of size = ground arith

-- A size that is at least the one needed has the same list or a later one.
pub compute_memory_index_mono :
    (need size : ℕ) → need ≤ size → compute_memory_index need ≤ compute_memory_index size
compute_memory_index_mono need size h =
    rw (compute_memory_index-list_of need, compute_memory_index-list_of size)
      (list_of_mono need size h)
  where
    list_of_mono : (need size : ℕ) → need ≤ size → list_of need ≤ list_of size
    list_of_mono need size h = ground arith

pub compute_memory_index_le : (size : ℕ) → compute_memory_index size ≤ 6
compute_memory_index_le size = rw (compute_memory_index-list_of size) (list_of_le size)
  where
    list_of_le : (size : ℕ) → list_of size ≤ 6
    list_of_le size = ground arith

double_loop-pow : (n s : ℕ) → double_loop n s ≡ s * 2 ^ n
unfolding double_loop
double_loop-pow zero s = omega arith
double_loop-pow (suc n) s =
    omega (arith, double_loop-pow n (s * 2), ap (λ (t : ℕ). s * t) (pow-suc 2 n))

halving_loop-log :
    (fuel w c : ℕ)
    → 1 ≤ w
    → w < 2 ^ fuel
    → (e : ℕ) × (halving_loop fuel w c ≡ c + e) × (2 ^ e ≤ w) × (w < 2 ^ suc e)
unfolding halving_loop
halving_loop-log zero w c l h = absurd (omega (arith, l, h))
halving_loop-log (suc fuel) w c l h = elim (Bool-cases (ltb 1 w)) [
  | inl more ↦
      let (e, counted, low, high) =
        halving_loop-log fuel (w / 2) (c + 1) (omega (arith, ltb→lt 1 w more))
          (omega (arith, h, pow-suc 2 fuel)) in
      (
        suc e,
        if-true (λ x. x ≡ c + suc e) _ _ more (omega (arith, counted)),
        omega (arith, low, pow-suc 2 e),
        omega (arith, high, pow-suc 2 (suc e)),
      )
  | inr one ↦ (
    0,
    if-false (λ x. x ≡ c + 0) _ _ one (omega arith),
    omega (arith, l),
    omega (arith, ltb→ge 1 w one),
  )
]

power_of2-log :
    (size : ℕ)
    → 1 ≤ size
    → size < 2 ^ 31
    → (e : ℕ) × (power_of2 size ≡ (2 ^ e == size)) × (2 ^ e ≤ size) × (size < 2 ^ suc e)
unfolding power_of2
power_of2-log size l h =
    let (e, counted, low, high) = halving_loop-log 31 size 0 l h in
    let working : size % 2 ^ 32 ≡ size = omega (arith, h) in
    let counter : (if ltb (size % 2 ^ 32) (2 ^ 31) then halving_loop 31 (size % 2 ^ 32) 0 else 0)
        ≡ e =
      if-true (λ x. x ≡ e) _ _ (lt→ltb (size % 2 ^ 32) (2 ^ 31) (omega (arith, working, h)))
        (ap (λ x. halving_loop 31 x 0) working ∙ counted ∙ omega arith) in
    (
      e,
      ap (λ x. double_loop x 1 == size) counter
          ∙ ap (λ x. x == size) (double_loop-pow e 1 ∙ omega arith),
      low,
      high,
    )

compare-cases : (a b : ℕ) → (a ≡ b) ⊎ ((a < b) ⊎ (b < a))
compare-cases a b = ground arith

power_of2-zero : power_of2 0 ≡ false
unfolding power_of2 halving_loop double_loop
power_of2-zero = refl

power_unique : (e k : ℕ) → 2 ^ e ≤ 2 ^ k → 2 ^ k < 2 ^ suc e → e ≡ k
power_unique e k low high = elim (compare-cases e k) [
  | inl same ↦ same
  | inr (inl less) ↦
      absurd (omega (arith, high, pow-le-pow_right {n = 2} (omega arith) {i = suc e} {j = k} less))
  | inr (inr more) ↦ absurd (
      omega (
        arith,
        low,
        high,
        pow-suc 2 k,
        pow-suc 2 e,
        pow-le-pow_right {n = 2} (omega arith) {i = suc k} {j = e} more,
      ))
]

-- For a size below 2 ^ 31, power_of2 holds if and only if the size is a power of two.
pub power_of2_iff :
    (size : ℕ) → size < 2 ^ 31 → (power_of2 size ≡ true) ↔ ((k : ℕ) × (2 ^ k ≡ size))
power_of2_iff zero h = (
  λ t. absurd (cc (t, power_of2-zero)),
  λ p. absurd (omega (arith, p.1, one-le-pow p.0 2 (omega arith))),
)
power_of2_iff (suc n) h =
    let (e, test, low, high) = power_of2-log (suc n) (omega arith) h in
    (
      λ t. (e, (==_iff (2 ^ e) (suc n)).0 (sym test ∙ t)),
      λ p.
          test
          ∙ ==_eq (
              ap (λ x. 2 ^ x)
                (power_unique e p.0 (omega (arith, p.1, low)) (omega (arith, p.1, high)))
              ∙ p.1),
    )
