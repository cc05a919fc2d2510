-- ===== src/Base/Bits.antt =====
-- The binary digits of a number, and `bit_and` with a power of two.
use Prim.Native.Nat.{
  ℕ, zero, suc, ◌+◌, ◌-◌, ◌*◌, ◌/◌, ◌%◌, ◌^◌, ◌≤◌, ◌<◌, min, max, bit_and, bit_or, digits,
  bit_and-bitwise, bit_or-bitwise,
}
use mathlib.Core.Path.{◌≡◌, refl, ap, ◌∙◌}
use native.Mathlib.Omega.{arith}
use native.Mathlib.Nat.{pow-suc}

-- Digit `e` of `a`.
abbrev pub bit : ℕ → ℕ → ℕ
bit zero a = a % 2
bit (suc e) a = bit e (a / 2)

-- The number that the lowest `m` digits of `a` stand for.
abbrev pub low : ℕ → ℕ → ℕ
low zero a = 0
low (suc m) a = bit m a * 2 ^ m + low m a

pub bit-le-one : (e a : ℕ) → bit e a ≤ 1
bit-le-one zero a = omega arith
bit-le-one (suc e) a = bit-le-one e (a / 2)

pub low-suc : (m a : ℕ) → low (suc m) a ≡ 2 * low m (a / 2) + a % 2
low-suc zero a = omega arith
low-suc (suc m) a = omega (arith, low-suc m a, ap (λ (t : ℕ). bit m (a / 2) * t) (pow-suc 2 m))

pub low-lt : (m a : ℕ) → low m a < 2 ^ m
low-lt zero a = omega arith
low-lt (suc m) a = omega (arith, low-lt m (a / 2), low-suc m a, pow-suc 2 m)

pub low_of_lt : (m a : ℕ) → a < 2 ^ m → low m a ≡ a
low_of_lt zero a h = omega arith
low_of_lt (suc m) a h =
    omega (arith, low-suc m a, pow-suc 2 m, low_of_lt m (a / 2) (omega (arith, pow-suc 2 m)))

bit-zero : (e : ℕ) → bit e 0 ≡ 0
bit-zero zero = refl
bit-zero (suc e) = bit-zero e

and_digits-zero : (n a : ℕ) → digits (λ b. zero) min n a 0 ≡ 0
and_digits-zero zero a = refl
and_digits-zero (suc n) zero = refl
and_digits-zero (suc n) (suc a) = omega (arith, and_digits-zero n (suc a / 2))

pow-half : (e : ℕ) → 2 ^ suc e / 2 ≡ 2 ^ e
pow-half e = omega (arith, pow-suc 2 e)

pow-even : (e : ℕ) → 2 ^ suc e % 2 ≡ 0
pow-even e = omega (arith, pow-suc 2 e)

and_digits-pow : (n a e : ℕ) → a ≤ n → digits (λ b. zero) min n a (2 ^ e) ≡ bit e a * 2 ^ e
and_digits-pow zero zero e h = omega (arith, ap (λ (t : ℕ). t * 2 ^ e) (bit-zero e))
and_digits-pow zero (suc a) e h = absurd (omega arith)
and_digits-pow (suc n) zero e h = omega (arith, ap (λ (t : ℕ). t * 2 ^ e) (bit-zero e))
and_digits-pow (suc n) (suc a) zero h = omega (arith, and_digits-zero n (suc a / 2))
and_digits-pow (suc n) (suc a) (suc e) h =
    rw (pow-half e, pow-even e)
      (omega (
        arith,
        and_digits-pow n (suc a / 2) e (omega arith),
        ap (λ (t : ℕ). bit e (suc a / 2) * t) (pow-suc 2 e),
      ))

-- A mask of one binary digit selects that digit.
pub bit_and-pow : (a e : ℕ) → bit_and a (2 ^ e) ≡ bit e a * 2 ^ e
bit_and-pow a e = bit_and-bitwise a (2 ^ e) ∙ and_digits-pow a a e (omega arith)

pub bit_and-zero : (a : ℕ) → bit_and a 0 ≡ 0
bit_and-zero a = bit_and-bitwise a 0 ∙ and_digits-zero a a

or_digits-zero : (n a : ℕ) → a ≤ n → digits (λ b. b) max n a 0 ≡ a
or_digits-zero zero zero h = refl
or_digits-zero zero (suc a) h = absurd (omega arith)
or_digits-zero (suc n) zero h = refl
or_digits-zero (suc n) (suc a) h = omega (arith, or_digits-zero n (suc a / 2) (omega arith))

pub bit_or-zero : (a : ℕ) → bit_or a 0 ≡ a
bit_or-zero a = bit_or-bitwise a 0 ∙ or_digits-zero a a (omega arith)

or_digits-pow : (n a e : ℕ) → a ≤ n → digits (λ b. b) max n a (2 ^ e) ≡ a + (1 - bit e a) * 2 ^ e
or_digits-pow zero zero e h = omega (arith, ap (λ (t : ℕ). (1 - t) * 2 ^ e) (bit-zero e))
or_digits-pow zero (suc a) e h = absurd (omega arith)
or_digits-pow (suc n) zero e h = omega (arith, ap (λ (t : ℕ). (1 - t) * 2 ^ e) (bit-zero e))
or_digits-pow (suc n) (suc a) zero h = omega (arith, or_digits-zero n (suc a / 2) (omega arith))
or_digits-pow (suc n) (suc a) (suc e) h =
    rw (pow-half e, pow-even e)
      (omega (
        arith,
        or_digits-pow n (suc a / 2) e (omega arith),
        ap (λ (t : ℕ). (1 - bit e (suc a / 2)) * t) (pow-suc 2 e),
      ))

-- And it sets that digit.
pub bit_or-pow : (a e : ℕ) → bit_or a (2 ^ e) ≡ a + (1 - bit e a) * 2 ^ e
bit_or-pow a e = bit_or-bitwise a (2 ^ e) ∙ or_digits-pow a a e (omega arith)

or_digits-add :
    (e n a b x : ℕ) → x ≤ n → x ≡ a * 2 ^ e → b < 2 ^ e → digits (λ b. b) max n x b ≡ x + b
or_digits-add zero n a b x h m below =
    let none_left : b ≡ 0 = omega arith in rw none_left (omega (arith, or_digits-zero n x h))
or_digits-add (suc e) zero a b zero h m below = omega arith
or_digits-add (suc e) zero a b (suc x) h m below = absurd (omega arith)
or_digits-add (suc e) (suc n) a b zero h m below = omega arith
or_digits-add (suc e) (suc n) a b (suc x) h m below =
    let half : suc x ≡ 2 * (a * 2 ^ e) = omega (arith, ap (λ (t : ℕ). a * t) (pow-suc 2 e)) in
    omega (
      arith,
      or_digits-add e n a (b / 2) (suc x / 2) (omega arith) (omega arith)
          (omega (arith, pow-suc 2 e)),
    )

-- Digits above and below a place are put side by side.
pub bit_or-add : (a e b : ℕ) → b < 2 ^ e → bit_or (a * 2 ^ e) b ≡ a * 2 ^ e + b
bit_or-add a e b h =
    bit_or-bitwise (a * 2 ^ e) b ∙ or_digits-add e _ a b (a * 2 ^ e) (omega arith) refl h
