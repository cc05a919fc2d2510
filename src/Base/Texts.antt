-- ===== src/Base/Texts.antt =====
-- Texts as lists of bytes without the terminator, the comparison of `strcmp`, and loops on a counter.
use Prim.Native.Char.{code}
use Prim.Native.Nat.{ℕ, zero, suc, ◌+◌, ◌≤◌, ◌<◌}
use Prim.Native.String.{String}
use mathlib.Core.Path.{◌≡◌, refl, sym, subst}
use mathlib.Core.Logic.{◌⊎◌, inl, inr}
use mathlib.Core.Bool.{Bool, true, false, ◌&&◌}
use mathlib.Core.List.{List, [], ◌∷◌}
use mathlib.Core.Option.{Option, none, some}
use native.Mathlib.Omega.{arith}
use cse_320_repository.Base.Tests.{◌==◌, ==_refl, ==_iff, Bool-cases}

abbrev pub Text : Type 0
Text = List ℕ

abbrev pub codes : String → Text
codes String.[] = []
codes (String.◌∷◌ c s) = code c ∷ codes s

-- `strcmp` says that two texts are the same.
abbrev pub same_text : Text → Text → Bool
same_text [] [] = true
same_text [] (b ∷ ys) = false
same_text (a ∷ xs) [] = false
same_text (a ∷ xs) (b ∷ ys) = (a == b) && same_text xs ys

pub same_text_refl : (a : Text) → same_text a a ≡ true
same_text_refl [] = refl
same_text_refl (a ∷ xs) = rw (==_refl a) (same_text_refl xs)

pub same_text-eq : (a b : Text) → same_text a b ≡ true → a ≡ b
same_text-eq [] [] e = refl
same_text-eq [] (b ∷ ys) e = absurd (cc)
same_text-eq (a ∷ xs) [] e = absurd (cc)
same_text-eq (a ∷ xs) (b ∷ ys) e = elim (Bool-cases (a == b)) [
  | inl same ↦
      let head : a ≡ b = (==_iff a b).0 same in
      let tail : xs ≡ ys = same_text-eq xs ys (rw same at e) in rw (head, tail) refl
  | inr apart ↦ absurd (cc (rw apart at e))
]

pub same_text_sym : (a b : Text) → same_text a b ≡ false → same_text b a ≡ false
same_text_sym a b e = elim (Bool-cases (same_text b a)) [
  | inl same ↦
      absurd
        (cc (e, subst (λ x. same_text a x ≡ true) (sym (same_text-eq b a same)) (same_text_refl a)))
  | inr apart ↦ apart
]

-- for (k = i; k < i + n; k++) s = body k s.
unfoldable pub for_range {ℓ} : {S : Type ℓ} → (n i : ℕ) → (ℕ → S → S) → S → S
for_range zero i body s = s
for_range (suc n) i body s = for_range n (suc i) body (body i s)

pub for_range_inv {ℓ κ} :
    {S : Type ℓ} (P : ℕ → S → Type κ) (body : ℕ → S → S) (n i j : ℕ) (s : S)
    → i + n ≡ j
    → ((k : ℕ) (s : S) → k < j → P k s → P (suc k) (body k s))
    → P i s
    → P j (for_range n i body s)
unfolding for_range
for_range_inv P body zero i j s e keep h = let e' : i ≡ j = omega arith in rw (← e') h
for_range_inv P body (suc n) i j s e keep h =
    for_range_inv P body n (suc i) j (body i s) (omega arith) keep (keep i s (omega arith) h)

-- The first number from `i` on, of `n`, that passes the test.
unfoldable pub find_first : (n i : ℕ) → (ℕ → Bool) → Option ℕ
find_first zero i test = none
find_first (suc n) i test = elim (test i) [ true ↦ some i | false ↦ find_first n (suc i) test ]

pub record IsFirst (n i : ℕ) (test : ℕ → Bool) (k : ℕ) : Type 0 where
  pub from : i ≤ k
  pub below : k < i + n
  pub passes : test k ≡ true
  pub earlier : (j : ℕ) → i ≤ j → j < k → test j ≡ false

pub at_or_after {ℓ} : (P : ℕ → Type ℓ) (i j : ℕ) → i ≤ j → P i → (suc i ≤ j → P j) → P j
at_or_after P i j low here later = elim (Bool-cases (j == i)) [
  | inl same ↦ subst P (sym ((==_iff j i).0 same)) here
  | inr apart ↦ later (ground arith)
]

pub find_first-IsFirst :
    (n i : ℕ) (test : ℕ → Bool)
    → ((find_first n i test ≡ none) × ((j : ℕ) → i ≤ j → j < i + n → test j ≡ false))
      ⊎ ((k : ℕ) × (find_first n i test ≡ some k) × IsFirst n i test k)
unfolding find_first
find_first-IsFirst zero i test = inl (refl, λ j low high. absurd (omega arith))
find_first-IsFirst (suc n) i test = elim (Bool-cases (test i)) [
  | inl here ↦ inr (
    i,
    rw (find_first, here) refl,
    record {
      from = omega arith;
      below = omega arith;
      passes = here;
      earlier = λ j low high. absurd (omega arith);
    },
  )
  | inr later ↦ elim (find_first-IsFirst n (suc i) test) [
    | inl (stuck, nowhere) ↦ inl (
      rw (find_first, later) stuck,
      λ j low high.
          at_or_after (λ t. test t ≡ false) i j low later (λ l. nowhere j l (omega arith)),
    )
    | inr (k, found, first) ↦ inr (
      k,
      rw (find_first, later) found,
      record {
        from = omega (arith, first.from);
        below = omega (arith, first.below);
        passes = first.passes;
        earlier = λ j low high.
            at_or_after (λ t. test t ≡ false) i j low later (λ l. first.earlier j l high);
      },
    )
  ]
]
