-- ===== src/Chat/Heap.antt =====
-- Objects of hw5/src on the heap: an address is the number of the allocation, a freed cell is empty.
-- Addresses are not given out again, so a use after `free` is seen as a fault.
use cse_320_repository.Base.{
  Text, ℕ, suc, ◌==◌, Option, none, some, ◌≡◌, ◌≢◌, ◌⊎◌, inl, inr, Bool-cases, ==_iff, arith,
  none_ne_some, some-injective, update,
}

pub record Heap (A : Type 0) : Type 0 where
  pub cells : ℕ → Option A
  pub next : ℕ

abbrev pub empty_heap : {A : Type 0} → Heap A
empty_heap = record { cells = λ p. none; next = 0 }

abbrev pub malloc : {A : Type 0} → A → Heap A → ℕ × Heap A
malloc a h = (h.next, record { cells = update h.cells h.next (some a); next = suc h.next })

abbrev pub write : {A : Type 0} → ℕ → A → Heap A → Heap A
write p a h = record h { cells = update h.cells p (some a) }

abbrev pub free : {A : Type 0} → ℕ → Heap A → Heap A
free p h = record h { cells = update h.cells p none }

-- An effect that ends without a fault, and another after it.
infixl 5 ◌>=>◌
abbrev pub ◌>=>◌ : {S : Type 0} → (S → Option S) → (S → Option S) → S → Option S
(f >=> g) s = elim (f s) [ none ↦ none | some t ↦ g t ]

-- A handle is the list of its bytes, without the terminator.
abbrev pub Handle : Type 0
Handle = Text

-- What a cell holds after a write, and after a free.
pub written :
    {A : Type 0} (cells : ℕ → Option A) (p q : ℕ) (a b : A)
    → update cells p (some a) q ≡ some b
    → ((q ≡ p) × (a ≡ b)) ⊎ ((q ≢ p) × (cells q ≡ some b))
written cells p q a b h = elim (Bool-cases (q == p)) [
  | inl same ↦ inl ((==_iff q p).0 same, some-injective a b (rw same at h))
  | inr apart ↦ inr ((λ e. absurd (ground arith)), rw apart at h)
]

pub freed :
    {A : Type 0} (cells : ℕ → Option A) (p q : ℕ) (b : A)
    → update cells p none q ≡ some b
    → (q ≢ p) × (cells q ≡ some b)
freed cells p q b h = elim (Bool-cases (q == p)) [
  | inl same ↦ absurd (none_ne_some (rw same at h))
  | inr apart ↦ ((λ e. absurd (ground arith)), rw apart at h)
]
