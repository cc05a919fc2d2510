-- ===== src/Chat/Client/Slots.antt =====
-- The array of clients in hw5/src/client_registry.c: the first empty cell, and the cell of a client.
use cse_320_repository.Base.{
  ℕ, zero, suc, ◌≡◌, ◌≢◌, ◌<◌, arith, refl, sym, ap, inl, inr, ◌==◌, ==_refl, Bool-cases, Option,
  none, some, List, [], ◌∷◌, length, Option-cases, none_ne_some, some-injective,
}
use cse_320_repository.Chat.Client.{free_slot, set_slot, slot_of, connected}

pub free_slot-full :
    (cs : List (Option ℕ)) → free_slot cs ≡ none → length (connected cs) ≡ length cs
unfolding free_slot connected
free_slot-full [] e = refl
free_slot-full (none ∷ cs) e = absurd (none_ne_some (sym e))
free_slot-full (some c ∷ cs) e = elim (Option-cases (free_slot cs)) [
  | inl full ↦ ap suc (free_slot-full cs full)
  | inr (i, at_i) ↦ absurd (none_ne_some (sym (rw at_i at e)))
]

-- A cell that is taken is not the first empty one; the rest has it.
after_taken :
    (c : ℕ) (cs : List (Option ℕ)) (i : ℕ)
    → free_slot (some c ∷ cs) ≡ some i
    → (j : ℕ) × (i ≡ suc j) × (free_slot cs ≡ some j)
unfolding free_slot
after_taken c cs i e = elim (Option-cases (free_slot cs)) [
  | inl full ↦ absurd (none_ne_some (rw full at e))
  | inr (j, at_j) ↦ (j, sym (some-injective (suc j) i (rw at_j at e)), at_j)
]

at_first : (cs : List (Option ℕ)) (i : ℕ) → free_slot (none ∷ cs) ≡ some i → i ≡ 0
unfolding free_slot
at_first cs i e = sym (some-injective 0 i e)

-- The cell at an index, if the array has it.
abbrev pub cell_at : List (Option ℕ) → ℕ → Option (Option ℕ)
cell_at [] i = none
cell_at (c ∷ cs) zero = some c
cell_at (c ∷ cs) (suc i) = cell_at cs i

pub free_slot-empty :
    (cs : List (Option ℕ)) (i : ℕ) → free_slot cs ≡ some i → cell_at cs i ≡ some none
unfolding free_slot
free_slot-empty [] i e = absurd (none_ne_some e)
free_slot-empty (none ∷ cs) i e = rw (at_first cs i e) refl
free_slot-empty (some c ∷ cs) i e =
    let (j, is, at_j) = after_taken c cs i e in rw is (free_slot-empty cs j at_j)

pub free_slot-first :
    (cs : List (Option ℕ)) (i : ℕ)
    → free_slot cs ≡ some i
    → (j : ℕ) → j < i
    → cell_at cs j ≢ some none
unfolding free_slot
free_slot-first [] i e j lt h = absurd (none_ne_some e)
free_slot-first (none ∷ cs) i e j lt h = omega (arith, at_first cs i e)
free_slot-first (some c ∷ cs) i e zero lt h = none_ne_some (sym (some-injective (some c) none h))
free_slot-first (some c ∷ cs) i e (suc j) lt h =
    let (k, is, at_k) = after_taken c cs i e in free_slot-first cs k at_k j (omega (arith, is)) h

pub set_slot-at :
    (i : ℕ) (v w : Option ℕ) (cs : List (Option ℕ))
    → cell_at cs i ≡ some w
    → cell_at (set_slot i v cs) i ≡ some v
unfolding set_slot
set_slot-at i v w [] h = absurd (none_ne_some h)
set_slot-at zero v w (c ∷ cs) h = refl
set_slot-at (suc i) v w (c ∷ cs) h = set_slot-at i v w cs h

pub set_slot-other :
    (i j : ℕ) (v : Option ℕ) (cs : List (Option ℕ))
    → j ≢ i
    → cell_at (set_slot i v cs) j ≡ cell_at cs j
unfolding set_slot
set_slot-other i j v [] h = refl
set_slot-other zero zero v (c ∷ cs) h = absurd (h refl)
set_slot-other zero (suc j) v (c ∷ cs) h = refl
set_slot-other (suc i) zero v (c ∷ cs) h = refl
set_slot-other (suc i) (suc j) v (c ∷ cs) h = set_slot-other i j v cs (λ e. h (ap suc e))

pub set_slot-length :
    (i : ℕ) (v : Option ℕ) (cs : List (Option ℕ)) → length (set_slot i v cs) ≡ length cs
unfolding set_slot
set_slot-length i v [] = refl
set_slot-length zero v (c ∷ cs) = refl
set_slot-length (suc i) v (c ∷ cs) = ap suc (set_slot-length i v cs)

pub connected-set_slot :
    (c : ℕ) (cs : List (Option ℕ)) (i : ℕ)
    → free_slot cs ≡ some i
    → length (connected (set_slot i (some c) cs)) ≡ suc (length (connected cs))
unfolding connected set_slot free_slot
connected-set_slot c [] i e = absurd (none_ne_some e)
connected-set_slot c (none ∷ cs) i e = rw (at_first cs i e) refl
connected-set_slot c (some d ∷ cs) i e =
    let (j, is, at_j) = after_taken d cs i e in rw is (ap suc (connected-set_slot c cs j at_j))

-- Emptying the cell again restores the array.
pub set_slot-back :
    (c : ℕ) (cs : List (Option ℕ)) (i : ℕ)
    → free_slot cs ≡ some i
    → set_slot i none (set_slot i (some c) cs) ≡ cs
unfolding set_slot free_slot
set_slot-back c [] i e = refl
set_slot-back c (none ∷ cs) i e = rw (at_first cs i e) refl
set_slot-back c (some d ∷ cs) i e =
    let (j, is, at_j) = after_taken d cs i e in
    rw is (ap (λ ds. some d ∷ ds) (set_slot-back c cs j at_j))

-- A client that no other cell holds is found in the cell that it was put in.
pub slot_of-set_slot :
    (c : ℕ) (cs : List (Option ℕ)) (i : ℕ)
    → free_slot cs ≡ some i
    → slot_of c cs ≡ none
    → slot_of c (set_slot i (some c) cs) ≡ some i
unfolding set_slot free_slot slot_of
slot_of-set_slot c [] i e fresh = absurd (none_ne_some e)
slot_of-set_slot c (none ∷ cs) i e fresh = rw (at_first cs i e, ==_refl c) refl
slot_of-set_slot c (some d ∷ cs) i e fresh =
    let (j, is, at_j) = after_taken d cs i e in
    elim (Bool-cases (d == c)) [
      | inl same ↦ absurd (none_ne_some (sym (rw same at fresh)))
      | inr other ↦ elim (Option-cases (slot_of c cs)) [
        | inl absent ↦ rw (is, other, slot_of-set_slot c cs j at_j absent) refl
        | inr (k, found) ↦ absurd (none_ne_some (sym (rw (other, found) at fresh)))
      ]
    ]
