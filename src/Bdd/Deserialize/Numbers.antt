-- ===== src/Bdd/Deserialize/Numbers.antt =====
-- The serial numbers that `bdd_serialize` of hw1/src/bdd.c gives out, kept in `bdd_index_map`.
use cse_320_repository.Base.{
  ℕ, zero, suc, ◌+◌, ◌≤◌, ◌<◌, ◌==◌, ◌≡◌, ◌≢◌, refl, sym, ap, ◌∙◌, some, Bool-cases, inl, inr,
  if◌then◌else◌, if-false, ==_iff, update, update_at, update_self, update_ne, arith,
}
use cse_320_repository.Bdd.Store.{Store, bdd_num_leaves}
use cse_320_repository.Bdd.Lookup.{bdd_lookup}
use cse_320_repository.Bdd.Lookup.Invariant.{IsTable}
use cse_320_repository.Bdd.Lookup.Correct.{bdd_lookup-known}

-- The store with another index map.
abbrev pub indexed : Store → (ℕ → ℕ) → Store
indexed s g = record s { index_map = g }

indexed-IsTable : (s : Store) (g : ℕ → ℕ) → IsTable s → IsTable (indexed s g)
indexed-IsTable s g v = record {
  leaves = v.leaves;
  within = v.within;
  stored = v.stored;
  load = v.load;
  reached = λ k low high. record {
    offset = (v.reached k low high).offset;
    in_range = (v.reached k low high).in_range;
    found = (v.reached k low high).found;
    before = (v.reached k low high).before;
  };
  shaped = v.shaped;
  unique = v.unique;
}

pub lookup_indexed :
    (s : Store) (g : ℕ → ℕ) (k : ℕ)
    → IsTable s
    → bdd_num_leaves ≤ k
    → k < s.free_node_counter
    → bdd_lookup (s.nodes k).level (s.nodes k).left (s.nodes k).right (indexed s g)
      ≡ some (k, indexed s g)
lookup_indexed s g k v low high = bdd_lookup-known (indexed s g) k (indexed-IsTable s g v) low high

-- How many of the first `n` indices have a number.
pub marked : (ℕ → ℕ) → ℕ → ℕ
marked g zero = 0
marked g (suc n) = marked g n + (if g n == 0 then 0 else 1)

pub marked_le : (g : ℕ → ℕ) (n : ℕ) → marked g n ≤ n
unfolding marked
marked_le g zero = omega arith
marked_le g (suc n) = ground (arith, marked_le g n)

marked-beyond : (g : ℕ → ℕ) (i v n : ℕ) → n ≤ i → marked (update g i v) n ≡ marked g n
unfolding marked
marked-beyond g i v zero h = refl
marked-beyond g i v (suc n) h =
    rw (update_ne g i n v (omega arith), marked-beyond g i v n (omega arith)) refl

pub marked-update :
    (g : ℕ → ℕ) (i v n : ℕ) → g i ≡ 0 → 1 ≤ v → i < n → marked (update g i v) n ≡ marked g n + 1
unfolding marked
marked-update g i v zero e p h = absurd (omega (arith, h))
marked-update g i v (suc n) e p h = ground (arith, marked-update g i v n e p, marked-beyond g i v n)

-- The indices with a number below `n`, and the map back.
pub record IsNumbered (bound : ℕ) (g d : ℕ → ℕ) (n : ℕ) : Type 0 where
  pub one : 1 ≤ n
  pub counted : n ≤ 1 + marked g bound
  pub below : (k : ℕ) → k < bound → g k ≢ 0 → g k < n
  pub back : (k : ℕ) → k < bound → g k ≢ 0 → d (g k) ≡ k

-- One index more.
pub IsNumbered-next :
    (bound : ℕ) (g d : ℕ → ℕ) (n k : ℕ)
    → IsNumbered bound g d n
    → k < bound
    → g k ≡ 0
    → IsNumbered bound (update g k n) (update d n k) (n + 1)
IsNumbered-next bound g d n k v h e = record {
  one = omega arith;
  counted = omega (arith, v.counted, marked-update g k n bound e v.one h);
  below = λ j l p. elim (Bool-cases (j == k)) [
    | inl here ↦ omega (arith, update_at g k j n (sym ((==_iff j k).0 here)))
    | inr other ↦
        let same : update g k n j ≡ g j = if-false (λ x. x ≡ g j) n (g j) other refl in
        omega (arith, same, v.below j l (λ z. p (same ∙ z)))
  ];
  back = λ j l p. elim (Bool-cases (j == k)) [
    | inl here ↦
        let at : j ≡ k = (==_iff j k).0 here in
        ap (update d n k) (update_at g k j n (sym at)) ∙ update_self d n k ∙ sym at
    | inr other ↦
        let same : update g k n j ≡ g j = if-false (λ x. x ≡ g j) n (g j) other refl in
        let less : g j < n = v.below j l (λ z. p (same ∙ z)) in
        ap (update d n k) same
        ∙ update_ne d n (g j) k (omega (arith, less))
        ∙ v.back j l (λ z. p (same ∙ z))
  ];
}
