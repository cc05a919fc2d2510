-- ===== src/Bdd/Lookup/Scan.antt =====
-- What the probing of `bdd_lookup` in hw1/src/bdd.c comes upon: the node, an empty slot before it,
-- or neither in the whole map.
use cse_320_repository.Base.{
  ℕ, zero, suc, ◌+◌, ◌-◌, ◌%◌, ◌<◌, ◌≡◌, ◌≢◌, refl, subst, ◌⊎◌, inl, inr, true, false, Option, none,
  some, arith, Bool-cases, Option-cases, ◌==◌, ==_ne,
}
use cse_320_repository.Bdd.Store.{Node, node, Store, bdd_hash_size}
use cse_320_repository.Bdd.Lookup.{
  hash_function, matches, insert_node, probe, first_look, bdd_lookup,
}
use cse_320_repository.Bdd.Lookup.Invariant.{slot}

matches→eq :
    (n : Node) (level left right : ℕ)
    → matches n level left right ≡ true
    → n ≡ node level left right
matches→eq n level left right h = ground arith

matches→ne :
    (n : Node) (level left right : ℕ)
    → matches n level left right ≡ false
    → n ≢ node level left right
matches→ne n level left right h e = ground arith

module _ (hashed level left right : ℕ) (s : Store) where
  -- The slot at offset `t` points to another node.
  pub record Passed (t : ℕ) : Type 0 where
    pub index : ℕ
    pub points : s.hash_map (slot hashed t) ≡ some index
    pub other : s.nodes index ≢ node level left right

  pub record Hit (run : Option (ℕ × Store)) : Type 0 where
    pub index : ℕ
    pub offset : ℕ
    pub points : s.hash_map (slot hashed offset) ≡ some index
    pub same : s.nodes index ≡ node level left right
    pub result : run ≡ some (index, s)

  pub record Gap (run : Option (ℕ × Store)) : Type 0 where
    pub offset : ℕ
    pub in_range : offset < bdd_hash_size
    pub empty : s.hash_map (slot hashed offset) ≡ none
    pub passed : (t : ℕ) → t < offset → Passed t
    pub result : run ≡ insert_node (slot hashed offset) level left right s

  abbrev pub Scan : Option (ℕ × Store) → Type 0
  Scan run = Hit run ⊎ Gap run ⊎ ((t : ℕ) → t < bdd_hash_size → Passed t)

  extend-Passed : (i : ℕ) → ((t : ℕ) → t < i → Passed t) → Passed i → (t : ℕ) → t < i + 1 → Passed t
  extend-Passed i before here t lt = elim (Bool-cases (t == i)) [
    | inl e ↦ subst Passed (ground arith) here
    | inr e ↦ before t (ground arith)
  ]

  probe-Scan :
      (rounds i : ℕ)
      → i + rounds ≡ bdd_hash_size
      → ((t : ℕ) → t < i → Passed t)
      → Scan (probe bdd_hash_size rounds i hashed level left right s)
  unfolding probe
  probe-Scan zero i e before = inr (inr (λ t lt. before t (omega arith)))
  probe-Scan (suc rounds) i e before = elim (Option-cases (s.hash_map (slot hashed i))) [
    | inl free ↦ inr (
        inl (record {
          offset = i;
          in_range = omega arith;
          empty = free;
          passed = before;
          result = rw (free, probe);
        }))
    | inr (k, points) ↦ elim (Bool-cases (matches (s.nodes k) level left right)) [
      | inl same ↦ inl (record {
        index = k;
        offset = i;
        points = points;
        same = matches→eq (s.nodes k) level left right same;
        result = rw (points, probe, same);
      })
      | inr other ↦
          rw (points, probe, other)
            (probe-Scan rounds (i + 1) (omega arith) (
              extend-Passed i before (record {
                index = k;
                points = points;
                other = matches→ne (s.nodes k) level left right other;
              })))
    ]
  ]

slot_first :
    (level left right : ℕ)
    → slot (hash_function left right level) 0 ≡ hash_function left right level
unfolding hash_function
slot_first level left right = omega arith

drop_one : (rounds : ℕ) → suc rounds - 1 ≡ rounds
drop_one rounds = omega arith

-- The first look and the loop together are one loop over the whole map.
first_look-probe :
    (rounds hashed level left right : ℕ) (s : Store)
    → (hashed + 0) % suc rounds ≡ hashed
    → first_look (suc rounds) hashed level left right s
      ≡ probe (suc rounds) (suc rounds) 0 hashed level left right s
unfolding first_look probe
first_look-probe rounds hashed level left right s e = elim (Option-cases (s.hash_map hashed)) [
  | inl free ↦ rw (probe, first_look, e, free) (rw e)
  | inr (k, points) ↦ elim (Bool-cases (matches (s.nodes k) level left right)) [
    | inl same ↦ rw (probe, first_look, e, points, same) refl
    | inr other ↦ rw (probe, first_look, e, points, other, drop_one rounds) refl
  ]
]

pub bdd_lookup-Scan :
    (level left right : ℕ) (s : Store)
    → left ≢ right
    → Scan (hash_function left right level) level left right s (bdd_lookup level left right s)
unfolding bdd_lookup
bdd_lookup-Scan level left right s h =
    rw
      (
        ==_ne left right h,
        first_look-probe (bdd_hash_size - 1) (hash_function left right level) level left right s
            (slot_first level left right),
      )
      (probe-Scan (hash_function left right level) level left right s bdd_hash_size 0 (omega arith)
        (λ t lt. elim lt [ ]))
