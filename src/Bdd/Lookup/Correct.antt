-- ===== src/Bdd/Lookup/Correct.antt =====
-- What `bdd_lookup` of hw1/src/bdd.c returns, and the table that it leaves.
use cse_320_repository.Base.{
  ℕ, ◌+◌, ◌≤◌, ◌<◌, ◌≡◌, ◌≢◌, refl, subst, ◌∙◌, ◌⊎◌, inl, inr, some, arith, Bool-cases, ◌==◌,
  ==_iff, lt→ltb, update,
}
use cse_320_repository.Bdd.Store.{Node, node, Store, bdd_num_leaves, bdd_nodes_max, Returns}
use cse_320_repository.Bdd.Lookup.{hash_function, insert_node, bdd_lookup}
use cse_320_repository.Bdd.Lookup.Invariant.{level_of, IsTable, Extends, Extends-refl}
use cse_320_repository.Bdd.Lookup.Scan.{Hit, Gap, bdd_lookup-Scan}
use cse_320_repository.Bdd.Lookup.Insert.{never_full, absent, grown, grown-IsTable, kept, fresh}

-- The arguments that the callers pass: two indices in use, a level above theirs, a free node.
pub record IsCall (s : Store) (level left right : ℕ) : Type 0 where
  pub left_used : left < s.free_node_counter
  pub right_used : right < s.free_node_counter
  pub left_level : level_of s.nodes left < level
  pub right_level : level_of s.nodes right < level
  pub char_level : level < 128
  pub room : s.free_node_counter < bdd_nodes_max

-- The index `k` stands for a test at `level` with the two children: for the child itself where they
-- are equal, else for a node that holds exactly these.
pub record IsNode (s : Store) (level left right k : ℕ) (t : Store) : Type 0 where
  pub table : IsTable t
  pub extends : Extends s t
  pub growth : t.free_node_counter ≤ s.free_node_counter + 1
  pub same_map : t.index_map ≡ s.index_map
  pub used : k < t.free_node_counter
  pub denotes :
      ((left ≡ right) × (k ≡ left))
      ⊎ ((left ≢ right) × (bdd_num_leaves ≤ k) × (t.nodes k ≡ node level left right))

insert_node-room :
    (i level left right : ℕ) (s : Store)
    → s.free_node_counter < bdd_nodes_max
    → level < 128
    → insert_node i level left right s
      ≡ some (
        s.free_node_counter,
        record s {
          nodes = update s.nodes s.free_node_counter (node level left right);
          hash_map = update s.hash_map i (some s.free_node_counter);
          free_node_counter = s.free_node_counter + 1;
        },
      )
unfolding insert_node
insert_node-room i level left right s room small = rw (lt→ltb _ _ room, lt→ltb _ _ small) refl

module _ (level left right : ℕ) (s : Store) (v : IsTable s) (c : IsCall s level left right) where
  same_child : left ≡ right → Returns (IsNode s level left right) (bdd_lookup level left right s)
  unfolding bdd_lookup
  same_child e = record {
    value = left;
    store = s;
    ran = rw ((==_iff left right).1 e);
    holds = record {
      table = v;
      extends = Extends-refl s;
      growth = omega arith;
      same_map = refl;
      used = c.left_used;
      denotes = inl (e, refl);
    };
  }

  module _ (apart : left ≢ right) where
    hit :
        Hit (hash_function left right level) level left right s (bdd_lookup level left right s)
        → Returns (IsNode s level left right) (bdd_lookup level left right s)
    hit h =
        let (low, high) = v.stored _ h.index h.points in
        record {
          value = h.index;
          store = s;
          ran = h.result;
          holds = record {
            table = v;
            extends = Extends-refl s;
            growth = omega arith;
            same_map = refl;
            used = high;
            denotes = inr (apart, low, h.same);
          };
        }

    miss :
        Gap (hash_function left right level) level left right s (bdd_lookup level left right s)
        → Returns (IsNode s level left right) (bdd_lookup level left right s)
    miss gap = record {
      value = s.free_node_counter;
      store = grown level left right s v gap;
      ran = gap.result ∙ insert_node-room _ level left right s c.room c.char_level;
      holds = record {
        table =
            grown-IsTable level left right s v gap (c.left_used, c.right_used)
              (c.left_level, c.right_level, c.char_level) apart c.room;
        extends = record { grows = omega arith; kept = kept level left right s v gap };
        growth = omega arith;
        same_map = refl;
        used = omega arith;
        denotes = inr (apart, v.leaves, fresh level left right s v gap);
      };
    }

  -- From a well-formed table, on two indices in use, a higher level below 128 and a free node, the
  -- call ends in a well-formed table that keeps all nodes and has at most one more. It returns the
  -- child where the two are equal, and else a node with exactly that level and those children.
  pub bdd_lookup-IsNode : Returns (IsNode s level left right) (bdd_lookup level left right s)
  bdd_lookup-IsNode = elim (Bool-cases (left == right)) [
    | inl e ↦ same_child ((==_iff left right).0 e)
    | inr e ↦
        let apart : left ≢ right = ground arith in
        elim (bdd_lookup-Scan level left right s apart) [
          | inl h ↦ hit apart h
          | inr (inl gap) ↦ miss apart gap
          | inr (inr all) ↦ absurd (never_full level left right s v all)
        ]
  ]

-- In a well-formed table `bdd_lookup` finds each stored node again by its level and children: it
-- returns the node's index and changes nothing.
pub bdd_lookup-known :
    (s : Store) (k : ℕ)
    → IsTable s
    → bdd_num_leaves ≤ k
    → k < s.free_node_counter
    → bdd_lookup (s.nodes k).level (s.nodes k).left (s.nodes k).right s ≡ some (k, s)
bdd_lookup-known s k v low high =
    elim (bdd_lookup-Scan n.level n.left n.right s (v.shaped k low high).reduced) [
      | inl h ↦
          let (l, u) = v.stored _ h.index h.points in
          subst (λ m. bdd_lookup n.level n.left n.right s ≡ some (m, s))
            (v.unique h.index k l u low high h.same) h.result
      | inr (inl gap) ↦ absurd (absent n.level n.left n.right s v gap k low high refl)
      | inr (inr all) ↦ absurd (never_full n.level n.left n.right s v all)
    ]
  where
    n : Node
    n = s.nodes k
