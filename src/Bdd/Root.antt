-- ===== src/Bdd/Root.antt =====
-- Pointers to whole images in hw1/src/bdd.c: a node, or the special node of an image of one colour.
use cse_320_repository.Base.{
  ℕ, ◌-◌, ◌≤◌, ◌<◌, ◌≡◌, ◌≢◌, refl, sym, subst, ◌∙◌, inl, inr, arith, Bool-cases, ltb, update,
  update_self, update_ne, none, some,
}
use cse_320_repository.Bdd.Store.{Node, node, Store, Returns, bdd_num_leaves, bdd_nodes_max}
use cse_320_repository.Bdd.Lookup.Invariant.{
  key_of, slot, level_of, IsReached, IsShaped, IsTable, Extends,
}
use cse_320_repository.Bdd.Image.{pixel, pixel_skip}
use cse_320_repository.Bdd.Build.{Picture, IsDrawn}
use cse_320_repository.Bdd.Raster.{root_of, write_special, special_level}

-- The image that the pointer `p` stands for.
pub data IsRoot (l : ℕ) (picture : Picture) (t : Store) (p : ℕ) : Type 0 where
  whole :
      (value : ℕ)
      → value < bdd_num_leaves
      → t.nodes p ≡ node special_level value value
      → ((r c : ℕ) → picture r c ≡ value)
      → IsRoot l picture t p
  inner : bdd_num_leaves ≤ p → IsDrawn l picture t p → IsRoot l picture t p

-- The cells of `bdd_nodes` that are not in use do not matter to the table.
module _ (s : Store) (nodes : ℕ → Node)
    (kept : (k : ℕ) → k < s.free_node_counter → nodes k ≡ s.nodes k) (v : IsTable s) where
  abbrev pub rewritten : Store
  rewritten = record s { nodes = nodes }

  rewritten-IsReached :
      (k : ℕ) → bdd_num_leaves ≤ k → k < s.free_node_counter → IsReached rewritten k
  rewritten-IsReached k low high = record {
    offset = r.offset;
    in_range = r.in_range;
    found = subst (λ n. s.hash_map (slot (key_of n) r.offset) ≡ some k) (sym (kept k high)) r.found;
    before =
        subst (λ n. (i : ℕ) → i < r.offset → s.hash_map (slot (key_of n) i) ≢ none)
          (sym (kept k high)) r.before;
  }
    where
      r : IsReached s k
      r = v.reached k low high

  level_kept : (k : ℕ) → k < s.free_node_counter → level_of nodes k ≡ level_of s.nodes k
  level_kept k h = rw (kept k h)

  rewritten-IsShaped :
      (k : ℕ) → bdd_num_leaves ≤ k → k < s.free_node_counter → IsShaped nodes (nodes k) k
  rewritten-IsShaped k low high =
      subst (λ n. IsShaped nodes n k) (sym (kept k high))
        (record {
          reduced = r.reduced;
          left_below = r.left_below;
          right_below = r.right_below;
          left_level = rw (level_kept (s.nodes k).left (omega (arith, r.left_below))) r.left_level;
          right_level =
              rw (level_kept (s.nodes k).right (omega (arith, r.right_below))) r.right_level;
          char_level = r.char_level;
        })
    where
      r : IsShaped s.nodes (s.nodes k) k
      r = v.shaped k low high

  pub rewritten-IsTable : IsTable rewritten
  rewritten-IsTable = record {
    leaves = v.leaves;
    within = v.within;
    stored = v.stored;
    load = v.load;
    reached = rewritten-IsReached;
    shaped = rewritten-IsShaped;
    unique = λ j k jl jh kl kh e. v.unique j k jl jh kl kh (sym (kept j jh) ∙ e ∙ kept k kh);
  }

  pub rewritten-Extends : Extends s rewritten
  rewritten-Extends = record { grows = omega arith; kept = kept }

-- What `root_of` leaves: a table that extends the one before, and a pointer for the index.
pub record IsRooted (l : ℕ) (picture : Picture) (s : Store) (p : ℕ) (t : Store) : Type 0 where
  pub table : IsTable t
  pub extends : Extends s t
  pub same_counter : t.free_node_counter ≡ s.free_node_counter
  pub root : IsRoot l picture t p

leaf-picture : (l k r c : ℕ) (nodes : ℕ → Node) → k < bdd_num_leaves → pixel nodes l k r c ≡ k
unfolding pixel
leaf-picture l k r c nodes h =
    let e : level_of nodes k ≡ 0 = ground arith in
    pixel_skip l k r c nodes (omega (arith, e)) ∙ rw e

module _ (l k : ℕ) (picture : Picture) (s : Store) (v : IsTable s) (d : IsDrawn l picture s k)
    (room : s.free_node_counter < bdd_nodes_max) where
  special-kept :
      (j : ℕ)
      → j < s.free_node_counter
      → update s.nodes (bdd_nodes_max - 1) (node special_level k k) j ≡ s.nodes j
  special-kept j h = update_ne s.nodes (bdd_nodes_max - 1) j _ (omega arith)

  pub root_of-IsRooted : Returns (IsRooted l picture s) (root_of k s)
  unfolding root_of write_special
  root_of-IsRooted = elim (Bool-cases (ltb k bdd_num_leaves)) [
    | inl leaf ↦ rw leaf (record {
      value = bdd_nodes_max - 1;
      store = _;
      ran = refl;
      holds = record {
        table = rewritten-IsTable s _ special-kept v;
        extends = rewritten-Extends s _ special-kept v;
        same_counter = refl;
        root =
            whole k (ground arith) (update_self s.nodes (bdd_nodes_max - 1) _)
              (λ r c. sym (d.draws r c) ∙ leaf-picture l k r c s.nodes (ground arith));
      };
    })
    | inr node ↦ rw node (record {
      value = k;
      store = s;
      ran = refl;
      holds = record {
        table = v;
        extends = record { grows = omega arith; kept = λ j h. refl };
        same_counter = refl;
        root = inner (ground arith) d;
      };
    })
  ]
