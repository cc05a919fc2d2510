-- ===== src/Bdd/Build.antt =====
-- Computations of hw1/src/bdd.c that build a diagram bottom-up: two halves, then `bdd_lookup`.
use cse_320_repository.Base.{
  refl, sym, ℕ, suc, ◌+◌, ◌^◌, ◌≤◌, ◌<◌, ◌≡◌, ◌∙◌, inl, inr, arith, if◌then◌else◌, ◌==◌, Bool-cases,
}
use native.Mathlib.Nat.{pow-suc, pow-le-pow_right}
use cse_320_repository.Bdd.Store.{
  Store, M, Returns, Returns-bind, Returns-mono, bdd_nodes_max, bdd_num_leaves,
}
use cse_320_repository.Bdd.Lookup.{bdd_lookup, construct_node}
use cse_320_repository.Bdd.Lookup.Invariant.{
  level_of, IsTable, Extends, Extends-refl, Extends-trans,
}
use cse_320_repository.Bdd.Lookup.Correct.{IsCall, IsNode, bdd_lookup-IsNode}
use cse_320_repository.Bdd.Image.{digit, pixel, pixel-Extends, pixel-IsNode, pixel_skip}

abbrev pub Picture : Type 0
Picture = ℕ → ℕ → ℕ

-- The index `k`, read as a diagram of `l` levels in the store `t`, draws the picture.
pub record IsDrawn (l : ℕ) (picture : Picture) (t : Store) (k : ℕ) : Type 0 where
  pub used : k < t.free_node_counter
  pub levelled : level_of t.nodes k ≤ l
  pub draws : (r c : ℕ) → pixel t.nodes l k r c ≡ picture r c

-- A run from `s` to `t` draws the picture with at most 2 ^ b - 1 new nodes.
pub record IsBuilt (b l : ℕ) (picture : Picture) (s : Store) (k : ℕ) (t : Store) : Type 0 where
  pub table : IsTable t
  pub extends : Extends s t
  pub growth : t.free_node_counter + 1 ≤ s.free_node_counter + 2 ^ b
  pub same_map : t.index_map ≡ s.index_map
  pub drawn : IsDrawn l picture t k

-- From any table that holds the nodes of `base` and has room, the computation builds the picture.
abbrev pub Builds : Store → ℕ → ℕ → Picture → M ℕ → Type 0
Builds base b l picture m =
    (s : Store)
    → IsTable s
    → Extends base s
    → s.free_node_counter + 2 ^ b ≤ bdd_nodes_max + 1
    → Returns (IsBuilt b l picture s) (m s)

pub IsDrawn-Extends :
    {l k : ℕ} {picture : Picture} {s t : Store}
    → IsTable s
    → Extends s t
    → IsDrawn l picture s k
    → IsDrawn l picture t k
IsDrawn-Extends {l} {k} v e d = record {
  used = omega arith;
  levelled = rw (e.kept k d.used) d.levelled;
  draws = λ r c. pixel-Extends l k r c v e d.used ∙ d.draws r c;
}

-- Pointwise equal pictures are built alike.
pub Builds-congr :
    {base : Store} {b l : ℕ} {m : M ℕ} (p q : Picture)
    → ((r c : ℕ) → p r c ≡ q r c)
    → Builds base b l p m
    → Builds base b l q m
Builds-congr p q h built s v e room = Returns-mono _ (built s v e room) λ k t w. record {
  table = w.table;
  extends = w.extends;
  growth = w.growth;
  same_map = w.same_map;
  drawn = record {
    used = w.drawn.used;
    levelled = w.drawn.levelled;
    draws = λ r c. w.drawn.draws r c ∙ h r c;
  };
}

abbrev pub halves : ℕ → Picture → Picture → Picture
halves l p q r c = if digit l r c == 0 then p r c else q r c

node-levelled :
    (l left right k : ℕ) {s t : Store}
    → IsCall s (suc l) left right
    → level_of s.nodes left ≤ l
    → IsNode s (suc l) left right k t
    → level_of t.nodes k ≤ suc l
node-levelled l left right k {s} {t} call h n = elim n.denotes [
  | inl (e, is) ↦
      let same : t.nodes left ≡ s.nodes left = n.extends.kept left call.left_used in
      rw (is, same) (omega (arith, h))
  | inr (apart, low, is) ↦ ground arith
]

node-IsDrawn :
    (l left right k : ℕ) (p q : Picture) {s t : Store}
    → IsTable s
    → IsCall s (suc l) left right
    → IsDrawn l p s left
    → IsDrawn l q s right
    → IsNode s (suc l) left right k t
    → IsDrawn (suc l) (halves l p q) t k
node-IsDrawn l left right k p q {s} {t} v call dl dr n = record {
  used = n.used;
  levelled = node-levelled l left right k call dl.levelled n;
  draws = λ r c. pixel-IsNode l left right k r c v call n ∙ half r c;
}
  where
    half :
        (r c : ℕ)
        → pixel s.nodes l (if digit l r c == 0 then left else right) r c ≡ halves l p q r c
    half r c = elim (Bool-cases (digit l r c == 0)) [
      | inl first ↦ rw first (dl.draws r c)
      | inr second ↦ rw second (dr.draws r c)
    ]

-- The node above two pictures draws them as halves, with at most one new node.
pub node-IsBuilt :
    (l left right : ℕ) (p q : Picture) (s : Store)
    → IsTable s
    → suc l < 128
    → s.free_node_counter < bdd_nodes_max
    → IsDrawn l p s left
    → IsDrawn l q s right
    → Returns (IsBuilt 1 (suc l) (halves l p q) s) (bdd_lookup (suc l) left right s)
node-IsBuilt l left right p q s v small room dl dr =
    let call : IsCall s (suc l) left right = record {
      left_used = dl.used;
      right_used = dr.used;
      left_level = omega (arith, dl.levelled);
      right_level = omega (arith, dr.levelled);
      char_level = small;
      room = room;
    } in
    Returns-mono _ (bdd_lookup-IsNode (suc l) left right s v call) λ k t y. record {
      table = y.table;
      extends = y.extends;
      growth = omega (arith, y.growth);
      same_map = y.same_map;
      drawn = node-IsDrawn l left right k p q v call dl dr y;
    }

-- The two halves and the node above them build the whole.
pub Builds-halves :
    {base : Store} (b l : ℕ) (p q : Picture) (m n : M ℕ)
    → suc l < 128
    → Builds base b l p m
    → Builds base b l q n
    → Builds base (suc b) (suc l) (halves l p q) (construct_node (suc l) m n)
unfolding construct_node
Builds-halves b l p q m n small bm bn s v e room =
    Returns-bind _ m _ s (bm s v e (omega (arith, pow-suc 2 b))) λ a t w.
      Returns-bind _ n _ t (bn t w.table (Extends-trans e w.extends) (omega (arith, pow-suc 2 b)))
        λ b u x.
          let left : IsDrawn l p u a = IsDrawn-Extends w.table x.extends w.drawn in
          let call : IsCall u (suc l) a b = record {
            left_used = left.used;
            right_used = x.drawn.used;
            left_level = omega arith;
            right_level = omega arith;
            char_level = small;
            room = omega (arith, pow-suc 2 b);
          } in
          Returns-mono _ (bdd_lookup-IsNode (suc l) a b u x.table call) λ k z y. record {
            table = y.table;
            extends = Extends-trans w.extends (Extends-trans x.extends y.extends);
            growth = omega (arith, pow-suc 2 b);
            same_map = y.same_map ∙ x.same_map ∙ w.same_map;
            drawn = node-IsDrawn l a b k p q x.table call left x.drawn y;
          }

-- A leaf draws one colour.
pub leaf-IsBuilt :
    (value : ℕ) (s : Store)
    → IsTable s
    → value < bdd_num_leaves
    → IsBuilt 0 0 (λ r c. value) s value s
unfolding pixel
leaf-IsBuilt value s v h = record {
  table = v;
  extends = Extends-refl s;
  growth = omega arith;
  same_map = refl;
  drawn = record { used = omega (arith, v.leaves); levelled = ground arith; draws = λ r c. refl };
}

-- What draws a picture draws it on any higher level, within any larger budget.
pub Builds-lift :
    {base : Store} {m : M ℕ} (b b' l l' : ℕ) (p : Picture)
    → b ≤ b'
    → l ≤ l'
    → Builds base b l p m
    → Builds base b' l' p m
Builds-lift b b' l l' p hb hl built s v e room =
    let budget : 2 ^ b ≤ 2 ^ b' = pow-le-pow_right {n = 2} (omega arith) hb in
    Returns-mono _ (built s v e (omega arith)) λ k t w. record {
      table = w.table;
      extends = w.extends;
      growth = omega arith;
      same_map = w.same_map;
      drawn = record {
        used = w.drawn.used;
        levelled = omega arith;
        draws = λ r c.
            pixel_skip l' k r c t.nodes (omega arith)
            ∙ sym (pixel_skip l k r c t.nodes w.drawn.levelled)
            ∙ w.drawn.draws r c;
      };
    }

-- Computations that agree on the stores at hand build alike.
pub Builds-at :
    {base : Store} {b l : ℕ} {p : Picture} (m n : M ℕ)
    → ((s : Store) → Extends base s → m s ≡ n s)
    → Builds base b l p n
    → Builds base b l p m
Builds-at m n same built s v e room = rw (same s e) (built s v e room)
