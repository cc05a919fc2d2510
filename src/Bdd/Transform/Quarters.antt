-- ===== src/Bdd/Transform/Quarters.antt =====
-- Four quarters and the three nodes above them, as `bdd_rotate` of hw1/src/bdd.c builds a square.
use cse_320_repository.Base.{ℕ, suc, ◌+◌, ◌*◌, ◌^◌, ◌≤◌, ◌<◌, ◌≡◌, ◌∙◌, arith}
use native.Mathlib.Nat.{pow-suc, one-le-pow}
use cse_320_repository.Bdd.Store.{
  Store, M, ◌>>=◌, Returns, Returns-bind, Returns-mono, bdd_nodes_max,
}
use cse_320_repository.Bdd.Lookup.{bdd_lookup}
use cse_320_repository.Bdd.Lookup.Invariant.{IsTable, Extends, Extends-trans}
use cse_320_repository.Bdd.Build.{
  Picture, IsDrawn, IsDrawn-Extends, IsBuilt, Builds, node-IsBuilt, halves,
}

-- The three nodes above four parts.
node-quarters :
    (l i j k n : ℕ) (p q u v : Picture) (s : Store)
    → suc (suc l) < 128
    → IsTable s
    → s.free_node_counter + 3 ≤ bdd_nodes_max
    → IsDrawn l p s i
    → IsDrawn l q s j
    → IsDrawn l u s k
    → IsDrawn l v s n
    → Returns (IsBuilt 2 (suc (suc l)) (halves (suc l) (halves l q v) (halves l p u)) s) (
        (bdd_lookup (suc l) j n >>= λ top.
        bdd_lookup (suc l) i k >>= λ bottom. bdd_lookup (suc (suc l)) top bottom)
          s)
node-quarters l i j k n p q u v s small t room di dj dk dn =
    Returns-bind _ (bdd_lookup (suc l) j n) _ s
      (node-IsBuilt l j n q v s t (omega arith) (omega arith) dj dn)
      λ top s1 w1.
        Returns-bind _ (bdd_lookup (suc l) i k) _ s1
          (node-IsBuilt l i k p u s1 w1.table (omega arith) (omega (arith, w1.growth))
            (IsDrawn-Extends t w1.extends di) (IsDrawn-Extends t w1.extends dk))
          λ bottom s2 w2.
            Returns-mono _
              (node-IsBuilt (suc l) top bottom (halves l q v) (halves l p u) s2 w2.table small
                (omega (arith, w1.growth, w2.growth)) (IsDrawn-Extends w1.table w2.extends w1.drawn)
                w2.drawn)
              λ z s3 w3. record {
                table = w3.table;
                extends = Extends-trans w1.extends (Extends-trans w2.extends w3.extends);
                growth = omega (arith, w1.growth, w2.growth, w3.growth);
                same_map = w3.same_map ∙ w2.same_map ∙ w1.same_map;
                drawn = w3.drawn;
              }

-- Four parts, then the nodes above the second and the last, above the first and the third, and above both.
pub Builds-quarters :
    {base : Store} (b l : ℕ) (p q u v : Picture) (first second third last : M ℕ)
    → suc (suc l) < 128
    → Builds base b l p first
    → Builds base b l q second
    → Builds base b l u third
    → Builds base b l v last
    → Builds base (suc (suc b)) (suc (suc l)) (halves (suc l) (halves l q v) (halves l p u)) (
        first >>= λ i. second >>= λ j. third >>= λ k. last >>= λ n.
        bdd_lookup (suc l) j n >>= λ top.
        bdd_lookup (suc l) i k >>= λ bottom. bdd_lookup (suc (suc l)) top bottom)
Builds-quarters {base} b l p q u v first second third last small bp bq bu bv s t e room =
    let four : 2 ^ suc (suc b) ≡ 4 * 2 ^ b = omega (arith, pow-suc 2 b, pow-suc 2 (suc b)) in
    let some_ : 1 ≤ 2 ^ b = one-le-pow b 2 (omega arith) in
    Returns-bind _ first _ s (bp s t e (omega (arith, four))) λ i s1 w1.
      Returns-bind _ second _ s1
        (bq s1 w1.table (Extends-trans e w1.extends) (omega (arith, four, w1.growth)))
        λ j s2 w2.
          let e2 : Extends s s2 = Extends-trans w1.extends w2.extends in
          Returns-bind _ third _ s2
            (bu s2 w2.table (Extends-trans e e2) (omega (arith, four, w1.growth, w2.growth)))
            λ k s3 w3.
              let e3 : Extends s s3 = Extends-trans e2 w3.extends in
              Returns-bind _ last _ s3
                (bv s3 w3.table (Extends-trans e e3)
                  (omega (arith, four, w1.growth, w2.growth, w3.growth)))
                λ n s4 w4.
                  let e34 : Extends s2 s4 = Extends-trans w3.extends w4.extends in
                  let e14 : Extends s1 s4 = Extends-trans w2.extends e34 in
                  Returns-mono _
                    (node-quarters l i j k n p q u v s4 small w4.table
                      (omega (arith, four, some_, w1.growth, w2.growth, w3.growth, w4.growth))
                      (IsDrawn-Extends w1.table e14 w1.drawn)
                      (IsDrawn-Extends w2.table e34 w2.drawn)
                      (IsDrawn-Extends w3.table w4.extends w3.drawn) w4.drawn)
                    λ z s5 w5. record {
                      table = w5.table;
                      extends = Extends-trans e3 (Extends-trans w4.extends w5.extends);
                      growth =
                          omega
                            (arith, four, w1.growth, w2.growth, w3.growth, w4.growth, w5.growth);
                      same_map =
                          w5.same_map ∙ w4.same_map ∙ w3.same_map ∙ w2.same_map ∙ w1.same_map;
                      drawn = w5.drawn;
                    }
