-- ===== src/Malloc/Spans.antt =====
-- The words that hw3/src/sfmm.c writes where it makes a free block of several of them.
use cse_320_repository.Base.{
  ℕ, ◌+◌, ◌-◌, ◌%◌, ◌≤◌, ◌<◌, ◌≡◌, refl, subst, ◌∙◌, Bool, true, false, List, [], ◌∷◌, update,
  update_at, update_ne, arith,
}
use cse_320_repository.Malloc.Tags.{tag}
use cse_320_repository.Malloc.Tiling.{
  Block, spare, IsAfter, stop, block, Words, IsAfter-retagged, head_size, head_allocated,
}

-- From `w` to `v`, the block at `a` of `t` bytes is free, and the one at `q` behind it has the size `s`.
pub record IsSpanned (w v : Words) (a t q s : ℕ) : Type 0 where
  pub below : (x : ℕ) → x < a → v x ≡ w x
  pub above : (x : ℕ) → q < x → v x ≡ w x
  pub front : v a ≡ tag t false true
  pub back : v (q - 8) ≡ tag t false true
  pub behind : v q ≡ tag s true false

-- The tiling with a free block from `a` to `q`.
pub span-IsAfter :
    {w v : Words} {e a t q : ℕ} {p : Bool} {rs : List Block}
    → q ≡ a + t
    → t % 16 ≡ 0
    → 32 ≤ t
    → IsSpanned w v a t q (head_size rs)
    → head_allocated rs ≡ true
    → IsAfter w e p q rs
    → IsAfter v e true a (spare t ∷ rs)
span-IsAfter {v = v} {e} {a} {t} {rs = rs} end sixteen least span firm after =
    block (spare t)
      (record {
        sixteen = sixteen;
        least = least;
        header = span.front;
        footer = λ f. subst (λ x. v (x - 8) ≡ tag t false true) end span.back;
        spaced = λ f. refl;
      })
      (subst (λ x. IsAfter v e false x rs) end
        (IsAfter-retagged false firm span.behind span.above after))

-- The same in front of an epilogue.
pub span-last :
    {w v : Words} {a t q : ℕ}
    → q ≡ a + t
    → t % 16 ≡ 0
    → 32 ≤ t
    → IsSpanned w v a t q 0
    → IsAfter v q true a (spare t ∷ [])
span-last {v = v} {a} {t} {q} end sixteen least span =
    block (spare t)
      (record {
        sixteen = sixteen;
        least = least;
        header = span.front;
        footer = λ f. subst (λ x. v (x - 8) ≡ tag t false true) end span.back;
        spaced = λ f. refl;
      })
      (subst (λ x. IsAfter v q false x []) end (stop span.behind))

-- The writes of the header, the footer and the header behind it.
module _ {w : Words} {a t q s : ℕ} (end : q ≡ a + t) (least : 32 ≤ t) {x y u v : ℕ}
    (at_header : x ≡ a) (at_footer : y ≡ q - 8) (header : u ≡ tag t false true)
    (footer : v ≡ tag t false true) where
  pub span_two : w q ≡ tag s true false → IsSpanned w (update (update w x u) y v) a t q s
  span_two behind = record {
    below = λ i h.
        update_ne (update w x u) y i v (omega (arith, at_footer))
        ∙ update_ne w x i u (omega (arith, at_header));
    above = λ i h.
        update_ne (update w x u) y i v (omega (arith, at_footer))
        ∙ update_ne w x i u (omega (arith, at_header));
    front =
        update_ne (update w x u) y a v (omega (arith, at_footer))
        ∙ update_at w x a u at_header
        ∙ header;
    back = update_at (update w x u) y (q - 8) v at_footer ∙ footer;
    behind =
        update_ne (update w x u) y q v (omega (arith, at_footer))
        ∙ update_ne w x q u (omega (arith, at_header))
        ∙ behind;
  }

  pub span_three :
      {z n : ℕ}
      → z ≡ q
      → n ≡ tag s true false
      → IsSpanned w (update (update (update w x u) y v) z n) a t q s
  span_three {z} {n} at_next behind =
      let two = update (update w x u) y v in
      record {
        below = λ i h.
            update_ne two z i n (omega (arith, at_next))
            ∙ update_ne (update w x u) y i v (omega (arith, at_footer))
            ∙ update_ne w x i u (omega (arith, at_header));
        above = λ i h.
            update_ne two z i n (omega (arith, at_next))
            ∙ update_ne (update w x u) y i v (omega (arith, at_footer))
            ∙ update_ne w x i u (omega (arith, at_header));
        front =
            update_ne two z a n (omega (arith, at_next))
            ∙ update_ne (update w x u) y a v (omega (arith, at_footer))
            ∙ update_at w x a u at_header
            ∙ header;
        back =
            update_ne two z (q - 8) n (omega (arith, at_next))
            ∙ update_at (update w x u) y (q - 8) v at_footer
            ∙ footer;
        behind = update_at two z q n at_next ∙ behind;
      }
