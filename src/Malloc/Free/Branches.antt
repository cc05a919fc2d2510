-- ===== src/Malloc/Free/Branches.antt =====
-- What each case of `sf_free` in hw3/src/sfmm.c writes.
use cse_320_repository.Base.{
  ℕ, ◌+◌, ◌-◌, ◌*◌, ◌%◌, ◌≤◌, ◌<◌, ◌==◌, ◌≡◌, refl, ap, ◌∙◌, Bool, true, false, if-true, if-false,
  ==_ne, Bool-cases, inl, inr, arith,
}
use cse_320_repository.Malloc.Sizes.{size_mod}
use cse_320_repository.Malloc.Memory.{
  Heap, get_size_from_header, set_word, set_new_epilogue, remove_block, insert_block,
  make_wilderness, set_next, set_prev, prev_bit, offset,
}
use cse_320_repository.Malloc.Tags.{
  tag, flag, read-size, read-prev, with-prev, without-prev, as-allocated,
}
use cse_320_repository.Malloc.Spans.{IsSpanned, span_two, span_three}
use cse_320_repository.Malloc.Free.{
  previous_block, next_block, free_last, free_alone, free_after, free_before, free_between,
}

-- The heap `g` has the bounds of `h`, and a free block of `t` bytes from `a` to `q`.
pub record IsFreed (h : Heap) (a t q s : ℕ) (g : Heap) : Type 0 where
  pub same_start : g.start ≡ h.start
  pub same_finish : g.finish ≡ h.finish
  pub span : IsSpanned h.words g.words a t q s

-- The block at `a` of `n` bytes, behind one whose status is `pal`.
module _ (h : Heap) (a n : ℕ) (pal : Bool) (sixteen : n % 16 ≡ 0) (least : 32 ≤ n)
    (bounded : a + n < size_mod) (header : h.words a ≡ tag n true pal) where
  pub next-address : next_block a h ≡ a + n
  next-address = ap (offset a) (read-size n true pal header sixteen) ∙ omega (arith, bounded)

  pub free_alone-IsFreed :
      (s : ℕ) (prev : pal ≡ true)
      → s % 16 ≡ 0
      → h.words (a + n) ≡ tag s true true
      → IsFreed h a n (a + n) s (free_alone a h)
  unfolding free_alone set_word insert_block set_next set_prev
  free_alone-IsFreed s prev even behind =
      let size = read-size n true pal header sixteen in
      let new : tag n false pal ≡ tag n false true = ap (tag n false) prev in
      let joined = with-prev n true pal header sixteen size sixteen ∙ new in
      record {
        same_start = refl;
        same_finish = refl;
        span =
            span_three refl least refl (omega (arith, next-address)) joined joined next-address
              (without-prev s true true (ap h.words next-address ∙ behind) even);
      }

  pub free_last-alone :
      (prev : pal ≡ true) → h.finish - 8 ≡ a + n → IsFreed h a n (a + n) 0 (free_last a h)
  unfolding free_last set_word insert_block set_next set_prev set_new_epilogue
  free_last-alone prev last =
      let size = read-size n true pal header sixteen in
      let new : tag n false pal ≡ tag n false true = ap (tag n false) prev in
      let joined = with-prev n true pal header sixteen size sixteen ∙ new in
      let occupied : (prev_bit (h.words a) == 0) ≡ false =
        ==_ne (prev_bit (h.words a)) 0
          (λ z. omega (arith, z, read-prev n true pal header sixteen, ap flag prev)) in
      if-false (IsFreed h a n (a + n) 0) _ _ occupied (record {
        same_start = refl;
        same_finish = refl;
        span = span_three refl least refl (omega (arith, next-address)) joined joined last refl;
      })

  -- In front of a free block of `k` bytes, the one behind that of `s` bytes.
  pub free_before-IsFreed :
      (k s : ℕ) (prev : pal ≡ true)
      → k % 16 ≡ 0
      → s % 16 ≡ 0
      → h.words (a + n) ≡ tag k false true
      → h.words (a + n + k) ≡ tag s true false
      → IsFreed h a (n + k) (a + n + k) s (free_before a h)
  unfolding free_before set_word insert_block remove_block make_wilderness set_next set_prev
  free_before-IsFreed k s prev even_k even_s next behind =
      let size = read-size n true pal header sixteen in
      let next_size = read-size k false true (ap h.words next-address ∙ next) even_k in
      let last : next_block a h + get_size_from_header (h.words (next_block a h)) ≡ a + n + k =
        omega (arith, next-address, next_size) in
      let joined =
        with-prev n true pal header sixteen {k = n + k} (omega (arith, size, next_size))
          (omega (arith, sixteen, even_k))
        ∙ ap (tag (n + k) false) prev in
      let end : a + n + k ≡ a + (n + k) = omega arith in
      let long : 32 ≤ n + k = omega (arith, least) in
      let last_word = ap h.words last ∙ behind in
      elim (Bool-cases (s == 0)) [
        | inl empty ↦
            if-true (IsFreed h a (n + k) (a + n + k) s) _ _
              (ap (λ i. i == 0) (read-size s true false last_word even_s) ∙ empty)
              (record {
                same_start = refl;
                same_finish = refl;
                span = span_two end long refl (omega (arith, last)) joined joined behind;
              })
        | inr more ↦
            if-false (IsFreed h a (n + k) (a + n + k) s) _ _
              (ap (λ i. i == 0) (read-size s true false last_word even_s) ∙ more)
              (record {
                same_start = refl;
                same_finish = refl;
                span =
                    span_three end long refl (omega (arith, last)) joined joined last
                      (without-prev s true false last_word even_s);
              })
      ]

  -- Behind a free block of `m` bytes.
  module _ (m : ℕ) (fits : m ≤ a) (even_m : m % 16 ≡ 0) (prev : pal ≡ false)
      (footer : h.words (a - 8) ≡ tag m false true)
      (before : h.words (a - m) ≡ tag m false true) where
    previous-size : get_size_from_header (h.words (a - 8)) ≡ m
    previous-size = read-size m false true footer even_m

    previous-address : previous_block a h ≡ a - m
    previous-address =
        omega (arith, ap (λ i. (a + size_mod - i) % size_mod) previous-size, fits, bounded)

    pub previous-word : h.words (previous_block a h) ≡ tag m false true
    previous-word = ap h.words previous-address ∙ before

    unoccupied : (prev_bit (h.words a) == 0) ≡ true
    unoccupied = ap (λ i. i == 0) (read-prev n true pal header sixteen ∙ ap (λ b. 2 * flag b) prev)

    end-of : (k : ℕ) → a + n + k ≡ a - m + (m + n + k)
    end-of k = omega (arith, fits)

    pub free_after-IsFreed :
        (s : ℕ)
        → s % 16 ≡ 0
        → h.words (a + n) ≡ tag s true true
        → IsFreed h (a - m) (m + n) (a + n) s (free_after a h)
    unfolding free_after set_word insert_block remove_block set_next set_prev
    free_after-IsFreed s even behind =
        let size = read-size n true pal header sixteen in
        let joined =
          with-prev m false true previous-word even_m {k = m + n}
            (omega (arith, previous-size, size)) (omega (arith, sixteen, even_m)) in
        record {
          same_start = refl;
          same_finish = refl;
          span =
              span_three (omega (arith, fits)) (omega (arith, least)) previous-address
                (omega (arith, next-address)) joined joined next-address
                (as-allocated s true true (ap h.words next-address ∙ behind) even);
        }

    pub free_last-after : h.finish - 8 ≡ a + n → IsFreed h (a - m) (m + n) (a + n) 0 (free_last a h)
    unfolding free_last set_word remove_block make_wilderness set_next set_prev set_new_epilogue
    free_last-after last =
        let size = read-size n true pal header sixteen in
        let joined =
          with-prev m false true previous-word even_m {k = m + n}
            (omega (arith, previous-size, size)) (omega (arith, sixteen, even_m)) in
        if-true (IsFreed h (a - m) (m + n) (a + n) 0) _ _ unoccupied (record {
          same_start = refl;
          same_finish = refl;
          span =
              span_three (omega (arith, fits)) (omega (arith, least)) previous-address
                (omega (arith, next-address)) joined joined last refl;
        })

    pub free_between-IsFreed :
        (k s : ℕ)
        → k % 16 ≡ 0
        → s % 16 ≡ 0
        → h.words (a + n) ≡ tag k false true
        → h.words (a + n + k) ≡ tag s true false
        → IsFreed h (a - m) (m + n + k) (a + n + k) s (free_between a h)
    unfolding free_between set_word insert_block remove_block make_wilderness set_next set_prev
    free_between-IsFreed k s even_k even_s next behind =
        let size = read-size n true pal header sixteen in
        let next_size = read-size k false true (ap h.words next-address ∙ next) even_k in
        let last : next_block a h + get_size_from_header (h.words (next_block a h)) ≡ a + n + k =
          omega (arith, next-address, next_size) in
        let joined =
          with-prev m false true previous-word even_m {k = m + n + k}
            (omega (arith, previous-size, size, next_size))
            (omega (arith, sixteen, even_m, even_k)) in
        let long : 32 ≤ m + n + k = omega (arith, least) in
        let last_word = ap h.words last ∙ behind in
        elim (Bool-cases (s == 0)) [
          | inl empty ↦
              if-true (IsFreed h (a - m) (m + n + k) (a + n + k) s) _ _
                (ap (λ i. i == 0) (read-size s true false last_word even_s) ∙ empty)
                (record {
                  same_start = refl;
                  same_finish = refl;
                  span =
                      span_two (end-of k) long previous-address (omega (arith, last)) joined joined
                        behind;
                })
          | inr more ↦
              if-false (IsFreed h (a - m) (m + n + k) (a + n + k) s) _ _
                (ap (λ i. i == 0) (read-size s true false last_word even_s) ∙ more)
                (record {
                  same_start = refl;
                  same_finish = refl;
                  span =
                      span_three (end-of k) long previous-address (omega (arith, last)) joined
                        joined last (without-prev s true false last_word even_s);
                })
        ]
