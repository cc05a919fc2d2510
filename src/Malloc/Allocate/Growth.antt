-- ===== src/Malloc/Allocate/Growth.antt =====
-- The pages that `sf_malloc` of hw3/src/sfmm.c adds to the heap.
use Prim.Native.Nat.{bit_or}
use cse_320_repository.Base.{
  ℕ, zero, suc, ◌+◌, ◌-◌, ◌%◌, ◌≤◌, ◌<◌, ◌≡◌, refl, sym, ap, subst, ◌∙◌, true, false, inl, inr,
  Bool-cases, if-true, if-false, leb, leb→le, leb→gt, List, [], ◌∷◌, some, arith,
}
use cse_320_repository.Malloc.Sizes.{size_mod}
use cse_320_repository.Malloc.Memory.{
  Ptr, dummy, Heap, enomem, page_sz, get_size_from_header, prev_bit, set_word, set_next, set_prev,
  set_new_epilogue, set_tags, make_wilderness,
}
use cse_320_repository.Malloc.Tags.{tag, read-size, with-prev}
use cse_320_repository.Malloc.Tiling.{
  Block, spare, IsBlock, IsBefore-kept, IsTiled, IsTiled-kept, IsAfter-head, IsAfter-end,
  IsBefore-le,
}
use cse_320_repository.Malloc.Spans.{IsSpanned, span_three, span-last}
use cse_320_repository.Malloc.Allocate.{merge_page, Search, found, exhausted, grow_loop, grow}
use cse_320_repository.Malloc.Allocate.FirstPage.{paged, sf_mem_grow-some, sf_mem_grow-none}

-- The block at `a` with the page behind it.
abbrev pub stretched : (a : ℕ) → Heap → Heap
stretched a g =
    set_new_epilogue
      (set_tags a (bit_or (get_size_from_header (g.words a) + page_sz) (prev_bit (g.words a))) g)

stretched-IsSpanned :
    (g : Heap) (a n : ℕ)
    → g.words a ≡ tag n false true
    → n % 16 ≡ 0
    → 32 ≤ n
    → g.finish - 8 ≡ a + n + page_sz
    → IsSpanned g.words (stretched a g).words a (n + page_sz) (g.finish - 8) 0
unfolding set_new_epilogue set_tags set_word
stretched-IsSpanned g a n header even least end =
    let size = read-size n false true header even in
    let sum : get_size_from_header (g.words a) + page_sz ≡ n + page_sz = omega (arith, size) in
    let even_sum : (n + page_sz) % 16 ≡ 0 = omega (arith, even) in
    let joined = with-prev n false true header even sum even_sum in
    let length = read-size (n + page_sz) false true joined even_sum in
    span_three (omega (arith, end)) (omega (arith, least)) refl (omega (arith, length, end)) joined
      joined refl refl

pub stretched-IsTiled :
    (h : Heap) (a n : ℕ) (ls : List Block)
    → h.finish + page_sz ≤ size_mod
    → IsTiled h a true ls (spare n ∷ [])
    → IsTiled (stretched a (paged h)) a true ls (spare (n + page_sz) ∷ [])
unfolding set_new_epilogue set_tags set_word
stretched-IsTiled h a n ls room tiled =
    let (i, after) = IsAfter-head tiled.after in
    let end : h.finish + page_sz - 8 ≡ a + n + page_sz =
      omega (arith, IsAfter-end after, i.least) in
    let span = stretched-IsSpanned (paged h) a n i.header i.sixteen i.least end in
    record {
      aligned = tiled.aligned;
      bounded = room;
      before = IsBefore-kept span.below tiled.before;
      after =
          span-last (omega (arith, end)) (omega (arith, i.sixteen)) (omega (arith, i.least)) span;
    }

-- A page behind the wilderness at `a`, or behind a block that is allocated.
merge_page-block :
    (h : Heap) (a : ℕ)
    → h.next (dummy 7) ≡ Ptr.block a
    → merge_page h.finish (paged h) ≡ stretched a (paged h)
unfolding merge_page
merge_page-block h a listed = rw (listed, merge_page) refl

-- The page behind a block that is allocated, as the new wilderness.
abbrev new_page : Heap → Heap
new_page h =
    make_wilderness (h.finish - 8)
      (set_new_epilogue (set_tags (h.finish - 8) (bit_or page_sz 2) (paged h)))

merge_page-dummy :
    (h : Heap) (i : ℕ) → h.next (dummy 7) ≡ dummy i → merge_page h.finish (paged h) ≡ new_page h
unfolding merge_page
merge_page-dummy h i listed = rw (listed, merge_page) refl

new_page-IsTiled :
    (h : Heap) (ls : List Block)
    → h.finish + page_sz ≤ size_mod
    → IsTiled h (h.finish - 8) true ls []
    → IsTiled (new_page h) (h.finish - 8) true ls (spare page_sz ∷ [])
unfolding make_wilderness set_new_epilogue set_tags set_word set_next set_prev get_size_from_header
new_page-IsTiled h ls room tiled =
    let low = IsBefore-le tiled.before in
    let span : IsSpanned h.words (new_page h).words (h.finish - 8) page_sz (h.finish + page_sz - 8)
        0 =
      span_three (omega (arith, low)) (omega arith) refl (omega (arith, low)) refl refl refl refl in
    record {
      aligned = tiled.aligned;
      bounded = room;
      before = IsBefore-kept span.below tiled.before;
      after = span-last (omega (arith, low)) refl (omega arith) span;
    }

-- A search that the growth of the heap ends: the block at `a` is the last one and is long enough, or
-- the system had no page.
abbrev pub IsGrown : (a need : ℕ) → List Block → Search → Type 0
IsGrown a need ls (found b z g) =
    (b ≡ a) × (z ≡ true) × ((m : ℕ) × (need ≤ m) × IsTiled g a true ls (spare m ∷ []))
IsGrown a need ls (exhausted g) =
    (g.sf_errno ≡ enomem) × ((rs : List Block) × IsTiled g a true ls rs)

-- On a heap that is a row of blocks whose last one is free and follows an allocated one, for fuel
-- above 0 and above the bytes missing, and where the system gives pages only within the address
-- space, the loop of sf_malloc ends: with that block free and long enough, or with sf_errno at
-- ENOMEM and the heap still a row of blocks.
pub grow_loop-IsGrown :
    (fuel a need n : ℕ) (ls : List Block) (h : Heap)
    → 1 ≤ fuel
    → need < n + fuel
    → ((f : ℕ) → h.grows f ≡ true → f + page_sz ≤ size_mod)
    → IsTiled h a true ls (spare n ∷ [])
    → (s : Search) × (grow_loop fuel a need h ≡ some s) × IsGrown a need ls s
unfolding grow_loop set_new_epilogue set_tags set_word
grow_loop-IsGrown zero a need n ls h some_fuel enough pages tiled =
    absurd (omega (arith, some_fuel))
grow_loop-IsGrown (suc fuel) a need n ls h some_fuel enough pages tiled =
    let i : IsBlock h.words true a (spare n) = (IsAfter-head tiled.after).0 in
    let size : get_size_from_header (h.words a) ≡ n = read-size n false true i.header i.sixteen in
    elim (Bool-cases (leb need (get_size_from_header (h.words a)))) [
      | inl fits ↦ (
        found a true h,
        if-true (λ o. o ≡ some (found a true h)) _ _ fits refl,
        (
          refl,
          refl,
          (n, omega (arith, size, leb→le need (get_size_from_header (h.words a)) fits), tiled),
        ),
      )
      | inr short ↦ elim (Bool-cases (h.grows h.finish)) [
        | inl more ↦
            let less = leb→gt need (get_size_from_header (h.words a)) short in
            let (s, done, result) =
              grow_loop-IsGrown fuel a need (n + page_sz) ls (stretched a (paged h))
                (omega (arith, enough, size, less)) (omega (arith, enough, size, less)) pages
                (stretched-IsTiled h a n ls (pages h.finish more) tiled) in
            (s, if-false (λ o. o ≡ some s) _ _ short (rw (sf_mem_grow-some h more) done), result)
        | inr refused ↦
            let stuck = exhausted (record h { sf_errno = enomem }) in
            (
              stuck,
              if-false (λ o. o ≡ some stuck) _ _ short (rw (sf_mem_grow-none h refused) refl),
              (refl, (spare n ∷ [], IsTiled-kept refl refl (λ x l. refl) tiled.after tiled)),
            )
      ]
    ]

-- The growth of a heap whose page makes the wilderness at `a`.
grow-page :
    (need a : ℕ) (ls : List Block) (h : Heap)
    → ((f : ℕ) → h.grows f ≡ true → f + page_sz ≤ size_mod)
    → h.grows h.finish ≡ true
    → (n : ℕ) → (merge_page h.finish (paged h)).next (dummy 7) ≡ Ptr.block a
    → (merge_page h.finish (paged h)).grows ≡ h.grows
    → IsTiled (merge_page h.finish (paged h)) a true ls (spare n ∷ [])
    → (s : Search) × (grow need h ≡ some s) × IsGrown a need ls s
unfolding grow
grow-page need a ls h pages more n listed same tiled =
    let merged = merge_page h.finish (paged h) in
    let (s, done, result) =
      grow_loop-IsGrown (suc need) a need n ls merged (omega arith) (omega arith)
        (λ f g. pages f (ap (λ k. k f) (sym same) ∙ g)) tiled in
    (s, rw (sf_mem_grow-some h more, listed, grow) done, result)

-- The heap is left as it is where the system gives no page.
grow-refused :
    (need a : ℕ) (ls rs : List Block) (h : Heap)
    → h.grows h.finish ≡ false
    → IsTiled h a true ls rs
    → (s : Search) × (grow need h ≡ some s) × IsGrown a need ls s
unfolding grow
grow-refused need a ls rs h refused tiled = (
  exhausted (record h { sf_errno = enomem }),
  rw (sf_mem_grow-none h refused, grow) refl,
  (refl, (rs, IsTiled-kept refl refl (λ x l. refl) tiled.after tiled)),
)

-- On a heap that is a row of blocks whose last one is free, follows an allocated one and is the
-- first of the list 7, and where the system gives pages only within the address space, the growth
-- of the heap ends: with that block, long enough for the request, or with sf_errno at ENOMEM and a
-- row of blocks.
pub grow-wilderness :
    (need a n : ℕ) (ls : List Block) (h : Heap)
    → ((f : ℕ) → h.grows f ≡ true → f + page_sz ≤ size_mod)
    → h.next (dummy 7) ≡ Ptr.block a
    → IsTiled h a true ls (spare n ∷ [])
    → (s : Search) × (grow need h ≡ some s) × IsGrown a need ls s
unfolding set_new_epilogue set_tags set_word
grow-wilderness need a n ls h pages listed tiled = elim (Bool-cases (h.grows h.finish)) [
  | inl more ↦
      let same = merge_page-block h a listed in
      grow-page need a ls h pages more (n + page_sz) (ap (λ g. g.next (dummy 7)) same ∙ listed)
        (ap (λ g. g.grows) same)
        (subst (λ g. IsTiled g a true ls (spare (n + page_sz) ∷ [])) (sym same)
          (stretched-IsTiled h a n ls (pages h.finish more) tiled))
  | inr refused ↦ grow-refused need a ls (spare n ∷ []) h refused tiled
]

-- On a heap that is a row of blocks whose last one is allocated and where the list 7 is empty, and
-- where the system gives pages only within the address space, the growth of the heap ends: with a
-- free block at the old epilogue that is long enough for the request, or with sf_errno at ENOMEM
-- and a row of blocks.
pub grow-occupied :
    (need i : ℕ) (ls : List Block) (h : Heap)
    → ((f : ℕ) → h.grows f ≡ true → f + page_sz ≤ size_mod)
    → h.next (dummy 7) ≡ dummy i
    → IsTiled h (h.finish - 8) true ls []
    → (s : Search) × (grow need h ≡ some s) × IsGrown (h.finish - 8) need ls s
unfolding make_wilderness set_new_epilogue set_tags set_word set_next set_prev
grow-occupied need i ls h pages listed tiled = elim (Bool-cases (h.grows h.finish)) [
  | inl more ↦
      let same = merge_page-dummy h i listed in
      grow-page need (h.finish - 8) ls h pages more page_sz (ap (λ g. g.next (dummy 7)) same)
        (ap (λ g. g.grows) same)
        (subst (λ g. IsTiled g (h.finish - 8) true ls (spare page_sz ∷ [])) (sym same)
          (new_page-IsTiled h ls (pages h.finish more) tiled))
  | inr refused ↦ grow-refused need (h.finish - 8) ls [] h refused tiled
]
