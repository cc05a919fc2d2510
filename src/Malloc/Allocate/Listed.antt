-- ===== src/Malloc/Allocate/Listed.antt =====
-- The free lists of hw3/src/sfmm.c, and what the search of `sf_malloc` finds in them.
use cse_320_repository.Base.{
  ℕ, zero, suc, ◌+◌, ◌-◌, ◌%◌, ◌≤◌, ◌<◌, ◌==◌, ◌≡◌, refl, sym, subst, Bool, true, false, ◌⊎◌, inl,
  inr, Bool-cases, if-true, if-false, ==_refl, leb, leb→le, List, [], ◌∷◌, length, none, some,
  arith,
}
use cse_320_repository.Malloc.Sizes.{size_mod}
use cse_320_repository.Malloc.Memory.{
  Ptr, dummy, Heap, enomem, page_sz, get_size_from_header, make_wilderness, set_tags,
  set_new_epilogue, set_word, set_next, set_prev,
}
use cse_320_repository.Malloc.Tags.{read-size}
use cse_320_repository.Malloc.Tiling.{Block, spare, IsTiled, IsAfter-head}
use cse_320_repository.Malloc.Allocate.{
  empty_lists, first_fit, search_lists, grow, Search, found, exhausted,
}
use cse_320_repository.Malloc.Allocate.Growth.{IsGrown, grow-wilderness, grow-occupied}
use cse_320_repository.Malloc.Allocate.FirstPage.{first_heap, first_heap-IsTiled}

-- A free block at `a` with room for `need` bytes.
pub record IsRoom (need a : ℕ) (h : Heap) : Type 0 where
  pub length_of : ℕ
  pub status : Bool
  pub before : List Block
  pub after : List Block
  pub room : need ≤ length_of
  pub tiled : IsTiled h a status before (spare length_of ∷ after)

-- The nodes from a pointer on to the dummy node `i` are the blocks at these addresses, all free.
pub data IsChain (h : Heap) (i : ℕ) : Ptr → List ℕ → Type 0 where
  home : IsChain h i (dummy i) []
  link :
      {a : ℕ} {xs : List ℕ}
      → IsRoom 0 a h
      → IsChain h i (h.next (Ptr.block a)) xs
      → IsChain h i (Ptr.block a) (a ∷ xs)

-- Every list is a chain of free blocks, and list 7 has the last block of the heap if that is free.
pub record IsListed (h : Heap) : Type 0 where
  pub chain :
      (i : ℕ) → i < 8 → (xs : List ℕ) × (length xs ≤ h.finish) × IsChain h i (h.next (dummy i)) xs
  pub wilderness :
      ((a : ℕ) × (n : ℕ) × (ls : List Block) × (h.next (dummy 7) ≡ Ptr.block a)
        × IsTiled h a true ls (spare n ∷ []))
      ⊎ ((ls : List Block) × (h.next (dummy 7) ≡ dummy 7) × IsTiled h (h.finish - 8) true ls [])
  pub pages : (f : ℕ) → h.grows f ≡ true → f + page_sz ≤ size_mod

-- What a search for `need` bytes ends with.
abbrev pub IsServed : ℕ → Search → Type 0
IsServed need (found a z g) = IsRoom need a g
IsServed need (exhausted g) =
    (g.sf_errno ≡ enomem)
    × ((a : ℕ) × (ls : List Block) × (rs : List Block) × IsTiled g a true ls rs)

first_fit-IsRoom :
    (fuel need i : ℕ) (h : Heap) (p : Ptr) (xs : List ℕ)
    → IsChain h i p xs
    → length xs < fuel
    → (first_fit fuel p need h ≡ some none)
      ⊎ ((a : ℕ) × (first_fit fuel p need h ≡ some (some a)) × IsRoom need a h)
unfolding first_fit
first_fit-IsRoom zero need i h p xs chain enough = absurd (omega (arith, enough))
first_fit-IsRoom (suc fuel) need i h p xs home enough = inl refl
first_fit-IsRoom (suc fuel) need i h p xs (link {a} {xs = bs} r chain) enough =
    let block_size : get_size_from_header (h.words a) ≡ r.length_of =
      read-size r.length_of false r.status (IsAfter-head r.tiled.after).0.header
        (IsAfter-head r.tiled.after).0.sixteen in
    elim (Bool-cases (leb need (get_size_from_header (h.words a)))) [
      | inl fits ↦ inr (
        a,
        if-true (λ o. o ≡ some (some a)) _ _ fits refl,
        record {
          length_of = r.length_of;
          status = r.status;
          before = r.before;
          after = r.after;
          room = omega (arith, block_size, leb→le need (get_size_from_header (h.words a)) fits);
          tiled = r.tiled;
        },
      )
      | inr short ↦
          elim (first_fit-IsRoom fuel need i h (h.next (Ptr.block a)) bs chain
            (omega (arith, enough))) [
              | inl nothing ↦ inl (if-false (λ o. o ≡ some none) _ _ short nothing)
              | inr (b, found_b, room) ↦
                  inr (b, if-false (λ o. o ≡ some (some b)) _ _ short found_b, room)
            ]
    ]

grown : (need a : ℕ) (ls : List Block) (s : Search) → IsGrown a need ls s → IsServed need s
grown need a ls (found b z g) (here, wild, (m, room, tiled)) = record {
  length_of = m;
  status = true;
  before = ls;
  after = [];
  room = room;
  tiled = subst (λ x. IsTiled g x true ls (spare m ∷ [])) (sym here) tiled;
}
grown need a ls (exhausted g) (failed, (rs, tiled)) = (failed, (a, ls, rs, tiled))

grow-IsServed :
    (need : ℕ) (h : Heap) → IsListed h → (s : Search) × (grow need h ≡ some s) × IsServed need s
grow-IsServed need h listed = elim (listed.wilderness) [
  | inl (a, n, ls, first, tiled) ↦
      let (s, done, result) = grow-wilderness need a n ls h listed.pages first tiled in
      (s, done, grown need a ls s result)
  | inr (ls, first, tiled) ↦
      let (s, done, result) = grow-occupied need 7 ls h listed.pages first tiled in
      (s, done, grown need (h.finish - 8) ls s result)
]

pub search_lists-IsServed :
    (rounds i need : ℕ) (h : Heap)
    → i + rounds ≤ 8
    → IsListed h
    → (s : Search) × (search_lists rounds i need h ≡ some s) × IsServed need s
unfolding search_lists
search_lists-IsServed zero i need h eight listed = grow-IsServed need h listed
search_lists-IsServed (suc rounds) i need h eight listed =
    let (xs, short, chain) = listed.chain i (omega (arith, eight)) in
    elim (first_fit-IsRoom (suc h.finish) need i h (h.next (dummy i)) xs chain
      (omega (arith, short))) [
        | inl nothing ↦
            let (s, done, served) =
              search_lists-IsServed rounds (i + 1) need h (omega (arith, eight)) listed in
            (s, rw (nothing, search_lists) done, served)
        | inr (a, here, room) ↦ (found a (i == 7) h, rw (here, search_lists) refl, room)
      ]

-- The lists of the first page: the page is in the last one, the others are empty.
module _ (g : Heap) (page : g.finish ≡ g.start + page_sz) (aligned : g.start % 16 ≡ 0)
    (bounded : g.finish ≤ size_mod) where
  first_address : ℕ
  first_address = g.start + 8 + 32

  first-IsTiled : IsTiled (first_heap g) first_address true [] (spare 8144 ∷ [])
  unfolding first_address
  first-IsTiled =
      subst (λ x. IsTiled (first_heap g) x true [] (spare 8144 ∷ [])) (omega arith)
        (first_heap-IsTiled g page aligned bounded)

  first-IsChain :
      (i : ℕ)
      → i < 8
      → (xs : List ℕ) × (length xs ≤ (first_heap g).finish)
        × IsChain (first_heap g) i ((first_heap g).next (dummy i)) xs
  unfolding first_address make_wilderness set_tags empty_lists set_new_epilogue set_word set_next
      set_prev
  first-IsChain zero h = ([], omega arith, home)
  first-IsChain (suc zero) h = ([], omega arith, home)
  first-IsChain (suc (suc zero)) h = ([], omega arith, home)
  first-IsChain (suc (suc (suc zero))) h = ([], omega arith, home)
  first-IsChain (suc (suc (suc (suc zero)))) h = ([], omega arith, home)
  first-IsChain (suc (suc (suc (suc (suc zero))))) h = ([], omega arith, home)
  first-IsChain (suc (suc (suc (suc (suc (suc zero)))))) h = ([], omega arith, home)
  first-IsChain (suc (suc (suc (suc (suc (suc (suc zero))))))) h = (
    first_address ∷ [],
    omega (arith, page),
    link
        (record {
          length_of = 8144;
          status = true;
          before = [];
          after = [];
          room = omega arith;
          tiled = first-IsTiled;
        })
        (if-true (λ p. IsChain (first_heap g) 7 p []) (dummy 7) (g.next (Ptr.block first_address))
          (==_refl first_address) home),
  )
  first-IsChain (suc (suc (suc (suc (suc (suc (suc (suc i)))))))) h = absurd (omega (arith, h))

  pub first_heap-IsListed :
      ((f : ℕ) → g.grows f ≡ true → f + page_sz ≤ size_mod) → IsListed (first_heap g)
  unfolding first_address make_wilderness set_tags empty_lists set_new_epilogue set_word set_next
      set_prev
  first_heap-IsListed pages = record {
    chain = first-IsChain;
    wilderness = inl (first_address, 8144, [], refl, first-IsTiled);
    pages = pages;
  }
