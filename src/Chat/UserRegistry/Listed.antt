-- ===== src/Chat/UserRegistry/Listed.antt =====
-- What the registry of hw5/src/user_registry.c holds: each node's user is alive, with the node's handle,
-- and no handle is listed twice.
use cse_320_repository.Base.{
  same_text, same_text-eq, same_text_sym, ℕ, suc, ◌<◌, ◌≡◌, refl, sym, ap, ◌∙◌, inl, inr, true,
  false, Bool-cases, if◌then◌else◌, none, some, List, [], ◌∷◌, subst, none_ne_some, some-injective,
}
use cse_320_repository.Chat.Heap.{Handle}
use cse_320_repository.Chat.User.{User, Users}
use cse_320_repository.Chat.UserRegistry.{UserRegistryNode, find_user, unlink}

abbrev pub user : Handle → ℕ → User
user handle count = record { handle = handle; reference_count = count }

abbrev pub listed : ℕ → Handle → UserRegistryNode
listed p handle = record { user = p; handle = handle }

pub record IsAlive (users : Users) (p : ℕ) (handle : Handle) : Type 0 where
  pub allocated : p < users.next
  pub spare : ℕ
  pub alive : users.cells p ≡ some (user handle (suc spare))

pub data IsListed (users : Users) : List UserRegistryNode → Type 0 where
  nothing : IsListed users []
  before :
      (p : ℕ) (handle : Handle) {ns : List UserRegistryNode}
      → IsAlive users p handle
      → find_user handle ns ≡ none
      → IsListed users ns
      → IsListed users (listed p handle ∷ ns)

pub find_user-IsAlive :
    {users : Users} {ns : List UserRegistryNode} (handle : Handle) (p : ℕ)
    → IsListed users ns
    → find_user handle ns ≡ some p
    → IsAlive users p handle
unfolding find_user
find_user-IsAlive handle p nothing e = absurd (none_ne_some e)
find_user-IsAlive {users} handle p (before q h a apart rest) e =
    elim (Bool-cases (same_text h handle)) [
      | inl same ↦
          let here : q ≡ p = some-injective q p (rw same at e) in
          let name : h ≡ handle = same_text-eq h handle same in
          subst (IsAlive users p) name (subst (λ x. IsAlive users x h) here a)
      | inr other ↦ find_user-IsAlive handle p rest (rw other at e)
    ]

-- The users that other nodes name stay alive.
pub IsListed-kept :
    {users after : Users} {ns : List UserRegistryNode} (handle : Handle)
    → find_user handle ns ≡ none
    → ((p : ℕ) (h : Handle) → same_text h handle ≡ false → IsAlive users p h → IsAlive after p h)
    → IsListed users ns
    → IsListed after ns
unfolding find_user
IsListed-kept handle e keeps nothing = nothing
IsListed-kept handle e keeps (before q h a apart rest) = elim (Bool-cases (same_text h handle)) [
  | inl same ↦ absurd (none_ne_some (sym (rw same at e)))
  | inr other ↦
      before q h (keeps q h other a) apart (IsListed-kept handle (rw other at e) keeps rest)
]

pub IsListed-all :
    {users after : Users} {ns : List UserRegistryNode}
    → ((p : ℕ) (h : Handle) → IsAlive users p h → IsAlive after p h)
    → IsListed users ns
    → IsListed after ns
IsListed-all keeps nothing = nothing
IsListed-all keeps (before q h a apart rest) =
    before q h (keeps q h a) apart (IsListed-all keeps rest)

found_alike :
    (handle h : Handle) (ns : List UserRegistryNode)
    → same_text h handle ≡ true
    → find_user h ns ≡ none
    → find_user handle ns ≡ none
found_alike handle h ns same e = subst (λ x. find_user x ns ≡ none) (same_text-eq h handle same) e

-- Other handles are found as before.
pub unlink-other :
    (handle other : Handle) (ns : List UserRegistryNode)
    → same_text handle other ≡ false
    → find_user other (unlink handle ns) ≡ find_user other ns
unfolding find_user unlink
unlink-other handle other [] apart = refl
unlink-other handle other (n ∷ ns) apart = elim (Bool-cases (same_text n.handle handle)) [
  | inl same ↦
      let miss : same_text n.handle other ≡ false =
        subst (λ h. same_text h other ≡ false) (sym (same_text-eq n.handle handle same)) apart in
      rw (same, miss) refl
  | inr apart' ↦ rw apart' (
      ap (λ o. if same_text n.handle other then some n.user else o)
        (unlink-other handle other ns apart))
]

pub unlink-none :
    {users : Users} {ns : List UserRegistryNode} (handle : Handle)
    → IsListed users ns
    → find_user handle (unlink handle ns) ≡ none
unfolding find_user unlink
unlink-none handle nothing = refl
unlink-none {ns = ns} handle (before q h a apart rest) = elim (Bool-cases (same_text h handle)) [
  | inl same ↦ rw same (found_alike handle h _ same apart)
  | inr other ↦ rw (other, other) (unlink-none handle rest)
]

-- After the unlinking, the users of the other handles are enough.
pub unlink-IsListed :
    {users after : Users} {ns : List UserRegistryNode} (handle : Handle)
    → ((p : ℕ) (h : Handle) → same_text h handle ≡ false → IsAlive users p h → IsAlive after p h)
    → IsListed users ns
    → IsListed after (unlink handle ns)
unfolding unlink
unlink-IsListed handle keeps nothing = nothing
unlink-IsListed handle keeps (before q h a apart rest) = elim (Bool-cases (same_text h handle)) [
  | inl same ↦ rw same (IsListed-kept handle (found_alike handle h _ same apart) keeps rest)
  | inr other ↦ rw other (
      before q h (keeps q h other a)
        (unlink-other handle h _ (same_text_sym h handle other) ∙ apart)
        (unlink-IsListed handle keeps rest))
]
