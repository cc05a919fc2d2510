-- ===== src/Chat/UserRegistry.antt =====
-- The registry of users: hw5/src/user_registry.c. Its circular list is the list of the nodes that
-- follow the dummy node; a new node comes first.
pub mod Listed
pub mod Correct
use cse_320_repository.Base.{same_text, ℕ, if◌then◌else◌, Option, none, some, List, [], ◌∷◌}
use cse_320_repository.Chat.Heap.{Handle, ◌>=>◌}
use cse_320_repository.Chat.User.{Users, user_create, user_ref, user_unref}

pub record UserRegistryNode : Type 0 where
  pub user : ℕ
  pub handle : Handle

pub record UserRegistry : Type 0 where
  pub nodes : List UserRegistryNode
  pub users : Users

unfoldable pub ureg_init : Users → UserRegistry
ureg_init users = record { nodes = []; users = users }

-- The user of the first node with the handle.
unfoldable pub find_user : Handle → List UserRegistryNode → Option ℕ
find_user handle [] = none
find_user handle (n ∷ ns) = if same_text n.handle handle then some n.user else find_user handle ns

-- The list without the first node with the handle.
unfoldable pub unlink : Handle → List UserRegistryNode → List UserRegistryNode
unlink handle [] = []
unlink handle (n ∷ ns) = if same_text n.handle handle then ns else n ∷ unlink handle ns

-- Every node's user loses a reference; the nodes are freed.
unfoldable pub ureg_fini : List UserRegistryNode → Users → Option Users
ureg_fini [] = some
ureg_fini (n ∷ ns) = user_unref n.user >=> ureg_fini ns

-- A new user has one reference for the registry and one for the caller.
unfoldable pub insert_user : Handle → UserRegistry → Option (ℕ × UserRegistry)
insert_user handle r =
    let (p, created) = user_create handle r.users in
    elim (user_ref p created) [
      | none ↦ none
      | some users ↦
          some (p, record { nodes = record { user = p; handle = handle } ∷ r.nodes; users = users })
    ]

unfoldable pub ureg_register : Handle → UserRegistry → Option (ℕ × UserRegistry)
ureg_register handle r = elim (find_user handle r.nodes) [
  | none ↦ insert_user handle r
  | some p ↦ elim (user_ref p r.users) [
    | none ↦ none
    | some users ↦ some (p, record r { users = users })
  ]
]

unfoldable pub ureg_unregister : Handle → UserRegistry → Option UserRegistry
ureg_unregister handle r = elim (find_user handle r.nodes) [
  | none ↦ some r
  | some p ↦ elim (user_unref p r.users) [
    | none ↦ none
    | some users ↦ some (record { nodes = unlink handle r.nodes; users = users })
  ]
]
