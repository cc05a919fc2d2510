-- ===== src/Chat/Client.antt =====
-- Clients and their registry: hw5/src/client.c and hw5/src/client_registry.c. The array of the registry
-- is a list of 64 cells. A call under a mutex is one step; memory and semaphores are always to be had.
-- The semaphore of `creg_shutdown_all`, which `creg_unregister` also posts, is not modelled.
pub mod Slots
pub mod Register
use cse_320_repository.Base.{
  same_text, ℕ, zero, suc, ◌+◌, ◌==◌, if◌then◌else◌, Bool, true, false, Option, none, some, List,
  [], ◌∷◌,
}
use cse_320_repository.Chat.Heap.{Heap, malloc, write, free, Handle, ◌>=>◌}
use cse_320_repository.Chat.User.{Users, user_unref, user_get_handle}
use cse_320_repository.Chat.UserRegistry.{UserRegistry}
use cse_320_repository.Chat.Mailbox.{Mailboxes, mb_unref}

pub record Client : Type 0 where
  pub conn_fd : ℕ
  pub user : Option ℕ
  pub mailbox : Option ℕ
  pub login_state : Bool
  pub reference_count : ℕ

-- The clients and the globals `client_registry`, `user_registry`.
pub record Server : Type 0 where
  pub clients : Heap Client
  pub slots : List (Option ℕ)
  pub registry : UserRegistry
  pub mailboxes : Mailboxes

abbrev pub max_clients : ℕ
max_clients = 64

unfoldable pub empty_slots : ℕ → List (Option ℕ)
empty_slots zero = []
empty_slots (suc n) = none ∷ empty_slots n

unfoldable pub creg_init : List (Option ℕ)
creg_init = empty_slots max_clients

abbrev pub new_client : ℕ → Client
new_client fd = record {
  conn_fd = fd;
  user = none;
  mailbox = none;
  login_state = false;
  reference_count = 1;
}

unfoldable pub client_create : ℕ → Server → ℕ × Server
client_create fd s = (s.clients.next, record s { clients = (malloc (new_client fd) s.clients).1 })

unfoldable pub client_ref : ℕ → Server → Option Server
client_ref c s = elim (s.clients.cells c) [
  | none ↦ none
  | some client ↦ some (record s {
    clients = write c (record client { reference_count = client.reference_count + 1 }) s.clients;
  })
]

-- An operation on the users or on the mailboxes alone; NULL is a fault.
unfoldable pub on_user : (ℕ → Users → Option Users) → Option ℕ → Server → Option Server
on_user f none s = none
on_user f (some p) s = elim (f p s.registry.users) [
  | none ↦ none
  | some users ↦ some (record s { registry = record s.registry { users = users } })
]

unfoldable pub on_mailbox : (ℕ → Mailboxes → Option Mailboxes) → Option ℕ → Server → Option Server
on_mailbox f none s = none
on_mailbox f (some mb) s = elim (f mb s.mailboxes) [
  | none ↦ none
  | some mailboxes ↦ some (record s { mailboxes = mailboxes })
]

-- What a client that is still logged in gives up when it is freed.
unfoldable pub release_login : Client → Server → Option Server
release_login client =
    if client.login_state
    then on_user user_unref client.user >=> on_mailbox mb_unref client.mailbox
    else some

unfoldable pub client_free : ℕ → Server → Option Server
client_free c s = some (record s { clients = free c s.clients })

unfoldable pub client_unref : ℕ → Server → Option Server
client_unref c s = elim (s.clients.cells c) [
  | none ↦ none
  | some client ↦ elim client.reference_count [
    | zero ↦ none
    | suc zero ↦ (release_login client >=> client_free c) s
    | suc (suc n) ↦
        some (record s { clients = write c (record client { reference_count = suc n }) s.clients })
  ]
]

-- The index of the first empty cell.
unfoldable pub free_slot : List (Option ℕ) → Option ℕ
free_slot [] = none
free_slot (none ∷ cs) = some 0
free_slot (some c ∷ cs) = elim (free_slot cs) [ none ↦ none | some i ↦ some (suc i) ]

unfoldable pub set_slot : ℕ → Option ℕ → List (Option ℕ) → List (Option ℕ)
set_slot i v [] = []
set_slot zero v (c ∷ cs) = v ∷ cs
set_slot (suc i) v (c ∷ cs) = c ∷ set_slot i v cs

-- The index of the first cell that holds the client.
unfoldable pub slot_of : ℕ → List (Option ℕ) → Option ℕ
slot_of client [] = none
slot_of client (none ∷ cs) = elim (slot_of client cs) [ none ↦ none | some i ↦ some (suc i) ]
slot_of client (some c ∷ cs) =
    let rest = slot_of client cs in
    if c == client then some 0 else elim rest [ none ↦ none | some i ↦ some (suc i) ]

unfoldable pub creg_register : ℕ → Server → Option (Option ℕ × Server)
creg_register fd s = elim (free_slot s.slots) [
  | none ↦ some (none, s)
  | some i ↦
      let (c, created) = client_create fd s in
      elim (client_ref c created) [
        | none ↦ none
        | some t ↦ some (some c, record t { slots = set_slot i (some c) t.slots })
      ]
]

-- The result is true for 0 and false for -1.
unfoldable pub creg_unregister : ℕ → Server → Option (Bool × Server)
creg_unregister client s = elim (slot_of client s.slots) [
  | none ↦ some (false, s)
  | some i ↦ elim (client_unref client s) [
    | none ↦ none
    | some t ↦ some (true, record t { slots = set_slot i none t.slots })
  ]
]

unfoldable pub connected : List (Option ℕ) → List ℕ
connected [] = []
connected (none ∷ cs) = connected cs
connected (some c ∷ cs) = c ∷ connected cs

unfoldable pub ref_all : List ℕ → Server → Option Server
ref_all [] = some
ref_all (c ∷ cs) = client_ref c >=> ref_all cs

unfoldable pub unref_all : List ℕ → Server → Option Server
unref_all [] = some
unref_all (c ∷ cs) = client_unref c >=> unref_all cs

unfoldable pub creg_all_clients : Server → Option (List ℕ × Server)
creg_all_clients s = elim (ref_all (connected s.slots) s) [
  | none ↦ none
  | some t ↦ some (connected s.slots, t)
]

unfoldable pub creg_fini : Server → Option Server
creg_fini s = unref_all (connected s.slots) s

-- Is the client logged in under the handle? A freed client or user is a fault.
unfoldable pub has_handle : Handle → ℕ → Server → Option Bool
has_handle handle c s = elim (s.clients.cells c) [
  | none ↦ none
  | some client ↦ elim client.login_state [
    | false ↦ some false
    | true ↦ elim client.user [
      | none ↦ none
      | some p ↦ elim (user_get_handle p s.registry.users) [
        | none ↦ none
        | some h ↦ some (same_text handle h)
      ]
    ]
  ]
]

unfoldable pub is_logged : Handle → List ℕ → Server → Option Bool
is_logged handle [] s = some false
is_logged handle (c ∷ cs) s =
    let rest = is_logged handle cs s in
    elim (has_handle handle c s) [ none ↦ none | some true ↦ some true | some false ↦ rest ]
