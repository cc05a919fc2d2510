-- ===== src/Chat/Login.antt =====
-- Login and logout: hw5/src/client.c. The result of a call is true for 0 and false for -1.
use cse_320_repository.Base.{ℕ, Bool, true, false, Option, none, some}
use cse_320_repository.Chat.Heap.{write, Handle, ◌>=>◌}
use cse_320_repository.Chat.User.{user_ref, user_unref, user_get_handle}
use cse_320_repository.Chat.UserRegistry.{ureg_register, ureg_unregister}
use cse_320_repository.Chat.Mailbox.{mb_init, mb_ref, mb_unref, mb_shutdown}
use cse_320_repository.Chat.Client.{
  Client, Server, on_user, on_mailbox, unref_all, creg_all_clients, is_logged,
}

unfoldable pub set_client : ℕ → Client → Server → Server
set_client c client s = record s { clients = write c client s.clients }

-- The client with a user and a mailbox of the handle.
unfoldable pub enter : ℕ → Handle → Server → Option Server
enter c handle s = elim (s.clients.cells c) [
  | none ↦ none
  | some client ↦ elim (ureg_register handle s.registry) [
    | none ↦ none
    | some (p, registry) ↦
        let (mb, mailboxes) = mb_init handle s.mailboxes in
        some (
          set_client c (record client { user = some p; mailbox = some mb; login_state = true })
            (record s { registry = registry; mailboxes = mailboxes }))
  ]
]

unfoldable pub client_login : ℕ → Handle → Server → Option (Bool × Server)
client_login c handle s = elim (s.clients.cells c) [
  | none ↦ none
  | some client ↦ elim client.login_state [
    | true ↦ some (false, s)
    | false ↦ elim (creg_all_clients s) [
      | none ↦ none
      | some (listed, t) ↦ elim (is_logged handle listed t) [
        | none ↦ none
        | some found ↦ elim (unref_all listed t) [
          | none ↦ none
          | some u ↦ elim found [
            | true ↦ some (false, u)
            | false ↦ elim (enter c handle u) [ none ↦ none | some w ↦ some (true, w) ]
          ]
        ]
      ]
    ]
  ]
]

-- The handle is read from the user after its reference is gone.
unfoldable pub unregister_user : Option ℕ → Server → Option Server
unregister_user none s = none
unregister_user (some p) s = elim (user_get_handle p s.registry.users) [
  | none ↦ none
  | some handle ↦ elim (ureg_unregister handle s.registry) [
    | none ↦ none
    | some registry ↦ some (record s { registry = registry })
  ]
]

unfoldable pub clear_login : ℕ → Client → Server → Option Server
clear_login c client s =
    some (set_client c (record client { user = none; mailbox = none; login_state = false }) s)

unfoldable pub client_logout : ℕ → Server → Option (Bool × Server)
client_logout c s = elim (s.clients.cells c) [
  | none ↦ none
  | some client ↦ elim client.login_state [
    | false ↦ some (false, s)
    | true ↦
        elim ((on_user user_unref client.user
            >=> unregister_user client.user
            >=> on_mailbox mb_shutdown client.mailbox
            >=> on_mailbox mb_unref client.mailbox
            >=> clear_login c client)
          s) [ none ↦ none | some t ↦ some (true, t) ]
  ]
]

unfoldable pub client_get_user : ℕ → (no_ref : Bool) → Server → Option (Option ℕ × Server)
client_get_user c no_ref s = elim (s.clients.cells c) [
  | none ↦ none
  | some client ↦ elim client.login_state [
    | false ↦ some (none, s)
    | true ↦ elim no_ref [
      | true ↦ some (client.user, s)
      | false ↦ elim (on_user user_ref client.user s) [
        | none ↦ none
        | some t ↦ some (client.user, t)
      ]
    ]
  ]
]

unfoldable pub client_get_mailbox : ℕ → (no_ref : Bool) → Server → Option (Option ℕ × Server)
client_get_mailbox c no_ref s = elim (s.clients.cells c) [
  | none ↦ none
  | some client ↦ elim client.login_state [
    | false ↦ some (none, s)
    | true ↦ elim no_ref [
      | true ↦ some (client.mailbox, s)
      | false ↦ elim (on_mailbox mb_ref client.mailbox s) [
        | none ↦ none
        | some t ↦ some (client.mailbox, t)
      ]
    ]
  ]
]
