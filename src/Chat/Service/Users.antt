-- ===== src/Chat/Service/Users.antt =====
-- The request for the list of users in hw5/src/server.c.
use mathlib.Core.List.{append_assoc}
use cse_320_repository.Base.{
  ℕ, ◌+◌, ◌≡◌, List, [], ◌∷◌, ◌++◌, Text, Option, none, some, true, false, Bool-cases, inl, inr,
  refl, sym, ap, ◌∙◌, subst, length, append_nil,
}
use cse_320_repository.Chat.User.{User, Users, user_get_handle}
use cse_320_repository.Chat.Client.{Client, Server, connected, creg_all_clients}
use cse_320_repository.Chat.Login.{client_get_user}
use cse_320_repository.Chat.Service.{
  Header, Service, ack_header, client_send_packet, client_send_ack, append_handle, gather_handles,
  users_payload, users_request,
}
use cse_320_repository.Chat.Service.Held.{
  AllAlive, IsHeld, IsHeld-released, times, client_unref-IsHeld, ref_all-IsHeld, held_client,
}

-- A client that is logged in has a user that exists.
abbrev pub IsNamed : Client → Users → Type 0
IsNamed client users =
    client.login_state ≡ true
    → (p : ℕ) × (client.user ≡ some p) × (u : User) × (users.cells p ≡ some u)

abbrev pub AllNamed : (cs : List ℕ) (s : Server) → AllAlive cs s → Type 0
AllNamed [] s a = Unit
AllNamed (c ∷ cs) s (a, rest) = IsNamed a.client s.registry.users × AllNamed cs s rest

-- The handle of a client that is logged in, on its line.
abbrev pub user_line : Client → Users → Text
user_line client users = elim client.login_state [
  | false ↦ []
  | true ↦ elim client.user [
    | none ↦ []
    | some p ↦ elim (users.cells p) [ none ↦ [] | some u ↦ u.handle ++ 13 ∷ 10 ∷ [] ]
  ]
]

abbrev pub user_lines : (cs : List ℕ) (s : Server) → AllAlive cs s → Text
user_lines [] s a = []
user_lines (c ∷ cs) s (a, rest) = user_line a.client s.registry.users ++ user_lines cs s rest

user_line-named :
    (client : Client) (users : Users) (p : ℕ) (u : User)
    → client.login_state ≡ true
    → client.user ≡ some p
    → users.cells p ≡ some u
    → user_line client users ≡ u.handle ++ 13 ∷ 10 ∷ []
user_line-named client users p u logged owner exists = rw (logged, owner, exists) refl

-- One client of the loop.
append_handle_lem :
    (c : ℕ) (client : Client) (output : Text) (t : Server)
    → t.clients.cells c ≡ some client
    → IsNamed client t.registry.users
    → (user : Option ℕ) × (client_get_user c true t ≡ some (user, t))
      × (append_handle user output t ≡ some (output ++ user_line client t.registry.users))
unfolding client_get_user append_handle user_get_handle
append_handle_lem c client output t at named = elim (Bool-cases client.login_state) [
  | inr out ↦ (
    none,
    rw (client_get_user, at, out) refl,
    rw out (ap (λ (x : Text). some x) (sym (append_nil output))),
  )
  | inl logged ↦
      let (p, owner, u, exists) = named logged in
      (
        some p,
        rw (client_get_user, at, logged, owner) refl,
        rw (append_handle, user_get_handle, exists)
            (ap (λ (x : Text). some (output ++ x))
              (sym (user_line-named client t.registry.users p u logged owner exists))),
      )
]

-- The whole loop.
gather_handles_lem :
    (cs : List ℕ) (output : Text) (s t : Server) (a : AllAlive cs s)
    → AllNamed cs s a
    → IsHeld cs s t
    → (u : Server) × (gather_handles cs output t ≡ some (output ++ user_lines cs s a, u))
      × IsHeld [] s u
unfolding gather_handles
gather_handles_lem [] output s t a named h =
    (t, ap (λ (x : Text). some (x, t)) (sym (append_nil output)), h)
gather_handles_lem (c ∷ cs) output s t (a, rest) (named, others) h =
    let held = record a.client { reference_count = times c (c ∷ cs) + a.client.reference_count } in
    let (user, got, appended) =
      append_handle_lem c held output t (held_client c (c ∷ cs) s t a h)
        (subst (λ r. IsNamed a.client r.users) (sym h.registry) named) in
    let (v, ran, released) = client_unref-IsHeld c cs s t a h in
    let (u, went, left) =
      gather_handles_lem cs (output ++ user_line a.client t.registry.users) s v rest others
        released in
    (
      u,
      rw (gather_handles, got, appended, ran, went)
          (ap (λ (x : Text). some (x, u))
            (append_assoc output (user_line a.client t.registry.users) (user_lines cs s rest)
              ∙ ap (λ r. output ++ (user_line a.client r.users ++ user_lines cs s rest))
                  h.registry)),
      left,
    )

-- What a request for the users leaves: one packet more, the acknowledgement with a line for each client
-- that is logged in, and the server as it was.
pub record IsListed (c : ℕ) (packet : Header) (t u : Service) (users : Text) : Type 0 where
  pub sent :
      u.sent
      ≡ t.sent
        ++ (record {
          to = c;
          header = ack_header packet.msgid (length users);
          payload = users_payload users;
        })
          ∷ []
  pub cells : (q : ℕ) → u.server.clients.cells q ≡ t.server.clients.cells q
  pub slots : u.server.slots ≡ t.server.slots
  pub registry : u.server.registry ≡ t.server.registry
  pub mailboxes : u.server.mailboxes ≡ t.server.mailboxes

pub creg_all_clients-IsHeld :
    (s : Server)
    → AllAlive (connected s.slots) s
    → (t : Server) × (creg_all_clients s ≡ some (connected s.slots, t))
      × IsHeld (connected s.slots) s t
unfolding creg_all_clients
creg_all_clients-IsHeld s a =
    let (t, ran, held) = ref_all-IsHeld (connected s.slots) s a in
    (t, rw (creg_all_clients, ran) refl, held)

pub client_send_ack_lem :
    (c : ℕ) (client : Client) (msgid n : ℕ) (payload : Option Text) (t : Service)
    → t.server.clients.cells c ≡ some client
    → client_send_ack c msgid payload n t
      ≡ some (record t {
        sent = t.sent ++ (record { to = c; header = ack_header msgid n; payload = payload }) ∷ [];
      })
unfolding client_send_ack client_send_packet
client_send_ack_lem c client msgid n payload t at = rw (client_send_packet, at) refl

-- Where each connected client exists with a reference, and its user if it is logged in, a request for the
-- users by a client that exists ends: it sends that client one packet, an acknowledgement with the
-- handle of each connected client that is logged in, each on a line, and leaves the clients with their
-- references, the registries and the mailboxes as they were.
pub users_request-IsListed :
    (c : ℕ) (client : Client) (packet : Header) (t : Service)
    (a : AllAlive (connected t.server.slots) t.server)
    → AllNamed (connected t.server.slots) t.server a
    → t.server.clients.cells c ≡ some client
    → (u : Service) × (users_request c packet t ≡ some u)
      × IsListed c packet t u (user_lines (connected t.server.slots) t.server a)
unfolding users_request
users_request-IsListed c client packet t a named at =
    let (s, taken, held) = creg_all_clients-IsHeld t.server a in
    let users = user_lines (connected t.server.slots) t.server a in
    let (v, ran, left) = gather_handles_lem (connected t.server.slots) [] t.server s a named held in
    let back : v.clients.cells c ≡ some client = IsHeld-released t.server v left c ∙ at in
    (
      record t {
        server = v;
        sent =
            t.sent
            ++ (record {
              to = c;
              header = ack_header packet.msgid (length users);
              payload = users_payload users;
            })
              ∷ [];
      },
      rw (users_request, taken, ran)
          (client_send_ack_lem c client packet.msgid (length users) (users_payload users)
            (record t { server = v }) back),
      record {
        sent = refl;
        cells = IsHeld-released t.server v left;
        slots = left.slots;
        registry = left.registry;
        mailboxes = left.mailboxes;
      },
    )
