-- ===== src/Chat/Service/Delivered.antt =====
-- The request to send a message in hw5/src/server.c.
use cse_320_repository.Base.{
  ℕ, suc, ◌≡◌, List, [], ◌∷◌, ◌++◌, Text, none, some, refl, sym, ap, ◌∙◌, subst, length, take, pos,
  arith, take-append, append_nil, Bool-cases, inl, inr,
}
use cse_320_repository.Chat.Client.{Server, connected}
use cse_320_repository.Chat.Service.{
  Header, Service, ntohl, index_of, c_string, send_to, send_request, find_recipient,
}
use cse_320_repository.Chat.Service.Held.{AllAlive, IsHeld, IsHeld-nothing, IsHeld-released}
use cse_320_repository.Chat.Service.Users.{AllNamed, creg_all_clients-IsHeld}
use cse_320_repository.Chat.Service.Recipient.{is_under, under, last_of, find_recipient_lem}
use cse_320_repository.Chat.Service.Send.{
  IsPlain, send_payload, index_of-plain, c_string-plain, message_of-payload, mesg_packet,
  ack_packet, IsSender, sender-user, deliver-IsHeld,
}

-- Two packets more, and the server as it was.
pub record IsDelivered (c r : ℕ) (packet : Header) (handle message : Text) (t u : Service)
    : Type 0 where
  pub sent :
      u.sent ≡ (t.sent ++ mesg_packet r packet handle message ∷ []) ++ ack_packet c packet ∷ []
  pub cells : (q : ℕ) → u.server.clients.cells q ≡ t.server.clients.cells q
  pub slots : u.server.slots ≡ t.server.slots
  pub registry : u.server.registry ≡ t.server.registry
  pub mailboxes : u.server.mailboxes ≡ t.server.mailboxes

under-AllAlive :
    (handle : Text) (cs : List ℕ) (s : Server) (a : AllAlive cs s)
    → AllAlive (under handle cs s a) s
under-AllAlive handle [] s a = tt
under-AllAlive handle (c ∷ cs) s (a, rest) =
    elim (Bool-cases (is_under a.client s.registry.users handle)) [
      | inl found ↦ rw found (a, under-AllAlive handle cs s rest)
      | inr other ↦ rw other (under-AllAlive handle cs s rest)
    ]

-- The only client under the handle is found.
find_recipient-only :
    (handle : Text) (r : ℕ) (cs : List ℕ) (s t : Server) (a : AllAlive cs s)
    → AllNamed cs s a
    → under handle cs s a ≡ r ∷ []
    → IsHeld cs s t
    → (u : Server) × (find_recipient cs handle none t ≡ some (some r, u)) × IsHeld (r ∷ []) s u
find_recipient-only handle r cs s t a named only h =
    let (u, ran, held) =
      find_recipient_lem handle cs [] none s t a named
        (subst (λ l. IsHeld l s t) (sym (append_nil cs)) h) in
    (u, ran ∙ ap (λ l. some (last_of none l, u)) only, subst (λ l. IsHeld (l ++ []) s u) only held)

send_to-IsDelivered :
    (c r : ℕ) (packet : Header) (handle recipient message : Text) (t : Service)
    (a : AllAlive (connected t.server.slots) t.server)
    → AllNamed (connected t.server.slots) t.server a
    → IsSender c handle t.server
    → IsPlain recipient
    → ntohl packet.payload_length ≡ length (send_payload recipient message)
    → under recipient (connected t.server.slots) t.server a ≡ r ∷ []
    → (u : Service) × (send_to c packet (send_payload recipient message) (suc (length recipient)) t
        ≡ some u)
      × IsDelivered c r packet handle message t u
unfolding send_to
send_to-IsDelivered c r packet handle recipient message t a named i plain whole only =
    let (s, taken, held) = creg_all_clients-IsHeld t.server a in
    let (w, ran, kept) =
      find_recipient-only recipient r (connected t.server.slots) t.server s a named only held in
    let alive : AllAlive (r ∷ []) t.server =
      subst (λ l. AllAlive l t.server) only
        (under-AllAlive recipient (connected t.server.slots) t.server a) in
    let (v, sent, left) = deliver-IsHeld c r packet handle message t t.server w i alive.0 kept in
    let handle_read : c_string (take (length recipient) (send_payload recipient message))
        ≡ recipient =
      ap c_string (take-append (length recipient) recipient (13 ∷ 10 ∷ message) refl)
      ∙ c_string-plain recipient plain in
    (
      record t {
        server = v;
        sent = (t.sent ++ mesg_packet r packet handle message ∷ []) ++ ack_packet c packet ∷ [];
      },
      rw (send_to, taken, handle_read, ran, message_of-payload packet recipient message whole) sent,
      record {
        sent = refl;
        cells = IsHeld-released t.server v left;
        slots = left.slots;
        registry = left.registry;
        mailboxes = left.mailboxes;
      },
    )

-- Where each connected client exists with a reference, and its user if it is logged in, a client
-- that is logged in sends a payload of a handle without line ends and terminators, a line end and a
-- message, of the length in the header: if just one connected client is logged in under that
-- handle, the request ends, and the mailboxes are passed by: that client is sent the handle of the
-- sender, a line end, the message and a terminator, which its length counts though the format of
-- protocol.h has none, the sender then an acknowledgement, and clients, registries and mailboxes
-- are as they were.
pub send_request-IsDelivered :
    (c r : ℕ) (packet : Header) (handle recipient message : Text) (t : Service)
    (a : AllAlive (connected t.server.slots) t.server)
    → AllNamed (connected t.server.slots) t.server a
    → IsSender c handle t.server
    → IsPlain recipient
    → ntohl packet.payload_length ≡ length (send_payload recipient message)
    → under recipient (connected t.server.slots) t.server a ≡ r ∷ []
    → (u : Service) × (send_request c packet (some (send_payload recipient message)) t ≡ some u)
      × IsDelivered c r packet handle message t u
unfolding send_request
send_request-IsDelivered c r packet handle recipient message t a named i plain whole only =
    let (u, ran, done) =
      send_to-IsDelivered c r packet handle recipient message t a named i plain whole only in
    let line : index_of (send_payload recipient message) 10 0
        ≡ some (pos (suc (length recipient))) =
      index_of-plain recipient message 0 plain ∙ ap (λ (n : ℕ). some (pos n)) (omega arith) in
    (
      u,
      rw (send_request, sender-user c handle [] t.server t.server i (IsHeld-nothing t.server), line)
          ran,
      done,
    )
