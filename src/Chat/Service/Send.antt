-- ===== src/Chat/Service/Send.antt =====
-- The delivery of a message in hw5/src/server.c.
use cse_320_repository.Base.{
  ℕ, suc, ◌+◌, ◌-◌, ◌≡◌, ◌≢◌, List, [], ◌∷◌, ◌++◌, Text, none, some, true, false, refl, sym, ap,
  ◌∙◌, subst, length, drop, ltb, pos, arith, take-length, length-append, ==_ne, ge→ltb,
}
use cse_320_repository.Chat.User.{User, user_get_handle}
use cse_320_repository.Chat.Client.{Client, Server}
use cse_320_repository.Chat.Login.{client_get_user}
use cse_320_repository.Chat.Service.{
  Header, Packet, PacketType, Service, ack_header, htonl, ntohl, index_of, c_string, message_of,
  deliver, client_send_packet,
}
use cse_320_repository.Chat.Service.Held.{
  IsAlive, IsHeld, IsHeld-released, times, client_unref-IsHeld, with_references,
}
use cse_320_repository.Chat.Service.Users.{client_send_ack_lem}

-- A handle without terminators and line ends.
abbrev pub IsPlain : Text → Type 0
IsPlain [] = Unit
IsPlain (x ∷ xs) = (x ≢ 0) × (x ≢ 10) × IsPlain xs

-- The payload of a request to send a message.
abbrev pub send_payload : (recipient message : Text) → Text
send_payload recipient message = recipient ++ 13 ∷ 10 ∷ message

pub index_of-plain :
    (xs message : Text) (i : ℕ)
    → IsPlain xs
    → index_of (send_payload xs message) 10 i ≡ some (pos (i + suc (length xs)))
unfolding index_of
index_of-plain [] message i h = ap (λ (n : ℕ). some (pos n)) (omega arith)
index_of-plain (x ∷ xs) message i (some_byte, same_line, h) =
    rw (index_of, ==_ne x 0 some_byte, ==_ne x 10 same_line)
      (index_of-plain xs message (suc i) h ∙ ap (λ (n : ℕ). some (pos n)) (omega arith))

pub c_string-plain : (xs : Text) → IsPlain xs → c_string xs ≡ xs
unfolding c_string
c_string-plain [] h = refl
c_string-plain (x ∷ xs) (some_byte, same_line, h) =
    rw (c_string, ==_ne x 0 some_byte) (ap (λ (ys : Text). x ∷ ys) (c_string-plain xs h))

drop-line : (xs message : Text) → drop (suc (suc (length xs))) (send_payload xs message) ≡ message
drop-line [] message = refl
drop-line (x ∷ xs) message = drop-line xs message

pub message_of-payload :
    (packet : Header) (xs message : Text)
    → ntohl packet.payload_length ≡ length (send_payload xs message)
    → message_of packet (suc (suc (length xs))) (send_payload xs message) ≡ some message
unfolding message_of
message_of-payload packet xs message e =
    let whole : length (send_payload xs message) ≡ length xs + suc (suc (length message)) =
      length-append xs (13 ∷ 10 ∷ message) in
    let far : ltb (ntohl packet.payload_length) (suc (suc (length xs))) ≡ false =
      ge→ltb _ _ (omega (arith, e, whole)) in
    let near : ltb (length (send_payload xs message)) (ntohl packet.payload_length) ≡ false =
      ge→ltb _ _ (omega (arith, e)) in
    let rest : length message ≡ ntohl packet.payload_length - suc (suc (length xs)) =
      omega (arith, e, whole) in
    rw (message_of, far, near, drop-line xs message)
      (ap (λ (m : Text). some m)
        (take-length (ntohl packet.payload_length - suc (suc (length xs))) message rest))

-- The two packets of a delivery.
abbrev pub mesg_packet : (r : ℕ) → Header → (handle message : Text) → Packet
mesg_packet r packet handle message = record {
  to = r;
  header = record {
    kind = PacketType.mesg_pkt;
    payload_length = htonl (length handle + 3 + length message);
    msgid = htonl packet.msgid;
  };
  payload = some (handle ++ (13 ∷ 10 ∷ [] ++ (message ++ 0 ∷ [])));
}

abbrev pub ack_packet : ℕ → Header → Packet
ack_packet c packet = record { to = c; header = ack_header packet.msgid 0; payload = none }

-- A client that is logged in as a user that exists.
pub record IsSender (c : ℕ) (handle : Text) (s : Server) : Type 0 where
  pub client : Client
  pub at : s.clients.cells c ≡ some client
  pub logged : client.login_state ≡ true
  pub address : ℕ
  pub owner : client.user ≡ some address
  pub user : User
  pub exists : s.registry.users.cells address ≡ some user
  pub named : user.handle ≡ handle

pub sender-user :
    (c : ℕ) (handle : Text) (cs : List ℕ) (s t : Server) (i : IsSender c handle s)
    → IsHeld cs s t
    → client_get_user c true t ≡ some (some i.address, t)
unfolding client_get_user
sender-user c handle cs s t i h =
    let at : t.clients.cells c ≡ with_references (times c cs) (some i.client) =
      h.cells c ∙ ap (with_references (times c cs)) i.at in
    rw (client_get_user, at, i.logged, i.owner) refl

sender-handle :
    (c : ℕ) (handle : Text) (cs : List ℕ) (s t : Server) (i : IsSender c handle s)
    → IsHeld cs s t
    → user_get_handle i.address t.registry.users ≡ some handle
unfolding user_get_handle
sender-handle c handle cs s t i h =
    subst (λ r. user_get_handle i.address r.users ≡ some handle) (sym h.registry)
      (rw (user_get_handle, i.exists, i.named) refl)

pub deliver-IsHeld :
    (c r : ℕ) (packet : Header) (handle message : Text) (t : Service) (s u : Server)
    → IsSender c handle s
    → IsAlive r s
    → IsHeld (r ∷ []) s u
    → (v : Server) × (deliver c packet r message (record t { server = u })
        ≡ some (record t {
          server = v;
          sent = (t.sent ++ mesg_packet r packet handle message ∷ []) ++ ack_packet c packet ∷ [];
        }))
      × IsHeld [] s v
unfolding deliver client_send_packet
deliver-IsHeld c r packet handle message t s u i a h =
    let (v, given, left) = client_unref-IsHeld r [] s u a h in
    let there : v.clients.cells r ≡ some a.client = IsHeld-released s v left r ∙ a.at in
    let here : v.clients.cells c ≡ some i.client = IsHeld-released s v left c ∙ i.at in
    (
      v,
      rw
          (
            deliver,
            sender-user c handle (r ∷ []) s u i h,
            sender-handle c handle (r ∷ []) s u i h,
            given,
            client_send_packet,
            there,
          )
          (client_send_ack_lem c i.client packet.msgid 0 none
            (record t { server = v; sent = t.sent ++ mesg_packet r packet handle message ∷ [] })
            here),
      left,
    )
