-- ===== src/Chat/Service.antt =====
-- The service of a connected client: `chla_client_service` of hw5/src/server.c. A request is handled as
-- one step. A result `none` is a fault: an access outside a buffer, or to an object that is freed or
-- NULL.
pub mod Held
pub mod Users
pub mod Recipient
pub mod Send
pub mod Delivered
mod Tests
use cse_320_repository.Base.{
  ℕ, zero, suc, ◌+◌, ◌-◌, ◌==◌, ltb, if◌then◌else◌, Bool, true, false, ◌||◌, Option, none, some,
  List, [], ◌∷◌, ◌++◌, Text, length, take, drop, ℤ, pos, negsuc, same_text,
}
use cse_320_repository.Chat.User.{user_get_handle}
use cse_320_repository.Chat.Client.{
  Server, client_ref, client_unref, creg_register, creg_unregister, creg_all_clients,
}
use cse_320_repository.Chat.Login.{client_login, client_logout, client_get_user}
pub use cse_320_repository.Chat.Packets.{
  PacketType, Header, Packet, Service, ack_header, nack_header,
}
unfoldable pub use cse_320_repository.Chat.Packets.{
  htonl, ntohl, client_send_packet, client_send_ack, client_send_nack,
}

-- The text of a buffer up to the first terminator.
unfoldable pub c_string : Text → Text
c_string [] = []
c_string (x ∷ xs) = if x == 0 then [] else x ∷ c_string xs

unfoldable pub answer : ℕ → (msgid : ℕ) → (success : Bool) → Service → Option Service
answer c msgid true = client_send_ack c msgid none 0
answer c msgid false = client_send_nack c msgid

-- The two bytes behind the handle are cut; a payload of less than two bytes is a fault.
unfoldable pub login_request : ℕ → Header → Option Text → Service → Option Service
login_request c packet none t = none
login_request c packet (some payload) t =
    if ltb (ntohl packet.payload_length) 2 || ltb (length payload) (ntohl packet.payload_length - 1)
    then none
    else elim (client_login c (c_string (take (ntohl packet.payload_length - 2) payload))
        t.server) [
          | none ↦ none
          | some (true, s) ↦
              answer c (ntohl packet.msgid) true (record t { server = s; mailbox_thread = true })
          | some (false, s) ↦ answer c (ntohl packet.msgid) false (record t { server = s })
        ]

unfoldable pub logout_request : ℕ → Header → Service → Option Service
logout_request c packet t = elim (client_logout c t.server) [
  | none ↦ none
  | some (success, s) ↦ answer c (ntohl packet.msgid) success (record t { server = s })
]

-- The handle of a user and the end of a line, if there is a user.
unfoldable pub append_handle : Option ℕ → Text → Server → Option Text
append_handle none output s = some output
append_handle (some p) output s = elim (user_get_handle p s.registry.users) [
  | none ↦ none
  | some handle ↦ some (output ++ (handle ++ 13 ∷ 10 ∷ []))
]

-- The loop over the clients, which gives back the reference to each.
unfoldable pub gather_handles : List ℕ → Text → Server → Option (Text × Server)
gather_handles [] output s = some (output, s)
gather_handles (c ∷ cs) output s = elim (client_get_user c true s) [
  | none ↦ none
  | some (user, t) ↦ elim (append_handle user output t) [
    | none ↦ none
    | some more ↦ elim (client_unref c t) [ none ↦ none | some u ↦ gather_handles cs more u ]
  ]
]

-- No payload stands for an empty list of users.
abbrev pub users_payload : Text → Option Text
users_payload [] = none
users_payload (x ∷ xs) = some (x ∷ xs)

-- The id of the packet is not brought to host order.
unfoldable pub users_request : ℕ → Header → Service → Option Service
users_request c packet t = elim (creg_all_clients t.server) [
  | none ↦ none
  | some (clients, s) ↦ elim (gather_handles clients [] s) [
    | none ↦ none
    | some (output, u) ↦
        client_send_ack c packet.msgid (users_payload output) (length output)
          (record t { server = u })
  ]
]

-- `none` is a read behind the end of the payload.
unfoldable pub index_of : Text → (character i : ℕ) → Option ℤ
index_of [] character i = none
index_of (x ∷ xs) character i =
    let rest = index_of xs character (suc i) in
    if x == 0 then some (negsuc 0) else if x == character then some (pos i) else rest

-- Does the user have the handle?
unfoldable pub has_user : Option ℕ → Text → Server → Option Bool
has_user none handle s = some false
has_user (some p) handle s = elim (user_get_handle p s.registry.users) [
  | none ↦ none
  | some h ↦ some (same_text h handle)
]

-- The last client under the handle, with a reference more.
unfoldable pub find_recipient :
    List ℕ → Text → (found : Option ℕ) → Server → Option (Option ℕ × Server)
find_recipient [] handle found s = some (found, s)
find_recipient (c ∷ cs) handle found s = elim (client_get_user c true s) [
  | none ↦ none
  | some (user, t) ↦ elim (has_user user handle t) [
    | none ↦ none
    | some true ↦ elim (client_ref c t) [
      | none ↦ none
      | some u ↦ elim (client_unref c u) [
        | none ↦ none
        | some v ↦ find_recipient cs handle (some c) v
      ]
    ]
    | some false ↦ elim (client_unref c t) [
      | none ↦ none
      | some v ↦ find_recipient cs handle found v
    ]
  ]
]

-- The message behind the handle of the sender and the end of a line, with the terminator.
unfoldable pub deliver : ℕ → Header → (recipient : ℕ) → (message : Text) → Service → Option Service
deliver c packet recipient message t = elim (client_get_user c true t.server) [
  | none ↦ none
  | some (none, s) ↦ none
  | some (some p, s) ↦ elim (user_get_handle p s.registry.users) [
    | none ↦ none
    | some handle ↦ elim (client_unref recipient s) [
      | none ↦ none
      | some u ↦
          let header : Header = record {
            kind = PacketType.mesg_pkt;
            payload_length = htonl (length handle + 3 + length message);
            msgid = htonl packet.msgid;
          } in
          elim (client_send_packet recipient header
            (some (handle ++ (13 ∷ 10 ∷ [] ++ (message ++ 0 ∷ [])))) (record t { server = u })) [
              | none ↦ none
              | some v ↦ client_send_ack c packet.msgid none 0 v
            ]
    ]
  ]
]

-- What follows the first line; `none` is an access outside the buffer.
unfoldable pub message_of : Header → (start : ℕ) → Text → Option Text
message_of packet start payload =
    if ltb (ntohl packet.payload_length) start || ltb (length payload) (ntohl packet.payload_length)
    then none
    else some (take (ntohl packet.payload_length - start) (drop start payload))

-- The recipient is the first line of the payload without its last byte.
unfoldable pub send_to : ℕ → Header → Text → (recipient_length : ℕ) → Service → Option Service
send_to c packet payload zero t = none
send_to c packet payload (suc n) t = elim (creg_all_clients t.server) [
  | none ↦ none
  | some (clients, s) ↦ elim (find_recipient clients (c_string (take n payload)) none s) [
    | none ↦ none
    | some (none, u) ↦ client_send_nack c packet.msgid (record t { server = u })
    | some (some recipient, u) ↦ elim (message_of packet (suc (suc n)) payload) [
      | none ↦ none
      | some message ↦ deliver c packet recipient message (record t { server = u })
    ]
  ]
]

unfoldable pub send_request : ℕ → Header → Option Text → Service → Option Service
send_request c packet payload t = elim (client_get_user c true t.server) [
  | none ↦ none
  | some (none, s) ↦ client_send_nack c packet.msgid t
  | some (some p, s) ↦ elim payload [
    | none ↦ none
    | some body ↦ elim (index_of body 10 0) [
      | none ↦ none
      | some (negsuc n) ↦ none
      | some (pos n) ↦ send_to c packet body n t
    ]
  ]
]

-- A packet of another type is passed over.
unfoldable pub request : ℕ → Header → Option Text → Service → Option Service
request c packet payload t = elim packet.kind [
  | PacketType.login_pkt ↦ login_request c packet payload t
  | PacketType.logout_pkt ↦ logout_request c packet t
  | PacketType.users_pkt ↦ users_request c packet t
  | PacketType.send_pkt ↦ send_request c packet payload t
  | _ ↦ some t
]

-- The loop, over the packets that are received before the connection ends, each with the buffer that
-- `payloadPtr` refers to by then.
unfoldable pub service_loop : ℕ → List (Header × Option Text) → Service → Option Service
service_loop c [] t = some t
service_loop c ((packet, payload) ∷ ps) t = elim (request c packet payload t) [
  | none ↦ none
  | some u ↦ service_loop c ps u
]

-- What is done behind the loop; the thread of the mailbox has ended by then.
unfoldable pub end_service : ℕ → Server → Option Server
end_service c s = elim (client_logout c s) [
  | none ↦ none
  | some (result, t) ↦ elim (client_unref c t) [
    | none ↦ none
    | some u ↦ elim (creg_unregister c u) [ none ↦ none | some (done, v) ↦ some v ]
  ]
]

-- Where all cells are taken, the client is NULL.
unfoldable pub chla_client_service :
    (fd : ℕ) → List (Header × Option Text) → Server → Option (List Packet × Server)
chla_client_service fd packets s = elim (creg_register fd s) [
  | none ↦ none
  | some (none, t) ↦ none
  | some (some c, t) ↦
      elim (service_loop c packets (record { server = t; sent = []; mailbox_thread = false })) [
        | none ↦ none
        | some u ↦ elim (end_service c u.server) [ none ↦ none | some v ↦ some (u.sent, v) ]
      ]
]
