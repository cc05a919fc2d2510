-- ===== src/Chat/Packets.antt =====
-- The packets that hw5/src/client.c sends, and the state of a service that records them. The fields of a
-- header are the words in memory, on a machine that keeps the low byte first; the fields of the clock
-- are left out.
use cse_320_repository.Base.{
  ℕ, ◌+◌, ◌*◌, ◌/◌, ◌%◌, Bool, Option, none, some, List, [], ◌∷◌, ◌++◌, Text,
}
use cse_320_repository.Chat.Client.{Server}

pub data PacketType : Type 0 where
  no_pkt login_pkt logout_pkt users_pkt send_pkt : PacketType
  ack_pkt nack_pkt mesg_pkt rcvd_pkt bounce_pkt : PacketType

pub record Header : Type 0 where
  pub kind : PacketType
  pub payload_length : ℕ
  pub msgid : ℕ

-- A packet handed to `proto_send_packet` for the connection of a client.
pub record Packet : Type 0 where
  pub to : ℕ
  pub header : Header
  pub payload : Option Text

-- The server, the packets sent so far, and whether the thread of the mailbox was ever started.
pub record Service : Type 0 where
  pub server : Server
  pub sent : List Packet
  pub mailbox_thread : Bool

unfoldable pub htonl : ℕ → ℕ
htonl n =
    n % 256 * 16_777_216 + n / 256 % 256 * 65_536 + n / 65_536 % 256 * 256 + n / 16_777_216 % 256

unfoldable pub ntohl : ℕ → ℕ
ntohl = htonl

unfoldable pub client_send_packet : ℕ → Header → Option Text → Service → Option Service
client_send_packet c header payload t = elim (t.server.clients.cells c) [
  | none ↦ none
  | some client ↦
      some
        (record t { sent = t.sent ++ (record { to = c; header = header; payload = payload }) ∷ [] })
]

abbrev pub ack_header : (msgid datalen : ℕ) → Header
ack_header msgid datalen = record {
  kind = PacketType.ack_pkt;
  payload_length = htonl datalen;
  msgid = htonl msgid;
}

abbrev pub nack_header : (msgid : ℕ) → Header
nack_header msgid = record { kind = PacketType.nack_pkt; payload_length = 0; msgid = htonl msgid }

unfoldable pub client_send_ack :
    ℕ → (msgid : ℕ) → (payload : Option Text) → (datalen : ℕ) → Service → Option Service
client_send_ack c msgid payload datalen = client_send_packet c (ack_header msgid datalen) payload

unfoldable pub client_send_nack : ℕ → (msgid : ℕ) → Service → Option Service
client_send_nack c msgid = client_send_packet c (nack_header msgid) none
