-- ===== src/Chat/Service/Tests.antt =====
-- The service of hw5/src/server.c at concrete packets.
use cse_320_repository.Base.{
  true, ◌++◌, ◌≡◌, refl, none, some, Option, List, [], ◌∷◌, update, codes,
}
use cse_320_repository.Chat.Heap.{empty_heap}
use cse_320_repository.Chat.User.{user_get_handle}
use cse_320_repository.Chat.UserRegistry.Listed.{user, listed}
use cse_320_repository.Chat.Client.{
  Client, empty_slots, connected, client_ref, client_unref, ref_all, creg_all_clients,
}
use cse_320_repository.Chat.Login.{client_get_user}
use cse_320_repository.Chat.Service.{
  gather_handles, append_handle, Header, Packet, PacketType, Service, htonl, ntohl, users_request,
  send_request, request, index_of, send_to, find_recipient, has_user, deliver, message_of, c_string,
  client_send_packet, client_send_ack,
}
use cse_320_repository.Base.{arith}
use cse_320_repository.Chat.Service.Send.{send_payload}
use cse_320_repository.Chat.Service.Delivered.{IsDelivered, send_request-IsDelivered}
use cse_320_repository.Chat.Service.Users.{IsListed, users_request-IsListed}

-- One client, with the user bob, in the first of 64 cells.
abbrev bob_client : Client
bob_client = record {
  conn_fd = 5;
  user = some 0;
  mailbox = some 0;
  login_state = true;
  reference_count = 2;
}

abbrev bob_service : Service
bob_service = record {
  server = record {
    clients = record { cells = update (λ p. none) 0 (some bob_client); next = 1 };
    slots = some 0 ∷ empty_slots 63;
    registry = record {
      nodes = listed 0 (codes "bob") ∷ [];
      users = record { cells = update (λ p. none) 0 (some (user (codes "bob") 2)); next = 1 };
    };
    mailboxes = record { heap = empty_heap; discarded = [] };
  };
  sent = [];
  mailbox_thread = true;
}

-- The id 1 in network order.
abbrev users_packet : Header
users_packet = record { kind = PacketType.users_pkt; payload_length = 0; msgid = 16_777_216 }

users_request-IsListed_example :
    (u : Service) × (users_request 0 users_packet bob_service ≡ some u)
    × IsListed 0 users_packet bob_service u (codes "bob" ++ 13 ∷ 10 ∷ [])
unfolding empty_slots connected
users_request-IsListed_example =
    users_request-IsListed 0 bob_client users_packet bob_service
      ((record { client = bob_client; at = refl; count = 1; counted = refl }), tt)
      ((λ e. (0, refl, user (codes "bob") 2, refl)), tt) refl

-- The id of the acknowledgement is 1 in memory, which is not 1 in network order.
sent_by : Option Service → List Packet
sent_by none = []
sent_by (some t) = t.sent

wrong_id : htonl 1 ≡ 16_777_216
unfolding htonl
wrong_id = refl

users_id_runs :
    sent_by (request 0 users_packet none bob_service)
    ≡ (record {
      to = 0;
      header = record { kind = PacketType.ack_pkt; payload_length = 83_886_080; msgid = 1 };
      payload = some (codes "bob" ++ 13 ∷ 10 ∷ []);
    })
      ∷ []
unfolding sent_by request users_request creg_all_clients ref_all client_ref connected empty_slots
    gather_handles client_get_user append_handle user_get_handle client_unref client_send_ack
    client_send_packet htonl
users_id_runs = refl

abbrev send_packet : Header
send_packet = record {
  kind = PacketType.send_pkt;
  payload_length = 117_440_512;
  msgid = 16_777_216;
}

send_request-IsDelivered_example :
    (u : Service) × (send_request 0 send_packet
        (some (send_payload (codes "bob") (codes "hi")))
        bob_service
      ≡ some u)
    × IsDelivered 0 0 send_packet (codes "bob") (codes "hi") bob_service u
unfolding empty_slots connected ntohl htonl
send_request-IsDelivered_example =
    send_request-IsDelivered 0 0 send_packet (codes "bob") (codes "bob") (codes "hi") bob_service
      ((record { client = bob_client; at = refl; count = 1; counted = refl }), tt)
      ((λ e. (0, refl, user (codes "bob") 2, refl)), tt)
      (record {
        client = bob_client;
        at = refl;
        logged = refl;
        address = 0;
        owner = refl;
        user = user (codes "bob") 2;
        exists = refl;
        named = refl;
      })
      (
        (λ e. omega (arith, e)),
        (λ e. omega (arith, e)),
        (
          (λ e. omega (arith, e)),
          (λ e. omega (arith, e)),
          ((λ e. omega (arith, e)), (λ e. omega (arith, e)), tt),
        ),
      )
      refl refl

-- A message of bob to himself: its length counts a byte more than the text.
send_runs :
    sent_by (request 0 send_packet (some (codes "bob" ++ 13 ∷ 10 ∷ codes "hi")) bob_service)
    ≡ (record {
      to = 0;
      header = record { kind = PacketType.mesg_pkt; payload_length = 134_217_728; msgid = 1 };
      payload = some (codes "bob" ++ (13 ∷ 10 ∷ codes "hi" ++ 0 ∷ []));
    })
      ∷ (record {
        to = 0;
        header = record { kind = PacketType.ack_pkt; payload_length = 0; msgid = 1 };
        payload = none;
      })
      ∷ []
unfolding sent_by request send_request index_of send_to find_recipient has_user message_of deliver
    c_string creg_all_clients ref_all client_ref connected empty_slots client_get_user
    user_get_handle client_unref client_send_ack client_send_packet ntohl htonl
send_runs = refl
