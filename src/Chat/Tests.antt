-- ===== src/Chat/Tests.antt =====
-- The chat server of hw5/src at small inputs.
use cse_320_repository.Base.{
  ℕ, true, ◌+◌, ◌++◌, ◌⊎◌, ◌≡◌, refl, none, some, List, [], ◌∷◌, arith, update, subst,
}
use cse_320_repository.Chat.Heap.{Handle, empty_heap}
use cse_320_repository.Chat.UserRegistry.{UserRegistry, find_user}
use cse_320_repository.Chat.UserRegistry.Listed.{user, listed, IsListed, nothing, before}
use cse_320_repository.Chat.UserRegistry.Correct.{
  IsRegistered, IsUnregistered, ureg_register-IsRegistered, ureg_unregister-IsUnregistered,
}
use cse_320_repository.Chat.Mailbox.{
  MailboxEntry, Mailboxes, notice, bounce_notice_type, modify, mb_init, mb_add_notice, enqueue,
  post_item,
}
use cse_320_repository.Chat.Client.{Server, creg_init, empty_slots, slot_of}
use cse_320_repository.Chat.Client.Register.{IsJoined, IsRefused, creg_register-IsJoined}
use cse_320_repository.Chat.Protocol.{moved, write_loop, proto_send_packet, proto_recv_packet}
use cse_320_repository.Chat.Protocol.RoundTrip.{send_recv, write_loop-restarts}
use cse_320_repository.Chat.Mailbox.Count.{IsCounted}
use cse_320_repository.Chat.Mailbox.Reach.{
  Reachable, start, later, inits, notices, Reachable-IsCounted,
}
use cse_320_repository.Chat.Mailbox.Queue.{
  open_mailbox, IsHeld, noted, IsTaken, mb_next_entry-IsTaken,
}

abbrev bob : Handle
bob = 98 ∷ 111 ∷ 98 ∷ []

abbrev no_users : UserRegistry
no_users = record { nodes = []; users = empty_heap }

ureg_register-IsRegistered_example : IsRegistered bob no_users
ureg_register-IsRegistered_example = ureg_register-IsRegistered bob no_users nothing

-- The registry of one user, with the references of the registry and of its client.
abbrev one_user : UserRegistry
one_user = record {
  nodes = listed 0 bob ∷ [];
  users = record { cells = update (λ p. none) 0 (some (user bob 2)); next = 1 };
}

one_user-IsListed : IsListed one_user.users one_user.nodes
unfolding find_user
one_user-IsListed =
    before 0 bob (record { allocated = omega arith; spare = 1; alive = refl }) refl nothing

ureg_unregister-IsUnregistered_example : IsUnregistered bob one_user
ureg_unregister-IsUnregistered_example =
    ureg_unregister-IsUnregistered bob one_user one_user-IsListed

-- The mailbox of bob with one notice.
abbrev no_mailboxes : Mailboxes
no_mailboxes = record { heap = empty_heap; discarded = [] }

abbrev noticed : Mailboxes
noticed = record {
  heap = record {
    cells =
        update
          (update (update (λ p. none) 0 (some (open_mailbox bob none [] 0 1))) 0
            (some (open_mailbox bob none (notice bounce_notice_type 7 ∷ []) 0 1)))
          0 (some (open_mailbox bob none (notice bounce_notice_type 7 ∷ []) 1 1));
    next = 1;
  };
  discarded = [];
}

noticed_runs : mb_add_notice 0 bounce_notice_type 7 (mb_init bob no_mailboxes).1 ≡ some noticed
unfolding mb_add_notice mb_init enqueue post_item modify
noticed_runs = refl

noticed-Reachable : Reachable noticed
noticed-Reachable = later (later start (inits bob)) (notices 0 bounce_notice_type 7 noticed_runs)

Reachable-IsCounted_example : IsCounted noticed
Reachable-IsCounted_example = Reachable-IsCounted noticed-Reachable

noticed-IsHeld :
    (entry : MailboxEntry) (rest : List MailboxEntry)
    → notice bounce_notice_type 7 ∷ [] ≡ entry ∷ rest
    → IsHeld 0 noticed entry
noticed-IsHeld entry rest e =
    let same : notice bounce_notice_type 7 ≡ entry = cc e in
    subst (IsHeld 0 noticed) same (noted bounce_notice_type 7)

mb_next_entry-IsTaken_example : IsTaken 0 bob none 0 1 noticed (notice bounce_notice_type 7 ∷ [])
mb_next_entry-IsTaken_example =
    mb_next_entry-IsTaken 0 bob none 0 1 noticed (notice bounce_notice_type 7 ∷ [])
      (Reachable-IsCounted noticed-Reachable) refl noticed-IsHeld

-- The server before the first client.
abbrev no_clients : Server
no_clients = record {
  clients = empty_heap;
  slots = creg_init;
  registry = no_users;
  mailboxes = no_mailboxes;
}

creg_register-IsJoined_example : IsRefused 5 no_clients ⊎ IsJoined 5 no_clients
unfolding creg_init empty_slots slot_of
creg_register-IsJoined_example = creg_register-IsJoined 5 no_clients refl

-- A packet with a payload of two bytes.
abbrev two_byte_header : List ℕ
two_byte_header = 1 ∷ 0 ∷ 0 ∷ 0 ∷ 0 ∷ 0 ∷ 0 ∷ 2 ∷ 0 ∷ 0 ∷ 0 ∷ 7 ∷ 0 ∷ 0 ∷ 0 ∷ 0 ∷ 0 ∷ 0 ∷ 0 ∷ 0 ∷ []

send_recv_example :
    (proto_send_packet (some two_byte_header) (some (104 ∷ 105 ∷ [])) (moved 20 ∷ moved 2 ∷ [])
      ≡ some (true, [], two_byte_header ++ (104 ∷ 105 ∷ [])))
    × (proto_recv_packet (moved 20 ∷ moved 2 ∷ []) (two_byte_header ++ (104 ∷ 105 ∷ []))
        ≡ some (some (two_byte_header, some (104 ∷ 105 ∷ []))))
send_recv_example = send_recv two_byte_header (104 ∷ 105 ∷ []) 1 [] [] refl refl refl

write_loop-restarts_example :
    write_loop (moved 1 ∷ moved 2 ∷ []) (7 ∷ 8 ∷ 9 ∷ []) (1 + 2) 0 []
    ≡ some (true, [], 7 ∷ 7 ∷ 8 ∷ [])
write_loop-restarts_example = write_loop-restarts 0 1 (7 ∷ 8 ∷ 9 ∷ []) [] []
