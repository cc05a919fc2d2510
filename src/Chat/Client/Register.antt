-- ===== src/Chat/Client/Register.antt =====
-- `creg_register` and `creg_unregister` of hw5/src/client_registry.c.
use cse_320_repository.Base.{
  ℕ, suc, ◌≡◌, ◌≢◌, ◌<◌, ◌⊎◌, refl, inl, inr, true, Option, none, some, length, Option-cases,
  update, update_self,
}
use cse_320_repository.Chat.Client.{
  Client, Server, new_client, client_create, client_ref, client_unref, free_slot, set_slot, slot_of,
  connected, creg_register, creg_unregister,
}
use cse_320_repository.Chat.Client.Slots.{
  cell_at, free_slot-empty, free_slot-first, set_slot-at, set_slot-other, free_slot-full,
  set_slot-length, connected-set_slot, set_slot-back, slot_of-set_slot,
}

abbrev client_of : ℕ → ℕ → Client
client_of fd count = record (new_client fd) { reference_count = count }

-- A new client with two references in the first empty cell, the others as they were. To unregister it at once gives the array
-- back, and leaves the client with the reference of the caller.
pub record IsJoined (fd : ℕ) (s : Server) : Type 0 where
  pub client : ℕ
  pub cell : ℕ
  pub after : Server
  pub was_empty : cell_at s.slots cell ≡ some none
  pub taken_before : (j : ℕ) → j < cell → cell_at s.slots j ≢ some none
  pub holds : cell_at after.slots cell ≡ some (some client)
  pub other_cells : (j : ℕ) → j ≢ cell → cell_at after.slots j ≡ cell_at s.slots j
  pub ran : creg_register fd s ≡ some (some client, after)
  pub references : after.clients.cells client ≡ some (client_of fd 2)
  pub same_length : length after.slots ≡ length s.slots
  pub one_more : length (connected after.slots) ≡ suc (length (connected s.slots))
  pub undone : Server
  pub unregistered : creg_unregister client after ≡ some (true, undone)
  pub same_slots : undone.slots ≡ s.slots
  pub left : undone.clients.cells client ≡ some (client_of fd 1)

-- All cells are taken; NULL is returned and nothing changes.
pub record IsRefused (fd : ℕ) (s : Server) : Type 0 where
  pub full : length (connected s.slots) ≡ length s.slots
  pub ran : creg_register fd s ≡ some (none, s)

join :
    (fd i : ℕ) (s : Server)
    → free_slot s.slots ≡ some i
    → slot_of s.clients.next s.slots ≡ none
    → IsJoined fd s
unfolding creg_register client_create client_ref creg_unregister client_unref
join fd i s e fresh = record {
  client = s.clients.next;
  cell = i;
  after = joined;
  was_empty = free_slot-empty s.slots i e;
  taken_before = free_slot-first s.slots i e;
  holds = set_slot-at i (some s.clients.next) none s.slots (free_slot-empty s.slots i e);
  other_cells = λ j other. set_slot-other i j (some s.clients.next) s.slots other;
  ran = rw (creg_register, e, client_create, client_ref, created) refl;
  references = update_self first s.clients.next _;
  same_length = set_slot-length i (some s.clients.next) s.slots;
  one_more = connected-set_slot s.clients.next s.slots i e;
  undone = parted;
  unregistered =
      rw (creg_unregister, slot_of-set_slot s.clients.next s.slots i e fresh, client_unref, kept)
        refl;
  same_slots = set_slot-back s.clients.next s.slots i e;
  left = update_self second s.clients.next _;
}
  where
    first : ℕ → Option Client
    first = update s.clients.cells s.clients.next (some (new_client fd))

    created : first s.clients.next ≡ some (new_client fd)
    created = update_self s.clients.cells s.clients.next _

    second : ℕ → Option Client
    second = update first s.clients.next (some (client_of fd 2))

    kept : second s.clients.next ≡ some (client_of fd 2)
    kept = update_self first s.clients.next _

    joined : Server
    joined = record s {
      clients = record { cells = second; next = suc s.clients.next };
      slots = set_slot i (some s.clients.next) s.slots;
    }

    parted : Server
    parted = record s {
      clients = record {
        cells = update second s.clients.next (some (client_of fd 1));
        next = suc s.clients.next;
      };
      slots = set_slot i none (set_slot i (some s.clients.next) s.slots);
    }

-- Where no cell of the array holds the address that malloc gives next, creg_register refuses and
-- changes nothing if all cells are taken; else it ends with a new client of two references in the
-- first empty cell, the other cells as they were, and creg_unregister of that client at once gives
-- the array back and leaves it one reference.
pub creg_register-IsJoined :
    (fd : ℕ) (s : Server) → slot_of s.clients.next s.slots ≡ none → IsRefused fd s ⊎ IsJoined fd s
unfolding creg_register
creg_register-IsJoined fd s fresh = elim (Option-cases (free_slot s.slots)) [
  | inl full ↦
      inl (record { full = free_slot-full s.slots full; ran = rw (creg_register, full) refl })
  | inr (i, e) ↦ inr (join fd i s e fresh)
]
