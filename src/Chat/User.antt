-- ===== src/Chat/User.antt =====
-- Reference-counted users: hw5/src/user.c. Memory and semaphores are always to be had.
use cse_320_repository.Base.{ℕ, zero, suc, ◌+◌, Option, none, some}
use cse_320_repository.Chat.Heap.{Heap, malloc, write, free, Handle}

pub record User : Type 0 where
  pub handle : Handle
  pub reference_count : ℕ

abbrev pub Users : Type 0
Users = Heap User

unfoldable pub user_create : Handle → Users → ℕ × Users
user_create handle = malloc (record { handle = handle; reference_count = 1 })

unfoldable pub user_ref : ℕ → Users → Option Users
user_ref p h = elim (h.cells p) [
  | none ↦ none
  | some u ↦ some (write p (record u { reference_count = u.reference_count + 1 }) h)
]

-- The count after a decrement: the user is freed at 0. A count of 0 before it is a fault.
unfoldable pub user_unref : ℕ → Users → Option Users
user_unref p h = elim (h.cells p) [
  | none ↦ none
  | some u ↦ elim u.reference_count [
    | zero ↦ none
    | suc zero ↦ some (free p h)
    | suc (suc n) ↦ some (write p (record u { reference_count = suc n }) h)
  ]
]

unfoldable pub user_get_handle : ℕ → Users → Option Handle
user_get_handle p h = elim (h.cells p) [ none ↦ none | some u ↦ some u.handle ]
