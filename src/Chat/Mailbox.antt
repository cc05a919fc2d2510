-- ===== src/Chat/Mailbox.antt =====
-- Mailboxes: hw5/src/mailbox.c. The linked queue is the list of its entries from `head` to `tail`; the
-- semaphore `items` is its count. A call under a mutex is one step. A result `none` is a fault (a freed
-- mailbox, an empty queue) or, in `mb_next_entry` on a count of 0, a call that waits.
pub mod Count
pub mod Calls
pub mod Reach
pub mod Queue
use cse_320_repository.Base.{
  ℕ, zero, suc, ◌+◌, ◌==◌, if◌then◌else◌, Bool, true, false, Option, none, some, List, [], ◌∷◌,
  ◌++◌,
}
use cse_320_repository.Chat.Heap.{Heap, malloc, write, free, Handle, ◌>=>◌}

pub data NoticeType : Type 0 where
  no_notice_type : NoticeType
  bounce_notice_type : NoticeType
  rrcpt_notice_type : NoticeType

-- The tag and the union of MAILBOX_ENTRY.
pub data MailboxEntry : Type 0 where
  message : (msgid from : ℕ) → (body : List ℕ) → (length : ℕ) → MailboxEntry
  notice : (kind : NoticeType) → (msgid : ℕ) → MailboxEntry

pub record Mailbox : Type 0 where
  pub handle : Handle
  pub hook_func : Option ℕ
  pub entries : List MailboxEntry
  pub items : ℕ
  pub reference_count : ℕ
  pub defuncted : Bool

-- The mailboxes, and the calls of discard hooks, the latest first.
pub record Mailboxes : Type 0 where
  pub heap : Heap Mailbox
  pub discarded : List (ℕ × MailboxEntry)

abbrev pub new_mailbox : Handle → Mailbox
new_mailbox handle = record {
  handle = handle;
  hook_func = none;
  entries = [];
  items = 0;
  reference_count = 1;
  defuncted = false;
}

unfoldable pub mb_init : Handle → Mailboxes → ℕ × Mailboxes
mb_init handle s = (s.heap.next, record s { heap = (malloc (new_mailbox handle) s.heap).1 })

-- A write to the fields of a mailbox.
unfoldable pub modify : ℕ → (Mailbox → Mailbox) → Mailboxes → Option Mailboxes
modify mb change s = elim (s.heap.cells mb) [
  | none ↦ none
  | some m ↦ some (record s { heap = write mb (change m) s.heap })
]

unfoldable pub mb_set_discard_hook : ℕ → Option ℕ → Mailboxes → Option Mailboxes
mb_set_discard_hook mb hook = modify mb (λ m. record m { hook_func = hook })

unfoldable pub mb_ref : ℕ → Mailboxes → Option Mailboxes
mb_ref mb = modify mb (λ m. record m { reference_count = m.reference_count + 1 })

-- The hook is called on each message that is freed with the queue.
unfoldable pub discard :
    Option ℕ → List MailboxEntry → List (ℕ × MailboxEntry) → List (ℕ × MailboxEntry)
discard none es calls = calls
discard (some hook) [] calls = calls
discard (some hook) (message i from body n ∷ es) calls =
    discard (some hook) es ((hook, message i from body n) ∷ calls)
discard (some hook) (notice kind i ∷ es) calls = discard (some hook) es calls

unfoldable pub mb_unref : ℕ → Mailboxes → Option Mailboxes
mb_unref mb s = elim (s.heap.cells mb) [
  | none ↦ none
  | some m ↦ elim m.reference_count [
    | zero ↦ none
    | suc zero ↦
        some
          (record { heap = free mb s.heap; discarded = discard m.hook_func m.entries s.discarded })
    | suc (suc n) ↦
        some (record s { heap = write mb (record m { reference_count = suc n }) s.heap })
  ]
]

unfoldable pub mb_shutdown : ℕ → Mailboxes → Option Mailboxes
mb_shutdown mb = modify mb (λ m. record m { defuncted = true; items = m.items + 1 })

unfoldable pub mb_get_handle : ℕ → Mailboxes → Option Handle
mb_get_handle mb s = elim (s.heap.cells mb) [ none ↦ none | some m ↦ some m.handle ]

-- The new node goes behind the tail.
unfoldable pub enqueue : ℕ → MailboxEntry → Mailboxes → Option Mailboxes
enqueue mb entry = modify mb (λ m. record m { entries = m.entries ++ (entry ∷ []) })

unfoldable pub post_item : ℕ → Mailboxes → Option Mailboxes
post_item mb = modify mb (λ m. record m { items = m.items + 1 })

unfoldable pub mb_add_message :
    (mb msgid from : ℕ) (body : List ℕ) (length : ℕ) → Mailboxes → Option Mailboxes
mb_add_message mb msgid from body length =
    enqueue mb (message msgid from body length)
    >=> (if mb == from then some else mb_ref from)
    >=> post_item mb

unfoldable pub mb_add_notice : (mb : ℕ) → NoticeType → (msgid : ℕ) → Mailboxes → Option Mailboxes
mb_add_notice mb ntype msgid = enqueue mb (notice ntype msgid) >=> post_item mb

-- A message from another mailbox holds a reference to it until it is received.
unfoldable pub release_sender : ℕ → MailboxEntry → Mailboxes → Option Mailboxes
release_sender mb (message msgid from body length) = if mb == from then some else mb_unref from
release_sender mb (notice ntype msgid) = some

-- `mb->head = mb->head->next`, or both ends NULL after the only entry.
abbrev pub drop_head : List MailboxEntry → List MailboxEntry
drop_head [] = []
drop_head (e ∷ es) = es

unfoldable pub dequeue : ℕ → Mailboxes → Option Mailboxes
dequeue mb = modify mb (λ m. record m { entries = drop_head m.entries })

-- The entry at the head, after the wait for an item; `none` within the result is the NULL of a
-- mailbox that is defunct.
unfoldable pub mb_next_entry : ℕ → Mailboxes → Option (Option MailboxEntry × Mailboxes)
mb_next_entry mb s = elim (s.heap.cells mb) [
  | none ↦ none
  | some m ↦ elim m.items [
    | zero ↦ none
    | suc n ↦ elim m.defuncted [
      | true ↦ some (none, record s { heap = write mb (record m { items = n }) s.heap })
      | false ↦ elim m.entries [
        | [] ↦ none
        | e ∷ es ↦
            elim ((release_sender mb e >=> dequeue mb)
              (record s { heap = write mb (record m { items = n }) s.heap })) [
                | none ↦ none
                | some t ↦ some (some e, t)
              ]
      ]
    ]
  ]
]
