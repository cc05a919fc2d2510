-- ===== src/Chat/Mailbox/Queue.antt =====
-- The entry that `mb_next_entry` of hw5/src/mailbox.c takes.
use cse_320_repository.Base.{
  ℕ, zero, suc, ◌≡◌, ◌≢◌, refl, sym, ◌∙◌, ==_refl, ==_ne, false, Option, none, some, List, [], ◌∷◌,
  arith, update_self, update_ne,
}
use cse_320_repository.Chat.Heap.{write, free, Handle}
use cse_320_repository.Chat.Mailbox.{
  NoticeType, MailboxEntry, message, notice, Mailbox, Mailboxes, mb_unref, modify, discard,
  release_sender, dequeue, mb_next_entry,
}
use cse_320_repository.Chat.Mailbox.Count.{IsCounted}

-- The sender of a message from another mailbox is still there, with a reference.
pub data IsHeld (mb : ℕ) (s : Mailboxes) : MailboxEntry → Type 0 where
  noted : (ntype : NoticeType) (msgid : ℕ) → IsHeld mb s (notice ntype msgid)
  own : (msgid : ℕ) (body : List ℕ) (n : ℕ) → IsHeld mb s (message msgid mb body n)
  held :
      (msgid from : ℕ) (body : List ℕ) (n : ℕ) (sender : Mailbox) (count : ℕ)
      → mb ≢ from
      → s.heap.cells from ≡ some sender
      → sender.reference_count ≡ suc count
      → IsHeld mb s (message msgid from body n)

abbrev pub open_mailbox : Handle → Option ℕ → List MailboxEntry → ℕ → ℕ → Mailbox
open_mailbox handle hook entries items count = record {
  handle = handle;
  hook_func = hook;
  entries = entries;
  items = items;
  reference_count = count;
  defuncted = false;
}

-- A run that ends and keeps the mailbox `mb`.
record IsKeeping (mb : ℕ) (m : Mailbox) (run : Option Mailboxes) : Type 0 where
  after : Mailboxes
  ran : run ≡ some after
  kept : after.heap.cells mb ≡ some m

unref-IsKeeping :
    (mb p count : ℕ) (m sender : Mailbox) (s : Mailboxes)
    → mb ≢ p
    → s.heap.cells p ≡ some sender
    → sender.reference_count ≡ suc count
    → s.heap.cells mb ≡ some m
    → IsKeeping mb m (mb_unref p s)
unfolding mb_unref
unref-IsKeeping mb p zero m sender s apart there e kept = record {
  after = record {
    heap = free p s.heap;
    discarded = discard sender.hook_func sender.entries s.discarded;
  };
  ran = rw (mb_unref, there, e) refl;
  kept = update_ne s.heap.cells p mb none apart ∙ kept;
}
unref-IsKeeping mb p (suc count) m sender s apart there e kept = record {
  after = record s { heap = write p (record sender { reference_count = suc count }) s.heap };
  ran = rw (mb_unref, there, e) refl;
  kept = update_ne s.heap.cells p mb _ apart ∙ kept;
}

release-IsKeeping :
    (mb : ℕ) (m : Mailbox) (entry : MailboxEntry) (s : Mailboxes)
    → IsHeld mb s entry
    → s.heap.cells mb ≡ some m
    → IsKeeping mb m (release_sender mb entry s)
unfolding release_sender
release-IsKeeping mb m _ s (noted ntype msgid) kept = record { after = s; ran = refl; kept = kept }
release-IsKeeping mb m _ s (own msgid body n) kept = record {
  after = s;
  ran = rw (==_refl mb) refl;
  kept = kept;
}
release-IsKeeping mb m _ s (held msgid from body n sender count apart there e) kept =
    let r = unref-IsKeeping mb from count m sender s apart there e kept in
    record { after = r.after; ran = rw (==_ne mb from apart) r.ran; kept = r.kept }

-- A wait for an item of `mb` changes no other mailbox.
still-IsHeld :
    (mb : ℕ) (m : Mailbox) (entry : MailboxEntry) (s : Mailboxes)
    → IsHeld mb s entry
    → IsHeld mb (record s { heap = write mb m s.heap }) entry
still-IsHeld mb m _ s (noted ntype msgid) = noted ntype msgid
still-IsHeld mb m _ s (own msgid body n) = own msgid body n
still-IsHeld mb m _ s (held msgid from body n sender count apart there e) =
    held msgid from body n sender count apart
      (update_ne s.heap.cells mb from _ (λ same. apart (sym same)) ∙ there) e

module _ (mb : ℕ) (handle : Handle) (hook : Option ℕ) (n count : ℕ) (s : Mailboxes) where
  -- The first entry is returned; the mailbox keeps the others, and one item less.
  pub record IsTaken (entries : List MailboxEntry) : Type 0 where
    pub entry : MailboxEntry
    pub rest : List MailboxEntry
    pub after : Mailboxes
    pub first : entries ≡ entry ∷ rest
    pub ran : mb_next_entry mb s ≡ some (some entry, after)
    pub left : after.heap.cells mb ≡ some (open_mailbox handle hook rest n count)

  take :
      (entry : MailboxEntry) (rest : List MailboxEntry)
      → s.heap.cells mb ≡ some (open_mailbox handle hook (entry ∷ rest) (suc n) count)
      → IsKeeping mb (open_mailbox handle hook (entry ∷ rest) n count) (
          release_sender mb entry
            (record s { heap = write mb (open_mailbox handle hook (entry ∷ rest) n count) s.heap }))
      → IsTaken (entry ∷ rest)
  unfolding mb_next_entry dequeue modify
  take entry rest there r = record {
    entry = entry;
    rest = rest;
    after = record (r.after) {
      heap = write mb (open_mailbox handle hook rest n count) (r.after).heap;
    };
    first = refl;
    ran = rw (mb_next_entry, there, r.ran, r.kept) refl;
    left = update_self (r.after).heap.cells mb _;
  }

  -- In a state that counts its items, `mb_next_entry` on an open mailbox with an item ends and takes
  -- the first entry of the queue, if the sender of a message at the head is the mailbox itself or
  -- still has a reference.
  pub mb_next_entry-IsTaken :
      (entries : List MailboxEntry)
      → IsCounted s
      → s.heap.cells mb ≡ some (open_mailbox handle hook entries (suc n) count)
      → ((entry : MailboxEntry) (rest : List MailboxEntry)
          → entries ≡ entry ∷ rest
          → IsHeld mb s entry)
      → IsTaken entries
  mb_next_entry-IsTaken [] v there senders = absurd (omega (arith, v mb _ there refl))
  mb_next_entry-IsTaken (entry ∷ rest) v there senders = take entry rest there (
      release-IsKeeping mb _ entry _ (still-IsHeld mb _ entry s (senders entry rest refl))
        (update_self s.heap.cells mb _))
