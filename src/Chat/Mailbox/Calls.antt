-- ===== src/Chat/Mailbox/Calls.antt =====
-- The calls of hw5/src/mailbox.c keep the count of `items` and the queue in step.
use cse_320_repository.Base.{
  ℕ, ◌+◌, ◌≡◌, refl, inl, inr, ◌==◌, if◌then◌else◌, Bool, true, false, Option, none, some, List, [],
  ◌∷◌, arith, length, length-append, subst,
}
use cse_320_repository.Chat.Heap.{written, Handle, ◌>=>◌}
use cse_320_repository.Chat.Mailbox.{
  NoticeType, MailboxEntry, message, notice, Mailboxes, mb_init, mb_ref, mb_unref, enqueue,
  post_item, mb_add_message, mb_add_notice, new_mailbox, drop_head, release_sender, dequeue,
}
use cse_320_repository.Chat.Mailbox.Count.{
  Within, Within-then, IsOpenCounted, IsLagging, IsCounted, counted_lags, lag_counts,
  modify-IsLagging, unref-IsLagging, modify-same, faulted, ended,
}

pub mb_init-IsCounted :
    (handle : Handle) (s : Mailboxes) → IsCounted s → IsCounted (mb_init handle s).1
unfolding mb_init
mb_init-IsCounted handle s v q a there =
    elim (written s.heap.cells s.heap.next q (new_mailbox handle) a there) [
      | inl (same, is) ↦ subst (λ x. IsOpenCounted 0 x) is (λ o. refl)
      | inr (apart, old) ↦ v q a old
    ]

enqueue-IsLagging :
    (mb : ℕ) (entry : MailboxEntry) (s : Mailboxes)
    → IsLagging mb 0 s
    → Within (IsLagging mb 1) (enqueue mb entry s)
unfolding enqueue
enqueue-IsLagging mb entry s v =
    modify-IsLagging mb 0 1 _ s
      (λ m settled o. omega (arith, settled o, length-append m.entries (entry ∷ []))) v

post_item-IsLagging :
    (mb : ℕ) (s : Mailboxes) → IsLagging mb 1 s → Within (IsLagging mb 0) (post_item mb s)
unfolding post_item
post_item-IsLagging mb s v = modify-IsLagging mb 1 0 _ s (λ m settled o. omega (arith, settled o)) v

pub mb_ref-IsLagging :
    (mb p lag : ℕ) (s : Mailboxes) → IsLagging mb lag s → Within (IsLagging mb lag) (mb_ref p s)
unfolding mb_ref
mb_ref-IsLagging mb p lag s v = modify-same mb p lag _ s (λ l m settled. settled) v

drop_head-length :
    (n : ℕ) (es : List MailboxEntry) → n + 1 ≡ length es → n + 0 ≡ length (drop_head es)
drop_head-length n [] h = absurd (omega arith)
drop_head-length n (e ∷ es) h = omega (arith, h)

pub dequeue-IsLagging :
    (mb : ℕ) (s : Mailboxes) → IsLagging mb 1 s → Within (IsLagging mb 0) (dequeue mb s)
unfolding dequeue
dequeue-IsLagging mb s v =
    modify-IsLagging mb 1 0 _ s (λ m settled o. drop_head-length m.items m.entries (settled o)) v

unless_same :
    (b : Bool) (mb lag : ℕ) (f : Mailboxes → Option Mailboxes) (s : Mailboxes)
    → IsLagging mb lag s
    → Within (IsLagging mb lag) (f s)
    → Within (IsLagging mb lag) ((if b then some else f) s)
unless_same true mb lag f s v w = ended v
unless_same false mb lag f s v w = w

pub settled-Within :
    (mb : ℕ) (o : Option Mailboxes) → Within (IsLagging mb 0) o → Within IsCounted o
settled-Within mb none w = faulted
settled-Within mb (some t) (ended v) = ended (lag_counts mb t v)

pub mb_add_message-IsCounted :
    (mb msgid from : ℕ) (body : List ℕ) (n : ℕ) (s : Mailboxes)
    → IsCounted s
    → Within IsCounted (mb_add_message mb msgid from body n s)
unfolding mb_add_message
mb_add_message-IsCounted mb msgid from body n s v = settled-Within mb _ (
    Within-then
      (enqueue mb (message msgid from body n) >=> (if mb == from then some else mb_ref from))
      (post_item mb) s
      (Within-then (enqueue mb (message msgid from body n))
        (if mb == from then some else mb_ref from) s
        (enqueue-IsLagging mb _ s (counted_lags mb s v))
        (λ t w. unless_same (mb == from) mb 1 (mb_ref from) t w (mb_ref-IsLagging mb from 1 t w)))
      (post_item-IsLagging mb))

pub mb_add_notice-IsCounted :
    (mb : ℕ) (ntype : NoticeType) (msgid : ℕ) (s : Mailboxes)
    → IsCounted s
    → Within IsCounted (mb_add_notice mb ntype msgid s)
unfolding mb_add_notice
mb_add_notice-IsCounted mb ntype msgid s v = settled-Within mb _ (
    Within-then (enqueue mb (notice ntype msgid)) (post_item mb) s
      (enqueue-IsLagging mb _ s (counted_lags mb s v)) (post_item-IsLagging mb))

pub release_sender-IsLagging :
    (mb lag : ℕ) (e : MailboxEntry) (s : Mailboxes)
    → IsLagging mb lag s
    → Within (IsLagging mb lag) (release_sender mb e s)
unfolding release_sender
release_sender-IsLagging mb lag (message msgid from body n) s v =
    unless_same (mb == from) mb lag (mb_unref from) s v (unref-IsLagging mb from lag s v)
release_sender-IsLagging mb lag (notice ntype msgid) s v = ended v

-- The lag of 0 at one mailbox is that of all.
pub IsCounted-at :
    (mb : ℕ) (f : Mailboxes → Option Mailboxes) (s : Mailboxes)
    → (IsLagging mb 0 s → Within (IsLagging mb 0) (f s))
    → IsCounted s
    → Within IsCounted (f s)
IsCounted-at mb f s keeps v = settled-Within mb (f s) (keeps (counted_lags mb s v))
