-- ===== src/Chat/Mailbox/Reach.antt =====
-- The states of the mailboxes of hw5/src/mailbox.c that sequences of calls lead to.
use cse_320_repository.Base.{
  ℕ, zero, suc, ◌+◌, ◌≡◌, refl, none_ne_some, some-injective, Bool, true, false, Option, none, some,
  List, [], ◌∷◌, arith, subst,
}
use cse_320_repository.Chat.Heap.{empty_heap, write, Handle, ◌>=>◌}
use cse_320_repository.Chat.Mailbox.{
  NoticeType, MailboxEntry, Mailbox, Mailboxes, mb_init, mb_set_discard_hook, mb_ref, mb_unref,
  mb_shutdown, mb_add_message, mb_add_notice, release_sender, dequeue, mb_next_entry,
}
use cse_320_repository.Chat.Mailbox.Count.{
  Within, faulted, ended, Within-then, IsOpenCounted, IsLagging, IsCounted, counted_lags,
  lag_counts, write-IsLagging, modify-IsLagging, modify-same, unref-IsLagging,
}
use cse_320_repository.Chat.Mailbox.Calls.{
  IsCounted-at, settled-Within, mb_ref-IsLagging, mb_init-IsCounted, mb_add_message-IsCounted,
  mb_add_notice-IsCounted, release_sender-IsLagging, dequeue-IsLagging,
}

Within-pair :
    {E S : Type 0} {P : S → Type 0} (x : E) (o : Option S)
    → Within P o
    → Within (λ (r : E × S). P r.1) (elim o [ none ↦ none | some t ↦ some (x, t) ])
Within-pair x none w = faulted
Within-pair x (some t) (ended p) = ended p

closed_settles : (l : ℕ) (m : Mailbox) → m.defuncted ≡ true → IsOpenCounted l m
closed_settles l m closed o = absurd (cc)

module _ (mb : ℕ) (s : Mailboxes) (v : IsCounted s) where
  abbrev Received : Option (Option MailboxEntry × Mailboxes) → Type 0
  Received = Within (λ r. IsCounted r.1)

  abbrev after_wait : (m : Mailbox) (n : ℕ) → Mailboxes
  after_wait m n = record s { heap = write mb (record m { items = n }) s.heap }

  from_queue :
      (m : Mailbox) (n : ℕ) (es : List MailboxEntry)
      → IsLagging mb 1 (after_wait m n)
      → Received (elim es [
        | [] ↦ none
        | e ∷ es ↦ elim ((release_sender mb e >=> dequeue mb) (after_wait m n)) [
          | none ↦ none
          | some t ↦ some (some e, t)
        ]
      ])
  from_queue m n [] w = faulted
  from_queue m n (e ∷ es) w = Within-pair (some e) _ (
      settled-Within mb _ (
        Within-then (release_sender mb e) (dequeue mb) (after_wait m n)
          (release_sender-IsLagging mb 1 e (after_wait m n) w) (dequeue-IsLagging mb)))

  unless_defunct :
      (m : Mailbox) (n : ℕ) (d : Bool)
      → s.heap.cells mb ≡ some m
      → m.items ≡ suc n
      → m.defuncted ≡ d
      → Received (elim d [
        | true ↦ some (none, after_wait m n)
        | false ↦ elim m.entries [
          | [] ↦ none
          | e ∷ es ↦ elim ((release_sender mb e >=> dequeue mb) (after_wait m n)) [
            | none ↦ none
            | some t ↦ some (some e, t)
          ]
        ]
      ])
  unless_defunct m n true e count closed = ended (
      lag_counts mb (after_wait m n) (
        write-IsLagging mb 0 0 (record m { items = n }) s (λ o. absurd (cc)) (counted_lags mb s v)))
  unless_defunct m n false e count open_ = from_queue m n m.entries (
      write-IsLagging mb 0 1 (record m { items = n }) s (λ o. omega (arith, v mb m e o, count))
        (counted_lags mb s v))

  once_posted :
      (m : Mailbox) (c : ℕ)
      → s.heap.cells mb ≡ some m
      → m.items ≡ c
      → Received (elim c [
        | zero ↦ none
        | suc n ↦ elim m.defuncted [
          | true ↦ some (none, after_wait m n)
          | false ↦ elim m.entries [
            | [] ↦ none
            | e ∷ es ↦ elim ((release_sender mb e >=> dequeue mb) (after_wait m n)) [
              | none ↦ none
              | some t ↦ some (some e, t)
            ]
          ]
        ]
      ])
  once_posted m zero e count = faulted
  once_posted m (suc n) e count = unless_defunct m n m.defuncted e count refl

  pub mb_next_entry-IsCounted : Received (mb_next_entry mb s)
  unfolding mb_next_entry
  mb_next_entry-IsCounted = alive (s.heap.cells mb) refl
    where
      alive :
          (o : Option Mailbox)
          → s.heap.cells mb ≡ o
          → Received (elim o [
            | none ↦ none
            | some m ↦ elim m.items [
              | zero ↦ none
              | suc n ↦ elim m.defuncted [
                | true ↦ some (none, after_wait m n)
                | false ↦ elim m.entries [
                  | [] ↦ none
                  | e ∷ es ↦ elim ((release_sender mb e >=> dequeue mb) (after_wait m n)) [
                    | none ↦ none
                    | some t ↦ some (some e, t)
                  ]
                ]
              ]
            ]
          ])
      alive none e = faulted
      alive (some m) e = once_posted m m.items e refl

-- The calls on mailboxes, in any order and from any thread.
pub data Step (s : Mailboxes) : Mailboxes → Type 0 where
  inits : (handle : Handle) → Step s (mb_init handle s).1
  hooks :
      {t : Mailboxes} (mb : ℕ) (hook : Option ℕ) → mb_set_discard_hook mb hook s ≡ some t → Step s t
  refs : {t : Mailboxes} (mb : ℕ) → mb_ref mb s ≡ some t → Step s t
  unrefs : {t : Mailboxes} (mb : ℕ) → mb_unref mb s ≡ some t → Step s t
  shutdowns : {t : Mailboxes} (mb : ℕ) → mb_shutdown mb s ≡ some t → Step s t
  messages :
      {t : Mailboxes} (mb msgid from : ℕ) (body : List ℕ) (n : ℕ)
      → mb_add_message mb msgid from body n s ≡ some t
      → Step s t
  notices :
      {t : Mailboxes} (mb : ℕ) (ntype : NoticeType) (msgid : ℕ)
      → mb_add_notice mb ntype msgid s ≡ some t
      → Step s t
  receives :
      {t : Mailboxes} (mb : ℕ) (entry : Option MailboxEntry)
      → mb_next_entry mb s ≡ some (entry, t)
      → Step s t

pub data Reachable : Mailboxes → Type 0 where
  start : Reachable (record { heap = empty_heap; discarded = [] })
  later : {s t : Mailboxes} → Reachable s → Step s t → Reachable t

Within-some : {S : Type 0} {P : S → Type 0} (o : Option S) (t : S) → o ≡ some t → Within P o → P t
Within-some {P = P} none t e w = absurd (none_ne_some e)
Within-some {P = P} (some u) t e (ended p) = subst P (some-injective u t e) p

Step-IsCounted : {s t : Mailboxes} → IsCounted s → Step s t → IsCounted t
unfolding mb_set_discard_hook mb_shutdown
Step-IsCounted {s} v (inits handle) = mb_init-IsCounted handle s v
Step-IsCounted {s} {t} v (hooks mb hook e) = Within-some _ t e (
    IsCounted-at mb (mb_set_discard_hook mb hook) s
      (modify-same mb mb 0 (λ m. record m { hook_func = hook }) s (λ l m settled. settled)) v)
Step-IsCounted {s} {t} v (refs mb e) =
    Within-some _ t e (IsCounted-at mb (mb_ref mb) s (mb_ref-IsLagging mb mb 0 s) v)
Step-IsCounted {s} {t} v (unrefs mb e) =
    Within-some _ t e (IsCounted-at mb (mb_unref mb) s (unref-IsLagging mb mb 0 s) v)
Step-IsCounted {s} {t} v (shutdowns mb e) = Within-some _ t e (
    IsCounted-at mb (mb_shutdown mb) s
      (modify-IsLagging mb 0 0 (λ m. record m { defuncted = true; items = m.items + 1 }) s
        (λ m settled. closed_settles 0 (record m { defuncted = true; items = m.items + 1 }) refl))
      v)
Step-IsCounted {s} {t} v (messages mb msgid from body n e) =
    Within-some _ t e (mb_add_message-IsCounted mb msgid from body n s v)
Step-IsCounted {s} {t} v (notices mb ntype msgid e) =
    Within-some _ t e (mb_add_notice-IsCounted mb ntype msgid s v)
Step-IsCounted {s} {t} v (receives mb entry e) =
    Within-some _ (entry, t) e (mb_next_entry-IsCounted mb s v)

-- After any sequence of calls on mailboxes, each mailbox that is not defunct has as many items in its
-- semaphore as entries in its queue.
pub Reachable-IsCounted : {s : Mailboxes} → Reachable s → IsCounted s
Reachable-IsCounted start = λ p m e. absurd (none_ne_some e)
Reachable-IsCounted (later r step) = Step-IsCounted (Reachable-IsCounted r) step
