-- ===== src/Chat/Mailbox/Count.antt =====
-- The count of `items` and the queue in hw5/src/mailbox.c, over all sequences of calls.
use cse_320_repository.Base.{
  ℕ, zero, suc, ◌+◌, ◌≡◌, refl, sym, inl, inr, ◌==◌, if◌then◌else◌, Bool, true, false, Option, none,
  some, length, ==_refl, ==_ne, subst,
}
use cse_320_repository.Chat.Heap.{write, free, written, freed, ◌>=>◌}
use cse_320_repository.Chat.Mailbox.{Mailbox, Mailboxes, modify, mb_unref, discard}

-- Of the result, if the call ends, `Q` holds.
pub data Within {S : Type 0} (Q : S → Type 0) : Option S → Type 0 where
  faulted : Within Q none
  ended : {t : S} → Q t → Within Q (some t)

pub Within-then :
    {S : Type 0} {P Q : S → Type 0} (f g : S → Option S) (s : S)
    → Within P (f s)
    → ((t : S) → P t → Within Q (g t))
    → Within Q ((f >=> g) s)
Within-then {P = P} {Q = Q} f g s first second = go (f s) first
  where
    go : (o : Option _) → Within P o → Within Q (elim o [ none ↦ none | some t ↦ g t ])
    go none w = faulted
    go (some t) (ended p) = second t p

-- An open mailbox counts its entries, up to a lag.
abbrev pub IsOpenCounted : ℕ → Mailbox → Type 0
IsOpenCounted lag m = m.defuncted ≡ false → m.items + lag ≡ length m.entries

-- All mailboxes do, where the lag is that of the mailbox `mb`.
abbrev pub IsLagging : ℕ → ℕ → Mailboxes → Type 0
IsLagging mb lag s =
    (p : ℕ) (m : Mailbox) → s.heap.cells p ≡ some m → IsOpenCounted (if p == mb then lag else 0) m

abbrev pub IsCounted : Mailboxes → Type 0
IsCounted s = (p : ℕ) (m : Mailbox) → s.heap.cells p ≡ some m → IsOpenCounted 0 m

lag_zero : (b : Bool) → ◌≡◌ {A = ℕ} (if b then 0 else 0) 0
lag_zero true = refl
lag_zero false = refl

pub counted_lags : (mb : ℕ) (s : Mailboxes) → IsCounted s → IsLagging mb 0 s
counted_lags mb s v p m e o = rw (lag_zero (p == mb)) (v p m e o)

pub lag_counts : (mb : ℕ) (s : Mailboxes) → IsLagging mb 0 s → IsCounted s
lag_counts mb s v p m e o = rw (lag_zero (p == mb)) at (v p m e o)

-- A mailbox that a write settles, among the others.
pub write-IsLagging :
    (mb before after : ℕ) (m : Mailbox) (s : Mailboxes)
    → IsOpenCounted after m
    → IsLagging mb before s
    → IsLagging mb after (record s { heap = write mb m s.heap })
write-IsLagging mb before after m s settled v p q there o =
    elim (written s.heap.cells mb p m q there) [
      | inl (same, is) ↦
          let here : (p == mb) ≡ true = rw same (==_refl mb) in
          rw here (subst (λ n. IsOpenCounted after n) is settled o)
      | inr (apart, old) ↦
          let here : (p == mb) ≡ false = ==_ne p mb apart in rw here (rw here at (v p q old o))
    ]

-- A change of one mailbox that settles its lag.
pub modify-IsLagging :
    (mb before after : ℕ) (change : Mailbox → Mailbox) (s : Mailboxes)
    → ((m : Mailbox) → IsOpenCounted before m → IsOpenCounted after (change m))
    → IsLagging mb before s
    → Within (IsLagging mb after) (modify mb change s)
unfolding modify
modify-IsLagging mb before after change s keeps v = go (s.heap.cells mb) refl
  where
    go :
        (o : Option Mailbox)
        → s.heap.cells mb ≡ o
        → Within (IsLagging mb after) (elim o [
          | none ↦ none
          | some m ↦ some (record s { heap = write mb (change m) s.heap })
        ])
    go none e = faulted
    go (some m) e = ended (
        write-IsLagging mb before after (change m) s
          (keeps m (λ o. rw (==_refl mb) at (v mb m e o))) v)

-- A write that keeps the queue and its count keeps the lag of every mailbox.
pub write-same :
    (mb p lag : ℕ) (m n : Mailbox) (s : Mailboxes)
    → s.heap.cells p ≡ some m
    → ((l : ℕ) → IsOpenCounted l m → IsOpenCounted l n)
    → IsLagging mb lag s
    → IsLagging mb lag (record s { heap = write p n s.heap })
write-same mb p lag m n s e keeps v q a there = elim (written s.heap.cells p q n a there) [
  | inl (same, is) ↦
      subst (λ x. IsOpenCounted (if q == mb then lag else 0) x) is
        (keeps _ (subst (λ r. IsOpenCounted (if r == mb then lag else 0) m) (sym same) (v p m e)))
  | inr (apart, old) ↦ v q a old
]

pub unref-IsLagging :
    (mb p lag : ℕ) (s : Mailboxes) → IsLagging mb lag s → Within (IsLagging mb lag) (mb_unref p s)
unfolding mb_unref
unref-IsLagging mb p lag s v = go (s.heap.cells p) refl
  where
    count :
        (m : Mailbox) (c : ℕ)
        → s.heap.cells p ≡ some m
        → Within (IsLagging mb lag) (elim c [
          | zero ↦ none
          | suc zero ↦ some (record {
            heap = free p s.heap;
            discarded = discard m.hook_func m.entries s.discarded;
          })
          | suc (suc n) ↦
              some (record s { heap = write p (record m { reference_count = suc n }) s.heap })
        ])
    count m zero e = faulted
    count m (suc zero) e =
        ended (λ q a there. let (apart, old) = freed s.heap.cells p q a there in v q a old)
    count m (suc (suc n)) e =
        ended (write-same mb p lag m (record m { reference_count = suc n }) s e (λ l o. o) v)

    go :
        (o : Option Mailbox)
        → s.heap.cells p ≡ o
        → Within (IsLagging mb lag) (elim o [
          | none ↦ none
          | some m ↦ elim m.reference_count [
            | zero ↦ none
            | suc zero ↦ some (record {
              heap = free p s.heap;
              discarded = discard m.hook_func m.entries s.discarded;
            })
            | suc (suc n) ↦
                some (record s { heap = write p (record m { reference_count = suc n }) s.heap })
          ]
        ])
    go none e = faulted
    go (some m) e = count m m.reference_count e

pub modify-same :
    (mb p lag : ℕ) (change : Mailbox → Mailbox) (s : Mailboxes)
    → ((l : ℕ) (m : Mailbox) → IsOpenCounted l m → IsOpenCounted l (change m))
    → IsLagging mb lag s
    → Within (IsLagging mb lag) (modify p change s)
unfolding modify
modify-same mb p lag change s keeps v = go (s.heap.cells p) refl
  where
    go :
        (o : Option Mailbox)
        → s.heap.cells p ≡ o
        → Within
            (IsLagging mb lag)
            (elim o [ none ↦ none | some m ↦ some (record s { heap = write p (change m) s.heap }) ])
    go none e = faulted
    go (some m) e = ended (write-same mb p lag m (change m) s e (λ l. keeps l m) v)
