-- ===== src/Chat/Service/Held.antt =====
-- References to the clients of a list, taken and given back: hw5/src/client_registry.c.
use cse_320_repository.Base.{
  ℕ, suc, ◌+◌, ◌==◌, if◌then◌else◌, false, Option, none, some, List, [], ◌∷◌, ◌++◌, ◌≡◌, inl, inr,
  subst, ==_iff, ==_refl, update_self, refl, sym, ap, ◌∙◌, arith, Bool-cases, update,
}
use cse_320_repository.Chat.Heap.{write}
use cse_320_repository.Chat.Client.{Client, Server, client_ref, client_unref, ref_all}

-- How often a client is in a list.
abbrev pub times : ℕ → List ℕ → ℕ
times q [] = 0
times q (c ∷ cs) = if q == c then suc (times q cs) else times q cs

abbrev pub with_references : ℕ → Option Client → Option Client
with_references n none = none
with_references n (some client) =
    some (record client { reference_count = n + client.reference_count })

-- A server that differs by more references to the clients of a list.
pub record IsHeld (cs : List ℕ) (s t : Server) : Type 0 where
  pub cells : (q : ℕ) → t.clients.cells q ≡ with_references (times q cs) (s.clients.cells q)
  pub slots : t.slots ≡ s.slots
  pub registry : t.registry ≡ s.registry
  pub mailboxes : t.mailboxes ≡ s.mailboxes

-- A client that exists, with a reference.
pub record IsAlive (c : ℕ) (s : Server) : Type 0 where
  pub client : Client
  pub at : s.clients.cells c ≡ some client
  pub count : ℕ
  pub counted : client.reference_count ≡ suc count

-- The same client with the same count.
as_counted :
    (client : Client) {m n : ℕ}
    → m ≡ n
    → some (record client { reference_count = m }) ≡ some (record client { reference_count = n })
as_counted client e = ap (λ (k : ℕ). some (record client { reference_count = k })) e

with_references-zero : (o : Option Client) → with_references 0 o ≡ o
with_references-zero none = refl
with_references-zero (some client) = as_counted client (omega arith)

pub IsHeld-nothing : (s : Server) → IsHeld [] s s
IsHeld-nothing s = record {
  cells = λ q. sym (with_references-zero (s.clients.cells q));
  slots = refl;
  registry = refl;
  mailboxes = refl;
}

pub IsHeld-released :
    (s t : Server) → IsHeld [] s t → (q : ℕ) → t.clients.cells q ≡ s.clients.cells q
IsHeld-released s t h q = h.cells q ∙ with_references-zero (s.clients.cells q)

-- A reference to a client that is held.
pub held_client :
    (c : ℕ) (cs : List ℕ) (s t : Server) (a : IsAlive c s)
    → IsHeld cs s t
    → t.clients.cells c
      ≡ some (record a.client { reference_count = times c cs + a.client.reference_count })
held_client c cs s t a h = h.cells c ∙ ap (with_references (times c cs)) a.at

-- The count of one client is written.
write-IsHeld :
    (c m : ℕ) (cs ds : List ℕ) (s t : Server) (a : IsAlive c s)
    → IsHeld cs s t
    → m ≡ times c ds + a.client.reference_count
    → ((q : ℕ) → (q == c) ≡ false → times q ds ≡ times q cs)
    → IsHeld ds s
        (record t { clients = write c (record a.client { reference_count = m }) t.clients })
write-IsHeld c m cs ds s t a h e others = record {
  cells = cells;
  slots = h.slots;
  registry = h.registry;
  mailboxes = h.mailboxes;
}
  where
    cells :
        (q : ℕ)
        → update t.clients.cells c (some (record a.client { reference_count = m })) q
          ≡ with_references (times q ds) (s.clients.cells q)
    cells q = elim (Bool-cases (q == c)) [
      | inl same ↦
          let same_q : q ≡ c = (==_iff q c).0 same in
          subst
            (λ x.
              (update t.clients.cells c (some (record a.client { reference_count = m })) x
                ≡ with_references (times x ds) (s.clients.cells x)))
            (sym same_q)
            (update_self t.clients.cells c _
              ∙ as_counted a.client e
              ∙ sym (ap (with_references (times c ds)) a.at))
      | inr apart ↦
          rw apart (
            h.cells q
            ∙ ap (λ (n : ℕ). with_references n (s.clients.cells q)) (sym (others q apart)))
    ]

pub client_ref-IsHeld :
    (c : ℕ) (cs : List ℕ) (s t : Server)
    → IsAlive c s
    → IsHeld cs s t
    → (u : Server) × (client_ref c t ≡ some u) × IsHeld (c ∷ cs) s u
unfolding client_ref
client_ref-IsHeld c cs s t a h = (
  record t {
    clients =
        write c (record a.client { reference_count = times c cs + a.client.reference_count + 1 })
          t.clients;
  },
  rw (client_ref, held_client c cs s t a h) refl,
  write-IsHeld c (times c cs + a.client.reference_count + 1) cs (c ∷ cs) s t a h (ground arith)
      (λ q e. rw e refl),
)

pub client_unref-IsHeld :
    (c : ℕ) (cs : List ℕ) (s t : Server)
    → IsAlive c s
    → IsHeld (c ∷ cs) s t
    → (u : Server) × (client_unref c t ≡ some u) × IsHeld cs s u
unfolding client_unref
client_unref-IsHeld c cs s t a h =
    let held : t.clients.cells c
        ≡ some (record a.client { reference_count = suc (suc (times c cs + a.count)) }) =
      held_client c (c ∷ cs) s t a h ∙ as_counted a.client (counts a) in
    (
      record t {
        clients =
            write c (record a.client { reference_count = suc (times c cs + a.count) }) t.clients;
      },
      rw (client_unref, held) refl,
      write-IsHeld c (suc (times c cs + a.count)) (c ∷ cs) cs s t a h (omega (arith, a.counted))
          (λ q e. rw e refl),
    )
  where
    counts :
        (b : IsAlive c s)
        → times c (c ∷ cs) + b.client.reference_count ≡ suc (suc (times c cs + b.count))
    counts b = rw (==_refl c) (omega (arith, b.counted))

abbrev pub AllAlive : List ℕ → Server → Type 0
AllAlive [] s = Unit
AllAlive (c ∷ cs) s = IsAlive c s × AllAlive cs s

times-append : (q : ℕ) (cs ds : List ℕ) → times q (cs ++ ds) ≡ times q cs + times q ds
times-append q [] ds = omega arith
times-append q (c ∷ cs) ds = ground (arith, times-append q cs ds)

pub IsHeld-same :
    (cs ds : List ℕ) (s t : Server)
    → ((q : ℕ) → times q cs ≡ times q ds)
    → IsHeld cs s t
    → IsHeld ds s t
IsHeld-same cs ds s t e h = record {
  cells = λ q. h.cells q ∙ ap (λ (n : ℕ). with_references n (s.clients.cells q)) (e q);
  slots = h.slots;
  registry = h.registry;
  mailboxes = h.mailboxes;
}

-- A client in the middle of the list may stand in front.
pub times-middle : (q c : ℕ) (cs ds : List ℕ) → times q (cs ++ c ∷ ds) ≡ times q (c ∷ cs ++ ds)
times-middle q c cs ds = times-append q cs (c ∷ ds) ∙ split (times-append q cs ds)
  where
    split :
        times q (cs ++ ds) ≡ times q cs + times q ds
        → times q cs + times q (c ∷ ds) ≡ times q (c ∷ cs ++ ds)
    split e = ground arith

ref_all-more :
    (cs ds : List ℕ) (s t : Server)
    → AllAlive cs s
    → IsHeld ds s t
    → (u : Server) × (ref_all cs t ≡ some u) × IsHeld (cs ++ ds) s u
unfolding ref_all
ref_all-more [] ds s t a h = (t, refl, h)
ref_all-more (c ∷ cs) ds s t (a, rest) h =
    let (u, ran, held) = client_ref-IsHeld c ds s t a h in
    let (v, ran_on, held_on) = ref_all-more cs (c ∷ ds) s u rest held in
    (
      v,
      ap (λ (o : Option Server). elim o [ none ↦ none | some x ↦ ref_all cs x ]) ran ∙ ran_on,
      IsHeld-same (cs ++ c ∷ ds) (c ∷ cs ++ ds) s v (λ q. times-middle q c cs ds) held_on,
    )

pub ref_all-IsHeld :
    (cs : List ℕ) (s : Server)
    → AllAlive cs s
    → (t : Server) × (ref_all cs s ≡ some t) × IsHeld cs s t
ref_all-IsHeld cs s a =
    let (t, ran, held) = ref_all-more cs [] s s a (IsHeld-nothing s) in
    (t, ran, IsHeld-same (cs ++ []) cs s t (λ q. times-append q cs [] ∙ omega arith) held)
