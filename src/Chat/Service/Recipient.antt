-- ===== src/Chat/Service/Recipient.antt =====
-- The search for the recipient of a message in hw5/src/server.c.
use cse_320_repository.Base.{
  ℕ, ◌+◌, ◌≡◌, List, [], ◌∷◌, ◌++◌, Text, Option, none, some, Bool, true, false, Bool-cases, inl,
  inr, refl, sym, ap, subst, if◌then◌else◌, same_text,
}
use cse_320_repository.Chat.User.{User, Users, user_get_handle}
use cse_320_repository.Chat.Client.{Client, Server}
use cse_320_repository.Chat.Login.{client_get_user}
use cse_320_repository.Chat.Service.{has_user, find_recipient}
use cse_320_repository.Chat.Service.Held.{
  AllAlive, IsHeld, IsHeld-same, times, times-middle, client_ref-IsHeld, client_unref-IsHeld,
  held_client,
}
use cse_320_repository.Chat.Service.Users.{IsNamed, AllNamed}

-- Is the client logged in under the handle?
abbrev pub is_under : Client → Users → Text → Bool
is_under client users handle = elim client.login_state [
  | false ↦ false
  | true ↦ elim client.user [
    | none ↦ false
    | some p ↦ elim (users.cells p) [ none ↦ false | some u ↦ same_text u.handle handle ]
  ]
]

-- The clients of the list that are.
abbrev pub under : (handle : Text) (cs : List ℕ) (s : Server) → AllAlive cs s → List ℕ
under handle [] s a = []
under handle (c ∷ cs) s (a, rest) =
    let others = under handle cs s rest in
    if is_under a.client s.registry.users handle then c ∷ others else others

abbrev pub last_of : Option ℕ → List ℕ → Option ℕ
last_of found [] = found
last_of found (c ∷ cs) = last_of (some c) cs

is_under-named :
    (client : Client) (users : Users) (handle : Text) (p : ℕ) (u : User)
    → client.login_state ≡ true
    → client.user ≡ some p
    → users.cells p ≡ some u
    → is_under client users handle ≡ same_text u.handle handle
is_under-named client users handle p u logged owner exists = rw (logged, owner, exists) refl

-- One client of the loop.
has_user_lem :
    (c : ℕ) (client : Client) (handle : Text) (t : Server)
    → t.clients.cells c ≡ some client
    → IsNamed client t.registry.users
    → (user : Option ℕ) × (client_get_user c true t ≡ some (user, t))
      × (has_user user handle t ≡ some (is_under client t.registry.users handle))
unfolding client_get_user has_user user_get_handle
has_user_lem c client handle t at named = elim (Bool-cases client.login_state) [
  | inr out ↦ (none, rw (client_get_user, at, out) refl, rw out refl)
  | inl logged ↦
      let (p, owner, u, exists) = named logged in
      (
        some p,
        rw (client_get_user, at, logged, owner) refl,
        rw (has_user, user_get_handle, exists)
            (ap (λ (x : Bool). some x)
              (sym (is_under-named client t.registry.users handle p u logged owner exists))),
      )
]

-- The whole loop, with the references to the clients found so far.
pub find_recipient_lem :
    (handle : Text) (cs kept : List ℕ) (found : Option ℕ) (s t : Server) (a : AllAlive cs s)
    → AllNamed cs s a
    → IsHeld (cs ++ kept) s t
    → (u : Server) × (find_recipient cs handle found t
        ≡ some (last_of found (under handle cs s a), u))
      × IsHeld (under handle cs s a ++ kept) s u
unfolding find_recipient
find_recipient_lem handle [] kept found s t a named h = (t, refl, h)
find_recipient_lem handle (c ∷ cs) kept found s t (a, rest) (named, others) h =
    let held = record a.client {
      reference_count = times c (c ∷ cs ++ kept) + a.client.reference_count;
    } in
    let (user, got, asked) =
      has_user_lem c held handle t (held_client c (c ∷ cs ++ kept) s t a h)
        (subst (λ r. IsNamed a.client r.users) (sym h.registry) named) in
    let same : is_under a.client t.registry.users handle
        ≡ is_under a.client s.registry.users handle =
      ap (λ r. is_under a.client r.users handle) h.registry in
    elim (Bool-cases (is_under a.client s.registry.users handle)) [
      | inl found_it ↦
          let (v, taken, more) = client_ref-IsHeld c (c ∷ cs ++ kept) s t a h in
          let (w, given, left) = client_unref-IsHeld c (c ∷ cs ++ kept) s v a more in
          let (u, went, end) = find_recipient_lem handle cs (c ∷ kept) (some c) s w rest others (
            IsHeld-same (c ∷ cs ++ kept) (cs ++ c ∷ kept) s w (λ q. sym (times-middle q c cs kept))
              left) in
          (
            u,
            rw (find_recipient, got, asked, same, found_it, taken, given, went) refl,
            rw found_it (
                IsHeld-same (under handle cs s rest ++ c ∷ kept)
                  (c ∷ under handle cs s rest ++ kept) s u
                  (λ q. times-middle q c (under handle cs s rest) kept) end),
          )
      | inr other ↦
          let (w, given, left) = client_unref-IsHeld c (cs ++ kept) s t a h in
          let (u, went, end) = find_recipient_lem handle cs kept found s w rest others left in
          (u, rw (find_recipient, got, asked, same, other, given, went) refl, rw other end)
    ]
