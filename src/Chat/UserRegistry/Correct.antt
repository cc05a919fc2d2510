-- ===== src/Chat/UserRegistry/Correct.antt =====
-- The calls of hw5/src/user_registry.c on a registry of live users without repeated handles.
use cse_320_repository.Base.{
  same_text, same_text_refl, ℕ, zero, suc, ◌+◌, ◌≡◌, ◌≢◌, ◌⊎◌, refl, sym, ap, ◌∙◌, inl, inr, true,
  false, Bool-cases, Option, none, some, ◌∷◌, arith, subst, some-injective, Option-cases,
  update_self, update_ne, ==_iff, ◌==◌, update,
}
use cse_320_repository.Chat.Heap.{Handle, write}
use cse_320_repository.Chat.User.{User, Users, user_ref, user_unref, user_create}
use cse_320_repository.Chat.UserRegistry.{
  UserRegistry, find_user, unlink, insert_user, ureg_register, ureg_unregister,
}
use cse_320_repository.Chat.UserRegistry.Listed.{
  user, listed, IsAlive, IsListed, before, find_user-IsAlive, IsListed-all, unlink-other,
  unlink-none, unlink-IsListed,
}

-- The user `p` of the handle after a registration: the old one with a reference more, or a new one with two.
pub record IsRegistered (handle : Handle) (r : UserRegistry) : Type 0 where
  pub pointer : ℕ
  pub after : UserRegistry
  pub ran : ureg_register handle r ≡ some (pointer, after)
  pub registry : IsListed after.users after.nodes
  pub found : find_user handle after.nodes ≡ some pointer
  pub counted :
      ((find_user handle r.nodes ≡ none) × (after.users.cells pointer ≡ some (user handle 2)))
      ⊎ ((find_user handle r.nodes ≡ some pointer)
          × (after.nodes ≡ r.nodes)
          × ((spare : ℕ) × (r.users.cells pointer ≡ some (user handle (suc spare)))
              × (after.users.cells pointer ≡ some (user handle (suc (suc spare))))))

same_name :
    (users : Users) (p : ℕ) (handle h : Handle)
    → IsAlive users p handle
    → IsAlive users p h
    → handle ≡ h
same_name users p handle h a b =
    ap (λ (u : User). u.handle)
      (some-injective (user handle (suc a.spare)) (user h (suc b.spare)) (sym a.alive ∙ b.alive))

-- A live user that gains a reference leaves all alive.
ref-IsAlive :
    (users : Users) (p : ℕ) (handle : Handle) (a : IsAlive users p handle) (q : ℕ) (h : Handle)
    → IsAlive users q h
    → IsAlive (write p (user handle (suc (suc a.spare))) users) q h
ref-IsAlive users p handle a q h b = elim (Bool-cases (q == p)) [
  | inl same ↦
      let here : q ≡ p = (==_iff q p).0 same in
      let name : handle ≡ h =
        same_name users p handle h a (subst (λ x. IsAlive users x h) here b) in
      record {
        allocated = b.allocated;
        spare = suc a.spare;
        alive = rw same (ap (λ x. some (user x (suc (suc a.spare)))) name);
      }
  | inr apart ↦ record { allocated = b.allocated; spare = b.spare; alive = rw apart b.alive }
]

new-IsAlive :
    (users : Users) (handle : Handle) (q : ℕ) (h : Handle)
    → IsAlive users q h
    → IsAlive
        (record {
          cells =
              update
                (update users.cells users.next (some (user handle 1)))
                users.next
                (some (user handle 2));
          next = suc users.next;
        })
        q
        h
new-IsAlive users handle q h b = record {
  allocated = omega (arith, b.allocated);
  spare = b.spare;
  alive =
      let apart : q ≢ users.next = λ e. absurd (omega (arith, b.allocated, e)) in
      update_ne (update users.cells users.next (some (user handle 1))) users.next q _ apart
      ∙ update_ne users.cells users.next q _ apart
      ∙ b.alive;
}

found-IsRegistered :
    (handle : Handle) (r : UserRegistry) (p : ℕ)
    → IsListed r.users r.nodes
    → find_user handle r.nodes ≡ some p
    → IsRegistered handle r
unfolding ureg_register user_ref
found-IsRegistered handle r p v e =
    let a : IsAlive r.users p handle = find_user-IsAlive handle p v e in
    record {
      pointer = p;
      after = record r { users = write p (user handle (suc (suc a.spare))) r.users };
      ran =
          let up : suc a.spare + 1 ≡ suc (suc a.spare) = omega arith in
          rw (ureg_register, e, user_ref, a.alive, up) refl;
      registry = IsListed-all (ref-IsAlive r.users p handle a) v;
      found = e;
      counted = inr (e, refl, (a.spare, a.alive, update_self r.users.cells p _));
    }

new-IsRegistered :
    (handle : Handle) (r : UserRegistry)
    → IsListed r.users r.nodes
    → find_user handle r.nodes ≡ none
    → IsRegistered handle r
unfolding ureg_register user_ref user_create insert_user find_user
new-IsRegistered handle r v e = record {
  pointer = r.users.next;
  after = record {
    nodes = listed r.users.next handle ∷ r.nodes;
    users = record {
      cells =
          update (update r.users.cells r.users.next (some (user handle 1))) r.users.next
            (some (user handle 2));
      next = suc r.users.next;
    };
  };
  ran =
      rw
        (
          ureg_register,
          e,
          insert_user,
          user_create,
          user_ref,
          update_self r.users.cells r.users.next (some (user handle 1)),
        )
        refl;
  registry =
      before r.users.next handle
        (record {
          allocated = omega arith;
          spare = 1;
          alive =
              update_self (update r.users.cells r.users.next (some (user handle 1))) r.users.next _;
        })
        e (IsListed-all (new-IsAlive r.users handle) v);
  found = rw (same_text_refl handle) refl;
  counted =
      inl
        (e, update_self (update r.users.cells r.users.next (some (user handle 1))) r.users.next _);
}

-- In a registry of live users without repeated handles, `ureg_register` ends in such a registry with a
-- user of the handle: the listed one with one more reference, or else a new one with two.
pub ureg_register-IsRegistered :
    (handle : Handle) (r : UserRegistry) → IsListed r.users r.nodes → IsRegistered handle r
ureg_register-IsRegistered handle r v = elim (Option-cases (find_user handle r.nodes)) [
  | inl e ↦ new-IsRegistered handle r v e
  | inr (p, e) ↦ found-IsRegistered handle r p v e
]

-- The registry without the handle.
pub record IsUnregistered (handle : Handle) (r : UserRegistry) : Type 0 where
  pub after : UserRegistry
  pub ran : ureg_unregister handle r ≡ some after
  pub registry : IsListed after.users after.nodes
  pub gone : find_user handle after.nodes ≡ none
  pub others :
      (other : Handle)
      → same_text handle other ≡ false
      → find_user other after.nodes ≡ find_user other r.nodes

-- A change of the user of one handle leaves those of the others alive.
other-IsAlive :
    (users : Users) (p : ℕ) (handle : Handle) (cell : Option User) (a : IsAlive users p handle)
    (q : ℕ) (h : Handle)
    → same_text h handle ≡ false
    → IsAlive users q h
    → IsAlive (record users { cells = update users.cells p cell }) q h
other-IsAlive users p handle cell a q h apart b = record {
  allocated = b.allocated;
  spare = b.spare;
  alive = update_ne users.cells p q cell differ ∙ b.alive;
}
  where
    differ : q ≢ p
    differ e =
        let name : handle ≡ h = same_name users p handle h a (subst (λ x. IsAlive users x h) e b) in
        absurd (cc (apart, subst (λ x. same_text h x ≡ true) (sym name) (same_text_refl h)))

unref-runs :
    (users : Users) (p : ℕ) (handle : Handle) (a : IsAlive users p handle)
    → (cell : Option User) × (user_unref p users
        ≡ some (record users { cells = update users.cells p cell }))
unfolding user_unref
unref-runs users p handle a = go a.spare a.alive
  where
    go :
        (n : ℕ)
        → users.cells p ≡ some (user handle (suc n))
        → (cell : Option User) × (user_unref p users
            ≡ some (record users { cells = update users.cells p cell }))
    go zero e = (none, rw (user_unref, e) refl)
    go (suc n) e = (some (user handle (suc n)), rw (user_unref, e) refl)

-- In a registry of live users without repeated handles, `ureg_unregister` ends in such a registry in
-- which the handle is not found and every other handle is found as before.
pub ureg_unregister-IsUnregistered :
    (handle : Handle) (r : UserRegistry) → IsListed r.users r.nodes → IsUnregistered handle r
unfolding ureg_unregister
ureg_unregister-IsUnregistered handle r v = elim (Option-cases (find_user handle r.nodes)) [
  | inl e ↦ record {
    after = r;
    ran = rw (ureg_unregister, e) refl;
    registry = v;
    gone = e;
    others = λ other apart. refl;
  }
  | inr (p, e) ↦
      let a : IsAlive r.users p handle = find_user-IsAlive handle p v e in
      let (cell, ran) = unref-runs r.users p handle a in
      record {
        after = record {
          nodes = unlink handle r.nodes;
          users = record (r.users) { cells = update r.users.cells p cell };
        };
        ran = rw (ureg_unregister, e, ran) refl;
        registry = unlink-IsListed handle (other-IsAlive r.users p handle cell a) v;
        gone = unlink-none handle v;
        others = λ other apart. unlink-other handle other r.nodes apart;
      }
]
