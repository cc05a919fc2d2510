-- ===== src/Spool/Consistent/Ended.antt =====
-- A job ends and its printer is released (`masterSigHandler` of hw4/src/cli.c).
use cse_320_repository.Base.{
  ℕ, suc, ◌<◌, ◌==◌, true, false, none, some, ◌≡◌, ◌≢◌, sym, ap, ◌∙◌, subst, ℤ, pos, arith,
  Bool-cases, update, update_ne, ==_eq, none_ne_some, some-injective, inl, inr,
}
use cse_320_repository.Spool.State.{Printer, Job, printer_busy, decrement, max_jobs}
use cse_320_repository.Spool.Consistent.{IsLinked, is_active, active_jobs}
use cse_320_repository.Spool.Consistent.Changed.{active_jobs-update}

module _ {printers : ℕ → Printer} {n : ℕ} {jobs : ℕ → Job} {ids : ℕ → ℕ} {count : ℤ}
    (linked : IsLinked printers n jobs ids count) (i k : ℕ) (p : Printer) (job : Job)
    (i_below : i < max_jobs) (active : is_active (jobs i).status ≡ true) (k_below : k < n)
    (assigned : (printers k).job_index ≡ some i) (unused : p.job_index ≡ none)
    (idle : p.status ≢ printer_busy) (ended : is_active job.status ≡ false) where
  -- Another printer has another job.
  works :
      (l j : ℕ)
      → l < n
      → (update printers k p l).job_index ≡ some j
      → (j < max_jobs) × (is_active (update jobs i job j).status ≡ true)
  works l j h e = elim (Bool-cases (l == k)) [
    | inl same ↦ absurd (none_ne_some (sym unused ∙ rw same at e))
    | inr other ↦
        let (below, running) = linked.works l j h (rw other at e) in
        (
          below,
          rw
              (update_ne jobs i j job (λ x. absurd (
                cc (
                  other,
                  ==_eq (
                      linked.alone l k i h k_below
                        (subst (λ y. (printers l).job_index ≡ some y) x (rw other at e)) assigned),
                ))))
              running,
        )
  ]

  alone :
      (l m j : ℕ)
      → l < n
      → m < n
      → (update printers k p l).job_index ≡ some j
      → (update printers k p m).job_index ≡ some j
      → l ≡ m
  alone l m j h h' e e' = elim (Bool-cases (l == k)) [
    | inl same ↦ absurd (none_ne_some (sym unused ∙ rw same at e))
    | inr other ↦ elim (Bool-cases (m == k)) [
      | inl same ↦ absurd (none_ne_some (sym unused ∙ rw same at e'))
      | inr other' ↦ linked.alone l m j h h' (rw other at e) (rw other' at e')
    ]
  ]

  -- A job that is still active is another one.
  remains :
      (j : ℕ)
      → is_active (update jobs i job j).status ≡ true
      → (j == i ≡ false) × (is_active (jobs j).status ≡ true)
  remains j e = elim (Bool-cases (j == i)) [
    | inl same ↦ absurd (cc (ended, rw same at e))
    | inr other ↦ (other, rw other at e)
  ]

  served :
      (j : ℕ)
      → j < max_jobs
      → is_active (update jobs i job j).status ≡ true
      → (l : ℕ) × (l < n) × ((update printers k p l).job_index ≡ some j)
  served j h e =
      let (other, running) = remains j e in
      let (l, below, index) = linked.served j h running in
      (
        l,
        below,
        rw
            (update_ne printers k l p (λ x. absurd (
              cc (
                other,
                ==_eq (
                    some-injective j i
                      (sym index ∙ subst (λ y. (printers y).job_index ≡ some i) (sym x) assigned)),
              ))))
            index,
      )

  busy :
      (l : ℕ)
      → l < n
      → (update printers k p l).status ≡ printer_busy
      → (j : ℕ) × ((update printers k p l).job_index ≡ some j)
  busy l h e = elim (Bool-cases (l == k)) [
    | inl same ↦ absurd (idle (rw same at e))
    | inr other ↦ let (j, index) = linked.busy l h (rw other at e) in (j, rw other index)
  ]

  held :
      (j : ℕ)
      → j < max_jobs
      → is_active (update jobs i job j).status ≡ true
      → (update jobs i job j).job_position_taken ≡ true
  held j h e = let (other, running) = remains j e in rw other (linked.held j h running)

  pub IsLinked-end : IsLinked (update printers k p) n (update jobs i job) ids (decrement count)
  IsLinked-end = record {
    bounded = linked.bounded;
    works = works;
    alone = alone;
    served = served;
    busy = busy;
    held = held;
    apart = λ a b h h' e e'. linked.apart a b h h' (remains a e).1 (remains b e').1;
    counted = ap decrement (
        linked.counted
        ∙ ap pos (
            let moved = active_jobs-update max_jobs jobs i job i_below in
            let fewer : active_jobs max_jobs jobs ≡ suc (active_jobs max_jobs (update jobs i job)) =
              omega (arith, rw (active, ended) at moved) in
            fewer));
  }
