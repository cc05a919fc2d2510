-- ===== src/Spool/Consistent/Started.antt =====
-- A printer is put to work on a job that waits (`scanJobs` of hw4/src/cli.c).
use cse_320_repository.Base.{
  ℕ, ◌<◌, ◌==◌, true, false, none, some, ◌≡◌, ◌≢◌, inl, inr, sym, ap, ◌∙◌, subst, ℤ, pos, arith,
  Bool-cases, update, update_ne, none_ne_some, some-injective,
}
use cse_320_repository.Spool.State.{Printer, Job, printer_busy, increment, max_jobs}
use cse_320_repository.Spool.Consistent.{IsLinked, is_active}
use cse_320_repository.Spool.Consistent.Changed.{active_jobs-update}

module _ {printers : ℕ → Printer} {n : ℕ} {jobs : ℕ → Job} {ids : ℕ → ℕ} {count : ℤ}
    (linked : IsLinked printers n jobs ids count) (i k : ℕ) (p : Printer) (job : Job)
    (i_below : i < max_jobs) (waits : is_active (jobs i).status ≡ false) (k_below : k < n)
    (unused : (printers k).job_index ≡ none) (assigned : p.job_index ≡ some i)
    (runs : is_active job.status ≡ true) (taken : job.job_position_taken ≡ true) (pid : ℕ)
    (fresh : (j : ℕ) → j < max_jobs → is_active (jobs j).status ≡ true → ids j ≢ pid) where
  still : (j : ℕ) → is_active (jobs j).status ≡ true → is_active (update jobs i job j).status ≡ true
  still j e = elim (Bool-cases (j == i)) [ inl same ↦ rw same runs | inr other ↦ rw other e ]

  works :
      (l j : ℕ)
      → l < n
      → (update printers k p l).job_index ≡ some j
      → (j < max_jobs) × (is_active (update jobs i job j).status ≡ true)
  works l j h e = elim (Bool-cases (l == k)) [
    | inl same ↦
        let index : i ≡ j = some-injective i j (sym assigned ∙ rw same at e) in
        (
          omega arith,
          subst (λ x. is_active (update jobs i job x).status ≡ true) index (ground arith),
        )
    | inr other ↦
        let (below, active) = linked.works l j h (rw other at e) in (below, still j active)
  ]

  -- No other printer has the job.
  only : (l j : ℕ) → l < n → i ≡ j → l == k ≡ false → (update printers k p l).job_index ≢ some j
  only l j h index other e =
      let (below, active) = linked.works l j h (rw other at e) in
      absurd (cc (waits, subst (λ x. is_active (jobs x).status ≡ true) (sym index) active))

  alone :
      (l m j : ℕ)
      → l < n
      → m < n
      → (update printers k p l).job_index ≡ some j
      → (update printers k p m).job_index ≡ some j
      → l ≡ m
  alone l m j h h' e e' = elim (Bool-cases (l == k)) [
    | inl same ↦ elim (Bool-cases (m == k)) [
      | inl same' ↦ ground arith
      | inr other ↦ absurd (only m j h' (some-injective i j (sym assigned ∙ rw same at e)) other e')
    ]
    | inr other ↦ elim (Bool-cases (m == k)) [
      | inl same ↦ absurd (only l j h (some-injective i j (sym assigned ∙ rw same at e')) other e)
      | inr other' ↦ linked.alone l m j h h' (rw other at e) (rw other' at e')
    ]
  ]

  served :
      (j : ℕ)
      → j < max_jobs
      → is_active (update jobs i job j).status ≡ true
      → (l : ℕ) × (l < n) × ((update printers k p l).job_index ≡ some j)
  served j h e = elim (Bool-cases (j == i)) [
    | inl same ↦ (k, k_below, ground arith)
    | inr other ↦
        let (l, below, index) = linked.served j h (rw other at e) in
        (
          l,
          below,
          rw
              (update_ne printers k l p (λ x.
                none_ne_some (sym unused ∙ subst (λ y. (printers y).job_index ≡ some j) x index)))
              index,
        )
  ]

  busy :
      (l : ℕ)
      → l < n
      → (update printers k p l).status ≡ printer_busy
      → (j : ℕ) × ((update printers k p l).job_index ≡ some j)
  busy l h e = elim (Bool-cases (l == k)) [
    | inl same ↦ (i, rw same assigned)
    | inr other ↦ let (j, index) = linked.busy l h (rw other at e) in (j, rw other index)
  ]

  held :
      (j : ℕ)
      → j < max_jobs
      → is_active (update jobs i job j).status ≡ true
      → (update jobs i job j).job_position_taken ≡ true
  held j h e = elim (Bool-cases (j == i)) [
    | inl same ↦ rw same taken
    | inr other ↦ rw other (linked.held j h (rw other at e))
  ]

  apart :
      (a b : ℕ)
      → a < max_jobs
      → b < max_jobs
      → is_active (update jobs i job a).status ≡ true
      → is_active (update jobs i job b).status ≡ true
      → update ids i pid a ≡ update ids i pid b
      → a ≡ b
  apart a b h h' e e' same_id = elim (Bool-cases (a == i)) [
    | inl same ↦ elim (Bool-cases (b == i)) [
      | inl same' ↦ ground arith
      | inr other ↦ absurd (fresh b h' (rw other at e') (sym (rw (same, other) at same_id)))
    ]
    | inr other ↦ elim (Bool-cases (b == i)) [
      | inl same ↦ absurd (fresh a h (rw other at e) (rw (other, same) at same_id))
      | inr other' ↦
          linked.apart a b h h' (rw other at e) (rw other' at e') (rw (other, other') at same_id)
    ]
  ]

  pub IsLinked-start :
      IsLinked (update printers k p) n (update jobs i job) (update ids i pid) (increment count)
  IsLinked-start = record {
    bounded = linked.bounded;
    works = works;
    alone = alone;
    served = served;
    busy = busy;
    held = held;
    apart = apart;
    counted =
        ap increment linked.counted
        ∙ ap pos (
            let moved = active_jobs-update max_jobs jobs i job i_below in
            omega (arith, rw (waits, runs) at moved));
  }
