-- ===== src/Spool/Consistent/Changed.antt =====
-- What a written printer or job of hw4/src/cli.c leaves of the links and of the count.
use cse_320_repository.Base.{
  ℕ, zero, suc, ◌+◌, ◌<◌, ◌==◌, true, none, some, ◌≡◌, ◌≢◌, inl, inr, refl, sym, ap, ◌∙◌, ℤ, pos,
  arith, Bool-cases, update, update_at, update_ne, ==_iff, none_ne_some,
}
use cse_320_repository.Spool.State.{
  Printer, Job, printer_busy, printer_disabled, max_jobs, max_printers,
}
use cse_320_repository.Spool.Consistent.{IsLinked, is_active, one_if, active_jobs}

active_jobs-same :
    (n : ℕ) (jobs jobs' : ℕ → Job)
    → ((i : ℕ) → i < n → is_active (jobs' i).status ≡ is_active (jobs i).status)
    → active_jobs n jobs' ≡ active_jobs n jobs
unfolding active_jobs
active_jobs-same zero jobs jobs' same = refl
active_jobs-same (suc n) jobs jobs' same =
    rw (same n (omega arith), active_jobs-same n jobs jobs' (λ i h. same i (omega arith))) refl

-- One cell is written.
pub active_jobs-update :
    (n : ℕ) (jobs : ℕ → Job) (i : ℕ) (job : Job)
    → i < n
    → active_jobs n (update jobs i job) + one_if (is_active (jobs i).status)
      ≡ active_jobs n jobs + one_if (is_active job.status)
unfolding active_jobs
active_jobs-update zero jobs i job h = absurd (omega arith)
active_jobs-update (suc n) jobs i job h = elim (Bool-cases (i == n)) [
  | inl same ↦
      rw
        (
          update_at jobs i n job ((==_iff i n).0 same),
          active_jobs-same n jobs (update jobs i job) (λ j below.
              ap (λ (x : Job). is_active x.status)
                (update_ne jobs i j job (λ e. absurd (ground arith)))),
        )
        (omega (arith, ap (λ (t : ℕ). one_if (is_active (jobs t).status)) ((==_iff i n).0 same)))
  | inr apart ↦
      rw (update_ne jobs i n job (λ e. absurd (ground arith)))
        (omega (arith, active_jobs-update n jobs i job (ground arith)))
]

module _ {printers : ℕ → Printer} {n : ℕ} {jobs : ℕ → Job} {ids : ℕ → ℕ} {count : ℤ}
    (linked : IsLinked printers n jobs ids count) where
  -- The printers are relabelled.
  pub IsLinked-printers :
      (printers' : ℕ → Printer)
      → ((k : ℕ) → (printers' k).job_index ≡ (printers k).job_index)
      → ((k : ℕ) → (printers' k).status ≡ printer_busy → (printers k).status ≡ printer_busy)
      → IsLinked printers' n jobs ids count
  IsLinked-printers printers' same busy' = record {
    bounded = linked.bounded;
    works = λ k i h e. linked.works k i h (sym (same k) ∙ e);
    alone = λ k l i h h' e e'. linked.alone k l i h h' (sym (same k) ∙ e) (sym (same l) ∙ e');
    served = λ i h e. let (k, below, index) = linked.served i h e in (k, below, same k ∙ index);
    busy = λ k h e. let (i, index) = linked.busy k h (busy' k e) in (i, same k ∙ index);
    held = linked.held;
    apart = linked.apart;
    counted = linked.counted;
  }

  -- Jobs change, but not whether they are worked on.
  pub IsLinked-jobs :
      (jobs' : ℕ → Job)
      → ((i : ℕ) → i < max_jobs → is_active (jobs' i).status ≡ is_active (jobs i).status)
      → ((i : ℕ)
          → i < max_jobs
          → is_active (jobs' i).status ≡ true
          → (jobs' i).job_position_taken ≡ true)
      → IsLinked printers n jobs' ids count
  IsLinked-jobs jobs' same held' = record {
    bounded = linked.bounded;
    works = λ k i h e. let (below, active) = linked.works k i h e in (below, same i below ∙ active);
    alone = linked.alone;
    served = λ i h e. linked.served i h (sym (same i h) ∙ e);
    busy = linked.busy;
    held = held';
    apart = λ i j h h' e e'. linked.apart i j h h' (sym (same i h) ∙ e) (sym (same j h') ∙ e');
    counted = linked.counted ∙ ap pos (sym (active_jobs-same max_jobs jobs jobs' same));
  }

  -- One printer is written that works on the same job.
  pub IsLinked-printer :
      (k : ℕ) (p : Printer)
      → p.job_index ≡ (printers k).job_index
      → p.status ≢ printer_busy
      → IsLinked (update printers k p) n jobs ids count
  IsLinked-printer k p same idle = IsLinked-printers (update printers k p) unchanged busy_still
    where
      unchanged : (l : ℕ) → (update printers k p l).job_index ≡ (printers l).job_index
      unchanged l = elim (Bool-cases (l == k)) [
        | inl here ↦
            rw here (same ∙ ap (λ (x : ℕ). (printers x).job_index) (sym ((==_iff l k).0 here)))
        | inr other ↦ rw other refl
      ]

      busy_still :
          (l : ℕ)
          → (update printers k p l).status ≡ printer_busy
          → (printers l).status ≡ printer_busy
      busy_still l e = elim (Bool-cases (l == k)) [
        | inl here ↦ absurd (idle (rw here at e))
        | inr other ↦ rw other at e
      ]

  -- One job is written that is worked on as before.
  pub IsLinked-job :
      (i : ℕ) (job : Job)
      → is_active job.status ≡ is_active (jobs i).status
      → (is_active job.status ≡ true → job.job_position_taken ≡ true)
      → IsLinked printers n (update jobs i job) ids count
  IsLinked-job i job same taken = IsLinked-jobs (update jobs i job) (λ j h. unchanged j) taken_still
    where
      unchanged : (j : ℕ) → is_active (update jobs i job j).status ≡ is_active (jobs j).status
      unchanged j = elim (Bool-cases (j == i)) [
        | inl here ↦
            rw here (same ∙ ap (λ (x : ℕ). is_active (jobs x).status) (sym ((==_iff j i).0 here)))
        | inr other ↦ rw other refl
      ]

      taken_still :
          (j : ℕ)
          → j < max_jobs
          → is_active (update jobs i job j).status ≡ true
          → (update jobs i job j).job_position_taken ≡ true
      taken_still j h e = elim (Bool-cases (j == i)) [
        | inl here ↦ rw here (taken (rw here at e))
        | inr other ↦ rw other (linked.held j h (rw other at e))
      ]

  -- A printer with no job is added.
  pub IsLinked-add :
      (p : Printer)
      → n < max_printers
      → p.job_index ≡ none
      → p.status ≡ printer_disabled
      → IsLinked (update printers n p) (suc n) jobs ids count
  IsLinked-add p room idle disabled = record {
    bounded = omega arith;
    works = λ k i h e. let (below, old) = before k i h e in linked.works k i below old;
    alone = λ k l i h h' e e'.
        let (below, old) = before k i h e in
        let (below', old') = before l i h' e' in linked.alone k l i below below' old old';
    served = λ i h e.
        let (k, below, index) = linked.served i h e in
        (k, omega arith, ap (λ (x : Printer). x.job_index) (old k below) ∙ index);
    busy = occupied;
    held = linked.held;
    apart = linked.apart;
    counted = linked.counted;
  }
    where
      before :
          (k i : ℕ)
          → k < suc n
          → (update printers n p k).job_index ≡ some i
          → (k < n) × ((printers k).job_index ≡ some i)
      before k i h e = elim (Bool-cases (k == n)) [
        | inl same ↦ absurd (none_ne_some (sym idle ∙ rw same at e))
        | inr other ↦ (ground arith, rw other at e)
      ]

      old : (k : ℕ) → k < n → update printers n p k ≡ printers k
      old k below = update_ne printers n k p (λ e. absurd (omega arith))

      occupied :
          (k : ℕ)
          → k < suc n
          → (update printers n p k).status ≡ printer_busy
          → (i : ℕ) × ((update printers n p k).job_index ≡ some i)
      occupied k h e = elim (Bool-cases (k == n)) [
        | inl same ↦ absurd (cc (disabled, rw same at e))
        | inr other ↦
            let (i, index) = linked.busy k (ground arith) (rw other at e) in (i, rw other index)
      ]
