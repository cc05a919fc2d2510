-- ===== src/Spool/Consistent.antt =====
-- What links the printers and the jobs of hw4/src/cli.c: a printer works on the job of its `jobIndex`, and the
-- jobs that are worked on are those with a process.
pub mod Changed
pub mod Started
pub mod Ended
pub mod Scanned
pub mod Reaped
pub mod Commanded
pub mod Queued
use cse_320_repository.Base.{
  ℕ, zero, suc, ◌+◌, ◌≤◌, ◌<◌, ◌==◌, if◌then◌else◌, Bool, true, false, Option, none, some, List, [],
  ◌∷◌, ◌≡◌, ◌≢◌, ◌⊎◌, inl, inr, refl, sym, ap, ◌∙◌, subst, ℤ, pos, arith, Bool-cases, update,
  update_at, update_ne, ==_iff, none_ne_some, some-injective,
}
pub use cse_320_repository.Spool.State.{is_active}
use cse_320_repository.Spool.State.{
  processes, System, Spooler, Printer, Job, JobStatus, PrinterStatus, job_created, job_running,
  job_paused, printer_busy, printer_idle, printer_disabled, start, max_jobs, max_printers,
}

abbrev pub one_if : Bool → ℕ
one_if true = 1
one_if false = 0

unfoldable pub active_jobs : ℕ → (ℕ → Job) → ℕ
active_jobs zero jobs = 0
active_jobs (suc n) jobs = one_if (is_active (jobs n).status) + active_jobs n jobs

abbrev pub IsAmong : ℕ → List ℕ → Type 0
IsAmong p [] = ⊥
IsAmong p (q ∷ qs) = (p ≡ q) ⊎ IsAmong p qs

-- `fork` does not give the number of a process that has not been waited for.
pub record IsForking {C : Type 0} (sys : System C) : Type 0 where
  pub new : (ps : List ℕ) (n p : ℕ) → IsAmong p ps → p ≢ sys.fork ps n

pub record IsLinked (printers : ℕ → Printer) (n : ℕ) (jobs : ℕ → Job) (ids : ℕ → ℕ) (count : ℤ)
    : Type 0 where
  -- the printers fit in their array
  pub bounded : n ≤ max_printers
  -- a printer works on a job that is running or paused
  pub works :
      (k i : ℕ)
      → k < n
      → (printers k).job_index ≡ some i
      → (i < max_jobs) × (is_active (jobs i).status ≡ true)
  -- no two printers work on one job
  pub alone :
      (k l i : ℕ)
      → k < n
      → l < n
      → (printers k).job_index ≡ some i
      → (printers l).job_index ≡ some i
      → k ≡ l
  -- a job that is running or paused has a printer
  pub served :
      (i : ℕ)
      → i < max_jobs
      → is_active (jobs i).status ≡ true
      → (k : ℕ) × (k < n) × ((printers k).job_index ≡ some i)
  -- a busy printer works on a job
  pub busy :
      (k : ℕ)
      → k < n
      → (printers k).status ≡ printer_busy
      → (i : ℕ) × ((printers k).job_index ≡ some i)
  -- a job that is running or paused is in the list
  pub held :
      (i : ℕ) → i < max_jobs → is_active (jobs i).status ≡ true → (jobs i).job_position_taken ≡ true
  -- no two such jobs have one process
  pub apart :
      (i j : ℕ)
      → i < max_jobs
      → j < max_jobs
      → is_active (jobs i).status ≡ true
      → is_active (jobs j).status ≡ true
      → ids i ≡ ids j
      → i ≡ j
  -- and the processes are counted
  pub counted : count ≡ pos (active_jobs max_jobs jobs)

abbrev pub IsConsistent : {C : Type 0} → Spooler C → Type 0
IsConsistent s =
    IsLinked s.list_printers s.next_free_index s.list_jobs s.job_to_master_id s.master_child_count

active_jobs-none :
    (n : ℕ) (jobs : ℕ → Job)
    → ((i : ℕ) → is_active (jobs i).status ≡ false)
    → active_jobs n jobs ≡ 0
unfolding active_jobs
active_jobs-none zero jobs h = refl
active_jobs-none (suc n) jobs h = rw (h n) (omega (arith, active_jobs-none n jobs h))

-- No job is left where the count is 0.
pub active_jobs-zero :
    (n : ℕ) (jobs : ℕ → Job)
    → active_jobs n jobs ≡ 0
    → (i : ℕ) → i < n
    → is_active (jobs i).status ≡ false
unfolding active_jobs
active_jobs-zero zero jobs h i below = absurd (omega arith)
active_jobs-zero (suc n) jobs h i below = elim (Bool-cases (i == n)) [
  | inl same ↦ rw ((==_iff i n).0 same) (none_active (is_active (jobs n).status) (omega arith))
  | inr apart ↦ active_jobs-zero n jobs (omega arith) i (ground arith)
]
  where
    none_active : (b : Bool) → one_if b ≡ 0 → b ≡ false
    none_active true e = absurd (omega arith)
    none_active false e = refl

pub start-IsConsistent : {C : Type 0} (c : C) → IsConsistent (start c)
start-IsConsistent c = record {
  bounded = omega arith;
  works = λ k i h e. absurd (omega arith);
  alone = λ k l i h h' e e'. absurd (omega arith);
  served = λ i h e. absurd (cc);
  busy = λ k h e. absurd (omega arith);
  held = λ i h e. absurd (cc);
  apart = λ i j h h' e e' e''. absurd (cc);
  counted = ap pos (sym (active_jobs-none max_jobs _ (λ i. refl)));
}

-- The process of a running or paused job has not been waited for.
pub processes-IsAmong :
    (n : ℕ) (jobs : ℕ → Job) (ids : ℕ → ℕ) (i : ℕ)
    → i < n
    → is_active (jobs i).status ≡ true
    → IsAmong (ids i) (processes n jobs ids)
unfolding processes
processes-IsAmong zero jobs ids i below active = absurd (omega arith)
processes-IsAmong (suc n) jobs ids i below active = elim (Bool-cases (i == n)) [
  | inl same ↦
      let same_i : i ≡ n = (==_iff i n).0 same in
      rw (ap (λ j. is_active (jobs j).status) (sym same_i) ∙ active) (inl (ap ids same_i))
  | inr apart ↦ elim (Bool-cases (is_active (jobs n).status)) [
    | inl runs ↦ rw runs (inr (processes-IsAmong n jobs ids i (ground arith) active))
    | inr idle ↦ rw idle (processes-IsAmong n jobs ids i (ground arith) active)
  ]
]
