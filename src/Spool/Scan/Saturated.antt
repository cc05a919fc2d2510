-- ===== src/Spool/Scan/Saturated.antt =====
-- After `scanJobs` of hw4/src/cli.c no job waits for a printer that could take it.
use Prim.Native.Nat.{bit_and}
use cse_320_repository.Base.{
  ℕ, suc, ◌<◌, ◌==◌, Bool, true, false, ◌&&◌, some, List, ◌≡◌, refl, sym, ap, inl, inr, arith,
  subst, Bool-cases, update_ne, update_self, for_range_inv, &&-false_left, &&-false_right, Text,
  ==_iff, not,
}
use cse_320_repository.Spool.State.{
  Spooler, System, Job, Printer, is_created, is_idle, max_jobs, job_running, printer_busy,
}
use cse_320_repository.Spool.Scan.{scan_job, scan_jobs, start_job, is_available, is_unused}
use cse_320_repository.Spool.Scan.Choice.{HasNone, choose_printer-Outcome, mask_at}

module _ {C : Type 0} (sys : System C) where
  abbrev pub waits : Spooler C → ℕ → Bool
  waits s i = (s.list_jobs i).job_position_taken && is_created (s.list_jobs i).status

  -- Each of the first jobs that waits finds no printer.
  abbrev pub IsSaturated : ℕ → Spooler C → Type 0
  IsSaturated n s =
      (i : ℕ) → i < n → waits s i ≡ true → HasNone sys (s.list_jobs i) s 0 s.next_free_index

  busy-unavailable :
      (mask : ℕ) (job : Job) (p : Printer)
      → p.status ≡ printer_busy
      → is_available mask job p ≡ false
  busy-unavailable mask job p e =
      &&-false_left (not (bit_and job.eligible_printer mask == 0) && is_idle p.status)
        (is_unused p.job_index)
        (&&-false_right (not (bit_and job.eligible_printer mask == 0)) (is_idle p.status)
          (ap is_idle e))

  -- A printer that is put to work takes no other job.
  start_job-HasNone :
      (i k : ℕ) (path : List Text) (job : Job) (s : Spooler C)
      → HasNone sys job s 0 s.next_free_index
      → HasNone sys job (start_job sys i k path s) 0 s.next_free_index
  unfolding start_job
  start_job-HasNone i k path job s none_here l low high free = elim (Bool-cases (l == k)) [
    | inl same ↦ absurd (
        cc (
          busy-unavailable (mask_at l) job
              (record (s.list_printers k) { status = printer_busy; job_index = some i }) refl,
          rw same at free,
        ))
    | inr other ↦ rw other (none_here l low high (rw other at free))
  ]

  extend :
      (i : ℕ) (s : Spooler C)
      → IsSaturated i s
      → (waits s i ≡ true → HasNone sys (s.list_jobs i) s 0 s.next_free_index)
      → IsSaturated (suc i) s
  extend i s h last j below e = elim (Bool-cases (j == i)) [
    | inl same ↦
        let here : j ≡ i = (==_iff j i).0 same in
        subst (λ x. HasNone sys (s.list_jobs x) s 0 s.next_free_index) (sym here)
          (last (subst (λ x. waits s x ≡ true) here e))
    | inr other ↦ h j (ground arith) e
  ]

  -- The job that is started waits no longer.
  start_job-IsSaturated :
      (i k : ℕ) (path : List Text) (s : Spooler C)
      → IsSaturated i s
      → IsSaturated (suc i) (start_job sys i k path s)
  unfolding start_job
  start_job-IsSaturated i k path s h =
      extend i (start_job sys i k path s)
        (λ j below e.
          let same =
            update_ne s.list_jobs i j (record (s.list_jobs i) { status = job_running })
              (λ x. absurd (omega arith)) in
          subst (λ (job : Job). HasNone sys job (start_job sys i k path s) 0 s.next_free_index)
            (sym same)
            (start_job-HasNone i k path (s.list_jobs j) s (
              h j below (
                subst (λ (job : Job). (job.job_position_taken && is_created job.status) ≡ true) same
                  e))))
        (λ e.
          let same = update_self s.list_jobs i (record (s.list_jobs i) { status = job_running }) in
          absurd (
            cc (
              &&-false_right (s.list_jobs i).job_position_taken false refl,
              subst (λ (job : Job). (job.job_position_taken && is_created job.status) ≡ true) same
                  e,
            )))

  scan_job-IsSaturated :
      (i : ℕ) (s : Spooler C) → IsSaturated i s → IsSaturated (suc i) (scan_job sys i s)
  unfolding scan_job
  scan_job-IsSaturated i s h = elim (Bool-cases (waits s i)) [
    | inl waiting ↦
        elim (choose_printer-Outcome sys (s.list_jobs i) s s.next_free_index 0 1
          (unfold mask_at in refl)) [
            | inl (stuck, nowhere) ↦ rw (scan_job, waiting, stuck) (extend i s h (λ e. nowhere))
            | inr (k, path, found, choice) ↦
                rw (scan_job, waiting, found) (start_job-IsSaturated i k path s h)
          ]
    | inr other ↦ rw (scan_job, other) (extend i s h (λ e. absurd (cc)))
  ]

  -- After scanJobs no job that waits in the list has a printer that is idle, without a job, in the
  -- mask with which it is tested, and of a type to which the job can be converted.
  pub scan_jobs-IsSaturated : (s : Spooler C) → IsSaturated max_jobs (scan_jobs sys s)
  unfolding scan_jobs
  scan_jobs-IsSaturated s =
      for_range_inv IsSaturated (scan_job sys) max_jobs 0 max_jobs s (omega arith)
        (λ i t below h. scan_job-IsSaturated i t h) (λ i below e. absurd (omega arith))
