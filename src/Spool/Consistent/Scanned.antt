-- ===== src/Spool/Consistent/Scanned.antt =====
-- `scanJobs` and `deleteJobs` of hw4 keep the links of printers and jobs.
use Prim.Native.Nat.{bit_and}
use cse_320_repository.Base.{
  not, ℕ, ◌<◌, ◌==◌, true, false, ◌&&◌, Option, none, some, List, ◌≡◌, refl, sym, inl, inr, arith,
  Bool-cases, for_range_inv, &&-both, Text,
}
use cse_320_repository.Spool.State.{
  printer_busy, job_finished, job_aborted, Spooler, System, Job, Printer, JobStatus, job_created,
  job_running, job_deleted, is_created, is_idle, max_jobs, has_ended, processes,
}
use cse_320_repository.Spool.Tables.{delete_job, delete_jobs, has_waited}
use cse_320_repository.Spool.Scan.{scan_job, scan_jobs, start_job, is_available, is_unused}
use cse_320_repository.Spool.Scan.Choice.{IsChoice, choose_printer-Outcome, mask_at}
use cse_320_repository.Spool.Consistent.{IsConsistent, IsForking, is_active, processes-IsAmong}
use cse_320_repository.Spool.Consistent.Changed.{IsLinked-job}
use cse_320_repository.Spool.Consistent.Started.{IsLinked-start}

created-inactive : (status : JobStatus) → is_created status ≡ true → is_active status ≡ false
created-inactive job_created e = refl
created-inactive _ e = cc

pub ended-inactive : (status : JobStatus) → has_ended status ≡ true → is_active status ≡ false
ended-inactive job_created e = cc
ended-inactive job_finished e = refl
ended-inactive job_aborted e = refl
ended-inactive _ e = cc

is_unused-none : (o : Option ℕ) → is_unused o ≡ true → o ≡ none
is_unused-none none e = refl
is_unused-none (some i) e = cc

available-unused :
    (mask : ℕ) (job : Job) (p : Printer) → is_available mask job p ≡ true → p.job_index ≡ none
available-unused mask job p e =
    is_unused-none p.job_index
      (&&-both (not (bit_and job.eligible_printer mask == 0) && is_idle p.status)
        (is_unused p.job_index) e).1

module _ {C : Type 0} (sys : System C) (forking : IsForking sys) where
  start_job-IsConsistent :
      (s : Spooler C) (i k : ℕ) (path : List Text)
      → IsConsistent s
      → i < max_jobs
      → (s.list_jobs i).job_position_taken ≡ true
      → is_created (s.list_jobs i).status ≡ true
      → IsChoice sys (s.list_jobs i) s 0 s.next_free_index k path
      → IsConsistent (start_job sys i k path s)
  unfolding start_job
  start_job-IsConsistent s i k path c below taken waits choice =
      IsLinked-start c i k
        (record (s.list_printers k) { status = printer_busy; job_index = some i })
        (record (s.list_jobs i) { status = job_running }) below (created-inactive _ waits)
        (omega (arith, choice.below))
        (available-unused (mask_at k) (s.list_jobs i) (s.list_printers k) choice.available) refl
        refl taken (sys.fork (processes max_jobs s.list_jobs s.job_to_master_id) s.forked)
        (λ j j_below active.
          forking.new (processes max_jobs s.list_jobs s.job_to_master_id) s.forked
            (s.job_to_master_id j)
            (processes-IsAmong max_jobs s.list_jobs s.job_to_master_id j j_below active))

  pub scan_job-IsConsistent :
      (i : ℕ) (s : Spooler C) → i < max_jobs → IsConsistent s → IsConsistent (scan_job sys i s)
  unfolding scan_job
  scan_job-IsConsistent i s below c =
      elim (Bool-cases ((s.list_jobs i).job_position_taken && is_created (s.list_jobs i).status)) [
        | inl waits ↦
            elim (choose_printer-Outcome sys (s.list_jobs i) s s.next_free_index 0 1
              (unfold mask_at in refl)) [
                | inl (stuck, nowhere) ↦ rw (scan_job, waits, stuck) c
                | inr (k, path, found, choice) ↦
                    rw (scan_job, waits, found)
                      (start_job-IsConsistent s i k path c below (&&-both _ _ waits).0
                        (&&-both _ _ waits).1 choice)
              ]
        | inr other ↦ rw (scan_job, other) c
      ]

  pub scan_jobs-IsConsistent : (s : Spooler C) → IsConsistent s → IsConsistent (scan_jobs sys s)
  unfolding scan_jobs
  scan_jobs-IsConsistent s c =
      for_range_inv (λ i t. IsConsistent t) (scan_job sys) max_jobs 0 max_jobs s (omega arith)
        (λ i t below c. scan_job-IsConsistent i t below c) c

module _ {C : Type 0} (sys : System C) where
  delete_job-IsConsistent :
      (now i : ℕ) (s : Spooler C) → IsConsistent s → IsConsistent (delete_job now i s)
  unfolding delete_job
  delete_job-IsConsistent now i s c =
      elim (Bool-cases
        (has_ended (s.list_jobs i).status && has_waited now (s.list_jobs i).wait4_ten_second)) [
          | inl due ↦
              rw (delete_job, due)
                (IsLinked-job c i
                  (record (s.list_jobs i) { job_position_taken = false; status = job_deleted })
                  (sym (ended-inactive _ (&&-both _ _ due).0)) (λ e. cc))
          | inr other ↦ rw (delete_job, other) c
        ]

  pub delete_jobs-IsConsistent :
      (now : ℕ → ℕ) (s : Spooler C) → IsConsistent s → IsConsistent (delete_jobs now s)
  unfolding delete_jobs
  delete_jobs-IsConsistent now s c =
      for_range_inv (λ i t. IsConsistent t) (λ i. delete_job (now i) i) max_jobs 0 max_jobs s
        (omega arith) (λ i t below c. delete_job-IsConsistent (now i) i t c) c
