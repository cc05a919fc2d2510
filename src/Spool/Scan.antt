-- ===== src/Spool/Scan.antt =====
-- `scanJobs` of hw4/src/cli.c, from the side of the main process. The processes of a pipeline are outside the
-- model; `fork`, the pipes and the connection to a printer are taken to succeed. A mask that is shifted out of
-- its 32 bits is 0.
pub mod Choice
pub mod Saturated
pub mod Late
use cse_320_repository.Base.{
  ℕ, zero, suc, ◌*◌, ◌%◌, ◌^◌, ◌==◌, if◌then◌else◌, Bool, true, false, not, ◌&&◌, Option, none,
  some, List, [], ◌∷◌, Text, codes, same_text, for_range, update,
}
use Prim.Native.Nat.{bit_and}
use cse_320_repository.Spool.State.{
  Spooler, System, Job, Printer, printer_busy, job_running, sf_job_status, sf_printer_status,
  sf_job_started, is_idle, is_created, processes, max_jobs, increment, report, set_printer, set_job,
}

abbrev pub word_mod : ℕ
word_mod = 2 ^ 32

abbrev pub is_unused : Option ℕ → Bool
is_unused none = true
is_unused (some j) = false

-- `mask <<= k`.
abbrev pub shifted : (mask k : ℕ) → ℕ
shifted mask k = mask * 2 ^ k % word_mod

unfoldable pub format_match : (printer_type file_type : Text) → Bool
format_match printer_type file_type = same_text printer_type file_type

abbrev pub is_available : (mask : ℕ) → Job → Printer → Bool
is_available mask job printer =
    not (bit_and job.eligible_printer mask == 0)
    && is_idle printer.status
    && is_unused printer.job_index

module _ {C : Type 0} (sys : System C) where
  -- The programs that turn the job into the type of the printer.
  unfoldable pub job_path : Job → Printer → C → Option (List Text)
  job_path job printer conversions =
      if format_match job.file_type printer.file_type
      then some (codes "/bin/cat" ∷ [])
      else sys.find_conversion_path job.file_type printer.file_type conversions

  -- The inner loop: the first printer that takes the job.
  unfoldable pub choose_printer : (n k mask : ℕ) → Job → Spooler C → Option (ℕ × List Text)
  choose_printer zero k mask job s = none
  choose_printer (suc n) k mask job s =
      let printer = s.list_printers k in
      elim (is_available (shifted mask k) job printer) [
        | false ↦ choose_printer n (suc k) (shifted mask k) job s
        | true ↦ elim (job_path job printer s.conversions) [
          | some path ↦ some (k, path)
          | none ↦ choose_printer n (suc k) (shifted mask k) job s
        ]
      ]

  -- Printer `k` is put to work on job `i`.
  unfoldable pub start_job : (i k : ℕ) → (path : List Text) → Spooler C → Spooler C
  start_job i k path s =
      let printer = s.list_printers k in
      let pid = sys.fork (processes max_jobs s.list_jobs s.job_to_master_id) s.forked in
      record s {
        list_printers =
            update s.list_printers k (record printer { status = printer_busy; job_index = some i });
        list_jobs = update s.list_jobs i (record (s.list_jobs i) { status = job_running });
        job_to_master_id = update s.job_to_master_id i pid;
        master_child_count = increment s.master_child_count;
        forked = suc s.forked;
        events =
            sf_job_started i printer.printer_name pid path
            ∷ sf_printer_status printer.printer_name printer_busy
            ∷ sf_job_status i job_running
            ∷ s.events;
      }

  unfoldable pub scan_job : ℕ → Spooler C → Spooler C
  scan_job i s =
      let job = s.list_jobs i in
      if job.job_position_taken && is_created job.status
      then elim (choose_printer s.next_free_index 0 1 job s) [
        | none ↦ s
        | some (k, path) ↦ start_job i k path s
      ]
      else s

  unfoldable pub scan_jobs : Spooler C → Spooler C
  scan_jobs s = for_range max_jobs 0 scan_job s
