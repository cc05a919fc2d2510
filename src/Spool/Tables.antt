-- ===== src/Spool/Tables.antt =====
-- Searches of the arrays of jobs and printers, and their rows that come and go: hw4/include/helpingFunction.h
-- and `addJobToList` of hw4/src/cli.c.
use cse_320_repository.Base.{
  ℕ, suc, ◌+◌, ◌-◌, leb, ◌==◌, if◌then◌else◌, Bool, true, false, not, ◌&&◌, ◌||◌, Option, none,
  some, ℤ, pos, negsuc, same_text, Text, for_range, find_first,
}
use cse_320_repository.Spool.State.{
  Spooler, Job, job_deleted, sf_job_deleted, max_jobs, has_ended, is_deleted, report, set_job,
}

abbrev pub is_job : Option ℕ → ℕ → Bool
is_job none i = false
is_job (some j) i = j == i

abbrev pub is_free : Job → Bool
is_free job = not job.job_position_taken || is_deleted job.status

-- `time(NULL) >= jobPtr->wait4TenSecond + 10`.
abbrev pub has_waited : (now : ℕ) → ℤ → Bool
has_waited now (pos t) = leb (t + 10) now
has_waited now (negsuc t) = leb (10 - suc t) now

module _ {C : Type 0} where
  unfoldable pub get_printer_index : Text → Spooler C → Option ℕ
  get_printer_index name s =
      find_first s.next_free_index 0 (λ k. same_text name (s.list_printers k).printer_name)

  unfoldable pub printer_exist : Text → Spooler C → Bool
  printer_exist name s =
      elim (find_first s.next_free_index 0 (λ k. same_text name (s.list_printers k).printer_name)) [
        | none ↦ false
        | some k ↦ true
      ]

  unfoldable pub find_job_index : (master_id : ℕ) → Spooler C → Option ℕ
  find_job_index master_id s = find_first max_jobs 0 (λ i. s.job_to_master_id i == master_id)

  unfoldable pub find_printer_by_job_index : ℕ → Spooler C → Option ℕ
  find_printer_by_job_index i s =
      find_first s.next_free_index 0 (λ k. is_job (s.list_printers k).job_index i)

  -- The index is empty for -1, where no cell is free.
  abbrev pub place_job : Option ℕ → Job → Spooler C → Spooler C
  place_job none job s = s
  place_job (some i) job s = set_job i job s

  unfoldable pub add_job_to_list : Job → Spooler C → Option ℕ × Spooler C
  add_job_to_list job s =
      let found = find_first max_jobs 0 (λ i. is_free (s.list_jobs i)) in
      (found, place_job found job s)

  unfoldable pub delete_job : (now i : ℕ) → Spooler C → Spooler C
  delete_job now i s =
      let job = s.list_jobs i in
      if has_ended job.status && has_waited now job.wait4_ten_second
      then report (sf_job_deleted i)
          (set_job i (record job { job_position_taken = false; status = job_deleted }) s)
      else s

  -- With what `time` returns in each round.
  unfoldable pub delete_jobs : (now : ℕ → ℕ) → Spooler C → Spooler C
  delete_jobs now s = for_range max_jobs 0 (λ i. delete_job (now i) i) s
