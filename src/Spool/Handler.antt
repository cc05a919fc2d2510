-- ===== src/Spool/Handler.antt =====
-- `masterSigHandler` of hw4/src/cli.c, over the results of `waitpid`. A result `none` is an access outside an
-- array, by the index -1 of a search that fails.
use cse_320_repository.Base.{ℕ, if◌then◌else◌, Option, none, some, List, [], ◌∷◌, pos, update}
use cse_320_repository.Spool.State.{
  Spooler, Printer, JobStatus, ChildStatus, Event, exited, signaled, stopped, continued, unknown,
  printer_idle, job_running, job_paused, job_finished, job_aborted, sf_job_status, sf_job_finished,
  sf_job_aborted, sf_printer_status, is_disabled, decrement, report, set_job,
}
use cse_320_repository.Spool.Tables.{find_job_index, find_printer_by_job_index}

-- What a call of `waitpid` says, and the time that `time` returns after it.
pub record Reaped : Type 0 where
  pub pid : ℕ
  pub childstatus : ChildStatus
  pub now : ℕ

abbrev pub released : Printer → Printer
released p = record p {
  status = if is_disabled p.status then p.status else printer_idle;
  job_index = none;
}

module _ {C : Type 0} where
  -- The printer of a job that has ended.
  unfoldable pub release_printer : ℕ → Spooler C → Option (Spooler C)
  release_printer i s = elim (find_printer_by_job_index i s) [
    | none ↦ none
    | some k ↦
        let p = released (s.list_printers k) in
        some (record s {
          list_printers = update s.list_printers k p;
          master_child_count = decrement s.master_child_count;
          events = sf_printer_status p.printer_name p.status ∷ s.events;
        })
  ]

  unfoldable pub set_status : ℕ → JobStatus → Spooler C → Spooler C
  set_status i status s =
      report (sf_job_status i status) (set_job i (record (s.list_jobs i) { status = status }) s)

  -- A job ends: its status, its time, the event, and its printer.
  unfoldable pub end_job : (i now : ℕ) → JobStatus → Event → Spooler C → Option (Spooler C)
  end_job i now status event s = release_printer i (record s {
    list_jobs =
        update s.list_jobs i
          (record (s.list_jobs i) { status = status; wait4_ten_second = pos now });
    events = event ∷ sf_job_status i status ∷ s.events;
  })

  unfoldable pub change_job : (i : ℕ) → ChildStatus → (now : ℕ) → Spooler C → Option (Spooler C)
  change_job i (signaled code) now s =
      end_job i now job_aborted (sf_job_aborted i (signaled code)) s
  change_job i stopped now s = some (set_status i job_paused s)
  change_job i continued now s = some (set_status i job_running s)
  change_job i (exited code) now s = end_job i now job_finished (sf_job_finished i (exited code)) s
  change_job i unknown now s = end_job i now job_aborted (sf_job_aborted i unknown) s

  unfoldable pub reap : Reaped → Spooler C → Option (Spooler C)
  reap r s = elim (find_job_index r.pid s) [
    | none ↦ none
    | some i ↦ change_job i r.childstatus r.now s
  ]

  unfoldable pub master_sig_handler : List Reaped → Spooler C → Option (Spooler C)
  master_sig_handler [] s = some s
  master_sig_handler (r ∷ rs) s = elim (reap r s) [ none ↦ none | some t ↦ master_sig_handler rs t ]
