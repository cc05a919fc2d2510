-- ===== src/Spool/Commands.antt =====
-- The commands of `run_cli` in hw4/src/cli.c. Memory is always to be had; `none` is a fault of `print`.
use cse_320_repository.Base.{
  ℕ, suc, ◌==◌, if◌then◌else◌, Bool, true, false, ◌&&◌, Option, none, some, List, [], ◌∷◌, Text,
  codes, same_text, for_range, update,
}
use cse_320_repository.Spool.State.{
  ok, error, Spooler, System, Printer, Signal, sigstop, sigcont, sigterm, printer_disabled,
  printer_idle, PrinterStatus, sf_printer_defined, sf_printer_status, sf_job_status, killpg,
  is_running, is_paused, max_printers, max_jobs, report, set_printer,
}
use cse_320_repository.Spool.Print.{print_command}
use cse_320_repository.Spool.Arguments.{strtok, string_to_integer}
use cse_320_repository.Spool.Tables.{get_printer_index, printer_exist, delete_jobs}
use cse_320_repository.Spool.Scan.{scan_jobs}

module _ {C : Type 0} where
  -- Commands with no arguments.
  abbrev pub help_command : List Text → Spooler C → Spooler C
  help_command [] s = ok s
  help_command (w ∷ ws) s = error s

  unfoldable pub report_job : ℕ → Spooler C → Spooler C
  report_job i s =
      let job = s.list_jobs i in
      if job.job_position_taken then report (sf_job_status i job.status) s else s

  unfoldable pub jobs_command : List Text → Spooler C → Spooler C
  jobs_command [] s = ok (for_range max_jobs 0 report_job s)
  jobs_command (w ∷ ws) s = error s

  unfoldable pub report_printer : ℕ → Spooler C → Spooler C
  report_printer k s =
      let p = s.list_printers k in report (sf_printer_status p.printer_name p.status) s

  unfoldable pub printers_command : List Text → Spooler C → Spooler C
  printers_command [] s = ok (for_range s.next_free_index 0 report_printer s)
  printers_command (w ∷ ws) s = error s

  -- `enable` and `disable`.
  unfoldable pub set_printer_status : PrinterStatus → Text → Spooler C → Spooler C
  set_printer_status status name s = elim (get_printer_index name s) [
    | none ↦ error s
    | some k ↦
        let p = s.list_printers k in
        ok (
          report (sf_printer_status p.printer_name status)
            (set_printer k (record p { status = status }) s))
  ]

  unfoldable pub status_command : PrinterStatus → List Text → Spooler C → Spooler C
  status_command status (name ∷ []) s = set_printer_status status name s
  status_command status [] s = error s
  status_command status (v ∷ w ∷ ws) s = error s

  -- A signal to the process group of a job.
  abbrev pub signal_job : ℕ → Signal → Spooler C → Spooler C
  signal_job i signal s = report (killpg (s.job_to_master_id i) signal) s

  unfoldable pub pause_job : ℕ → Spooler C → Spooler C
  pause_job i s =
      let job = s.list_jobs i in
      if job.job_position_taken && is_running job.status
      then ok (signal_job i sigstop s)
      else error s

  unfoldable pub resume_job : ℕ → Spooler C → Spooler C
  resume_job i s =
      let job = s.list_jobs i in
      if job.job_position_taken && is_paused job.status
      then ok (signal_job i sigcont s)
      else error s

  unfoldable pub cancel_job : ℕ → Spooler C → Spooler C
  cancel_job i s =
      let job = s.list_jobs i in
      if job.job_position_taken && is_running job.status
      then ok (signal_job i sigterm s)
      else if job.job_position_taken && is_paused job.status
      then ok (signal_job i sigcont (signal_job i sigterm s))
      else error s

  -- `pause`, `resume` and `cancel`.
  unfoldable pub job_command : (ℕ → Spooler C → Spooler C) → List Text → Spooler C → Spooler C
  job_command run (number ∷ []) s = elim (string_to_integer number) [
    | none ↦ error s
    | some i ↦ run i s
  ]
  job_command run [] s = error s
  job_command run (v ∷ w ∷ ws) s = error s

module _ {C : Type 0} (sys : System C) where
  unfoldable pub type_command : List Text → Spooler C → Spooler C
  type_command (w ∷ []) s =
      let (found, conversions) = sys.define_type w s.conversions in
      let t = record s { conversions = conversions } in
      elim found [ none ↦ error t | some name ↦ ok t ]
  type_command [] s = error s
  type_command (v ∷ w ∷ ws) s = error s

  unfoldable pub conversion_command : List Text → Spooler C → Spooler C
  conversion_command (from ∷ to ∷ cmd ∷ args) s = elim (sys.find_type from s.conversions) [
    | none ↦ error s
    | some source ↦ elim (sys.find_type to s.conversions) [
      | none ↦ error s
      | some target ↦
          let (defined, conversions) = sys.define_conversion from to (cmd ∷ args) s.conversions in
          let t = record s { conversions = conversions } in if defined then ok t else error t
    ]
  ]
  conversion_command [] s = error s
  conversion_command (u ∷ []) s = error s
  conversion_command (u ∷ v ∷ []) s = error s

  abbrev pub new_printer : (name file_type : Text) → (id : ℕ) → Printer
  new_printer name file_type id = record {
    printer_name = name;
    status = printer_disabled;
    file_type = file_type;
    id = id;
    job_index = none;
  }

  unfoldable pub add_printer : (name file_type : Text) → Spooler C → Spooler C
  add_printer name file_type s = ok (
      report (sf_printer_defined name file_type) (record s {
        list_printers =
            update s.list_printers s.next_free_index (new_printer name file_type s.next_free_index);
        next_free_index = suc s.next_free_index;
      }))

  unfoldable pub printer_command : List Text → Spooler C → Spooler C
  printer_command (name ∷ file_type ∷ []) s =
      if s.next_free_index == max_printers
      then error s
      else elim (sys.find_type file_type s.conversions) [
        | none ↦ error s
        | some found ↦ if printer_exist name s then error s else add_printer name found s
      ]
  printer_command [] s = error s
  printer_command (w ∷ []) s = error s
  printer_command (u ∷ v ∷ w ∷ ws) s = error s

  -- The command by its keyword; an unknown one says nothing.
  unfoldable pub command : (keyword : Text) → List Text → Spooler C → Option (Spooler C)
  command keyword args s =
      if same_text keyword (codes "help")
      then some (help_command args s)
      else if same_text keyword (codes "type")
      then some (type_command args s)
      else if same_text keyword (codes "conversion")
      then some (conversion_command args s)
      else if same_text keyword (codes "print")
      then print_command sys args s
      else if same_text keyword (codes "jobs")
      then some (jobs_command args s)
      else if same_text keyword (codes "printer")
      then some (printer_command args s)
      else if same_text keyword (codes "printers")
      then some (printers_command args s)
      else if same_text keyword (codes "enable")
      then some (status_command printer_idle args s)
      else if same_text keyword (codes "disable")
      then some (status_command printer_disabled args s)
      else if same_text keyword (codes "pause")
      then some (job_command pause_job args s)
      else if same_text keyword (codes "resume")
      then some (job_command resume_job args s)
      else if same_text keyword (codes "cancel")
      then some (job_command cancel_job args s)
      else if same_text keyword (codes "quit")
      then some (help_command args s)
      else some s

  -- A line of the input, without its newline; an empty one changes nothing.
  unfoldable pub run_words : List Text → Spooler C → Option (Spooler C)
  run_words [] s = some s
  run_words (keyword ∷ args) s = command keyword args s

  unfoldable pub run_line : Text → Spooler C → Option (Spooler C)
  run_line line s = run_words (strtok line) s

  -- `quit` with no arguments ends the loop.
  unfoldable pub quits : List Text → Bool
  quits (keyword ∷ []) = same_text keyword (codes "quit")
  quits [] = false
  quits (v ∷ w ∷ ws) = false

  -- The loop of batch mode: the lines of the input, with the times at the end of each round. The result
  -- says whether `quit` was read. `continue` on an empty line leaves out the end of the round.
  unfoldable pub run_batch : List (Text × (ℕ → ℕ)) → Spooler C → Option (Bool × Spooler C)
  run_batch [] s = some (false, s)
  run_batch ((line, now) ∷ lines) s = elim (strtok line) [
    | [] ↦ run_batch lines s
    | keyword ∷ args ↦ elim (command keyword args s) [
      | none ↦ none
      | some t ↦ elim (quits (keyword ∷ args)) [
        | true ↦ some (true, delete_jobs now (scan_jobs sys t))
        | false ↦ run_batch lines (delete_jobs now (scan_jobs sys t))
      ]
    ]
  ]
