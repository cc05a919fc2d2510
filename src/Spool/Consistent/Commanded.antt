-- ===== src/Spool/Consistent/Commanded.antt =====
-- The commands of `run_cli` in hw4 keep the links of printers and jobs.
use cse_320_repository.Base.{
  ℕ, if◌then◌else◌, Bool, true, false, ◌&&◌, Option, none, some, List, [], ◌∷◌, ◌≢◌, refl, inl, inr,
  arith, Option-cases, for_range_inv, Text,
}
use cse_320_repository.Spool.State.{
  Spooler, System, PrinterStatus, printer_busy, is_running, is_paused, max_jobs,
}
use cse_320_repository.Spool.Tables.{get_printer_index}
use cse_320_repository.Spool.Commands.{
  report_job, report_printer, help_command, jobs_command, printers_command, set_printer_status,
  status_command, pause_job, resume_job, cancel_job, job_command, type_command, conversion_command,
}
use cse_320_repository.Spool.Arguments.{string_to_integer}
use cse_320_repository.Spool.Consistent.{IsConsistent}
use cse_320_repository.Spool.Consistent.Changed.{IsLinked-printer}

module _ {C : Type 0} (sys : System C) where
  -- A result in which the links hold, if there is one.
  abbrev pub Keeps : Option (Spooler C) → Type 0
  Keeps none = Unit
  Keeps (some t) = IsConsistent t

  pub Keeps-if :
      (b : Bool) (x y : Option (Spooler C)) → Keeps x → Keeps y → Keeps (if b then x else y)
  Keeps-if true x y p q = p
  Keeps-if false x y p q = q

  pub if-IsConsistent :
      (b : Bool) (x y : Spooler C)
      → IsConsistent x
      → IsConsistent y
      → IsConsistent (if b then x else y)
  if-IsConsistent true x y p q = p
  if-IsConsistent false x y p q = q

  pub help-IsConsistent :
      (args : List Text) (s : Spooler C) → IsConsistent s → IsConsistent (help_command args s)
  help-IsConsistent [] s c = c
  help-IsConsistent (w ∷ ws) s c = c

  pub jobs-IsConsistent :
      (args : List Text) (s : Spooler C) → IsConsistent s → IsConsistent (jobs_command args s)
  unfolding jobs_command report_job
  jobs-IsConsistent [] s c =
      for_range_inv (λ i t. IsConsistent t) report_job max_jobs 0 max_jobs s (omega arith)
        (λ i t below k. if-IsConsistent _ _ t k k) c
  jobs-IsConsistent (w ∷ ws) s c = c

  pub printers-IsConsistent :
      (args : List Text) (s : Spooler C) → IsConsistent s → IsConsistent (printers_command args s)
  unfolding printers_command report_printer
  printers-IsConsistent [] s c =
      for_range_inv (λ i t. IsConsistent t) report_printer s.next_free_index 0 s.next_free_index s
        (omega arith) (λ i t below k. k) c
  printers-IsConsistent (w ∷ ws) s c = c

  set_printer_status-IsConsistent :
      (status : PrinterStatus) (name : Text) (s : Spooler C)
      → status ≢ printer_busy
      → IsConsistent s
      → IsConsistent (set_printer_status status name s)
  unfolding set_printer_status
  set_printer_status-IsConsistent status name s idle c =
      elim (Option-cases (get_printer_index name s)) [
        | inl missing ↦ rw (set_printer_status, missing) c
        | inr (k, found) ↦
            rw (set_printer_status, found)
              (IsLinked-printer c k (record (s.list_printers k) { status = status }) refl idle)
      ]

  pub status-IsConsistent :
      (status : PrinterStatus) (args : List Text) (s : Spooler C)
      → status ≢ printer_busy
      → IsConsistent s
      → IsConsistent (status_command status args s)
  unfolding status_command
  status-IsConsistent status [] s idle c = c
  status-IsConsistent status (name ∷ []) s idle c =
      set_printer_status-IsConsistent status name s idle c
  status-IsConsistent status (v ∷ w ∷ ws) s idle c = c

  pub job-IsConsistent :
      (run : ℕ → Spooler C → Spooler C)
      → ((i : ℕ) (s : Spooler C) → IsConsistent s → IsConsistent (run i s))
      → (args : List Text) (s : Spooler C) → IsConsistent s
      → IsConsistent (job_command run args s)
  unfolding job_command
  job-IsConsistent run keep [] s c = c
  job-IsConsistent run keep (number ∷ []) s c = elim (Option-cases (string_to_integer number)) [
    | inl bad ↦ rw (job_command, bad) c
    | inr (i, good) ↦ rw (job_command, good) (keep i s c)
  ]
  job-IsConsistent run keep (v ∷ w ∷ ws) s c = c

  pub pause-IsConsistent : (i : ℕ) (s : Spooler C) → IsConsistent s → IsConsistent (pause_job i s)
  unfolding pause_job
  pause-IsConsistent i s c =
      if-IsConsistent ((s.list_jobs i).job_position_taken && is_running (s.list_jobs i).status) _ _
        c c

  pub resume-IsConsistent : (i : ℕ) (s : Spooler C) → IsConsistent s → IsConsistent (resume_job i s)
  unfolding resume_job
  resume-IsConsistent i s c =
      if-IsConsistent ((s.list_jobs i).job_position_taken && is_paused (s.list_jobs i).status) _ _ c
        c

  pub cancel-IsConsistent : (i : ℕ) (s : Spooler C) → IsConsistent s → IsConsistent (cancel_job i s)
  unfolding cancel_job
  cancel-IsConsistent i s c =
      if-IsConsistent ((s.list_jobs i).job_position_taken && is_running (s.list_jobs i).status) _ _
        c
        (if-IsConsistent ((s.list_jobs i).job_position_taken && is_paused (s.list_jobs i).status) _
          _ c c)

  pub type-IsConsistent :
      (args : List Text) (s : Spooler C) → IsConsistent s → IsConsistent (type_command sys args s)
  unfolding type_command
  type-IsConsistent [] s c = c
  type-IsConsistent (w ∷ []) s c = elim (Option-cases (sys.define_type w s.conversions).0) [
    | inl missing ↦ rw (type_command, missing) c
    | inr (name, found) ↦ rw (type_command, found) c
  ]
  type-IsConsistent (v ∷ w ∷ ws) s c = c

  pub conversion-IsConsistent :
      (args : List Text) (s : Spooler C)
      → IsConsistent s
      → IsConsistent (conversion_command sys args s)
  unfolding conversion_command
  conversion-IsConsistent (from ∷ to ∷ cmd ∷ args) s c =
      elim (Option-cases (sys.find_type from s.conversions)) [
        | inl missing ↦ rw (conversion_command, missing) c
        | inr (source, found) ↦ elim (Option-cases (sys.find_type to s.conversions)) [
          | inl missing ↦ rw (conversion_command, found, missing) c
          | inr (target, found') ↦
              rw (conversion_command, found, found') (if-IsConsistent _ _ _ c c)
        ]
      ]
  conversion-IsConsistent [] s c = c
  conversion-IsConsistent (u ∷ []) s c = c
  conversion-IsConsistent (u ∷ v ∷ []) s c = c
