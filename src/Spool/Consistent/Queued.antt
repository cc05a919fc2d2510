-- ===== src/Spool/Consistent/Queued.antt =====
-- `print`, `printer` and the dispatch of `run_cli` in hw4 keep the links of printers and jobs.
use cse_320_repository.Base.{
  ℕ, ◌≤◌, ◌<◌, ◌==◌, true, false, List, [], ◌∷◌, ◌≡◌, ◌≢◌, refl, sym, ◌∙◌, subst, inl, inr, arith,
  Bool-cases, Option-cases, find_first, find_first-IsFirst, Text, codes, same_text,
}
use cse_320_repository.Spool.State.{
  Spooler, System, Job, JobStatus, job_deleted, printer_idle, printer_busy, printer_disabled,
  is_deleted, max_jobs, max_printers,
}
use cse_320_repository.Spool.Tables.{is_free, place_job, add_job_to_list, printer_exist}
use cse_320_repository.Spool.Commands.{
  add_printer, printer_command, command, new_printer, pause_job, resume_job, cancel_job,
}
use cse_320_repository.Spool.Print.{
  queue_job, print_command, queued, eligible_printers, valid_input_printers,
}
use cse_320_repository.Spool.Consistent.{IsConsistent, is_active}
use cse_320_repository.Spool.Consistent.Changed.{IsLinked-job, IsLinked-add}
use cse_320_repository.Spool.Consistent.Commanded.{
  Keeps, Keeps-if, if-IsConsistent, help-IsConsistent, jobs-IsConsistent, printers-IsConsistent,
  status-IsConsistent, job-IsConsistent, pause-IsConsistent, resume-IsConsistent,
  cancel-IsConsistent, type-IsConsistent, conversion-IsConsistent,
}

-- A cell that may be overwritten is not worked on.
free-inactive :
    (job : Job)
    → (is_active job.status ≡ true → job.job_position_taken ≡ true)
    → is_free job ≡ true
    → is_active job.status ≡ false
free-inactive job held e = elim (Bool-cases (is_active job.status)) [
  | inl active ↦ absurd (cc (rw (held active) at e, deleted-inactive job.status active))
  | inr idle ↦ idle
]
  where
    deleted-inactive : (status : JobStatus) → is_active status ≡ true → is_deleted status ≡ false
    deleted-inactive job_deleted e = cc
    deleted-inactive _ e = refl

below_max : (n : ℕ) → (n == max_printers) ≡ false → n ≤ max_printers → n < max_printers
below_max n e h = ground arith

idle-ne-busy : printer_idle ≢ printer_busy
idle-ne-busy e = cc

disabled-ne-busy : printer_disabled ≢ printer_busy
disabled-ne-busy e = cc

module _ {C : Type 0} (sys : System C) where
  place_job-IsConsistent :
      (job : Job) (s : Spooler C)
      → is_active job.status ≡ false
      → IsConsistent s
      → IsConsistent (place_job (find_first max_jobs 0 (λ i. is_free (s.list_jobs i))) job s)
  place_job-IsConsistent job s idle c =
      elim (find_first-IsFirst max_jobs 0 (λ i. is_free (s.list_jobs i))) [
        | inl (full, nowhere) ↦ subst (λ o. IsConsistent (place_job o job s)) (sym full) c
        | inr (i, found, first) ↦
            subst (λ o. IsConsistent (place_job o job s)) (sym found)
              (IsLinked-job c i job
                (idle
                  ∙ sym (
                      free-inactive (s.list_jobs i) (c.held i (omega (arith, first.below)))
                        first.passes))
                (λ e. absurd (cc)))
      ]

  queue_job-IsConsistent :
      (filename file_type : Text) (eligible : ℕ) (s : Spooler C)
      → IsConsistent s
      → IsConsistent (queue_job filename file_type eligible s)
  unfolding queue_job add_job_to_list
  queue_job-IsConsistent filename file_type eligible s c =
      place_job-IsConsistent (queued file_type filename eligible) s refl c

  print-Keeps :
      (args : List Text) (s : Spooler C) → IsConsistent s → Keeps sys (print_command sys args s)
  unfolding print_command
  print-Keeps [] s c = c
  print-Keeps (filename ∷ []) s c =
      elim (Option-cases (sys.infer_file_type filename s.conversions)) [
        | inl missing ↦ rw (print_command, missing) c
        | inr (file_type, found) ↦
            rw (print_command, found) (queue_job-IsConsistent filename file_type _ s c)
      ]
  print-Keeps (filename ∷ w ∷ ws) s c =
      elim (Option-cases (sys.infer_file_type filename s.conversions)) [
        | inl missing ↦ rw (print_command, missing) c
        | inr (file_type, found) ↦
            elim (Option-cases (eligible_printers (valid_input_printers (w ∷ ws) s) s)) [
              | inl fault ↦ rw (print_command, found, fault) tt
              | inr (eligible, e) ↦
                  rw (print_command, found, e)
                    (queue_job-IsConsistent filename file_type eligible s c)
            ]
      ]

  add_printer-IsConsistent :
      (name file_type : Text) (s : Spooler C)
      → (s.next_free_index == max_printers) ≡ false
      → IsConsistent s
      → IsConsistent (add_printer sys name file_type s)
  unfolding add_printer
  add_printer-IsConsistent name file_type s room c =
      IsLinked-add c (new_printer sys name file_type s.next_free_index)
        (below_max s.next_free_index room c.bounded) refl refl

  printer-IsConsistent :
      (args : List Text) (s : Spooler C)
      → IsConsistent s
      → IsConsistent (printer_command sys args s)
  unfolding printer_command
  printer-IsConsistent (name ∷ file_type ∷ []) s c =
      elim (Bool-cases (s.next_free_index == max_printers)) [
        | inl full ↦ rw (printer_command, full) c
        | inr room ↦ elim (Option-cases (sys.find_type file_type s.conversions)) [
          | inl missing ↦ rw (printer_command, room, missing) c
          | inr (found_type, found) ↦
              rw (printer_command, room, found)
                (if-IsConsistent sys (printer_exist name s) _ _ c
                  (add_printer-IsConsistent name found_type s room c))
        ]
      ]
  printer-IsConsistent [] s c = c
  printer-IsConsistent (w ∷ []) s c = c
  printer-IsConsistent (u ∷ v ∷ w ∷ ws) s c = c

  -- A command that ends without a fault keeps the links.
  pub command-Keeps :
      (keyword : Text) (args : List Text) (s : Spooler C)
      → IsConsistent s
      → Keeps sys (command sys keyword args s)
  unfolding command
  command-Keeps keyword args s c =
      Keeps-if sys (same_text keyword (codes "help")) _ _ (help-IsConsistent sys args s c) (
        Keeps-if sys (same_text keyword (codes "type")) _ _ (type-IsConsistent sys args s c) (
          Keeps-if sys (same_text keyword (codes "conversion")) _ _
            (conversion-IsConsistent sys args s c)
            (Keeps-if sys (same_text keyword (codes "print")) _ _ (print-Keeps args s c) (
              Keeps-if sys (same_text keyword (codes "jobs")) _ _ (jobs-IsConsistent sys args s c) (
                Keeps-if sys (same_text keyword (codes "printer")) _ _
                  (printer-IsConsistent args s c)
                  (Keeps-if sys (same_text keyword (codes "printers")) _ _
                    (printers-IsConsistent sys args s c)
                    (Keeps-if sys (same_text keyword (codes "enable")) _ _
                      (status-IsConsistent sys printer_idle args s idle-ne-busy c)
                      (Keeps-if sys (same_text keyword (codes "disable")) _ _
                        (status-IsConsistent sys printer_disabled args s disabled-ne-busy c)
                        (Keeps-if sys (same_text keyword (codes "pause")) _ _
                          (job-IsConsistent sys pause_job (pause-IsConsistent sys) args s c)
                          (Keeps-if sys (same_text keyword (codes "resume")) _ _
                            (job-IsConsistent sys resume_job (resume-IsConsistent sys) args s c)
                            (Keeps-if sys (same_text keyword (codes "cancel")) _ _
                              (job-IsConsistent sys cancel_job (cancel-IsConsistent sys) args s c)
                              (Keeps-if sys (same_text keyword (codes "quit")) _ _
                                (help-IsConsistent sys args s c) c))))))))))))
