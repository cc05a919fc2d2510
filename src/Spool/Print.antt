-- ===== src/Spool/Print.antt =====
-- The command `print` of `run_cli` in hw4/src/cli.c. A result `none` is a read of an element of
-- `validInputPrinters` that was not written, or a write behind its end. Memory is always to be had.
use cse_320_repository.Base.{
  ℕ, ◌^◌, ltb, ◌==◌, if◌then◌else◌, true, Option, none, some, List, [], ◌∷◌, negsuc, Text, length,
}
use cse_320_repository.Spool.State.{
  ok, error, Spooler, System, Job, job_created, sf_job_created, report,
}
use cse_320_repository.Spool.Tables.{get_printer_index, printer_exist, add_job_to_list}

abbrev pub queued : (file_type filename : Text) → (eligible : ℕ) → Job
queued file_type filename eligible = record {
  file_type = file_type;
  filename = filename;
  status = job_created;
  eligible_printer = eligible;
  job_position_taken = true;
  wait4_ten_second = negsuc 0;
}

module _ {C : Type 0} where
  -- The words that name a printer, as `validInputPrinters` holds them.
  unfoldable pub valid_input_printers : List Text → Spooler C → List Text
  valid_input_printers [] s = []
  valid_input_printers (w ∷ ws) s =
      let rest = valid_input_printers ws s in if printer_exist w s then w ∷ rest else rest

  -- All rounds of the loop read element 0, and none is made with 32 names.
  unfoldable pub eligible_printers : List Text → Spooler C → Option ℕ
  eligible_printers [] s = none
  eligible_printers (w ∷ ws) s =
      if ltb (length ws) 31
      then elim (get_printer_index w s) [ none ↦ none | some k ↦ some (2 ^ k) ]
      else if length ws == 31
      then some 0
      else none

  unfoldable pub queue_job : (filename file_type : Text) → (eligible : ℕ) → Spooler C → Spooler C
  queue_job filename file_type eligible s =
      let (index, t) = add_job_to_list (queued file_type filename eligible) s in
      ok (report (sf_job_created index filename file_type) t)

module _ {C : Type 0} (sys : System C) where
  unfoldable pub print_command : List Text → Spooler C → Option (Spooler C)
  print_command [] s = some (error s)
  print_command (filename ∷ printers) s = elim (sys.infer_file_type filename s.conversions) [
    | none ↦ some (error s)
    | some file_type ↦ elim printers [
      | [] ↦ some (queue_job filename file_type 0xffffffff s)
      | w ∷ ws ↦ elim (eligible_printers (valid_input_printers (w ∷ ws) s) s) [
        | none ↦ none
        | some eligible ↦ some (queue_job filename file_type eligible s)
      ]
    ]
  ]
