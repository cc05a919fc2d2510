-- ===== src/Spool/Tests.antt =====
-- Runs of the spooler, and the theorems at such runs.
use cse_320_repository.Base.{
  ℕ, ◌+◌, ◌<◌, ◌≤◌, ◌==◌, ◌≢◌, ◌∙◌, sym, subst, inl, inr, Bool-cases, ==_iff, Bool, true, false,
  Option, none, some, List, [], ◌∷◌, pos, codes, ◌≡◌, refl, arith, find_first, for_range, update,
}
use cse_320_repository.Spool.State.{
  processes, printer_busy, System, Spooler, Printer, Job, JobStatus, exited, start, printer_idle,
  job_running, job_finished, job_created, sf_job_finished, sf_printer_status, sf_job_status,
  max_jobs,
}
use cse_320_repository.Spool.Arguments.{strtok, split_words, string_to_integer}
use cse_320_repository.Spool.Tables.{
  get_printer_index, printer_exist, find_job_index, find_printer_by_job_index, add_job_to_list,
  delete_job, delete_jobs,
}
use cse_320_repository.Spool.Scan.{
  scan_job, scan_jobs, start_job, choose_printer, job_path, format_match,
}
use cse_320_repository.Spool.Scan.Saturated.{IsSaturated, scan_jobs-IsSaturated}
use cse_320_repository.Spool.Scan.Late.{scan_jobs-late}
use cse_320_repository.Spool.Handler.{
  Reaped, master_sig_handler, reap, change_job, end_job, release_printer,
}
use cse_320_repository.Spool.Commands.{
  run_line, run_words, run_batch, command, printer_command, add_printer, status_command,
  set_printer_status, quits,
}
use cse_320_repository.Spool.Print.{
  print_command, queue_job, eligible_printers, valid_input_printers,
}
use cse_320_repository.Spool.Consistent.{IsForking, IsAmong, IsConsistent, is_active}
use cse_320_repository.Spool.Consistent.Reaped.{IsSole, IsReaped, reap-IsReaped}
use cse_320_repository.Spool.Reach.{
  IsUnmistaken, Reach, read, scanned, signalled, here, next, Reach-IsConsistent, Reach-done,
}

abbrev bound_of : List ℕ → ℕ
bound_of [] = 0
bound_of (p ∷ ps) = p + bound_of ps

bound_of-IsAmong : (p : ℕ) (ps : List ℕ) → IsAmong p ps → p ≤ bound_of ps
bound_of-IsAmong p [] h = elim h [ ]
bound_of-IsAmong p (q ∷ qs) (inl e) = omega arith
bound_of-IsAmong p (q ∷ qs) (inr h) = omega (arith, bound_of-IsAmong p qs h)

-- A library in which any name is a type and all files are pdf, and no conversion is known.
abbrev sys : System (Unit {0})
sys = record {
  define_type = λ name c. (some name, c);
  find_type = λ name c. some name;
  infer_file_type = λ name c. some (codes "pdf");
  define_conversion = λ from to cmd c. (true, c);
  find_conversion_path = λ from to c. none;
  fork = λ ps n. bound_of ps + 100;
}

forking : IsForking sys
forking = record { new = λ ps n p h e. omega (arith, bound_of-IsAmong p ps h, e) }

-- A printer is declared and enabled, a file is queued, and its job is started.
abbrev declared : Spooler (Unit {0})
declared = add_printer sys (codes "alice") (codes "pdf") (start tt)

abbrev enabled : Spooler (Unit {0})
enabled = set_printer_status printer_idle (codes "alice") declared

abbrev queued_file : Spooler (Unit {0})
queued_file = queue_job (codes "foo.pdf") (codes "pdf") 0xffffffff enabled

abbrev printing : Spooler (Unit {0})
printing = start_job sys 0 0 (codes "/bin/cat" ∷ []) queued_file

declared_run : run_line sys (codes "printer alice pdf") (start tt) ≡ some declared
unfolding run_line strtok split_words run_words command printer_command printer_exist find_first
declared_run = refl

enabled_run : run_line sys (codes "enable alice") declared ≡ some enabled
unfolding run_line strtok split_words run_words command status_command
enabled_run = refl

queued_run : run_line sys (codes "print  foo.pdf") enabled ≡ some queued_file
unfolding run_line strtok split_words run_words command print_command
queued_run = refl

printing_run : scan_jobs sys queued_file ≡ printing
unfolding scan_jobs for_range scan_job choose_printer job_path format_match queue_job
    add_job_to_list find_first set_printer_status get_printer_index add_printer start_job
printing_run = refl

to_printing : Reach sys tt printing
to_printing =
    next
      (next
        (next (next here (read (codes "printer alice pdf") declared_run))
          (read (codes "enable alice") enabled_run))
        (read (codes "print  foo.pdf") queued_run))
      (scanned printing_run)

printing-IsUnmistaken : IsUnmistaken sys to_printing
unfolding to_printing
printing-IsUnmistaken = ((((tt, tt), tt), tt), tt)

Reach-IsConsistent_example : IsConsistent printing
Reach-IsConsistent_example = Reach-IsConsistent sys forking tt to_printing printing-IsUnmistaken

-- The process of the job, which is 100, exits at the time 9.
abbrev exit_of_child : Reaped
exit_of_child = record { pid = 100; childstatus = exited 0; now = 9 }

abbrev alice : Printer
alice = record {
  printer_name = codes "alice";
  status = printer_idle;
  file_type = codes "pdf";
  id = 0;
  job_index = none;
}

abbrev finished_job : Job
finished_job = record {
  file_type = codes "pdf";
  filename = codes "foo.pdf";
  status = job_finished;
  eligible_printer = 0xffffffff;
  job_position_taken = true;
  wait4_ten_second = pos 9;
}

abbrev finished : Spooler (Unit {0})
finished = record printing {
  list_printers = update printing.list_printers 0 alice;
  list_jobs = update printing.list_jobs 0 finished_job;
  master_child_count = pos 0;
  events =
      sf_printer_status (codes "alice") printer_idle
      ∷ sf_job_finished 0 (exited 0)
      ∷ sf_job_status 0 job_finished
      ∷ printing.events;
}

printing-active : is_active (printing.list_jobs 0).status ≡ true
unfolding start_job
printing-active = refl

printing-id : 100 ≡ printing.job_to_master_id 0
unfolding processes start_job queue_job add_job_to_list find_first set_printer_status
    get_printer_index add_printer
printing-id = refl

printing-only : (j : ℕ) → printing.job_to_master_id j ≡ 100 → j ≡ 0
unfolding processes start_job queue_job add_job_to_list find_first set_printer_status
    get_printer_index add_printer
printing-only j e = elim (Bool-cases (j == 0)) [
  | inl same ↦ (==_iff j 0).0 same
  | inr other ↦ absurd (zero_ne (rw other at e))
]
  where
    zero_ne : ◌≢◌ {A = ℕ} 0 100
    zero_ne e = omega (arith, e)

printing-IsSole : IsSole 0 printing
printing-IsSole j below same = printing-only j (same ∙ sym printing-id)

finished_run : master_sig_handler (exit_of_child ∷ []) printing ≡ some finished
unfolding master_sig_handler reap change_job end_job release_printer find_job_index
    find_printer_by_job_index find_first processes start_job queue_job add_job_to_list
    set_printer_status get_printer_index add_printer
finished_run = refl

to_finished : Reach sys tt finished
to_finished = next to_printing (
    signalled (exit_of_child ∷ []) ((0, omega arith, printing-active, printing-id), λ t e. tt)
      finished_run)

finished-IsUnmistaken : IsUnmistaken sys to_finished
unfolding to_finished
finished-IsUnmistaken = (
  printing-IsUnmistaken,
  (
    (λ i below same.
        subst (λ j. IsSole j printing) (sym (printing-only i (sym same))) printing-IsSole),
    λ t e. tt,
  ),
)

Reach-done_example :
    ((i : ℕ) → i < max_jobs → is_active (finished.list_jobs i).status ≡ false)
    × ((k : ℕ) → k < finished.next_free_index → (finished.list_printers k).job_index ≡ none)
Reach-done_example = Reach-done sys forking tt to_finished finished-IsUnmistaken refl

reap-IsReaped_example :
    (t : Spooler (Unit {0})) × (reap exit_of_child printing ≡ some t)
    × IsReaped 0 job_finished printing t
reap-IsReaped_example =
    reap-IsReaped exit_of_child 0 printing
      (Reach-IsConsistent sys forking tt to_printing printing-IsUnmistaken) (omega arith)
      printing-active printing-IsSole printing-id

-- Another file waits while the only printer works.
abbrev waiting : Spooler (Unit {0})
waiting = queue_job (codes "bar.pdf") (codes "pdf") 0xffffffff printing

scan_jobs-IsSaturated_example : IsSaturated sys max_jobs (scan_jobs sys waiting)
scan_jobs-IsSaturated_example = scan_jobs-IsSaturated sys waiting

-- A state with nine idle printers and a job that any of them may print.
abbrev nine_printers : Spooler (Unit {0})
nine_printers = record queued_file {
  list_printers = λ k. record alice { id = k };
  next_free_index = 9;
}

scan_jobs-late_example :
    (scan_jobs sys nine_printers).list_printers 8 ≡ nine_printers.list_printers 8
scan_jobs-late_example = scan_jobs-late sys 8 (omega arith) nine_printers

-- Characters behind the second are not read.
number_of_three : string_to_integer (codes "42x") ≡ some 42
unfolding string_to_integer
number_of_three = refl

-- A batch: the second file is eligible for the printer that is named, and waits for it.
batch : Option (Bool × Spooler (Unit {0}))
batch =
    run_batch sys
      ((codes "printer alice pdf", λ i. 0)
        ∷ (codes "enable alice", λ i. 1)
        ∷ (codes " ", λ i. 1)
        ∷ (codes "print foo.pdf", λ i. 2)
        ∷ (codes "print bar.pdf alice", λ i. 3)
        ∷ (codes "quit", λ i. 3)
        ∷ (codes "jobs", λ i. 4)
        ∷ [])
      (start tt)

abbrev batch_statuses :
    Option (Bool × Spooler (Unit {0})) → Option (Bool × JobStatus × JobStatus × ℕ)
batch_statuses none = none
batch_statuses (some (finished, s)) =
    some
      (finished, (s.list_jobs 0).status, (s.list_jobs 1).status, (s.list_jobs 1).eligible_printer)

batch_runs : batch_statuses batch ≡ some (true, job_running, job_created, 1)
unfolding batch run_batch strtok split_words command printer_command printer_exist find_first
    status_command print_command set_printer_status get_printer_index add_printer queue_job
    add_job_to_list eligible_printers valid_input_printers scan_jobs for_range scan_job
    choose_printer job_path format_match start_job delete_jobs delete_job quits
batch_runs = refl

-- The number 7 of a process was given again: the handler takes the job that has ended, which has no
-- printer, for the one that runs, and `list_printers` is read at the index -1.
abbrev mistaken : Spooler (Unit {0})
mistaken = record printing {
  list_jobs =
      update (update printing.list_jobs 1 (record finished_job { status = job_running })) 0
        finished_job;
  job_to_master_id = λ j. 7;
  list_printers =
      update printing.list_printers 0 (record alice { status = printer_busy; job_index = some 1 });
}

mistaken_runs : reap (record { pid = 7; childstatus = exited 0; now = 9 }) mistaken ≡ none
unfolding reap change_job end_job release_printer find_job_index find_printer_by_job_index
    find_first start_job queue_job add_job_to_list set_printer_status get_printer_index add_printer
mistaken_runs = refl
