-- ===== src/Spool/State.antt =====
-- The globals of the spooler: hw4/include/helpingFunction.h, hw4/include/imprimer.h and hw4/src/cli.c.
-- A file type is the text of its name, by which all code compares it. The calls that report an event and the
-- signals sent to a process group are recorded, the latest first; the text printed is left out.
use cse_320_repository.Base.{
  ℕ, zero, suc, Bool, true, false, Option, none, List, [], ◌∷◌, Text, ℤ, pos, negsuc, update,
  if◌then◌else◌,
}

pub data PrinterStatus : Type 0 where
  printer_disabled printer_idle printer_busy : PrinterStatus

pub data JobStatus : Type 0 where
  job_created job_running job_paused job_finished job_aborted job_deleted : JobStatus

-- `job_index` is empty for -1.
pub record Printer : Type 0 where
  pub printer_name : Text
  pub status : PrinterStatus
  pub file_type : Text
  pub id : ℕ
  pub job_index : Option ℕ

pub record Job : Type 0 where
  pub file_type : Text
  pub filename : Text
  pub status : JobStatus
  pub eligible_printer : ℕ
  pub job_position_taken : Bool
  pub wait4_ten_second : ℤ

-- What the macros of <sys/wait.h> say of a status; `unknown` is a status that none of them knows.
pub data ChildStatus : Type 0 where
  exited signaled : (code : ℕ) → ChildStatus
  stopped continued unknown : ChildStatus

pub data Signal : Type 0 where
  sigstop sigcont sigterm : Signal

pub data Event : Type 0 where
  sf_cmd_ok sf_cmd_error : Event
  sf_printer_defined : (name file_type : Text) → Event
  sf_printer_status : (name : Text) → PrinterStatus → Event
  sf_job_created : (id : Option ℕ) → (filename file_type : Text) → Event
  sf_job_started : (id : ℕ) → (printer : Text) → (pgid : ℕ) → (path : List Text) → Event
  sf_job_finished sf_job_aborted : (id : ℕ) → ChildStatus → Event
  sf_job_deleted : (id : ℕ) → Event
  sf_job_status : (id : ℕ) → JobStatus → Event
  killpg : (pgid : ℕ) → Signal → Event

-- The library of conversions, whose code is not in the repository, over a state of its own, and the process
-- numbers that the calls of `fork` return: by the numbers of the processes that have not been waited for,
-- and how often it was called before. A path is the list of the programs it runs.
pub record System (C : Type 0) : Type 0 where
  pub define_type : Text → C → Option Text × C
  pub find_type : Text → C → Option Text
  pub infer_file_type : Text → C → Option Text
  pub define_conversion : (from to : Text) → (cmd_and_args : List Text) → C → Bool × C
  pub find_conversion_path : (from to : Text) → C → Option (List Text)
  pub fork : List ℕ → ℕ → ℕ

pub record Spooler (C : Type 0) : Type 0 where
  pub list_printers : ℕ → Printer
  pub next_free_index : ℕ
  pub list_jobs : ℕ → Job
  pub job_to_master_id : ℕ → ℕ
  pub master_child_count : ℤ
  pub conversions : C
  pub forked : ℕ
  pub events : List Event

abbrev pub max_printers : ℕ
max_printers = 32

abbrev pub max_jobs : ℕ
max_jobs = 64

-- The globals are all 0 at first. The NULL of a text is written as the empty text, and is not read: a cell of
-- `list_printers` is used below `next_free_index` and a cell of `list_jobs` where its position is taken.
abbrev pub no_printer : Printer
no_printer = record {
  printer_name = [];
  status = printer_disabled;
  file_type = [];
  id = 0;
  job_index = none;
}

abbrev pub no_job : Job
no_job = record {
  file_type = [];
  filename = [];
  status = job_created;
  eligible_printer = 0;
  job_position_taken = false;
  wait4_ten_second = pos 0;
}

abbrev pub start : {C : Type 0} → C → Spooler C
start conversions = record {
  list_printers = λ k. no_printer;
  next_free_index = 0;
  list_jobs = λ i. no_job;
  job_to_master_id = λ i. 0;
  master_child_count = pos 0;
  conversions = conversions;
  forked = 0;
  events = [];
}

-- `++` and `--` on an `int`.
abbrev pub increment : ℤ → ℤ
increment (pos n) = pos (suc n)
increment (negsuc zero) = pos 0
increment (negsuc (suc n)) = negsuc n

abbrev pub decrement : ℤ → ℤ
decrement (pos zero) = negsuc 0
decrement (pos (suc n)) = pos n
decrement (negsuc n) = negsuc (suc n)

abbrev pub is_disabled : PrinterStatus → Bool
is_disabled printer_disabled = true
is_disabled printer_idle = false
is_disabled printer_busy = false

abbrev pub is_idle : PrinterStatus → Bool
is_idle printer_disabled = false
is_idle printer_idle = true
is_idle printer_busy = false

abbrev pub is_created : JobStatus → Bool
is_created job_created = true
is_created s = false

abbrev pub is_running : JobStatus → Bool
is_running job_running = true
is_running s = false

abbrev pub is_paused : JobStatus → Bool
is_paused job_paused = true
is_paused s = false

abbrev pub is_deleted : JobStatus → Bool
is_deleted job_deleted = true
is_deleted s = false

-- Running or paused.
abbrev pub is_active : JobStatus → Bool
is_active job_running = true
is_active job_paused = true
is_active s = false

-- The processes of the first `n` jobs that have not been waited for.
unfoldable pub processes : (n : ℕ) → (jobs : ℕ → Job) → (ids : ℕ → ℕ) → List ℕ
processes zero jobs ids = []
processes (suc n) jobs ids =
    let others = processes n jobs ids in
    if is_active (jobs n).status then ids n ∷ others else others

-- Finished or aborted.
abbrev pub has_ended : JobStatus → Bool
has_ended job_finished = true
has_ended job_aborted = true
has_ended s = false

module _ {C : Type 0} where
  abbrev pub report : Event → Spooler C → Spooler C
  report e s = record s { events = e ∷ s.events }

  abbrev pub set_printer : ℕ → Printer → Spooler C → Spooler C
  set_printer k p s = record s { list_printers = update s.list_printers k p }

  abbrev pub set_job : ℕ → Job → Spooler C → Spooler C
  set_job i job s = record s { list_jobs = update s.list_jobs i job }

  abbrev pub ok : Spooler C → Spooler C
  ok s = report sf_cmd_ok s

  abbrev pub error : Spooler C → Spooler C
  error s = report sf_cmd_error s
