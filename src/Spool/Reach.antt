-- ===== src/Spool/Reach.antt =====
-- Runs of the spooler of hw4/src/cli.c: lines of input, scans, deletions and deliveries of SIGCHLD, which
-- the code blocks during a scan, in any order.
use cse_320_repository.Base.{
  ℕ, ◌<◌, false, Option, none, some, List, [], ◌∷◌, ◌≡◌, sym, ◌∙◌, Option-cases, Text, pos, subst,
  inl, inr, some-injective,
}
use cse_320_repository.Spool.State.{Spooler, System, start, max_jobs}
use cse_320_repository.Spool.Arguments.{strtok}
use cse_320_repository.Spool.Scan.{scan_jobs}
use cse_320_repository.Spool.Tables.{delete_jobs}
use cse_320_repository.Spool.Handler.{Reaped, master_sig_handler}
use cse_320_repository.Spool.Commands.{run_words, run_line}
use cse_320_repository.Spool.Consistent.{
  IsConsistent, IsForking, is_active, start-IsConsistent, active_jobs-zero,
}
use cse_320_repository.Spool.Consistent.Scanned.{scan_jobs-IsConsistent, delete_jobs-IsConsistent}
use cse_320_repository.Spool.Consistent.Reaped.{
  AreChildren, AreUnmistaken, master_sig_handler-IsConsistent,
}
use cse_320_repository.Spool.Consistent.Commanded.{Keeps}
use cse_320_repository.Spool.Consistent.Queued.{command-Keeps}

module _ {C : Type 0} (sys : System C) where
  -- `read` is a line that was read, `signalled` a call of `masterSigHandler`.
  pub data Step (s t : Spooler C) : Type 0 where
    read : (line : Text) → run_line sys line s ≡ some t → Step s t
    scanned : scan_jobs sys s ≡ t → Step s t
    deleted : (now : ℕ → ℕ) → delete_jobs now s ≡ t → Step s t
    signalled : (rs : List Reaped) → AreChildren rs s → master_sig_handler rs s ≡ some t → Step s t

  pub data Reach (c : C) : Spooler C → Type 0 where
    here : Reach c (start c)
    next : {s t : Spooler C} → Reach c s → Step s t → Reach c t

  -- A run in which no number that `waitpid` reports is in two cells of `jobToMasterId`.
  abbrev pub IsUnmistakenStep : {s t : Spooler C} → Step s t → Type 0
  IsUnmistakenStep {s} (signalled rs children ran) = AreUnmistaken rs s
  IsUnmistakenStep _ = Unit

  abbrev pub IsUnmistaken : {c : C} {s : Spooler C} → Reach c s → Type 0
  IsUnmistaken here = Unit
  IsUnmistaken (next r step) = IsUnmistaken r × IsUnmistakenStep step

  Keeps-some : (o : Option (Spooler C)) (t : Spooler C) → o ≡ some t → Keeps sys o → IsConsistent t
  Keeps-some o t e k = subst (Keeps sys) e k

  run_words-Keeps :
      (ws : List Text) (s : Spooler C) → IsConsistent s → Keeps sys (run_words sys ws s)
  unfolding run_words
  run_words-Keeps [] s c = c
  run_words-Keeps (keyword ∷ args) s c = command-Keeps sys keyword args s c

  run_line-Keeps : (line : Text) (s : Spooler C) → IsConsistent s → Keeps sys (run_line sys line s)
  unfolding run_line
  run_line-Keeps line s c = run_words-Keeps (strtok line) s c

  Step-IsConsistent :
      IsForking sys
      → {s t : Spooler C} (step : Step s t) → IsUnmistakenStep step
      → IsConsistent s
      → IsConsistent t
  Step-IsConsistent f {s} {t} (read line ran) m c = Keeps-some _ t ran (run_line-Keeps line s c)
  Step-IsConsistent f {s} {t} (scanned e) m c =
      subst IsConsistent e (scan_jobs-IsConsistent sys f s c)
  Step-IsConsistent f {s} {t} (deleted now e) m c =
      subst IsConsistent e (delete_jobs-IsConsistent sys now s c)
  Step-IsConsistent f {s} {t} (signalled rs children ran) m c =
      let (u, ran', consistent) = master_sig_handler-IsConsistent rs s c children m in
      subst IsConsistent (some-injective u t (sym ran' ∙ ran)) consistent

  -- Where fork does not give the number of a process that has not been waited for, after any
  -- sequence of lines read, scans, deletions and calls of masterSigHandler on processes of running
  -- or paused jobs, from the initial arrays, in which no number that waitpid reports is in two
  -- cells of jobToMasterId at the time, the links hold: a printer works on at most one job and no
  -- two on the same, exactly the running and paused jobs have a printer, a busy printer has a job,
  -- no two of these jobs have one process, and masterChildCount is their number.
  pub Reach-IsConsistent :
      IsForking sys → (c : C) {s : Spooler C} (r : Reach c s) → IsUnmistaken r → IsConsistent s
  Reach-IsConsistent f c here m = start-IsConsistent c
  Reach-IsConsistent f c (next r step) (m, m_step) =
      Step-IsConsistent f step m_step (Reach-IsConsistent f c r m)

  -- Where fork does not give the number of a process that has not been waited for, in a state that
  -- is reached by a sequence in which no number that waitpid reports is in two cells of
  -- jobToMasterId at the time, and in which masterChildCount is 0, for which quit waits, no job
  -- runs or is paused and no printer has a job.
  pub Reach-done :
      IsForking sys
      → (c : C) {s : Spooler C} (r : Reach c s) → IsUnmistaken r
      → s.master_child_count ≡ pos 0
      → ((i : ℕ) → i < max_jobs → is_active (s.list_jobs i).status ≡ false)
        × ((k : ℕ) → k < s.next_free_index → (s.list_printers k).job_index ≡ none)
  Reach-done f c {s} r m none_left = (idle, unused)
    where
      linked : IsConsistent s
      linked = Reach-IsConsistent f c r m

      idle : (i : ℕ) → i < max_jobs → is_active (s.list_jobs i).status ≡ false
      idle i below = active_jobs-zero max_jobs s.list_jobs (cc (linked.counted, none_left)) i below

      unused : (k : ℕ) → k < s.next_free_index → (s.list_printers k).job_index ≡ none
      unused k below = elim (Option-cases (s.list_printers k).job_index) [
        | inl free ↦ free
        | inr (i, index) ↦
            let (i_below, active) = linked.works k i below index in
            absurd (cc (idle i i_below, active))
      ]
