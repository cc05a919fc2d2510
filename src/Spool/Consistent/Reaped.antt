-- ===== src/Spool/Consistent/Reaped.antt =====
-- `masterSigHandler` of hw4 on the processes of the jobs.
use cse_320_repository.Base.{
  ℕ, ◌<◌, ◌==◌, if◌then◌else◌, true, false, Option, none, some, List, [], ◌∷◌, ◌≡◌, ◌≢◌, refl, sym,
  ap, ◌∙◌, inl, inr, arith, Bool-cases, update, update_self, update_ne, pos, ==_refl, ==_iff,
  find_first-IsFirst,
}
use cse_320_repository.Spool.State.{
  Spooler, Job, Printer, JobStatus, ChildStatus, Event, exited, signaled, stopped, continued,
  unknown, job_running, job_paused, job_finished, job_aborted, printer_busy, is_disabled, max_jobs,
  decrement, sf_printer_status, sf_job_status,
}
use cse_320_repository.Spool.Tables.{find_job_index, find_printer_by_job_index, is_job}
use cse_320_repository.Spool.Handler.{
  Reaped, released, release_printer, set_status, end_job, change_job, reap, master_sig_handler,
}
use cse_320_repository.Spool.Consistent.{IsConsistent, is_active}
use cse_320_repository.Spool.Consistent.Changed.{IsLinked-job}
use cse_320_repository.Spool.Consistent.Ended.{IsLinked-end}

-- The status that a job gets.
abbrev pub outcome : ChildStatus → JobStatus
outcome (exited code) = job_finished
outcome (signaled code) = job_aborted
outcome stopped = job_paused
outcome continued = job_running
outcome unknown = job_aborted

released-free : (p : Printer) → (released p).status ≢ printer_busy
released-free p e = elim (Bool-cases (is_disabled p.status)) [
  | inl disabled ↦ absurd (cc (disabled, ap is_disabled (rw disabled at e)))
  | inr other ↦ absurd (cc (rw other at e))
]

is_job-some : (o : Option ℕ) (i : ℕ) → is_job o i ≡ true → o ≡ some i
is_job-some none i e = cc
is_job-some (some j) i e = ap some ((==_iff j i).0 e)

module _ {C : Type 0} where
  -- No other cell of `jobToMasterId` has the number of the job's process.
  abbrev pub IsSole : ℕ → Spooler C → Type 0
  IsSole i s = (j : ℕ) → j < max_jobs → s.job_to_master_id j ≡ s.job_to_master_id i → j ≡ i

  -- The job of such a process is found.
  pub find_job_index-sole :
      (s : Spooler C) (i : ℕ)
      → i < max_jobs
      → IsSole i s
      → find_job_index (s.job_to_master_id i) s ≡ some i
  unfolding find_job_index
  find_job_index-sole s i below sole =
      elim (find_first-IsFirst max_jobs 0 (λ j. s.job_to_master_id j == s.job_to_master_id i)) [
        | inl (stuck, nowhere) ↦
            absurd (cc (nowhere i (omega arith) (omega arith), ==_refl (s.job_to_master_id i)))
        | inr (j, found, first) ↦
            found ∙ ap some (sole j (omega (arith, first.below)) ((==_iff _ _).0 first.passes))
      ]

  -- The printer of a job that is worked on is found.
  pub find_printer-active :
      (s : Spooler C) (i : ℕ)
      → IsConsistent s
      → i < max_jobs
      → is_active (s.list_jobs i).status ≡ true
      → (k : ℕ) × (find_printer_by_job_index i s ≡ some k)
        × (k < s.next_free_index)
        × ((s.list_printers k).job_index ≡ some i)
  unfolding find_printer_by_job_index
  find_printer-active s i c below active =
      elim (find_first-IsFirst s.next_free_index 0 (λ k. is_job (s.list_printers k).job_index i)) [
        | inl (stuck, nowhere) ↦
            let (k, k_below, index) = c.served i below active in
            absurd (cc (rw (index, ==_refl i) at (nowhere k (omega arith) (omega arith))))
        | inr (k, found, first) ↦
            (k, found, omega (arith, first.below), is_job-some _ i first.passes)
      ]

  -- What `waitpid` says of a running or paused job: the links hold again, the job has the status, and a job
  -- that ended has left its printer.
  pub record IsReaped (i : ℕ) (status : JobStatus) (s t : Spooler C) : Type 0 where
    pub consistent : IsConsistent t
    pub status_of : (t.list_jobs i).status ≡ status
    pub others : (j : ℕ) → j ≢ i → t.list_jobs j ≡ s.list_jobs j
    pub printers :
        (k : ℕ)
        → k < s.next_free_index
        → (s.list_printers k).job_index ≡ some i
        → t.list_printers k
          ≡ (if is_active status then s.list_printers k else released (s.list_printers k))

  -- The state in which a job has ended, with the printer `k` released.
  abbrev ended_state : (i now k : ℕ) → JobStatus → Event → Spooler C → Spooler C
  ended_state i now k status event s = record s {
    list_printers = update s.list_printers k (released (s.list_printers k));
    list_jobs =
        update s.list_jobs i
          (record (s.list_jobs i) { status = status; wait4_ten_second = pos now });
    master_child_count = decrement s.master_child_count;
    events =
        sf_printer_status (released (s.list_printers k)).printer_name
          (released (s.list_printers k)).status
        ∷ event
        ∷ sf_job_status i status
        ∷ s.events;
  }

  release_printer-ran :
      (i k : ℕ) (s : Spooler C)
      → find_printer_by_job_index i s ≡ some k
      → release_printer i s
        ≡ some (record s {
          list_printers = update s.list_printers k (released (s.list_printers k));
          master_child_count = decrement s.master_child_count;
          events =
              sf_printer_status
                (released (s.list_printers k)).printer_name
                (released (s.list_printers k)).status
              ∷ s.events;
        })
  unfolding release_printer
  release_printer-ran i k s e = rw (release_printer, e) refl

  end_job-ran :
      (i now k : ℕ) (status : JobStatus) (event : Event) (s : Spooler C)
      → find_printer_by_job_index i s ≡ some k
      → end_job i now status event s ≡ some (ended_state i now k status event s)
  unfolding end_job find_printer_by_job_index
  end_job-ran i now k status event s e = release_printer-ran i k _ e

  end_job-IsReaped :
      (i now : ℕ) (status : JobStatus) (event : Event) (s : Spooler C)
      → IsConsistent s
      → i < max_jobs
      → is_active (s.list_jobs i).status ≡ true
      → is_active status ≡ false
      → (t : Spooler C) × (end_job i now status event s ≡ some t) × IsReaped i status s t
  end_job-IsReaped i now status event s c below active ended =
      let (k, found, k_below, index) = find_printer-active s i c below active in
      (
        ended_state i now k status event s,
        end_job-ran i now k status event s found,
        record {
          consistent =
              IsLinked-end c i k (released (s.list_printers k))
                (record (s.list_jobs i) { status = status; wait4_ten_second = pos now }) below
                active k_below index refl (released-free (s.list_printers k)) ended;
          status_of = ap (λ (job : Job). job.status) (update_self s.list_jobs i _);
          others = λ j other. update_ne s.list_jobs i j _ other;
          printers = λ l l_below e.
              rw ended (update_released s l k (c.alone l k i l_below k_below e index));
        },
      )
    where
      update_released :
          (s : Spooler C) (l k : ℕ)
          → l ≡ k
          → update s.list_printers k (released (s.list_printers k)) l ≡ released (s.list_printers l)
      update_released s l k e = rw e (update_self s.list_printers k _)

  set_status-IsReaped :
      (i : ℕ) (status : JobStatus) (s : Spooler C)
      → IsConsistent s
      → i < max_jobs
      → is_active (s.list_jobs i).status ≡ true
      → is_active status ≡ true
      → IsReaped i status s (set_status i status s)
  unfolding set_status
  set_status-IsReaped i status s c below active stays = record {
    consistent =
        IsLinked-job c i (record (s.list_jobs i) { status = status }) (stays ∙ sym active)
          (λ e. c.held i below active);
    status_of = ap (λ (job : Job). job.status) (update_self s.list_jobs i _);
    others = λ j other. update_ne s.list_jobs i j _ other;
    printers = λ k k_below e. rw stays refl;
  }

  change_job-IsReaped :
      (i : ℕ) (childstatus : ChildStatus) (now : ℕ) (s : Spooler C)
      → IsConsistent s
      → i < max_jobs
      → is_active (s.list_jobs i).status ≡ true
      → (t : Spooler C) × (change_job i childstatus now s ≡ some t)
        × IsReaped i (outcome childstatus) s t
  unfolding change_job
  change_job-IsReaped i (exited code) now s c below active =
      end_job-IsReaped i now _ _ s c below active refl
  change_job-IsReaped i (signaled code) now s c below active =
      end_job-IsReaped i now _ _ s c below active refl
  change_job-IsReaped i stopped now s c below active =
      (set_status i job_paused s, refl, set_status-IsReaped i job_paused s c below active refl)
  change_job-IsReaped i continued now s c below active =
      (set_status i job_running s, refl, set_status-IsReaped i job_running s c below active refl)
  change_job-IsReaped i unknown now s c below active =
      end_job-IsReaped i now _ _ s c below active refl

  -- Where the links of printers and jobs hold, a result of waitpid about the process of a running
  -- or paused job, whose number is in no other cell of jobToMasterId, is handled with no access
  -- outside the arrays: that job alone changes and has the status of the result, which is finished
  -- for an exit with any code, the links hold again, and its printer is as before if the job goes
  -- on and else released, idle unless it was disabled.
  pub reap-IsReaped :
      (r : Reaped) (i : ℕ) (s : Spooler C)
      → IsConsistent s
      → i < max_jobs
      → is_active (s.list_jobs i).status ≡ true
      → IsSole i s
      → r.pid ≡ s.job_to_master_id i
      → (t : Spooler C) × (reap r s ≡ some t) × IsReaped i (outcome r.childstatus) s t
  unfolding reap
  reap-IsReaped r i s c below active sole same =
      let (t, ran, reaped) = change_job-IsReaped i r.childstatus r.now s c below active in
      (t, rw (reap, same, find_job_index-sole s i below sole) ran, reaped)

  -- The results of `waitpid` are about the processes of jobs that run or are paused when each is read.
  abbrev pub AreChildren : List Reaped → Spooler C → Type 0
  AreChildren [] s = Unit
  AreChildren (r ∷ rs) s =
      ((i : ℕ) × (i < max_jobs)
        × (is_active (s.list_jobs i).status ≡ true)
        × (r.pid ≡ s.job_to_master_id i))
      × ((t : Spooler C) → reap r s ≡ some t → AreChildren rs t)

  -- No number of a result is in two cells of `jobToMasterId` when the result is read.
  abbrev pub AreUnmistaken : List Reaped → Spooler C → Type 0
  AreUnmistaken [] s = Unit
  AreUnmistaken (r ∷ rs) s =
      ((i : ℕ) → i < max_jobs → r.pid ≡ s.job_to_master_id i → IsSole i s)
      × ((t : Spooler C) → reap r s ≡ some t → AreUnmistaken rs t)

  master_sig_handler-cons :
      (r : Reaped) (rs : List Reaped) (s t : Spooler C)
      → reap r s ≡ some t
      → master_sig_handler (r ∷ rs) s ≡ master_sig_handler rs t
  unfolding master_sig_handler
  master_sig_handler-cons r rs s t e =
      ap (λ (o : Option (Spooler C)). elim o [ none ↦ none | some u ↦ master_sig_handler rs u ]) e

  pub master_sig_handler-IsConsistent :
      (rs : List Reaped) (s : Spooler C)
      → IsConsistent s
      → AreChildren rs s
      → AreUnmistaken rs s
      → (t : Spooler C) × (master_sig_handler rs s ≡ some t) × IsConsistent t
  unfolding master_sig_handler
  master_sig_handler-IsConsistent [] s c h sole = (s, refl, c)
  master_sig_handler-IsConsistent (r ∷ rs) s c ((i, below, active, same), rest) (sole, others) =
      let (t, ran, reaped) = reap-IsReaped r i s c below active (sole i below same) same in
      let (u, then_ran, consistent) =
        master_sig_handler-IsConsistent rs t reaped.consistent (rest t ran) (others t ran) in
      (u, master_sig_handler-cons r rs s t ran ∙ then_ran, consistent)
