-- ===== src/Spool/Scan/Late.antt =====
-- The mask of `scanJobs` in hw4/src/cli.c is shifted by `k` in round `k`, not by one.
use Prim.Native.Nat.{bit_and}
use cse_320_repository.Base.{
  ℕ, zero, suc, ◌<◌, ◌==◌, false, ◌&&◌, ◌≡◌, refl, ap, ◌∙◌, inl, inr, arith, subst, Bool-cases,
  update_ne, ==_eq, ==_iff, for_range_inv, &&-false_left, not,
}
use cse_320_repository.Base.Bits.{bit_and-zero}
use cse_320_repository.Spool.State.{Spooler, System, Job, Printer, is_created, is_idle, max_jobs}
use cse_320_repository.Spool.Scan.{scan_job, scan_jobs, start_job, is_available, is_unused, shifted}
use cse_320_repository.Spool.Scan.Choice.{choose_printer-Outcome, mask_at}

-- From the ninth printer on the mask is 0.
mask_at-ninth : mask_at 8 ≡ 0
unfolding mask_at
mask_at-ninth = refl

mask_at-late : (k : ℕ) → 7 < k → mask_at k ≡ 0
unfolding mask_at
mask_at-late zero h = absurd (omega arith)
mask_at-late (suc k) h = elim (Bool-cases (k == 7)) [
  | inl same ↦ let here : k ≡ 7 = (==_iff k 7).0 same in rw here mask_at-ninth
  | inr other ↦ ap (λ (m : ℕ). shifted m (suc k)) (mask_at-late k (ground arith)) ∙ omega arith
]

late-unavailable :
    (k : ℕ) (job : Job) (p : Printer) → 7 < k → is_available (mask_at k) job p ≡ false
late-unavailable k job p h =
    &&-false_left (not (bit_and job.eligible_printer (mask_at k) == 0) && is_idle p.status)
      (is_unused p.job_index)
      (&&-false_left (not (bit_and job.eligible_printer (mask_at k) == 0)) (is_idle p.status) (
        ap not (
          ==_eq (
            ap (bit_and job.eligible_printer) (mask_at-late k h)
            ∙ bit_and-zero job.eligible_printer))))

module _ {C : Type 0} (sys : System C) (k : ℕ) (late : 7 < k) where
  scan_job-late : (i : ℕ) (s : Spooler C) → (scan_job sys i s).list_printers k ≡ s.list_printers k
  unfolding scan_job start_job
  scan_job-late i s =
      elim (Bool-cases ((s.list_jobs i).job_position_taken && is_created (s.list_jobs i).status)) [
        | inl waits ↦
            elim (choose_printer-Outcome sys (s.list_jobs i) s s.next_free_index 0 1
              (unfold mask_at in refl)) [
                | inl (stuck, nowhere) ↦ rw (scan_job, waits, stuck) refl
                | inr (l, path, found, choice) ↦
                    rw (scan_job, waits, found)
                      (update_ne s.list_printers l k _ (λ e. absurd (
                        cc (
                          choice.available,
                          late-unavailable l (s.list_jobs i) (s.list_printers l)
                              (subst (λ x. 7 < x) e late),
                        ))))
              ]
        | inr other ↦ rw (scan_job, other) refl
      ]

  -- scanJobs leaves the ninth printer and all later ones as they are, whatever jobs wait, since
  -- the mask that it shifts by k in round k is 0 by then.
  pub scan_jobs-late : (s : Spooler C) → (scan_jobs sys s).list_printers k ≡ s.list_printers k
  unfolding scan_jobs
  scan_jobs-late s =
      for_range_inv (λ i t. t.list_printers k ≡ s.list_printers k) (scan_job sys) max_jobs 0
        max_jobs s (omega arith) (λ i t below e. scan_job-late i t ∙ e) refl
