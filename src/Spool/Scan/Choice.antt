-- ===== src/Spool/Scan/Choice.antt =====
-- The printer that the inner loop of `scanJobs` in hw4/src/cli.c finds.
use cse_320_repository.Base.{
  subst, ℕ, zero, suc, ◌+◌, ◌≤◌, ◌<◌, true, false, Option, none, some, List, ◌≡◌, ◌⊎◌, inl, inr,
  refl, Text, arith, Bool-cases, Option-cases, at_or_after,
}
use cse_320_repository.Spool.State.{Spooler, System, Job}
use cse_320_repository.Spool.Scan.{shifted, is_available, job_path, choose_printer}

-- The mask with which printer `k` is tested.
unfoldable pub mask_at : ℕ → ℕ
mask_at zero = shifted 1 0
mask_at (suc k) = shifted (mask_at k) (suc k)

mask_at-next : (k : ℕ) → shifted (mask_at k) (suc k) ≡ mask_at (suc k)
unfolding mask_at
mask_at-next k = refl

module _ {C : Type 0} (sys : System C) (job : Job) (s : Spooler C) where
  pub record IsChoice (k n l : ℕ) (path : List Text) : Type 0 where
    pub from : k ≤ l
    pub below : l < k + n
    pub available : is_available (mask_at l) job (s.list_printers l) ≡ true
    pub convertible : job_path sys job (s.list_printers l) s.conversions ≡ some path

  -- No printer in the range takes the job.
  abbrev pub HasNone : ℕ → ℕ → Type 0
  HasNone k n =
      (l : ℕ)
      → k ≤ l
      → l < k + n
      → is_available (mask_at l) job (s.list_printers l) ≡ true
      → job_path sys job (s.list_printers l) s.conversions ≡ none

  abbrev pub Outcome : ℕ → ℕ → Option (ℕ × List Text) → Type 0
  Outcome k n r =
      ((r ≡ none) × HasNone k n)
      ⊎ ((l : ℕ) × (path : List Text) × (r ≡ some (l, path)) × IsChoice k n l path)

  later :
      (n k : ℕ) (r : Option (ℕ × List Text))
      → (is_available (mask_at k) job (s.list_printers k) ≡ true
          → job_path sys job (s.list_printers k) s.conversions ≡ none)
      → Outcome (suc k) n r
      → Outcome k (suc n) r
  later n k r here (inl (stuck, nowhere)) = inl (
    stuck,
    λ l low high.
        at_or_after
          (λ l.
            is_available (mask_at l) job (s.list_printers l) ≡ true
            → job_path sys job (s.list_printers l) s.conversions ≡ none)
          k l low here (λ above. nowhere l above (omega arith)),
  )
  later n k r here (inr (l, path, found, choice)) = inr (
    l,
    path,
    found,
    record {
      from = omega (arith, choice.from);
      below = omega (arith, choice.below);
      available = choice.available;
      convertible = choice.convertible;
    },
  )

  abbrev attempt : (n k mask : ℕ) → Option (ℕ × List Text)
  attempt n k mask = elim (is_available mask job (s.list_printers k)) [
    | false ↦ choose_printer sys n (suc k) mask job s
    | true ↦ elim (job_path sys job (s.list_printers k) s.conversions) [
      | some path ↦ some (k, path)
      | none ↦ choose_printer sys n (suc k) mask job s
    ]
  ]

  choose_printer-suc :
      (n k mask m : ℕ)
      → shifted mask k ≡ m
      → choose_printer sys (suc n) k mask job s ≡ attempt n k m
  unfolding choose_printer
  choose_printer-suc n k mask m e =
      subst (λ x. choose_printer sys (suc n) k mask job s ≡ attempt n k x) e refl

  pub choose_printer-none : (k mask : ℕ) → choose_printer sys zero k mask job s ≡ none
  unfolding choose_printer
  choose_printer-none k mask = refl

  pub choose_printer-Outcome :
      (n k mask : ℕ) → shifted mask k ≡ mask_at k → Outcome k n (choose_printer sys n k mask job s)
  choose_printer-Outcome zero k mask e =
      inl (choose_printer-none k mask, λ l low high. absurd (omega arith))
  choose_printer-Outcome (suc n) k mask e =
      rw (choose_printer-suc n k mask (mask_at k) e)
        (elim (Bool-cases (is_available (mask_at k) job (s.list_printers k))) [
          | inl free ↦ elim (Option-cases (job_path sys job (s.list_printers k) s.conversions)) [
            | inl stuck ↦
                rw (attempt, free, stuck)
                  (later n k _ (λ h. stuck)
                    (choose_printer-Outcome n (suc k) (mask_at k) (mask_at-next k)))
            | inr (path, found) ↦
                rw (attempt, free, found)
                  (inr (
                    k,
                    path,
                    refl,
                    record {
                      from = omega arith;
                      below = omega arith;
                      available = free;
                      convertible = found;
                    },
                  ))
          ]
          | inr taken ↦
              rw (attempt, taken)
                (later n k _ (λ h. absurd (cc))
                  (choose_printer-Outcome n (suc k) (mask_at k) (mask_at-next k)))
        ])
