-- ===== src/Server/Attestations/Verify/Passes.antt =====
-- A pass of the attestation worker as a history of the table.
use vex_agentscan.Base.{
  ℕ, suc, ◌≤◌, Bool, true, List, [], ◌∷◌, Option, none, some, arith, map, keep_if, get_elem?,
  length, length-take-le, ◌≡◌, refl, All, All-mono, All-take, All-sort, Option-cases, Bool-cases,
  inl, inr,
}
use vex_agentscan.Server.Attestations.{TokenAttestation, Attestations, AttestSubmissionLimits}
use vex_agentscan.Server.Attestations.Outcomes.{
  proven, refuted, is_claimable, claim_due_attestations,
}
use vex_agentscan.Server.Attestations.History.{
  Operation, claim, reschedule, terminalize, finalize, operate, run,
}
use vex_agentscan.Server.Attestations.Verify.{
  AttestationVerifyDeps, AttestationJobOutcome, finalize_verified, finalize_mismatch,
  resolve_outcome_safely, apply_attestation_outcome, resolve_jobs, persist_outcomes,
  run_attestation_verification_pass,
}
use vex_agentscan.Server.Attestations.Verify.Sound.{is_final, IsRead, resolved_outcome-IsRead}

-- What is written of an outcome.
abbrev pub operation_of : ℕ → AttestationJobOutcome → Operation
operation_of id (AttestationJobOutcome.reschedule delay_ms) = reschedule id delay_ms
operation_of id AttestationJobOutcome.terminalize = terminalize id
operation_of id (finalize_verified hash) = finalize id (proven hash)
operation_of id (finalize_mismatch detail) = finalize id (refuted detail)

-- A job and what became of it.
abbrev pub Step : Type 0
Step = TokenAttestation × AttestationJobOutcome

-- The operations of the steps that commit.
abbrev pub history_of : (now : ℕ) → (commits : ℕ → Bool) → List Step → List (Operation × ℕ)
history_of now commits steps =
    map (λ s. (operation_of s.0.id s.1, now)) (keep_if (λ s. commits s.0.id) steps)

-- A job of a pass is a row of the table that is due, pending and not locked.
pub record IsJob (locked : ℕ → Bool) (now : ℕ) (rows : List TokenAttestation)
    (job : TokenAttestation) : Type 0 where
  pub place : ℕ
  pub stands : get_elem? rows place ≡ some job
  pub claimable : is_claimable locked now job ≡ true

-- The outcome is the job's, and a final one rests on what was read for that job.
pub record IsStep (deps : AttestationVerifyDeps) (s : Step) : Type 0 where
  pub resolved : resolve_outcome_safely s.0 deps ≡ some s.1
  pub read : is_final s.1 ≡ true → IsRead s.0 deps s.1

-- What the jobs come to: one step for each, in their order, or none because one of them throws.
abbrev pub IsResolved : AttestationVerifyDeps → List TokenAttestation → Option (List Step) → Type 0
IsResolved deps jobs none =
    (job : TokenAttestation) × (place : ℕ) × (get_elem? jobs place ≡ some job)
    × (resolve_outcome_safely job deps ≡ none)
IsResolved deps jobs (some steps) = (map (λ s. s.0) steps ≡ jobs) × All (IsStep deps) steps

abbrev pub written_of : (now : ℕ) → (commits : ℕ → Bool) → Option (List Step) → List (Operation × ℕ)
written_of now commits none = []
written_of now commits (some steps) = history_of now commits steps

-- A pass as a history of the table.
pub record IsPass (limits : AttestSubmissionLimits) (deps : AttestationVerifyDeps)
    (locked commits : ℕ → Bool) (db later : Attestations) : Type 0 where
  pub jobs : List TokenAttestation
  pub steps : Option (List Step)
  pub bounded : length jobs ≤ deps.config.attest_worker_batch
  pub claimed : All (IsJob locked deps.now db.rows) jobs
  pub leased :
      (claim_due_attestations locked deps.config.attest_worker_batch
        deps.config.attest_worker_lease_ms deps.now db).1
      ≡ jobs
  pub resolved : IsResolved deps jobs steps
  pub ran :
      run limits
        ((claim locked deps.config.attest_worker_batch deps.config.attest_worker_lease_ms, deps.now)
          ∷ written_of deps.now commits steps)
        db
      ≡ later

rows-stand :
    (rows : List TokenAttestation) → All (λ r. (place : ℕ) × (get_elem? rows place ≡ some r)) rows
rows-stand [] = tt
rows-stand (row ∷ rows) =
    ((0, refl), All-mono rows (λ r (place, at). (suc place, at)) (rows-stand rows))

kept-IsJob :
    (locked : ℕ → Bool) (now : ℕ) (rows some_rows : List TokenAttestation)
    → All (λ r. (place : ℕ) × (get_elem? rows place ≡ some r)) some_rows
    → All (IsJob locked now rows) (keep_if (is_claimable locked now) some_rows)
kept-IsJob locked now rows [] h = tt
kept-IsJob locked now rows (row ∷ rest) ((place, at), h) =
    elim (Bool-cases (is_claimable locked now row)) [
      | inl due ↦ rw due (
        record { place = place; stands = at; claimable = due },
        kept-IsJob locked now rows rest h,
      )
      | inr early ↦ rw early (kept-IsJob locked now rows rest h)
    ]

claimed-IsJob :
    (locked : ℕ → Bool) (limit lease_ms now : ℕ) (db : Attestations)
    → let (leased, jobs) = claim_due_attestations locked limit lease_ms now db in
      (length jobs ≤ limit) × All (IsJob locked now db.rows) jobs
unfolding claim_due_attestations
claimed-IsJob locked limit lease_ms now db =
    let P = IsJob locked now db.rows in
    (
      length-take-le limit _,
      All-take P limit _
          (All-sort P _ _ (kept-IsJob locked now db.rows db.rows (rows-stand db.rows))),
    )

module _ (limits : AttestSubmissionLimits) (deps : AttestationVerifyDeps) where
  operate-apply :
      (id : ℕ) (outcome : AttestationJobOutcome) (now : ℕ) (db : Attestations)
      → operate limits (operation_of id outcome) now db
        ≡ apply_attestation_outcome id outcome now db
  unfolding operate apply_attestation_outcome
  operate-apply id (AttestationJobOutcome.reschedule delay_ms) now db = refl
  operate-apply id AttestationJobOutcome.terminalize now db = refl
  operate-apply id (finalize_verified hash) now db = refl
  operate-apply id (finalize_mismatch detail) now db = refl

  outcome-IsStep :
      (job : TokenAttestation) (outcome : AttestationJobOutcome)
      → resolve_outcome_safely job deps ≡ some outcome
      → IsStep deps (job, outcome)
  outcome-IsStep job outcome h = record {
    resolved = h;
    read = λ f. resolved_outcome-IsRead job deps outcome h f;
  }

  resolved_lem :
      (jobs : List TokenAttestation) (steps : Option (List Step))
      → resolve_jobs jobs deps ≡ steps
      → IsResolved deps jobs steps
  unfolding resolve_jobs
  resolved_lem [] none h = absurd (ground (arith, h))
  resolved_lem [] (some steps) h = let same : steps ≡ [] = ground (arith, h) in rw same (refl, tt)
  resolved_lem (job ∷ jobs) none h = elim (Option-cases (resolve_outcome_safely job deps)) [
    | inl thrown ↦ (job, 0, refl, thrown)
    | inr (outcome, decided) ↦ elim (Option-cases (resolve_jobs jobs deps)) [
      | inl thrown ↦
          let (bad, place, at, throws) = resolved_lem jobs none thrown in
          (bad, suc place, at, throws)
      | inr (rest, done) ↦ absurd (ground (arith, decided, done, h))
    ]
  ]
  resolved_lem (job ∷ jobs) (some steps) h = elim (Option-cases (resolve_outcome_safely job deps)) [
    | inl thrown ↦ absurd (ground (arith, thrown, h))
    | inr (outcome, decided) ↦ elim (Option-cases (resolve_jobs jobs deps)) [
      | inl thrown ↦ absurd (ground (arith, decided, thrown, h))
      | inr (rest, done) ↦
          let same : steps ≡ (job, outcome) ∷ rest = ground (arith, decided, done, h) in
          let (jobs_of, all) = resolved_lem jobs (some rest) done in
          rw same (rw jobs_of refl, (outcome-IsStep job outcome decided, all))
    ]
  ]

  persist_lem :
      (commits : ℕ → Bool) (steps : List Step) (db : Attestations)
      → run limits (history_of deps.now commits steps) db
        ≡ persist_outcomes commits deps.now steps db
  unfolding persist_outcomes run
  persist_lem commits [] db = refl
  persist_lem commits ((job, outcome) ∷ steps) db = elim (Bool-cases (commits job.id)) [
    | inl committed ↦ rw committed (
        rw (← operate-apply job.id outcome deps.now db)
          (persist_lem commits steps (operate limits (operation_of job.id outcome) deps.now db)))
    | inr failed ↦ rw failed (persist_lem commits steps db)
  ]

  -- A pass is a history of the table. It claims at most a batch of its rows, each due, pending and
  -- not locked, and resolves every one of them, in order. Where resolving one throws, nothing more
  -- is written. Else each outcome that commits is written to the row that it was resolved for, as
  -- that outcome says, and nothing else is; every verdict rests on a receipt and a head that were
  -- read for that row.
  pub run-IsPass :
      (locked commits : ℕ → Bool) (db : Attestations)
      → IsPass limits deps locked commits db
          (run_attestation_verification_pass locked commits deps db)
  unfolding run_attestation_verification_pass run operate
  run-IsPass locked commits db =
      let limit = deps.config.attest_worker_batch in
      let lease_ms = deps.config.attest_worker_lease_ms in
      let (leased, jobs) = claim_due_attestations locked limit lease_ms deps.now db in
      let (bounded, claimed) = claimed-IsJob locked limit lease_ms deps.now db in
      elim (Option-cases (resolve_jobs jobs deps)) [
        | inl thrown ↦ record {
          jobs = jobs;
          steps = none;
          bounded = bounded;
          claimed = claimed;
          leased = refl;
          resolved = resolved_lem jobs none thrown;
          ran = rw (thrown, run_attestation_verification_pass) refl;
        }
        | inr (steps, done) ↦ record {
          jobs = jobs;
          steps = some steps;
          bounded = bounded;
          claimed = claimed;
          leased = refl;
          resolved = resolved_lem jobs (some steps) done;
          ran = rw (done, run_attestation_verification_pass) (persist_lem commits steps leased);
        }
      ]
