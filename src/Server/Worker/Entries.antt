-- ===== src/Server/Worker/Entries.antt =====
-- A verification pass as each activity sees it: `runVerificationPass` with the outcomes that
-- `resolveJobOutcome` gives for the activity's claimed jobs.
use vex_agentscan.Base.{
  ℕ, suc, ◌+◌, String, Bool, true, false, List, [], ◌∷◌, Option, none, some, arith, lookup, put,
  lookup-put, lookup-delete, key-lookup, ◌≡◌, refl, ◌∙◌, ◌==◌, nat_eq, nat_beq_iff, if◌then◌else◌,
  Option-cases, Bool-cases, inl, inr,
}
use vex_agentscan.Core.Verdict.{TerminalVerdict}
use vex_agentscan.Server.Db.{VerificationState, Activity, Job, Db, by_id, by_activity, is_queued}
use vex_agentscan.Server.Claim.{ClaimedJob, claim_due_jobs}
use vex_agentscan.Server.Finalize.{
  finalized_row, finalize_verification, reschedule_job, close_unverifiable,
}
use vex_agentscan.Server.Queue.Verdicts.{record_consequence-SameQueue}
use vex_agentscan.Server.Worker.{
  Config, VerifyJobDeps, CloseReason, StrikeObservation, JobOutcome, reschedule, close, finalize,
  apply_job_outcome, resolve_all, resolve_job_outcome, persist_all, run_verification_pass,
}

-- What the database holds of an activity: its row and its job.
abbrev pub Entry : Type 0
Entry = Option Activity × Option Job

abbrev pub entry_of : ℕ → Db → Entry
entry_of id db = (lookup by_id id db.activities, lookup by_activity id db.jobs)

abbrev pub rescheduled_job : (now delay_ms : ℕ) → (last_error : String) → Job → Job
rescheduled_job now delay_ms last_error j = record j {
  attempts = suc j.attempts;
  next_attempt_at = now + delay_ms;
  last_error = some last_error;
}

abbrev pub closed_row : Activity → Activity
closed_row a =
    if is_queued a.verification_state
    then record a { verification_state = VerificationState.none }
    else a

-- What one outcome makes of an entry: another attempt, no attempt and no verdict, or the verdict.
-- A row that is not queued is left as it is.
abbrev pub settled : (now : ℕ) → JobOutcome → Entry → Entry
settled now (reschedule delay_ms last_error) (row, none) = (row, none)
settled now (reschedule delay_ms last_error) (row, some j) =
    (row, some (rescheduled_job now delay_ms last_error j))
settled now (close reason) (none, job) = (none, none)
settled now (close reason) (some a, job) = (some (closed_row a), none)
settled now (finalize verdict observed) (none, job) = (none, job)
settled now (finalize verdict observed) (some a, job) =
    if is_queued a.verification_state
    then (some (finalized_row now verdict a), none)
    else (some a, job)

-- The outcomes of an activity's claimed jobs; none where any of the claimed jobs throws.
abbrev pub outcomes_for : ℕ → List ClaimedJob → VerifyJobDeps → Option (List JobOutcome)
outcomes_for id [] deps = some []
outcomes_for id (c ∷ cs) deps = elim (resolve_job_outcome c deps) [
  | none ↦ none
  | some outcome ↦ elim (outcomes_for id cs deps) [
    | none ↦ none
    | some rest ↦ some (if c.activity.id == id then outcome ∷ rest else rest)
  ]
]

abbrev pub settled_by_all : (now : ℕ) → List JobOutcome → Entry → Entry
settled_by_all now [] entry = entry
settled_by_all now (outcome ∷ rest) entry = settled_by_all now rest (settled now outcome entry)

abbrev pub settled_by : (now : ℕ) → Option (List JobOutcome) → Entry → Entry
settled_by now none entry = entry
settled_by now (some outcomes) entry = settled_by_all now outcomes entry

reschedule-entry :
    (db : Db) (now k id delay_ms : ℕ) (e : String)
    → entry_of id (reschedule_job db now k delay_ms e)
      ≡ (if k == id then settled now (reschedule delay_ms e) (entry_of id db) else entry_of id db)
unfolding reschedule_job
reschedule-entry db now k id delay_ms e = elim (Option-cases (lookup by_activity k db.jobs)) [
  | inl missing ↦ ground (arith, missing, nat_beq_iff k id)
  | inr (j, found) ↦ ground (
    arith,
    found,
    nat_beq_iff k id,
    nat_beq_iff j.activity_id id,
    lookup-put by_activity id (rescheduled_job now delay_ms e j) db.jobs,
    key-lookup by_activity k j db.jobs found,
  )
]

close-entry :
    (db : Db) (now k id : ℕ) (reason : CloseReason)
    → entry_of id (close_unverifiable db k)
      ≡ (if k == id then settled now (close reason) (entry_of id db) else entry_of id db)
unfolding close_unverifiable
close-entry db now k id reason = elim (Option-cases (lookup by_id k db.activities)) [
  | inl missing ↦ ground (arith, missing, nat_beq_iff k id, lookup-delete by_activity id k db.jobs)
  | inr (a, found) ↦ ground (
    arith,
    found,
    nat_beq_iff k id,
    nat_beq_iff a.id id,
    lookup-delete by_activity id k db.jobs,
    lookup-put by_id id (record a { verification_state = VerificationState.none }) db.activities,
    key-lookup by_id k a db.activities found,
  )
]

finalized-id :
    (now : ℕ) (verdict : TerminalVerdict) (a : Activity) → (finalized_row now verdict a).id ≡ a.id
unfolding finalized_row
finalized-id now verdict a = refl

finalize-entry :
    (db : Db) (threshold now k id : ℕ) (verdict : TerminalVerdict)
    (observed : Option StrikeObservation)
    → entry_of id (finalize_verification threshold db now k verdict) ≡ (
        if k == id
        then settled now (finalize verdict observed) (entry_of id db)
        else entry_of id db)
unfolding finalize_verification
finalize-entry db threshold now k id verdict observed =
    elim (Option-cases (lookup by_id k db.activities)) [
      | inl missing ↦ ground (arith, missing, nat_beq_iff k id)
      | inr (a, found) ↦ elim (Bool-cases (is_queued a.verification_state)) [
        | inl q ↦
            let b = finalized_row now verdict a in
            let written : Db = record db { activities = put by_id b db.activities } in
            let (acts, jobs, next) = record_consequence-SameQueue threshold now verdict b written in
            let own = key-lookup by_id k a db.activities found in
            rw (found, finalize_verification)
              (rw (q, finalize_verification)
                (rw (acts, jobs)
                  (ground (
                    arith,
                    found,
                    q,
                    own,
                    finalized-id now verdict a,
                    nat_beq_iff k id,
                    nat_beq_iff b.id id,
                    lookup-delete by_activity id k db.jobs,
                    lookup-put by_id id b db.activities,
                  ))))
        | inr q ↦ ground (arith, found, q, nat_beq_iff k id)
      ]
    ]

apply-entry :
    (config : Config) (db : Db) (now k id : ℕ) (o : JobOutcome)
    → entry_of id (apply_job_outcome config db now k o)
      ≡ (if k == id then settled now o (entry_of id db) else entry_of id db)
unfolding apply_job_outcome
apply-entry config db now k id (reschedule delay_ms e) = reschedule-entry db now k id delay_ms e
apply-entry config db now k id (close reason) = close-entry db now k id reason
apply-entry config db now k id (finalize verdict observed) =
    finalize-entry db config.quarantine_strikes now k id verdict observed

module _ (deps : VerifyJobDeps) (id : ℕ) where
  decided_lem :
      (c : ClaimedJob) (cs : List ClaimedJob) (o : JobOutcome) (os : List JobOutcome)
      → resolve_job_outcome c deps ≡ some o
      → outcomes_for id cs deps ≡ some os
      → outcomes_for id (c ∷ cs) deps ≡ some (if c.activity.id == id then o ∷ os else os)
  decided_lem c cs o os h k = rw (h, outcomes_for) (rw (k, outcomes_for) refl)

  resolved_lem :
      (cs : List ClaimedJob) (outcomes : List (ℕ × JobOutcome))
      → resolve_all cs deps ≡ some outcomes
      → (os : List JobOutcome) × (outcomes_for id cs deps ≡ some os)
  unfolding resolve_all
  resolved_lem [] outcomes h = ([], refl)
  resolved_lem (c ∷ cs) outcomes h = elim (Option-cases (resolve_job_outcome c deps)) [
    | inl thrown ↦ absurd (ground (arith, thrown, h))
    | inr (o, decided) ↦ elim (Option-cases (resolve_all cs deps)) [
      | inl thrown ↦ absurd (ground (arith, decided, thrown, h))
      | inr (rest, done) ↦
          let (os, resolved) = resolved_lem cs rest done in
          (_, decided_lem c cs o os decided resolved)
    ]
  ]

  thrown_lem : (cs : List ClaimedJob) → resolve_all cs deps ≡ none → outcomes_for id cs deps ≡ none
  unfolding resolve_all
  thrown_lem [] h = absurd (ground (arith, h))
  thrown_lem (c ∷ cs) h = elim (Option-cases (resolve_job_outcome c deps)) [
    | inl thrown ↦ rw (thrown, outcomes_for) refl
    | inr (o, decided) ↦ elim (Option-cases (resolve_all cs deps)) [
      | inl thrown ↦ rw (decided, outcomes_for) (rw (thrown_lem cs thrown, outcomes_for) refl)
      | inr (rest, done) ↦ absurd (ground (arith, decided, done, h))
    ]
  ]

  settled_step :
      (own : Bool) (o : JobOutcome) (os : List JobOutcome) (before after : Entry)
      → after ≡ (if own then settled deps.now o before else before)
      → settled_by_all deps.now os after
        ≡ settled_by_all deps.now (if own then o ∷ os else os) before
  settled_step true o os before after h = rw h refl
  settled_step false o os before after h = rw h refl

  persist-entry :
      (cs : List ClaimedJob) (outcomes : List (ℕ × JobOutcome)) (db : Db)
      → resolve_all cs deps ≡ some outcomes
      → entry_of id (persist_all deps.config deps.now outcomes db)
        ≡ settled_by deps.now (outcomes_for id cs deps) (entry_of id db)
  unfolding resolve_all persist_all
  persist-entry [] outcomes db h = let same : outcomes ≡ [] = ground (arith, h) in rw same refl
  persist-entry (c ∷ cs) outcomes db h = elim (Option-cases (resolve_job_outcome c deps)) [
    | inl thrown ↦ absurd (ground (arith, thrown, h))
    | inr (o, decided) ↦ elim (Option-cases (resolve_all cs deps)) [
      | inl thrown ↦ absurd (ground (arith, decided, thrown, h))
      | inr (rest, done) ↦
          let same : outcomes ≡ (c.activity.id, o) ∷ rest = ground (arith, decided, done, h) in
          let applied = apply_job_outcome deps.config db deps.now c.activity.id o in
          let here = apply-entry deps.config db deps.now c.activity.id id o in
          let (os, resolved) = resolved_lem cs rest done in
          let later = persist-entry cs rest applied done in
          let step =
            settled_step (c.activity.id == id) o os (entry_of id db) (entry_of id applied) here in
          rw same (rw (decided_lem c cs o os decided resolved) ((rw resolved at later) ∙ step))
    ]
  ]

-- What a verification pass makes of an activity's row and job: it leases the due jobs, and where
-- resolving any of the claimed jobs throws, it stops there. Else the outcomes of the activity's own
-- claimed jobs are applied to its row and job, in the order of the claims, and nothing else is.
pub pass-entry :
    (db : Db) (locked : ℕ → Bool) (deps : VerifyJobDeps) (id : ℕ)
    → let (leased, claimed) =
        claim_due_jobs db deps.now locked deps.config.worker_batch deps.config.worker_lease_ms in
      entry_of id (run_verification_pass db locked deps)
      ≡ settled_by deps.now (outcomes_for id claimed deps) (entry_of id leased)
unfolding run_verification_pass
pass-entry db locked deps id =
    let (leased, claimed) =
      claim_due_jobs db deps.now locked deps.config.worker_batch deps.config.worker_lease_ms in
    elim (Option-cases (resolve_all claimed deps)) [
      | inl failed ↦
          rw (thrown_lem deps id claimed failed) (rw (failed, run_verification_pass) refl)
      | inr (outcomes, ok) ↦
          rw (ok, run_verification_pass) (persist-entry deps id claimed outcomes leased ok)
    ]
