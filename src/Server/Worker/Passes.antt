-- ===== src/Server/Worker/Passes.antt =====
-- What a pass of the worker leaves behind.
use vex_agentscan.Base.{
  ℕ, Bool, false, List, [], ◌∷◌, none, some, is_some, arith, lookup, lookup-delete, ◌≡◌, refl,
  nat_eq, beq_refl, Option-cases, Bool-cases, inl, inr,
}
use vex_agentscan.Core.Verdict.{TerminalVerdict}
use vex_agentscan.Server.Db.{Activity, Db, by_id, by_activity, is_queued}
use vex_agentscan.Server.Claim.{ClaimedJob, claim_due_jobs}
use vex_agentscan.Server.Finalize.{finalize_verification, close_unverifiable}
use vex_agentscan.Server.Queue.Coherence.{Inv, Coherent-at}
use vex_agentscan.Server.Queue.Verdicts.{finalize-Inv, close-Inv, reschedule-Inv}
use vex_agentscan.Server.Queue.Claims.{claim-Inv}
use vex_agentscan.Server.Worker.{
  Config, VerifyJobDeps, JobOutcome, reschedule, close, finalize, apply_job_outcome, resolve_all,
  resolve_job_outcome, persist_all, run_verification_pass,
}
use vex_agentscan.Server.Worker.Outcomes.{is_reschedule, IsExhausted, exhausted-IsResolved}

apply-Inv :
    (config : Config) (db : Db) (now id : ℕ) (o : JobOutcome)
    → Inv db
    → Inv (apply_job_outcome config db now id o)
unfolding apply_job_outcome
apply-Inv config db now id (reschedule delay_ms e) v = reschedule-Inv db now id delay_ms e v
apply-Inv config db now id (close reason) v = close-Inv db id v
apply-Inv config db now id (finalize verdict observed) v =
    finalize-Inv config.quarantine_strikes db now id verdict v

persist-Inv :
    (config : Config) (now : ℕ) (outcomes : List (ℕ × JobOutcome)) (db : Db)
    → Inv db
    → Inv (persist_all config now outcomes db)
unfolding persist_all
persist-Inv config now [] db v = v
persist-Inv config now ((id, o) ∷ rest) db v =
    persist-Inv config now rest (apply_job_outcome config db now id o)
      (apply-Inv config db now id o v)

-- A verification pass keeps the queue's invariant, whatever the chain readers answer.
pass-Inv :
    (db : Db) (locked : ℕ → Bool) (deps : VerifyJobDeps)
    → Inv db
    → Inv (run_verification_pass db locked deps)
unfolding run_verification_pass
pass-Inv db locked deps v =
    let config = deps.config in
    let (leased, claimed) =
      claim_due_jobs db deps.now locked config.worker_batch config.worker_lease_ms in
    let kept = claim-Inv db deps.now locked config.worker_batch config.worker_lease_ms v in
    elim (Option-cases (resolve_all claimed deps)) [
      | inl failed ↦ rw (failed, run_verification_pass) kept
      | inr (outcomes, ok) ↦
          rw (ok, run_verification_pass) (persist-Inv config deps.now outcomes leased kept)
    ]

close-leaves : (db : Db) (id : ℕ) → lookup by_activity id (close_unverifiable db id).jobs ≡ none
unfolding close_unverifiable
close-leaves db id = ground (arith, lookup-delete by_activity id id db.jobs, beq_refl id)

finalize-leaves :
    (threshold : ℕ) (db : Db) (now id : ℕ) (verdict : TerminalVerdict) (a : Activity)
    → Inv db
    → lookup by_id id db.activities ≡ some a
    → is_some (lookup by_activity id (finalize_verification threshold db now id verdict).jobs)
      ≡ false
unfolding finalize_verification
finalize-leaves threshold db now id verdict a v found =
    elim (Bool-cases (is_queued a.verification_state)) [
      | inl q ↦
          rw (found, finalize_verification)
            (rw (q, finalize_verification)
              (rw (lookup-delete by_activity id id _, beq_refl id) refl))
      | inr q ↦
          rw (found, finalize_verification)
            (rw (q, finalize_verification) (rw q at (Coherent-at v id a found).0))
    ]

applied-leaves :
    (config : Config) (db : Db) (now id : ℕ) (a : Activity) (o : JobOutcome)
    → Inv db
    → lookup by_id id db.activities ≡ some a
    → is_reschedule o ≡ false
    → is_some (lookup by_activity id (apply_job_outcome config db now id o).jobs) ≡ false
unfolding apply_job_outcome
applied-leaves config db now id a (reschedule delay_ms e) v found h = ground arith
applied-leaves config db now id a (close reason) v found h = rw (close-leaves db id) refl
applied-leaves config db now id a (finalize verdict observed) v found h =
    finalize-leaves config.quarantine_strikes db now id verdict a v found

-- In a database that keeps the queue's invariant, a stored activity's job whose verification window
-- is over is resolved without an error, and the outcome that is applied takes it out of the queue.
pub exhausted-leaves :
    (db : Db) (c : ClaimedJob) (deps : VerifyJobDeps) (a : Activity)
    → Inv db
    → lookup by_id c.job.activity_id db.activities ≡ some a
    → IsExhausted c deps
    → (o : JobOutcome) × (resolve_job_outcome c deps ≡ some o)
      × (is_some (
            lookup by_activity c.job.activity_id
              (apply_job_outcome deps.config db deps.now c.job.activity_id o).jobs)
          ≡ false)
exhausted-leaves db c deps a v found over =
    let (o, resolved, ended) = exhausted-IsResolved c deps over in
    (o, resolved, applied-leaves deps.config db deps.now c.job.activity_id a o v found ended)
