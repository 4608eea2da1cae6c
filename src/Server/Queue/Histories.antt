-- ===== src/Server/Queue/Histories.antt =====
-- Every history of the service: the calls of the API, of the worker and of the operator, in any
-- order, from an empty database.
use vex_agentscan.Base.{
  ℕ, String, Bool, true, false, List, [], ◌∷◌, some, is_some, arith, lookup, lookup-nil, ◌≡◌, refl,
  nat_eq,
}
use vex_agentscan.Contract.Event.{IngestEvent}
use vex_agentscan.Core.Verdict.{TerminalVerdict}
use vex_agentscan.Server.Db.{Activity, Db, by_id, by_activity, is_queued, is_none_state}
use vex_agentscan.Server.Ingest.{after, apply_event}
use vex_agentscan.Server.Claim.{claim_due_jobs}
use vex_agentscan.Server.Finalize.{finalize_verification, reschedule_job, close_unverifiable}
use vex_agentscan.Server.Operator.{retry_verification, reopen_verification, lift_quarantine}
use vex_agentscan.Server.Agents.{
  AgentRegistration, upsert_agent_registration, revoke_agent, purge_agent_data,
}
use vex_agentscan.Server.Queue.Coherence.{Inv, is_verifiable, Coherent-at, no_job_at}
use vex_agentscan.Server.Queue.Ingested.{apply_event-Inv}
use vex_agentscan.Server.Queue.Verdicts.{finalize-Inv, close-Inv, reschedule-Inv}
use vex_agentscan.Server.Queue.Claims.{claim-Inv}
use vex_agentscan.Server.Queue.Operators.{
  retry-Inv, reopen-Inv, SameQueue-Inv, lift-SameQueue, register-SameQueue, revoke-SameQueue,
  purge-Inv,
}
use vex_agentscan.Server.Queue.Transitions.{AllMove, Moves-refl, SameQueue-AllMove}
use vex_agentscan.Server.Queue.Transitions.Reported.{apply_event-AllMove}
use vex_agentscan.Server.Queue.Transitions.Judged.{
  finalize-AllMove, close-AllMove, reschedule-AllMove, retry-AllMove, reopen-AllMove, purge-AllMove,
}

-- One transaction of the service, with its inputs.
pub data Call : Type 0 where
  report : (public_id agent_hash : String) → IngestEvent → (version : ℕ) → (backfill : Bool) → Call
  claim : (locked : ℕ → Bool) → (limit lease_ms : ℕ) → Call
  finalize : (id : ℕ) → TerminalVerdict → Call
  reschedule : (id delay_ms : ℕ) → (last_error : String) → Call
  close : (id : ℕ) → Call
  retry reopen : (public_id : String) → Call
  lift revoke purge : (agent_hash : String) → Call
  register : AgentRegistration → Call

pub record Timed : Type 0 where
  pub now : ℕ
  pub call : Call

-- The database after one call; `threshold` is QUARANTINE_STRIKES.
unfoldable pub step_call : ℕ → ℕ → Call → Db → Db
step_call threshold now (report public_id agent_hash event version backfill) db =
    after db (apply_event db now public_id agent_hash event version backfill)
step_call threshold now (claim locked limit lease_ms) db =
    (claim_due_jobs db now locked limit lease_ms).0
step_call threshold now (finalize id verdict) db = finalize_verification threshold db now id verdict
step_call threshold now (reschedule id delay_ms last_error) db =
    reschedule_job db now id delay_ms last_error
step_call threshold now (close id) db = close_unverifiable db id
step_call threshold now (retry public_id) db = (retry_verification db now public_id).0
step_call threshold now (reopen public_id) db = (reopen_verification threshold db now public_id).0
step_call threshold now (lift agent_hash) db = (lift_quarantine db agent_hash).0
step_call threshold now (revoke agent_hash) db = revoke_agent db now agent_hash
step_call threshold now (purge agent_hash) db = (purge_agent_data db now agent_hash).0
step_call threshold now (register r) db = (upsert_agent_registration db r).0

unfoldable pub run : ℕ → List Timed → Db → Db
run threshold [] db = db
run threshold (t ∷ ts) db = run threshold ts (step_call threshold t.now t.call db)

abbrev pub empty_db : Db
empty_db = record {
  activities = [];
  jobs = [];
  agents = [];
  strikes = [];
  aggregates = [];
  wallets = [];
  next_activity_id = 1;
}

pub step-Inv :
    (threshold now : ℕ) (c : Call) (db : Db) → Inv db → Inv (step_call threshold now c db)
unfolding step_call
step-Inv threshold now (report pid hash event version backfill) db v =
    apply_event-Inv db now pid hash event version backfill v
step-Inv threshold now (claim locked limit lease_ms) db v = claim-Inv db now locked limit lease_ms v
step-Inv threshold now (finalize id verdict) db v = finalize-Inv threshold db now id verdict v
step-Inv threshold now (reschedule id delay_ms e) db v = reschedule-Inv db now id delay_ms e v
step-Inv threshold now (close id) db v = close-Inv db id v
step-Inv threshold now (retry pid) db v = retry-Inv db now pid v
step-Inv threshold now (reopen pid) db v = reopen-Inv threshold db now pid v
step-Inv threshold now (lift hash) db v =
    SameQueue-Inv db (lift_quarantine db hash).0 (lift-SameQueue db hash) v
step-Inv threshold now (revoke hash) db v =
    SameQueue-Inv db (revoke_agent db now hash) (revoke-SameQueue db now hash) v
step-Inv threshold now (purge hash) db v = purge-Inv db now hash v
step-Inv threshold now (register r) db v =
    SameQueue-Inv db (upsert_agent_registration db r).0 (register-SameQueue db r) v

run-Inv : (threshold : ℕ) (ts : List Timed) (db : Db) → Inv db → Inv (run threshold ts db)
unfolding run
run-Inv threshold [] db v = v
run-Inv threshold (t ∷ ts) db v = run-Inv threshold ts _ (step-Inv threshold t.now t.call db v)

pub empty-Inv : Inv empty_db
empty-Inv = record {
  keyed = tt;
  fresh = λ i h. lookup-nil by_id i;
  coherent = λ i. rw (lookup-nil by_id i, lookup-nil by_activity i) refl;
}

pub reached-Inv : (threshold : ℕ) (ts : List Timed) → Inv (run threshold ts empty_db)
reached-Inv threshold ts = run-Inv threshold ts empty_db empty-Inv

-- After any sequence of calls on an empty database, an activity's verification state is `queued`
-- exactly when it has a verification job.
pub queued_iff_job :
    (threshold : ℕ) (ts : List Timed) (id : ℕ) (a : Activity)
    → lookup by_id id (run threshold ts empty_db).activities ≡ some a
    → is_some (lookup by_activity id (run threshold ts empty_db).jobs)
      ≡ is_queued a.verification_state
queued_iff_job threshold ts id a found = (Coherent-at (reached-Inv threshold ts) id a found).0

-- After any sequence of calls on an empty database, every verification job is the job of a stored
-- activity.
pub job-has_activity :
    (threshold : ℕ) (ts : List Timed) (id : ℕ)
    → is_some (lookup by_activity id (run threshold ts empty_db).jobs) ≡ true
    → is_some (lookup by_id id (run threshold ts empty_db).activities) ≡ true
job-has_activity threshold ts id job = ground (arith, no_job_at (reached-Inv threshold ts) id)

-- After any sequence of calls on an empty database, an activity whose verification state is not
-- `none` is confirmed and has a transaction hash.
pub judged-IsVerifiable :
    (threshold : ℕ) (ts : List Timed) (id : ℕ) (a : Activity)
    → lookup by_id id (run threshold ts empty_db).activities ≡ some a
    → is_none_state a.verification_state ≡ false
    → is_verifiable a ≡ true
judged-IsVerifiable threshold ts id a found = (Coherent-at (reached-Inv threshold ts) id a found).1

step-Moves :
    (threshold now : ℕ) (c : Call) (db : Db) → Inv db → AllMove db (step_call threshold now c db)
unfolding step_call claim_due_jobs
step-Moves threshold now (report pid hash event version backfill) db v =
    apply_event-AllMove db now pid hash event version backfill v
step-Moves threshold now (claim locked limit lease_ms) db v = λ i. Moves-refl _
step-Moves threshold now (finalize id verdict) db v = finalize-AllMove threshold db now id verdict
step-Moves threshold now (reschedule id delay_ms e) db v = reschedule-AllMove db now id delay_ms e
step-Moves threshold now (close id) db v = close-AllMove db id
step-Moves threshold now (retry pid) db v = retry-AllMove db now pid v
step-Moves threshold now (reopen pid) db v = reopen-AllMove threshold db now pid v
step-Moves threshold now (lift hash) db v =
    SameQueue-AllMove db (lift_quarantine db hash).0 (lift-SameQueue db hash)
step-Moves threshold now (revoke hash) db v =
    SameQueue-AllMove db (revoke_agent db now hash) (revoke-SameQueue db now hash)
step-Moves threshold now (purge hash) db v = purge-AllMove db now hash
step-Moves threshold now (register r) db v =
    SameQueue-AllMove db (upsert_agent_registration db r).0 (register-SameQueue db r)

-- In a database that a sequence of calls reached from the empty one, a further call leaves every
-- activity where the state machine allows: it appears, is deleted, or makes a `Transition`.
pub step-AllMove :
    (threshold : ℕ) (ts : List Timed) (now : ℕ) (c : Call)
    → AllMove (run threshold ts empty_db) (step_call threshold now c (run threshold ts empty_db))
step-AllMove threshold ts now c = step-Moves threshold now c _ (reached-Inv threshold ts)
