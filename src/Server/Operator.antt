-- ===== src/Server/Operator.antt =====
-- apps/server/src/cli: the operator's commands on verification and on an agent's standing
-- (verify-retry.ts, verify-reopen.ts, quarantine.ts). A refused command is rolled back.
use vex_agentscan.Base.{
  ℕ, ◌-◌, String, Bool, true, false, not, ◌&&◌, ◌||◌, List, [], ◌∷◌, ◌++◌, Option, none, some,
  is_some, leb, length, keep_if, find, lookup, put, ◌==◌, if◌then◌else◌, nat_eq, string_eq,
}
use vex_agentscan.Contract.Enums.{EventStatus}
use vex_agentscan.Server.Db.{
  VerificationState, AgentStatus, StrikeReason, Activity, Job, Agent, Strike, Db, by_id,
  by_activity, by_hash, is_none_state,
}
use vex_agentscan.Server.Ingest.{is_confirmed, new_job}
use vex_agentscan.Server.Finalize.{with_agent}

abbrev pub is_mismatch : VerificationState → Bool
is_mismatch VerificationState.mismatch = true
is_mismatch _ = false

abbrev pub is_quarantined : AgentStatus → Bool
is_quarantined AgentStatus.quarantined = true
is_quarantined _ = false

unfoldable pub find_public : String → Db → Option Activity
find_public public_id db = find (λ a. a.public_id == public_id) db.activities

pub data Refusal : Type 0 where
  not_found : Refusal
  not_eligible : VerificationState → EventStatus → Refusal

-- A job that starts over: INSERT … ON CONFLICT (activity_id) DO UPDATE.
unfoldable pub restarted_job : ℕ → ℕ → List Job → List Job
restarted_job now id jobs = put by_activity (new_job now id) jobs

unfoldable pub requeue : ℕ → Activity → Db → Db
unfolding restarted_job
requeue now a db = record db {
  activities = put by_id (record a { verification_state = VerificationState.queued }) db.activities;
  jobs = restarted_job now a.id db.jobs;
}

pub data RetryOutcome : Type 0 where
  requeued : RetryOutcome
  refused : Refusal → RetryOutcome

unfoldable pub retry_verification : Db → ℕ → String → Db × RetryOutcome
unfolding requeue find_public
retry_verification db now public_id = elim (find_public public_id db) [
  | none ↦ (db, RetryOutcome.refused not_found)
  | some a ↦
      if is_none_state a.verification_state && (is_confirmed a.status && is_some a.tx_hash)
      then (requeue now a db, requeued)
      else (db, RetryOutcome.refused (not_eligible a.verification_state a.status))
]

abbrev names_activity : ℕ → Strike → Bool
names_activity id s = elim s.activity_id [ none ↦ false | some i ↦ i == id ]

-- `restoreAgentStanding`, with the threshold QUARANTINE_STRIKES.
unfoldable pub restore_agent_standing : ℕ → String → ℕ → Db → Db × Bool
restore_agent_standing threshold agent_hash withdrawn db =
    if withdrawn == 0 then (db, false) else elim (lookup by_hash agent_hash db.agents) [
      | none ↦ (db, false)
      | some g ↦
          let counted : Agent = record g { strike_count = g.strike_count - withdrawn } in
          if not (is_quarantined counted.status) || leb threshold counted.strike_count
          then (with_agent counted db, false)
          else (
            with_agent (record counted { status = AgentStatus.active; quarantined_at = none }) db,
            true,
          )
    ]

pub data ReopenOutcome : Type 0 where
  reopened : (strikes_withdrawn : ℕ) → (quarantine_lifted : Bool) → ReopenOutcome
  refused : Refusal → ReopenOutcome

abbrev note_strike : String → StrikeReason → Db → Db
note_strike agent_hash reason db = record db {
  strikes =
      db.strikes ++ record { agent_hash = agent_hash; activity_id = none; reason = reason } ∷ [];
}

-- What reopening writes once the activity is back in the queue.
unfoldable pub reopen_activity : ℕ → ℕ → Activity → Db → Db × ReopenOutcome
unfolding requeue restore_agent_standing
reopen_activity threshold now a db =
    let queued = requeue now a db in
    let withdrawn = length (keep_if (names_activity a.id) queued.strikes) in
    let kept : Db = record queued {
      strikes = keep_if (λ s. not (names_activity a.id s)) queued.strikes;
    } in
    let (restored, lifted) = restore_agent_standing threshold a.agent_hash withdrawn kept in
    (note_strike a.agent_hash StrikeReason.operator_reopen restored, reopened withdrawn lifted)

unfoldable pub reopen_verification : ℕ → Db → ℕ → String → Db × ReopenOutcome
unfolding reopen_activity find_public
reopen_verification threshold db now public_id = elim (find_public public_id db) [
  | none ↦ (db, ReopenOutcome.refused not_found)
  | some a ↦
      if is_mismatch a.verification_state && (is_confirmed a.status && is_some a.tx_hash)
      then reopen_activity threshold now a db
      else (db, ReopenOutcome.refused (not_eligible a.verification_state a.status))
]

unfoldable pub lift_quarantine : Db → String → Db × Bool
lift_quarantine db agent_hash = elim (lookup by_hash agent_hash db.agents) [
  | none ↦ (db, false)
  | some g ↦
      if is_quarantined g.status
      then (
        note_strike agent_hash StrikeReason.operator_lift (
            with_agent
              (record g { status = AgentStatus.active; strike_count = 0; quarantined_at = none })
              db),
        true,
      )
      else (db, false)
]
