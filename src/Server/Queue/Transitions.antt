-- ===== src/Server/Queue/Transitions.antt =====
-- How one operation may move an activity: the state machine of `verification_state` and of
-- `status`. The children show that the operations keep to it.
pub mod Reported
pub mod Judged
use vex_agentscan.Base.{
  ℕ, suc, String, Bool, true, false, not, ◌&&◌, List, [], ◌∷◌, ◌++◌, Option, none, some, is_some,
  arith, lookup, put, delete_all, lookup-put, lookup-delete_all, key-lookup, lookup-find, contains,
  find, ◌≡◌, refl, ◌==◌, nat_eq, string_eq, nat_beq_iff, Bool-cases, Option-cases, inl, inr,
  if◌then◌else◌,
}
use vex_agentscan.Contract.Enums.{EventStatus}
use vex_agentscan.Contract.Event.{IngestEvent}
use vex_agentscan.Core.Ingest.{IngestOutcome}
use vex_agentscan.Core.Verdict.{TerminalVerdict}
use vex_agentscan.Server.Db.{
  VerificationState, Activity, Job, Db, by_id, by_activity, is_queued, is_none_state,
}
use vex_agentscan.Server.Ingest.{
  after, is_pending, append_status_seen, select_existing, perform, apply_event, insert_activity,
  promoted_row, promote_pending_activity, enqueue_when_queued, inserted_row,
}
use vex_agentscan.Server.Finalize.{
  finalized_row, record_consequence, finalize_verification, close_unverifiable, delete_job,
  reschedule_job,
}
use vex_agentscan.Server.Operator.{
  is_mismatch, find_public, requeue, retry_verification, reopen_activity, reopen_verification,
}
use vex_agentscan.Server.Agents.{purge_agent_data}
use vex_agentscan.Server.Queue.Coherence.{Inv, is_verifiable, Coherent-at}
use vex_agentscan.Server.Queue.Verdicts.{SameQueue, record_consequence-SameQueue}
use vex_agentscan.Server.Queue.Operators.{
  public-row, purged_ids, purge_queue, reopen_activity-SameQueue,
}

-- A verified state is final; a mismatch is left only back to the queue.
abbrev pub may_become : VerificationState → VerificationState → Bool
may_become VerificationState.none VerificationState.none = true
may_become VerificationState.none VerificationState.queued = true
may_become VerificationState.queued _ = true
may_become VerificationState.verified_full VerificationState.verified_full = true
may_become VerificationState.verified_basic VerificationState.verified_basic = true
may_become VerificationState.mismatch VerificationState.mismatch = true
may_become VerificationState.mismatch VerificationState.queued = true
may_become _ _ = false

-- Only `pending` is left.
abbrev pub status_may_become : EventStatus → EventStatus → Bool
status_may_become EventStatus.pending _ = true
status_may_become EventStatus.confirmed EventStatus.confirmed = true
status_may_become EventStatus.definitively_failed EventStatus.definitively_failed = true
status_may_become EventStatus.superseded_unproven EventStatus.superseded_unproven = true
status_may_become _ _ = false

pub record Transition (a b : Activity) : Type 0 where
  pub verification : may_become a.verification_state b.verification_state ≡ true
  pub reported : status_may_become a.status b.status ≡ true
  pub owner : b.agent_hash ≡ a.agent_hash
  pub source : b.source_row_id ≡ a.source_row_id

-- An activity may appear, go, or make a transition.
abbrev pub Moves : Option Activity → Option Activity → Type 0
Moves (some a) (some b) = Transition a b
Moves _ _ = Unit

pub Moves-refl : (o : Option Activity) → Moves o o
Moves-refl none = tt
Moves-refl (some a) = ground arith

-- The activities move as one operation may move them.
abbrev pub AllMove : Db → Db → Type 0
AllMove db db' = (i : ℕ) → Moves (lookup by_id i db.activities) (lookup by_id i db'.activities)

pub SameQueue-AllMove : (db db' : Db) → SameQueue db db' → AllMove db db'
SameQueue-AllMove db db' same i = rw (same.0) (Moves-refl _)

pub write-Moves :
    (acts : List Activity) (a b : Activity) (i : ℕ)
    → lookup by_id b.id acts ≡ some a
    → Transition a b
    → Moves (lookup by_id i acts) (lookup by_id i (put by_id b acts))
write-Moves acts a b i old t = elim (Bool-cases (b.id == i)) [
  | inl same ↦ rw (lookup-put by_id i b acts, same, ← (nat_beq_iff _ _).0 same, old) t
  | inr other ↦ rw (lookup-put by_id i b acts, other) (Moves-refl _)
]

-- The write of an activity whose id was free.
pub fresh-Moves :
    (acts : List Activity) (b : Activity) (i : ℕ)
    → lookup by_id b.id acts ≡ none
    → Moves (lookup by_id i acts) (lookup by_id i (put by_id b acts))
fresh-Moves acts b i free = elim (Bool-cases (b.id == i)) [
  | inl same ↦ rw (lookup-put by_id i b acts, same, ← (nat_beq_iff _ _).0 same, free) tt
  | inr other ↦ rw (lookup-put by_id i b acts, other) (Moves-refl _)
]

pub gone-Moves : (gone : Bool) (o : Option Activity) → Moves o (if gone then none else o)
gone-Moves gone none = ground arith
gone-Moves true (some a) = tt
gone-Moves false (some a) = Moves-refl (some a)
