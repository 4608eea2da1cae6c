-- ===== src/Server/Queue/Transitions/Judged.antt =====
-- Verdicts, the operator and the purge move an activity as the state machine allows
-- (activities-verify-repo.ts, the CLI and purge-repo.ts).
use vex_agentscan.Base.{
  ℕ, String, true, ◌&&◌, some, arith, lookup, put, lookup-delete_all, key-lookup, contains, ◌≡◌,
  nat_eq, string_eq, Bool-cases, Option-cases, inl, inr,
}
use vex_agentscan.Core.Verdict.{TerminalVerdict}
use vex_agentscan.Server.Db.{
  VerificationState, Activity, Db, by_id, by_activity, is_queued, is_none_state,
}
use vex_agentscan.Server.Finalize.{
  finalized_row, finalize_verification, close_unverifiable, reschedule_job,
}
use vex_agentscan.Server.Operator.{
  is_mismatch, find_public, requeue, retry_verification, reopen_verification,
}
use vex_agentscan.Server.Agents.{purge_agent_data}
use vex_agentscan.Server.Queue.Coherence.{Inv, is_verifiable}
use vex_agentscan.Server.Queue.Verdicts.{record_consequence-SameQueue}
use vex_agentscan.Server.Queue.Operators.{
  public-row, purged_ids, purge_queue, reopen_activity-SameQueue,
}
use vex_agentscan.Server.Queue.Transitions.{
  may_become, Transition, Moves-refl, AllMove, write-Moves, gone-Moves,
}

finalized-Transition :
    (now : ℕ) (verdict : TerminalVerdict) (a : Activity)
    → is_queued a.verification_state ≡ true
    → Transition a (finalized_row now verdict a)
unfolding finalized_row
finalized-Transition now verdict a q = ground arith

finalized_found :
    (now : ℕ) (verdict : TerminalVerdict) (a : Activity) (id : ℕ) (db : Db)
    → lookup by_id id db.activities ≡ some a
    → lookup by_id (finalized_row now verdict a).id db.activities ≡ some a
unfolding finalized_row
finalized_found now verdict a id db found =
    rw (← key-lookup by_id id a db.activities found) at found

closed-Transition :
    (a : Activity)
    → is_queued a.verification_state ≡ true
    → Transition a (record a { verification_state = VerificationState.none })
closed-Transition a q = ground arith

pub finalize-AllMove :
    (threshold : ℕ) (db : Db) (now id : ℕ) (verdict : TerminalVerdict)
    → AllMove db (finalize_verification threshold db now id verdict)
unfolding finalize_verification
finalize-AllMove threshold db now id verdict i =
    elim (Option-cases (lookup by_id id db.activities)) [
      | inl missing ↦ rw (missing, finalize_verification) (Moves-refl _)
      | inr (a, found) ↦ elim (Bool-cases (is_queued a.verification_state)) [
        | inl q ↦
            let b = finalized_row now verdict a in
            let written : Db = record db { activities = put by_id b db.activities } in
            rw (found, finalize_verification)
              (rw (q, finalize_verification)
                (rw ((record_consequence-SameQueue threshold now verdict b written).0) (
                  write-Moves db.activities a b i (finalized_found now verdict a id db found)
                    (finalized-Transition now verdict a q))))
        | inr q ↦ rw (found, finalize_verification) (rw (q, finalize_verification) (Moves-refl _))
      ]
    ]

pub close-AllMove : (db : Db) (id : ℕ) → AllMove db (close_unverifiable db id)
unfolding close_unverifiable
close-AllMove db id i = elim (Option-cases (lookup by_id id db.activities)) [
  | inl missing ↦ rw (missing, close_unverifiable) (Moves-refl _)
  | inr (a, found) ↦ elim (Bool-cases (is_queued a.verification_state)) [
    | inl q ↦
        rw (found, close_unverifiable)
          (rw (q, close_unverifiable)
            (write-Moves db.activities a (record a { verification_state = VerificationState.none })
              i (rw (← key-lookup by_id id a db.activities found) at found)
              (closed-Transition a q)))
    | inr q ↦ rw (found, close_unverifiable) (rw (q, close_unverifiable) (Moves-refl _))
  ]
]

pub reschedule-AllMove :
    (db : Db) (now id delay_ms : ℕ) (last_error : String)
    → AllMove db (reschedule_job db now id delay_ms last_error)
unfolding reschedule_job
reschedule-AllMove db now id delay_ms last_error i =
    elim (Option-cases (lookup by_activity id db.jobs)) [
      | inl missing ↦ rw (missing, reschedule_job) (Moves-refl _)
      | inr (j, found) ↦ rw (found, reschedule_job) (Moves-refl _)
    ]

requeue-AllMove :
    (now : ℕ) (a : Activity) (db : Db)
    → lookup by_id a.id db.activities ≡ some a
    → may_become a.verification_state VerificationState.queued ≡ true
    → AllMove db (requeue now a db)
unfolding requeue
requeue-AllMove now a db found ok i =
    write-Moves db.activities a (record a { verification_state = VerificationState.queued }) i found
      (ground arith)

pub retry-AllMove :
    (db : Db) (now : ℕ) (public_id : String)
    → Inv db
    → AllMove db (retry_verification db now public_id).0
unfolding retry_verification
retry-AllMove db now public_id v i = elim (Option-cases (find_public public_id db)) [
  | inl missing ↦ rw (missing, retry_verification) (Moves-refl _)
  | inr (a, found) ↦ elim (Bool-cases (is_none_state a.verification_state && is_verifiable a)) [
    | inl ok ↦
        rw (found, retry_verification)
          (rw (ok, retry_verification)
            (requeue-AllMove now a db (public-row public_id db a v found) (ground arith) i))
    | inr out ↦ rw (found, retry_verification) (rw (out, retry_verification) (Moves-refl _))
  ]
]

pub reopen-AllMove :
    (threshold : ℕ) (db : Db) (now : ℕ) (public_id : String)
    → Inv db
    → AllMove db (reopen_verification threshold db now public_id).0
unfolding reopen_verification
reopen-AllMove threshold db now public_id v i = elim (Option-cases (find_public public_id db)) [
  | inl missing ↦ rw (missing, reopen_verification) (Moves-refl _)
  | inr (a, found) ↦ elim (Bool-cases (is_mismatch a.verification_state && is_verifiable a)) [
    | inl ok ↦
        rw (found, reopen_verification)
          (rw (ok, reopen_verification)
            (rw ((reopen_activity-SameQueue threshold now a db).0)
              (requeue-AllMove now a db (public-row public_id db a v found) (ground arith) i)))
    | inr out ↦ rw (found, reopen_verification) (rw (out, reopen_verification) (Moves-refl _))
  ]
]

pub purge-AllMove :
    (db : Db) (now : ℕ) (hash : String) → AllMove db (purge_agent_data db now hash).0
purge-AllMove db now hash i =
    rw ((purge_queue db now hash).0, lookup-delete_all by_id i (purged_ids hash db) db.activities)
      (gone-Moves (contains (purged_ids hash db) i) (lookup by_id i db.activities))
