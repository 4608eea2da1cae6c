-- ===== src/Server/Queue/Operators.antt =====
-- The CLI, registration, revocation and the purge keep the invariant of the queue.
use vex_agentscan.Base.{
  ℕ, String, true, ◌&&◌, List, map, some, is_some, arith, lookup, delete_all, lookup-put,
  lookup-delete_all, delete_all-IsKeyed, lookup-find, contains, keep_if, ◌≡◌, refl, ◌==◌, nat_eq,
  string_eq, nat_beq_iff, Bool-cases, Option-cases, inl, inr,
}
use vex_agentscan.Server.Db.{
  VerificationState, Activity, Job, Db, by_id, by_activity, is_none_state,
}
use vex_agentscan.Server.Ingest.{new_job}
use vex_agentscan.Server.Operator.{
  is_mismatch, find_public, restarted_job, requeue, retry_verification, restore_agent_standing,
  reopen_activity, reopen_verification, lift_quarantine,
}
use vex_agentscan.Server.Agents.{
  AgentRegistration, upsert_agent_registration, revoke_agent, purge_agent_data,
}
use vex_agentscan.Server.Queue.Coherence.{QueueInv, Inv, Elsewhere, is_verifiable, write-QueueInv}
use vex_agentscan.Server.Queue.Verdicts.{SameQueue}

restarted-Elsewhere : (now k : ℕ) (jobs : List Job) → Elsewhere k jobs (restarted_job now k jobs)
unfolding restarted_job
restarted-Elsewhere now k jobs i h = rw (lookup-put by_activity i (new_job now k) jobs, h)

restarted_at :
    (now k : ℕ) (jobs : List Job) → is_some (lookup by_activity k (restarted_job now k jobs)) ≡ true
unfolding restarted_job
restarted_at now k jobs =
    rw (lookup-put by_activity k (new_job now k) jobs, (nat_beq_iff k k).1 refl)

pub public-row :
    (public_id : String) (db : Db) (a : Activity)
    → Inv db
    → find_public public_id db ≡ some a
    → lookup by_id a.id db.activities ≡ some a
unfolding find_public
public-row public_id db a v found = lookup-find by_id _ db.activities a v.keyed found

pub requeue-Inv :
    (now : ℕ) (a : Activity) (db : Db)
    → Inv db
    → lookup by_id a.id db.activities ≡ some a
    → is_verifiable a ≡ true
    → Inv (requeue now a db)
unfolding requeue
requeue-Inv now a db v found ok =
    write-QueueInv v (record a { verification_state = VerificationState.queued })
      (restarted_job now a.id db.jobs) a found (restarted-Elsewhere now a.id db.jobs)
      (restarted_at now a.id db.jobs, λ _. ok)

pub retry-Inv :
    (db : Db) (now : ℕ) (public_id : String) → Inv db → Inv (retry_verification db now public_id).0
unfolding retry_verification
retry-Inv db now public_id v = elim (Option-cases (find_public public_id db)) [
  | inl missing ↦ rw (missing, retry_verification) v
  | inr (a, found) ↦ elim (Bool-cases (is_none_state a.verification_state && is_verifiable a)) [
    | inl ok ↦
        rw (found, retry_verification)
          (rw (ok, retry_verification)
            (requeue-Inv now a db v (public-row public_id db a v found) (ground arith)))
    | inr out ↦ rw (found, retry_verification) (rw (out, retry_verification) v)
  ]
]

restore-SameQueue :
    (threshold : ℕ) (hash : String) (withdrawn : ℕ) (db : Db)
    → SameQueue db (restore_agent_standing threshold hash withdrawn db).0
unfolding restore_agent_standing
restore-SameQueue threshold hash withdrawn db = ground arith

pub reopen_activity-SameQueue :
    (threshold now : ℕ) (a : Activity) (db : Db)
    → SameQueue (requeue now a db) (reopen_activity threshold now a db).0
unfolding reopen_activity
reopen_activity-SameQueue threshold now a db = restore-SameQueue threshold a.agent_hash _ _

pub SameQueue-Inv : (db db' : Db) → SameQueue db db' → Inv db → Inv db'
SameQueue-Inv db db' same v = rw (same.0, same.1, same.2) v

pub reopen-Inv :
    (threshold : ℕ) (db : Db) (now : ℕ) (public_id : String)
    → Inv db
    → Inv (reopen_verification threshold db now public_id).0
unfolding reopen_verification
reopen-Inv threshold db now public_id v = elim (Option-cases (find_public public_id db)) [
  | inl missing ↦ rw (missing, reopen_verification) v
  | inr (a, found) ↦ elim (Bool-cases (is_mismatch a.verification_state && is_verifiable a)) [
    | inl ok ↦
        rw (found, reopen_verification)
          (rw (ok, reopen_verification)
            (SameQueue-Inv (requeue now a db) (reopen_activity threshold now a db).0
              (reopen_activity-SameQueue threshold now a db)
              (requeue-Inv now a db v (public-row public_id db a v found) (ground arith))))
    | inr out ↦ rw (found, reopen_verification) (rw (out, reopen_verification) v)
  ]
]

pub lift-SameQueue : (db : Db) (hash : String) → SameQueue db (lift_quarantine db hash).0
unfolding lift_quarantine
lift-SameQueue db hash = ground arith

pub register-SameQueue :
    (db : Db) (r : AgentRegistration) → SameQueue db (upsert_agent_registration db r).0
unfolding upsert_agent_registration
register-SameQueue db r = ground arith

pub revoke-SameQueue : (db : Db) (now : ℕ) (hash : String) → SameQueue db (revoke_agent db now hash)
unfolding revoke_agent
revoke-SameQueue db now hash = ground arith

-- Deleting activities with their jobs.
delete_all-QueueInv :
    {acts : List Activity} {jobs : List Job} {next : ℕ} (v : QueueInv acts jobs next) (ks : List ℕ)
    → QueueInv (delete_all by_id ks acts) (delete_all by_activity ks jobs) next
delete_all-QueueInv {acts} {jobs} v ks = record {
  keyed = delete_all-IsKeyed by_id ks acts v.keyed;
  fresh = λ i h. ground (arith, lookup-delete_all by_id i ks acts, v.fresh i h);
  coherent = λ i. elim (Bool-cases (contains ks i)) [
    | inl gone ↦
        rw (lookup-delete_all by_id i ks acts, lookup-delete_all by_activity i ks jobs, gone) refl
    | inr kept ↦
        rw (lookup-delete_all by_id i ks acts, lookup-delete_all by_activity i ks jobs, kept)
          (v.coherent i)
  ];
}

abbrev pub purged_ids : String → Db → List ℕ
purged_ids hash db = map (λ a. a.id) (keep_if (λ a. a.agent_hash == hash) db.activities)

pub purge_queue :
    (db : Db) (now : ℕ) (hash : String)
    → ((purge_agent_data db now hash).0.activities
        ≡ delete_all by_id (purged_ids hash db) db.activities)
      × ((purge_agent_data db now hash).0.jobs
          ≡ delete_all by_activity (purged_ids hash db) db.jobs)
      × ((purge_agent_data db now hash).0.next_activity_id ≡ db.next_activity_id)
unfolding purge_agent_data
purge_queue db now hash = ground arith

pub purge-Inv : (db : Db) (now : ℕ) (hash : String) → Inv db → Inv (purge_agent_data db now hash).0
purge-Inv db now hash v =
    let same = purge_queue db now hash in
    rw (same.0, same.1, same.2) (delete_all-QueueInv v (purged_ids hash db))
