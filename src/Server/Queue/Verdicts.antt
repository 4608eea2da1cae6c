-- ===== src/Server/Queue/Verdicts.antt =====
-- Claiming, finalizing, rescheduling and closing keep the invariant of the queue
-- (activities-verify-repo.ts).
use vex_agentscan.Base.{
  ℕ, String, true, false, List, none, some, is_some, arith, lookup, put, delete, lookup-put,
  lookup-delete, key-lookup, ◌≡◌, refl, nat_eq, nat_beq_iff, Bool-cases, Option-cases, inl, inr,
  ◌∙◌,
}
use vex_agentscan.Core.Verdict.{StrikeVerdict, TerminalVerdict}
use vex_agentscan.Core.Policy.{is_launch_shaped}
use vex_agentscan.Server.Db.{
  VerificationState, Activity, Job, Db, by_id, by_activity, is_queued, is_none_state,
}
use vex_agentscan.Server.Finalize.{
  quarantine, record_strike, record_verified_success, finalized_row, record_consequence,
  finalize_verification, reschedule_job, close_unverifiable, delete_job,
}
use vex_agentscan.Server.Queue.Coherence.{
  QueueInv, is_verifiable, Inv, Elsewhere, write-QueueInv, Coherent-at, no_job_at, jobs-QueueInv,
}

-- What the queue is made of, which the consequences of a verdict leave alone.
abbrev pub SameQueue : Db → Db → Type 0
SameQueue db db' =
    (db'.activities ≡ db.activities)
    × (db'.jobs ≡ db.jobs)
    × (db'.next_activity_id ≡ db.next_activity_id)

quarantine-SameQueue : (now : ℕ) (hash : String) (db : Db) → SameQueue db (quarantine now hash db)
unfolding quarantine
quarantine-SameQueue now hash db = ground arith

record_strike-SameQueue :
    (threshold now id : ℕ) (hash : String) (reason : StrikeVerdict) (db : Db)
    → SameQueue db (record_strike threshold now id hash reason db)
unfolding record_strike
record_strike-SameQueue threshold now id hash reason db = ground arith

record_verified_success-SameQueue :
    (now : ℕ) (a : Activity) (db : Db) → SameQueue db (record_verified_success now a db)
unfolding record_verified_success
record_verified_success-SameQueue now a db = ground arith

pub record_consequence-SameQueue :
    (threshold now : ℕ) (verdict : TerminalVerdict) (a : Activity) (db : Db)
    → SameQueue db (record_consequence threshold now verdict a db)
unfolding record_consequence
record_consequence-SameQueue threshold now (TerminalVerdict.strike reason) a db =
    elim (Bool-cases (is_launch_shaped a.kind a.event_role)) [
      | inl exempt ↦ rw (exempt, record_consequence) (refl, refl, refl)
      | inr held ↦
          rw (held, record_consequence)
            (record_strike-SameQueue threshold now a.id a.agent_hash reason db)
    ]
record_consequence-SameQueue threshold now (TerminalVerdict.verified_full t) a db =
    record_verified_success-SameQueue now a db
record_consequence-SameQueue threshold now (TerminalVerdict.verified_basic t) a db =
    record_verified_success-SameQueue now a db

delete-Elsewhere : (k : ℕ) (jobs : List Job) → Elsewhere k jobs (delete by_activity k jobs)
delete-Elsewhere k jobs i h = rw (lookup-delete by_activity i k jobs, h)

deleted_at : (k : ℕ) (jobs : List Job) → lookup by_activity k (delete by_activity k jobs) ≡ none
deleted_at k jobs = rw (lookup-delete by_activity k k jobs, (nat_beq_iff k k).1 refl)

-- An activity leaves the queue together with its job.
leave-QueueInv :
    {acts : List Activity} {jobs : List Job} {next : ℕ} (v : QueueInv acts jobs next)
    (a b : Activity)
    → lookup by_id a.id acts ≡ some b
    → is_queued a.verification_state ≡ false
    → (is_none_state a.verification_state ≡ false → is_verifiable a ≡ true)
    → QueueInv (put by_id a acts) (delete by_activity a.id jobs) next
leave-QueueInv {jobs} v a b old out ok =
    write-QueueInv v a (delete by_activity a.id jobs) b old (delete-Elsewhere a.id jobs)
      (rw (deleted_at a.id jobs, out) (refl, ok))

finalized-not_queued :
    (now : ℕ) (verdict : TerminalVerdict) (a : Activity)
    → is_queued (finalized_row now verdict a).verification_state ≡ false
unfolding finalized_row
finalized-not_queued now verdict a = ground arith

SameQueue-QueueInv :
    (db db' : Db) (id : ℕ)
    → SameQueue db db'
    → QueueInv db.activities (delete by_activity id db.jobs) db.next_activity_id
    → QueueInv db'.activities (delete by_activity id db'.jobs) db'.next_activity_id
SameQueue-QueueInv db db' id same v = rw (same.0, same.1, same.2) v

queued-verifiable :
    {acts : List Activity} {jobs : List Job} {next : ℕ} (v : QueueInv acts jobs next) (a : Activity)
    → lookup by_id a.id acts ≡ some a
    → is_queued a.verification_state ≡ true
    → is_verifiable a ≡ true
queued-verifiable v a found q = ground (arith, (Coherent-at v a.id a found).1)

finalized-Inv :
    (threshold : ℕ) (db : Db) (now : ℕ) (verdict : TerminalVerdict) (a : Activity)
    → Inv db
    → lookup by_id a.id db.activities ≡ some a
    → is_queued a.verification_state ≡ true
    → Inv (
        delete_job a.id (
          record_consequence threshold now verdict
            (finalized_row now verdict a)
            (record db { activities = put by_id (finalized_row now verdict a) db.activities })))
unfolding finalized_row
finalized-Inv threshold db now verdict a v found q =
    let b = finalized_row now verdict a in
    let written : Db = record db { activities = put by_id b db.activities } in
    SameQueue-QueueInv written (record_consequence threshold now verdict b written) a.id
      (record_consequence-SameQueue threshold now verdict b written)
      (leave-QueueInv v b a found (finalized-not_queued now verdict a)
        (λ _. queued-verifiable v a found q))

pub finalize-Inv :
    (threshold : ℕ) (db : Db) (now id : ℕ) (verdict : TerminalVerdict)
    → Inv db
    → Inv (finalize_verification threshold db now id verdict)
unfolding finalize_verification
finalize-Inv threshold db now id verdict v = elim (Option-cases (lookup by_id id db.activities)) [
  | inl missing ↦ rw (missing, finalize_verification) v
  | inr (a, found) ↦ elim (Bool-cases (is_queued a.verification_state)) [
    | inl q ↦
        let same = key-lookup by_id id a db.activities found in
        rw (found, finalize_verification)
          (rw (q, finalize_verification)
            (rw (← same) (finalized-Inv threshold db now verdict a v (rw (← same) at found) q)))
    | inr q ↦ rw (found, finalize_verification) (rw (q, finalize_verification) v)
  ]
]

-- Dropping the job of an activity that is not queued changes nothing.
drop-QueueInv :
    {acts : List Activity} {jobs : List Job} {next : ℕ} (v : QueueInv acts jobs next) (k : ℕ)
    → is_some (lookup by_activity k jobs) ≡ false
    → QueueInv acts (delete by_activity k jobs) next
drop-QueueInv {jobs} v k gone =
    jobs-QueueInv v (delete by_activity k jobs)
      (λ i. ground (arith, lookup-delete by_activity i k jobs, nat_beq_iff k i, gone))

closed-Inv :
    (db : Db) (a : Activity)
    → Inv db
    → lookup by_id a.id db.activities ≡ some a
    → Inv (close_unverifiable db a.id)
unfolding close_unverifiable
closed-Inv db a v found = elim (Bool-cases (is_queued a.verification_state)) [
  | inl q ↦
      rw (found, close_unverifiable)
        (rw (q, close_unverifiable)
          (leave-QueueInv v (record a { verification_state = VerificationState.none }) a found refl
            (λ e. cc)))
  | inr q ↦
      rw (found, close_unverifiable)
        (rw (q, close_unverifiable) (drop-QueueInv v a.id ((Coherent-at v a.id a found).0 ∙ q)))
]

pub close-Inv : (db : Db) (id : ℕ) → Inv db → Inv (close_unverifiable db id)
unfolding close_unverifiable
close-Inv db id v = elim (Option-cases (lookup by_id id db.activities)) [
  | inl missing ↦ rw (missing, close_unverifiable) (drop-QueueInv v id (no_job_at v id missing))
  | inr (a, found) ↦
      let same = key-lookup by_id id a db.activities found in
      rw (← same) (closed-Inv db a v (rw (← same) at found))
]

-- Writing over a job that is there.
overwritten-QueueInv :
    {acts : List Activity} {jobs : List Job} {next : ℕ} (v : QueueInv acts jobs next) (j j' : Job)
    → lookup by_activity j'.activity_id jobs ≡ some j
    → QueueInv acts (put by_activity j' jobs) next
overwritten-QueueInv {jobs} v j j' old =
    jobs-QueueInv v (put by_activity j' jobs)
      (λ i. ground (arith, lookup-put by_activity i j' jobs, nat_beq_iff j'.activity_id i, old))

pub reschedule-Inv :
    (db : Db) (now id delay_ms : ℕ) (last_error : String)
    → Inv db
    → Inv (reschedule_job db now id delay_ms last_error)
unfolding reschedule_job
reschedule-Inv db now id delay_ms last_error v =
    elim (Option-cases (lookup by_activity id db.jobs)) [
      | inl missing ↦ rw (missing, reschedule_job) v
      | inr (j, found) ↦
          rw (found, reschedule_job)
            (overwritten-QueueInv v j _ (rw (← key-lookup by_activity id j db.jobs found) at found))
    ]
