-- ===== src/Server/Queue/Ingested.antt =====
-- Applying an event keeps the invariant of the queue (activities-ingest-repo.ts).
use vex_agentscan.Base.{
  ℕ, suc, find, string_eq, [], ◌∷◌, ◌++◌, String, Bool, true, false, List, Option, none, some,
  is_some, arith, lookup, put, lookup-put, lookup-find, put-IsKeyed, ◌≡◌, refl, ◌==◌, nat_eq,
  nat_beq_iff, Bool-cases, Option-cases, inl, inr, if◌then◌else◌,
}
use vex_agentscan.Contract.Enums.{EventStatus}
use vex_agentscan.Contract.Event.{IngestEvent}
use vex_agentscan.Core.Ingest.{IngestOutcome}
use vex_agentscan.Server.Db.{Activity, Job, Db, by_id, by_activity, is_queued, is_none_state}
use vex_agentscan.Server.Ingest.{
  after, is_pending, new_job, enqueue_job, enqueue_when_queued, append_status_seen, select_existing,
  perform, apply_event, insert_activity, inserted_row, promoted_row, promote_pending_activity,
}
use vex_agentscan.Server.Queue.Coherence.{
  Coherent, QueueInv, Inv, Elsewhere, is_verifiable, write-QueueInv, write-Coherent, Coherent-at,
  no_job_at,
}

pub lookup-enqueue_job :
    (i now k : ℕ) (jobs : List Job)
    → is_some (lookup by_activity i (enqueue_job now k jobs))
      ≡ (if k == i then true else is_some (lookup by_activity i jobs))
unfolding enqueue_job
lookup-enqueue_job i now k jobs = ground (arith, lookup-put by_activity i (new_job now k) jobs)

pub enqueue-Elsewhere : (now k : ℕ) (jobs : List Job) → Elsewhere k jobs (enqueue_job now k jobs)
unfolding enqueue_job
enqueue-Elsewhere now k jobs i h = ground (arith, lookup-put by_activity i (new_job now k) jobs)

enqueued-Coherent :
    (now : ℕ) (a : Activity) (db : Db)
    → (is_none_state a.verification_state ≡ false → is_verifiable a ≡ true)
    → (is_queued a.verification_state ≡ false → is_some (lookup by_activity a.id db.jobs) ≡ false)
    → Coherent (some a) (lookup by_activity a.id (enqueue_when_queued now a db).jobs)
unfolding enqueue_when_queued
enqueued-Coherent now a db ok idle =
    ground (arith, lookup-enqueue_job a.id now a.id db.jobs, nat_beq_iff a.id a.id)

enqueued-Elsewhere :
    (now : ℕ) (a : Activity) (db : Db) → Elsewhere a.id db.jobs (enqueue_when_queued now a db).jobs
unfolding enqueue_when_queued
enqueued-Elsewhere now a db i h = ground (arith, enqueue-Elsewhere now a.id db.jobs i h)

enqueued_keeps :
    (now : ℕ) (a : Activity) (db : Db)
    → ((enqueue_when_queued now a db).activities ≡ db.activities)
      × ((enqueue_when_queued now a db).next_activity_id ≡ db.next_activity_id)
unfolding enqueue_when_queued
enqueued_keeps now a db = ground arith

enqueued-QueueInv :
    (now : ℕ) (a : Activity) (db : Db)
    → QueueInv db.activities (enqueue_when_queued now a db).jobs db.next_activity_id
    → Inv (enqueue_when_queued now a db)
unfolding enqueue_when_queued
enqueued-QueueInv now a db v = elim (Bool-cases (is_queued a.verification_state)) [
  | inl q ↦ rw (q, enqueue_when_queued) (rw (q, enqueue_when_queued) at v)
  | inr q ↦ rw (q, enqueue_when_queued) (rw (q, enqueue_when_queued) at v)
]

promoted-Coherent :
    (row : Activity) (event : IngestEvent) (j : Option Job)
    → is_pending row.status ≡ true
    → Coherent (some row) j
    → (is_none_state (promoted_row row event).verification_state ≡ false
        → is_verifiable (promoted_row row event) ≡ true)
      × (is_queued (promoted_row row event).verification_state ≡ false → is_some j ≡ false)
unfolding promoted_row
promoted-Coherent row event j p c = (ground arith, ground arith)

pub promote-Inv :
    (db : Db) (now : ℕ) (row : Activity) (event : IngestEvent)
    → Inv db
    → lookup by_id row.id db.activities ≡ some row
    → Inv (after db (promote_pending_activity db now row event))
unfolding promote_pending_activity
promote-Inv db now row event v old = elim (Bool-cases (is_pending row.status)) [
  | inl p ↦
      let a = promoted_row row event in
      let written : Db = record db { activities = put by_id a db.activities } in
      let (ok, idle) = promoted-Coherent row event _ p (Coherent-at v row.id row old) in
      rw (p, promote_pending_activity)
        (enqueued-QueueInv now a written (
          write-QueueInv v a (enqueue_when_queued now a written).jobs row old
            (enqueued-Elsewhere now a written) (enqueued-Coherent now a written ok idle)))
  | inr p ↦ rw (p, promote_pending_activity) v
]

-- A row under the next id of the sequence.
inserted-QueueInv :
    (db : Db) (a : Activity) (jobs' : List Job)
    → Inv db
    → a.id ≡ db.next_activity_id
    → Elsewhere a.id db.jobs jobs'
    → Coherent (some a) (lookup by_activity a.id jobs')
    → QueueInv (put by_id a db.activities) jobs' (suc db.next_activity_id)
inserted-QueueInv db a jobs' v new away here = record {
  keyed = put-IsKeyed by_id a db.activities v.keyed;
  fresh = λ i h. ground (arith, lookup-put by_id i a db.activities, v.fresh i (omega arith));
  coherent = write-Coherent v a jobs' away here;
}

inserted-verifiable :
    (id : ℕ) (public_id agent_hash : String) (event : IngestEvent) (version : ℕ) (backfill : Bool)
    → is_none_state (inserted_row id public_id agent_hash event version backfill).verification_state
      ≡ false
    → is_verifiable (inserted_row id public_id agent_hash event version backfill) ≡ true
unfolding inserted_row
inserted-verifiable id public_id agent_hash event version backfill h = ground arith

pub insert-Inv :
    (db : Db) (now : ℕ) (public_id agent_hash : String) (event : IngestEvent) (version : ℕ)
    (backfill : Bool)
    → Inv db
    → Inv (after db (insert_activity db now public_id agent_hash event version backfill))
unfolding insert_activity
insert-Inv db now public_id agent_hash event version backfill v =
    let next = db.next_activity_id in
    let a = inserted_row next public_id agent_hash event version backfill in
    let written : Db = record db {
      activities = put by_id a db.activities;
      next_activity_id = suc next;
    } in
    elim (Option-cases (find (λ b. b.public_id == public_id) db.activities)) [
      | inl free ↦
          rw (free, insert_activity)
            (enqueued-QueueInv now a written (
              inserted-QueueInv db a (enqueue_when_queued now a written).jobs v refl
                (enqueued-Elsewhere now a written)
                (enqueued-Coherent now a written
                  (inserted-verifiable next public_id agent_hash event version backfill)
                  (λ _. no_job_at v next (v.fresh next (omega arith))))))
      | inr (b, taken) ↦ rw (taken, insert_activity) v
    ]

append-Inv :
    (db : Db) (row : Activity) (status : EventStatus)
    → Inv db
    → lookup by_id row.id db.activities ≡ some row
    → Inv (append_status_seen db row status)
unfolding append_status_seen
append-Inv db row status v old =
    write-QueueInv v (record row { statuses_seen = row.statuses_seen ++ status ∷ [] }) db.jobs row
      old (λ i h. refl) (Coherent-at v row.id row old)

perform-Inv :
    (d : IngestOutcome) (existing : Option Activity) (db : Db) (now : ℕ)
    (public_id agent_hash : String) (event : IngestEvent) (version : ℕ) (backfill : Bool)
    → Inv db
    → ((row : Activity) → existing ≡ some row → lookup by_id row.id db.activities ≡ some row)
    → Inv (after db (perform d existing db now public_id agent_hash event version backfill))
unfolding perform
perform-Inv IngestOutcome.insert existing db now pid hash event version backfill v old =
    insert-Inv db now pid hash event version backfill v
perform-Inv IngestOutcome.duplicate existing db now pid hash event version backfill v old = v
perform-Inv IngestOutcome.promote (some row) db now pid hash event version backfill v old =
    promote-Inv db now row event v (old row refl)
perform-Inv IngestOutcome.accept_noop (some row) db now pid hash event version backfill v old =
    append-Inv db row event.status v (old row refl)
perform-Inv _ none db now pid hash event version backfill v old = v

pub apply_event-Inv :
    (db : Db) (now : ℕ) (public_id agent_hash : String) (event : IngestEvent) (version : ℕ)
    (backfill : Bool)
    → Inv db
    → Inv (after db (apply_event db now public_id agent_hash event version backfill))
unfolding apply_event
apply_event-Inv db now public_id agent_hash event version backfill v =
    perform-Inv _ (select_existing agent_hash event.source_row_id db) db now public_id agent_hash
      event version backfill v (λ row found. lookup-find by_id _ db.activities row v.keyed found)
