-- ===== src/Server/Ingest/Replay.antt =====
-- Reporting an event twice: the ingest API may be retried.
use vex_agentscan.Base.{
  ℕ, suc, String, Bool, true, ◌&&◌, List, [], ◌∷◌, ◌++◌, Option, none, some, arith, contains, find,
  put, find-put_new, find-put_old, ◌≡◌, refl, ◌==◌, nat_eq, string_eq, beq_refl, ap, ◌∙◌,
  Option-cases, inl, inr,
}
use vex_agentscan.Contract.Enums.{EventStatus, status_eq}
use vex_agentscan.Contract.Event.{IngestEvent}
use vex_agentscan.Core.Ingest.{IngestOutcome, decide_ingest}
use vex_agentscan.Core.Verification.Totals.{find-holds}
use vex_agentscan.Server.Db.{Activity, Db, by_id}
use vex_agentscan.Server.Ingest.{
  ApplyEventOutcome, accepted, duplicate, select_existing, state_of, perform, apply_event,
  insert_activity, inserted_row, promote_pending_activity, promoted_row, append_status_seen,
  enqueue_when_queued,
}
use vex_agentscan.Server.Queue.Coherence.{Inv}

abbrev is_reported_by : String → String → Activity → Bool
is_reported_by agent_hash source_row_id a =
    a.agent_hash == agent_hash && a.source_row_id == source_row_id

contains-snoc : (seen : List EventStatus) (s : EventStatus) → contains (seen ++ s ∷ []) s ≡ true
contains-snoc [] s = ground (arith, beq_refl s)
contains-snoc (t ∷ seen) s = ground (arith, contains-snoc seen s)

seen-duplicate :
    (db : Db) (now : ℕ) (public_id agent_hash : String) (event : IngestEvent) (version : ℕ)
    (backfill : Bool) (row : Activity)
    → select_existing agent_hash event.source_row_id db ≡ some row
    → contains row.statuses_seen event.status ≡ true
    → apply_event db now public_id agent_hash event version backfill ≡ some (db, duplicate)
unfolding apply_event perform decide_ingest
seen-duplicate db now public_id agent_hash event version backfill row found seen =
    rw (found, apply_event) (rw (seen, decide_ingest) refl)

-- The reported row of a database, with the event's status among those it has seen.
abbrev HasSeen : Db → String → IngestEvent → Type 0
HasSeen db agent_hash event =
    (row : Activity) × (select_existing agent_hash event.source_row_id db ≡ some row)
    × (contains row.statuses_seen event.status ≡ true)

enqueued-select :
    (now : ℕ) (a : Activity) (db : Db) (agent_hash source_row_id : String)
    → select_existing agent_hash source_row_id (enqueue_when_queued now a db)
      ≡ select_existing agent_hash source_row_id db
unfolding select_existing enqueue_when_queued
enqueued-select now a db agent_hash source_row_id = ground arith

inserted-reported :
    (id : ℕ) (public_id agent_hash : String) (event : IngestEvent) (version : ℕ) (backfill : Bool)
    → (is_reported_by agent_hash event.source_row_id
          (inserted_row id public_id agent_hash event version backfill)
        ≡ true)
      × (contains
            (inserted_row id public_id agent_hash event version backfill).statuses_seen
            event.status
          ≡ true)
unfolding inserted_row
inserted-reported id public_id agent_hash event version backfill =
    ground (arith, beq_refl agent_hash, beq_refl event.source_row_id, beq_refl event.status)

-- The committed state of an insert that succeeded.
inserted-state :
    (db db' : Db) (now : ℕ) (public_id agent_hash : String) (event : IngestEvent) (version : ℕ)
    (backfill : Bool)
    → insert_activity db now public_id agent_hash event version backfill ≡ some (db', accepted)
    → enqueue_when_queued now
        (inserted_row db.next_activity_id public_id agent_hash event version backfill)
        (record db {
          activities =
              put by_id
                (inserted_row db.next_activity_id public_id agent_hash event version backfill)
                db.activities;
          next_activity_id = suc db.next_activity_id;
        })
      ≡ db'
unfolding insert_activity
inserted-state db db' now public_id agent_hash event version backfill h =
    elim (Option-cases (find (λ a. a.public_id == public_id) db.activities)) [
      | inl free ↦ ap committed (rw (free, insert_activity) at h)
      | inr (b, taken) ↦ absurd (ground arith)
    ]
  where
    committed : Option (Db × ApplyEventOutcome) → Db
    committed (some (d, o)) = d
    committed none = db

inserted-HasSeen :
    (db : Db) (next : ℕ) (now : ℕ) (public_id agent_hash : String) (event : IngestEvent)
    (version : ℕ) (backfill : Bool)
    → Inv db
    → select_existing agent_hash event.source_row_id db ≡ none
    → HasSeen
        (enqueue_when_queued now
          (inserted_row db.next_activity_id public_id agent_hash event version backfill)
          (record db {
            activities =
                put by_id
                  (inserted_row db.next_activity_id public_id agent_hash event version backfill)
                  db.activities;
            next_activity_id = next;
          }))
        agent_hash
        event
unfolding select_existing inserted_row
inserted-HasSeen db next now public_id agent_hash event version backfill v new =
    let a = inserted_row db.next_activity_id public_id agent_hash event version backfill in
    let (reported, seen) =
      inserted-reported db.next_activity_id public_id agent_hash event version backfill in
    let written : Db = record db {
      activities = put by_id a db.activities;
      next_activity_id = next;
    } in
    (
      a,
      enqueued-select now a written agent_hash event.source_row_id
          ∙ find-put_new by_id (is_reported_by agent_hash event.source_row_id) db.activities a new
              (v.fresh db.next_activity_id (omega arith)) reported,
      seen,
    )

updated-HasSeen :
    (db : Db) (row a : Activity) (agent_hash : String) (event : IngestEvent)
    → Inv db
    → select_existing agent_hash event.source_row_id db ≡ some row
    → a.id ≡ row.id
    → a.agent_hash ≡ row.agent_hash
    → a.source_row_id ≡ row.source_row_id
    → a.statuses_seen ≡ row.statuses_seen ++ event.status ∷ []
    → HasSeen (record db { activities = put by_id a db.activities }) agent_hash event
unfolding select_existing
updated-HasSeen db row a agent_hash event v found i o s seen =
    let p = is_reported_by agent_hash event.source_row_id in
    (
      a,
      find-put_old by_id p db.activities row a v.keyed found (ground arith)
          (ground (arith, find-holds p db.activities row found)),
      rw seen (contains-snoc row.statuses_seen event.status),
    )

promoted-HasSeen :
    (db db' : Db) (now : ℕ) (row : Activity) (agent_hash : String) (event : IngestEvent)
    → Inv db
    → select_existing agent_hash event.source_row_id db ≡ some row
    → promote_pending_activity db now row event ≡ some (db', accepted)
    → HasSeen db' agent_hash event
unfolding promote_pending_activity promoted_row
promoted-HasSeen db db' now row agent_hash event v found h =
    let a = promoted_row row event in
    let written : Db = record db { activities = put by_id a db.activities } in
    let (b, selected, seen) =
      updated-HasSeen db row a agent_hash event v found refl refl refl refl in
    (b, ground (arith, enqueued-select now a written agent_hash event.source_row_id), seen)

performed-HasSeen :
    (d : IngestOutcome) (db db' : Db) (now : ℕ) (public_id agent_hash : String)
    (event : IngestEvent) (version : ℕ) (backfill : Bool) (existing : Option Activity)
    → Inv db
    → select_existing agent_hash event.source_row_id db ≡ existing
    → decide_ingest (state_of existing) event.status ≡ d
    → perform d existing db now public_id agent_hash event version backfill ≡ some (db', accepted)
    → HasSeen db' agent_hash event
unfolding perform decide_ingest append_status_seen
performed-HasSeen IngestOutcome.insert db db' now pid hash event version b none v found e h =
    rw (inserted-state db db' now pid hash event version b h) at
      (inserted-HasSeen db (suc db.next_activity_id) now pid hash event version b v found)
performed-HasSeen IngestOutcome.insert db db' now pid hash event version b (some row) v found e h =
    absurd (ground arith)
performed-HasSeen IngestOutcome.duplicate db db' now pid hash event version b existing v found e h =
    absurd (ground arith)
performed-HasSeen IngestOutcome.promote db db' now pid hash event version b (some row) v found e h =
    promoted-HasSeen db db' now row hash event v found h
performed-HasSeen IngestOutcome.promote db db' now pid hash event version b none v found e h =
    absurd (ground arith)
performed-HasSeen IngestOutcome.accept_noop db db' now pid hash event version b (some row) v found e
      h =
    let a : Activity = record row { statuses_seen = row.statuses_seen ++ event.status ∷ [] } in
    let (c, selected, seen) = updated-HasSeen db row a hash event v found refl refl refl refl in
    (c, ground arith, seen)
performed-HasSeen IngestOutcome.accept_noop db db' now pid hash event version b none v found e h =
    absurd (ground arith)

-- In a database that keeps the queue's invariant, an event that was accepted is a duplicate when
-- its agent reports it again, at any time and with any public id, and the report changes nothing.
pub accepted-duplicate :
    (db db' : Db) (now later : ℕ) (public_id fresh_id agent_hash : String) (event : IngestEvent)
    (version version' : ℕ) (backfill backfill' : Bool)
    → Inv db
    → apply_event db now public_id agent_hash event version backfill ≡ some (db', accepted)
    → apply_event db' later fresh_id agent_hash event version' backfill' ≡ some (db', duplicate)
unfolding apply_event
accepted-duplicate db db' now later public_id fresh_id agent_hash event version version' b b' v h =
    let existing = select_existing agent_hash event.source_row_id db in
    let (row, found, seen) =
      performed-HasSeen (decide_ingest (state_of existing) event.status) db db' now public_id
        agent_hash event version b existing v refl refl h in
    seen-duplicate db' later fresh_id agent_hash event version' b' row found seen
