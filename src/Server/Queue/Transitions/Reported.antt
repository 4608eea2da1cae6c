-- ===== src/Server/Queue/Transitions/Reported.antt =====
-- A reported event moves an activity as the state machine allows (activities-ingest-repo.ts).
use vex_agentscan.Base.{
  ℕ, suc, String, Bool, List, true, false, [], ◌∷◌, ◌++◌, Option, none, some, arith, lookup, put,
  lookup-find, find, ◌≡◌, refl, ◌==◌, nat_eq, string_eq, Bool-cases, Option-cases, inl, inr,
}
use vex_agentscan.Contract.Enums.{EventStatus}
use vex_agentscan.Contract.Event.{IngestEvent}
use vex_agentscan.Core.Ingest.{IngestOutcome}
use vex_agentscan.Server.Db.{Activity, Db, by_id, is_queued, is_none_state}
use vex_agentscan.Server.Ingest.{
  after, is_pending, append_status_seen, select_existing, perform, apply_event, insert_activity,
  promoted_row, promote_pending_activity, enqueue_when_queued, inserted_row,
}
use vex_agentscan.Server.Queue.Coherence.{Inv, is_verifiable, Coherent-at}
use vex_agentscan.Server.Queue.Transitions.{
  Transition, Moves-refl, AllMove, write-Moves, fresh-Moves,
}

enqueued-AllMove :
    (now : ℕ) (a : Activity) (db db' : Db)
    → AllMove db db'
    → AllMove db (enqueue_when_queued now a db')
unfolding enqueue_when_queued
enqueued-AllMove now a db db' m i = elim (Bool-cases (is_queued a.verification_state)) [
  | inl q ↦ rw (q, enqueue_when_queued) (m i)
  | inr q ↦ rw (q, enqueue_when_queued) (m i)
]

-- A pending activity was never verified, so its verification state is still `none`.
promoted-Transition :
    (row : Activity) (event : IngestEvent)
    → is_pending row.status ≡ true
    → (is_none_state row.verification_state ≡ false → is_verifiable row ≡ true)
    → Transition row (promoted_row row event)
unfolding promoted_row
promoted-Transition row event p ok = ground arith

appended-Transition :
    (row : Activity) (seen : List EventStatus)
    → Transition row (record row { statuses_seen = seen })
appended-Transition row seen = ground arith

promote-AllMove :
    (db : Db) (now : ℕ) (row : Activity) (event : IngestEvent)
    → Inv db
    → lookup by_id row.id db.activities ≡ some row
    → AllMove db (after db (promote_pending_activity db now row event))
unfolding promote_pending_activity
promote-AllMove db now row event v old i = elim (Bool-cases (is_pending row.status)) [
  | inl p ↦
      let a = promoted_row row event in
      let written : Db = record db { activities = put by_id a db.activities } in
      rw (p, promote_pending_activity)
        (enqueued-AllMove now a db written
          (λ k.
            write-Moves db.activities row a k old
              (promoted-Transition row event p (Coherent-at v row.id row old).1))
          i)
  | inr p ↦ rw (p, promote_pending_activity) (Moves-refl _)
]

insert-AllMove :
    (db : Db) (now : ℕ) (public_id agent_hash : String) (event : IngestEvent) (version : ℕ)
    (backfill : Bool)
    → Inv db
    → AllMove db (after db (insert_activity db now public_id agent_hash event version backfill))
unfolding insert_activity
insert-AllMove db now public_id agent_hash event version backfill v i =
    let next = db.next_activity_id in
    let a = inserted_row next public_id agent_hash event version backfill in
    let written : Db = record db {
      activities = put by_id a db.activities;
      next_activity_id = suc next;
    } in
    elim (Option-cases (find (λ b. b.public_id == public_id) db.activities)) [
      | inl free ↦
          rw (free, insert_activity)
            (enqueued-AllMove now a db written
              (λ k. fresh-Moves db.activities a k (v.fresh next (omega arith))) i)
      | inr (b, taken) ↦ rw (taken, insert_activity) (Moves-refl _)
    ]

perform-AllMove :
    (d : IngestOutcome) (existing : Option Activity) (db : Db) (now : ℕ)
    (public_id agent_hash : String) (event : IngestEvent) (version : ℕ) (backfill : Bool)
    → Inv db
    → ((row : Activity) → existing ≡ some row → lookup by_id row.id db.activities ≡ some row)
    → AllMove db (after db (perform d existing db now public_id agent_hash event version backfill))
unfolding perform append_status_seen
perform-AllMove IngestOutcome.insert existing db now pid hash event version backfill v old i =
    insert-AllMove db now pid hash event version backfill v i
perform-AllMove IngestOutcome.duplicate existing db now pid hash event version backfill v old i =
    Moves-refl _
perform-AllMove IngestOutcome.promote (some row) db now pid hash event version b v old i =
    promote-AllMove db now row event v (old row refl) i
perform-AllMove IngestOutcome.accept_noop (some row) db now pid hash event version b v old i =
    write-Moves db.activities row
      (record row { statuses_seen = row.statuses_seen ++ event.status ∷ [] }) i (old row refl)
      (appended-Transition row (row.statuses_seen ++ event.status ∷ []))
perform-AllMove _ none db now pid hash event version backfill v old i = Moves-refl _

pub apply_event-AllMove :
    (db : Db) (now : ℕ) (public_id agent_hash : String) (event : IngestEvent) (version : ℕ)
    (backfill : Bool)
    → Inv db
    → AllMove db (after db (apply_event db now public_id agent_hash event version backfill))
unfolding apply_event
apply_event-AllMove db now public_id agent_hash event version backfill v =
    perform-AllMove _ (select_existing agent_hash event.source_row_id db) db now public_id
      agent_hash event version backfill v
      (λ row found. lookup-find by_id _ db.activities row v.keyed found)
