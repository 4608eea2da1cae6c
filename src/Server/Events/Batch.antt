-- ===== src/Server/Events/Batch.antt =====
-- What a batch of events comes to: its counts and the queue.
use vex_agentscan.Base.{
  ℕ, suc, ◌+◌, String, Bool, List, [], ◌∷◌, ◌++◌, Option, none, some, arith, length, length-append,
  ◌≡◌, refl, Option-cases, inl, inr,
}
use vex_agentscan.Contract.Event.{IngestEvent}
use vex_agentscan.Server.Db.{Db}
use vex_agentscan.Server.Ingest.{
  ApplyEventOutcome, accepted, duplicate, Applied, after, apply_event,
}
use vex_agentscan.Server.Queue.Coherence.{Inv}
use vex_agentscan.Server.Queue.Ingested.{apply_event-Inv}
use vex_agentscan.Server.Events.{
  RejectedEvent, EventsResult, with_rejected, with_outcome, ingest_events,
}

module _ (Raw : Type 0) (parse_event : Raw → Option IngestEvent) where
  -- The events that the schema rejects, by their places.
  abbrev pub rejections : ℕ → List Raw → List RejectedEvent
  rejections index [] = []
  rejections index (raw ∷ raws) = elim (parse_event raw) [
    | none ↦ record { index = index; code = "validation_failed" } ∷ rejections (suc index) raws
    | some event ↦ rejections (suc index) raws
  ]

-- What is events_counted of a batch, in all.
abbrev pub events_counted : EventsResult → ℕ
events_counted r = r.accepted + r.duplicates + length r.rejected

pub append_assoc {ℓ} :
    {A : Type ℓ} (xs : List A) (x : A) (ys : List A) → (xs ++ x ∷ []) ++ ys ≡ xs ++ x ∷ ys
append_assoc [] x ys = refl
append_assoc (y ∷ xs) x ys = ground (arith, append_assoc xs x ys)

pub append_nil {ℓ} : {A : Type ℓ} (xs : List A) → xs ++ [] ≡ xs
append_nil [] = refl
append_nil (x ∷ xs) = ground (arith, append_nil xs)

with_outcome_counted :
    (outcome : ApplyEventOutcome) (r : EventsResult)
    → (events_counted (with_outcome outcome r) ≡ suc (events_counted r))
      × ((with_outcome outcome r).rejected ≡ r.rejected)
with_outcome_counted accepted r = (omega arith, refl)
with_outcome_counted duplicate r = (omega arith, refl)

module _ (Raw : Type 0) (parse_event : Raw → Option IngestEvent) (event_time : ℕ → ℕ)
    (public_id : ℕ → String) (agent_hash : String) (schema_version : ℕ) (backfill : Bool) where
  abbrev ran : ℕ → List Raw → EventsResult → Db → Db × Option EventsResult
  ran index raws result db =
      ingest_events Raw parse_event event_time public_id agent_hash schema_version backfill index
        raws result db

  applied_at : ℕ → IngestEvent → Db → Applied
  applied_at index event db =
      apply_event db (event_time index) (public_id index) agent_hash event schema_version backfill

  ran-rejected :
      (index : ℕ) (raw : Raw) (raws : List Raw) (result : EventsResult) (db : Db)
      → parse_event raw ≡ none
      → ran index (raw ∷ raws) result db ≡ ran (suc index) raws (with_rejected index result) db
  unfolding ingest_events
  ran-rejected index raw raws result db h = ground (arith, h)

  ran-failed :
      (index : ℕ) (raw : Raw) (raws : List Raw) (result : EventsResult) (db : Db)
      (event : IngestEvent)
      → parse_event raw ≡ some event
      → applied_at index event db ≡ none
      → ran index (raw ∷ raws) result db ≡ (db, none)
  unfolding ingest_events applied_at
  ran-failed index raw raws result db event h k = ground (arith, h, k)

  ran-applied :
      (index : ℕ) (raw : Raw) (raws : List Raw) (result : EventsResult) (db : Db)
      (event : IngestEvent) (next : Db) (outcome : ApplyEventOutcome)
      → parse_event raw ≡ some event
      → applied_at index event db ≡ some (next, outcome)
      → ran index (raw ∷ raws) result db ≡ ran (suc index) raws (with_outcome outcome result) next
  unfolding ingest_events applied_at
  ran-applied index raw raws result db event next outcome h k = ground (arith, h, k)

  applied_at-Inv :
      (index : ℕ) (event : IngestEvent) (db : Db)
      → Inv db
      → Inv (after db (applied_at index event db))
  unfolding applied_at
  applied_at-Inv index event db v = apply_event-Inv db _ _ _ event _ _ v

  after_lem :
      (applied : Applied) (db next : Db) (outcome : ApplyEventOutcome)
      → applied ≡ some (next, outcome)
      → Inv (after db applied)
      → Inv next
  after_lem applied db next outcome h v = rw h at v

  pub ingest-Inv :
      (index : ℕ) (raws : List Raw) (result : EventsResult) (db : Db)
      → Inv db
      → Inv (ran index raws result db).0
  unfolding ingest_events
  ingest-Inv index [] result db v = v
  ingest-Inv index (raw ∷ raws) result db v = elim (Option-cases (parse_event raw)) [
    | inl rejected ↦
        rw (ran-rejected index raw raws result db rejected)
          (ingest-Inv (suc index) raws (with_rejected index result) db v)
    | inr (event, parsed) ↦ elim (Option-cases (applied_at index event db)) [
      | inl failed ↦ rw (ran-failed index raw raws result db event parsed failed) v
      | inr ((next, outcome), applied) ↦
          rw (ran-applied index raw raws result db event next outcome parsed applied) (
            ingest-Inv (suc index) raws (with_outcome outcome result) next (
              after_lem (applied_at index event db) db next outcome applied
                (applied_at-Inv index event db v)))
    ]
  ]

  pub ingest_counts :
      (index : ℕ) (raws : List Raw) (result : EventsResult) (db : Db) (r : EventsResult)
      → (ran index raws result db).1 ≡ some r
      → (events_counted r ≡ events_counted result + length raws)
        × (r.rejected ≡ result.rejected ++ rejections Raw parse_event index raws)
  unfolding ingest_events
  ingest_counts index [] result db r h =
      (ground (arith, h), ground (arith, h, append_nil result.rejected))
  ingest_counts index (raw ∷ raws) result db r h = elim (Option-cases (parse_event raw)) [
    | inl rejected ↦
        let next = with_rejected index result in
        let row : RejectedEvent = record { index = index; code = "validation_failed" } in
        let (count, places) =
          ingest_counts (suc index) raws next db r
            (rw (ran-rejected index raw raws result db rejected) at h) in
        (
          ground (arith, count, length-append result.rejected (row ∷ [])),
          ground (
            arith,
            rejected,
            places,
            append_assoc result.rejected row (rejections Raw parse_event (suc index) raws),
          ),
        )
    | inr (event, parsed) ↦ elim (Option-cases (applied_at index event db)) [
      | inl failed ↦
          absurd (ground (arith, ran-failed index raw raws result db event parsed failed, h))
      | inr ((following, outcome), applied) ↦
          let next = with_outcome outcome result in
          let (count, same) = with_outcome_counted outcome result in
          let (counts, places) = ingest_counts (suc index) raws next following r (
            rw (ran-applied index raw raws result db event following outcome parsed applied) at
              h) in
          (ground (arith, count, counts), ground (arith, parsed, same, places))
    ]
  ]
