-- ===== src/Server/Events/Reports.antt =====
-- What the events of a batch do to the database, one after the other, and what is told of them.
use vex_agentscan.Base.{
  ℕ, suc, ◌+◌, String, Bool, true, false, List, [], ◌∷◌, ◌++◌, Option, none, some, arith, length,
  keep_if, ◌≡◌, refl, Option-cases, inl, inr, if◌then◌else◌,
}
use vex_agentscan.Contract.Event.{IngestEvent}
use vex_agentscan.Server.Db.{Db}
use vex_agentscan.Server.Ingest.{ApplyEventOutcome, accepted, duplicate, apply_event}
use vex_agentscan.Server.Events.{
  RejectedEvent, EventsResult, with_rejected, with_outcome, ingest_events,
}
use vex_agentscan.Server.Events.Batch.{rejections, append_assoc, append_nil}

abbrev pub is_accepted : ApplyEventOutcome → Bool
is_accepted accepted = true
is_accepted duplicate = false

abbrev pub is_duplicate : ApplyEventOutcome → Bool
is_duplicate accepted = false
is_duplicate duplicate = true

-- A result with the outcomes of further events, and the places of further rejected ones.
abbrev pub tallied : EventsResult → List ApplyEventOutcome → List RejectedEvent → EventsResult
tallied result outcomes rejected = record {
  accepted = result.accepted + length (keep_if is_accepted outcomes);
  duplicates = result.duplicates + length (keep_if is_duplicate outcomes);
  rejected = result.rejected ++ rejected;
  strike_count = result.strike_count;
  status = result.status;
}

module _ (Raw : Type 0) (parse_event : Raw → Option IngestEvent) (event_time : ℕ → ℕ)
    (public_id : ℕ → String) (agent_hash : String) (schema_version : ℕ) (backfill : Bool) where
  -- The events from a place on are applied to a database for the agent, those that the schema
  -- rejects left out: their outcomes, whether all of them came through, and the database then.
  pub data Reports : ℕ → List Raw → Db → List ApplyEventOutcome → Bool → Db → Type 0 where
    ended : {index : ℕ} {db : Db} → Reports index [] db [] true db
    left_out :
        {index : ℕ} {raw : Raw} {raws : List Raw} {db later : Db} {outs : List ApplyEventOutcome}
        {whole : Bool}
        → parse_event raw ≡ none
        → Reports (suc index) raws db outs whole later
        → Reports index (raw ∷ raws) db outs whole later
    applied :
        {index : ℕ} {raw : Raw} {raws : List Raw} {db next later : Db}
        {outs : List ApplyEventOutcome} {whole : Bool} (event : IngestEvent)
        (outcome : ApplyEventOutcome)
        → parse_event raw ≡ some event
        → apply_event db
            (event_time index)
            (public_id index)
            agent_hash
            event
            schema_version
            backfill
          ≡ some (next, outcome)
        → Reports (suc index) raws next outs whole later
        → Reports index (raw ∷ raws) db (outcome ∷ outs) whole later
    broken :
        {index : ℕ} {raw : Raw} {raws : List Raw} {db : Db} (event : IngestEvent)
        → parse_event raw ≡ some event
        → apply_event db
            (event_time index)
            (public_id index)
            agent_hash
            event
            schema_version
            backfill
          ≡ none
        → Reports index (raw ∷ raws) db [] false db

  -- What `ingest_events` has run to, and what it gives.
  pub record IsReported (index : ℕ) (raws : List Raw) (result : EventsResult) (db : Db)
      (out : Db × Option EventsResult) : Type 0 where
    pub outcomes : List ApplyEventOutcome
    pub whole : Bool
    pub reports : Reports index raws db outcomes whole out.0
    pub told : out.1 ≡ (
        if whole
        then some (tallied result outcomes (rejections Raw parse_event index raws))
        else none)

  abbrev ran : ℕ → List Raw → EventsResult → Db → Db × Option EventsResult
  ran index raws result db =
      ingest_events Raw parse_event event_time public_id agent_hash schema_version backfill index
        raws result db

  ended_lem :
      (index : ℕ) (result : EventsResult) (db : Db)
      → IsReported index [] result db (ran index [] result db)
  unfolding ingest_events
  ended_lem index result db = record {
    outcomes = [];
    whole = true;
    reports = ended;
    told = ground (arith, append_nil result.rejected);
  }

  left_out_lem :
      (index : ℕ) (raw : Raw) (raws : List Raw) (result : EventsResult) (db : Db)
      → parse_event raw ≡ none
      → IsReported
          (suc index)
          raws
          (with_rejected index result)
          db
          (ran (suc index) raws (with_rejected index result) db)
      → IsReported index (raw ∷ raws) result db (ran index (raw ∷ raws) result db)
  unfolding ingest_events
  left_out_lem index raw raws result db rejected rest =
      let row : RejectedEvent = record { index = index; code = "validation_failed" } in
      let told = rest.told in
      let moved = append_assoc result.rejected row (rejections Raw parse_event (suc index) raws) in
      let same : ran index (raw ∷ raws) result db
          ≡ ran (suc index) raws (with_rejected index result) db =
        ground (arith, rejected) in
      rw same (record {
        outcomes = rest.outcomes;
        whole = rest.whole;
        reports = left_out rejected rest.reports;
        told = ground (arith, told, rejected, moved);
      })

  broken_lem :
      (index : ℕ) (raw : Raw) (raws : List Raw) (result : EventsResult) (db : Db)
      (event : IngestEvent)
      → parse_event raw ≡ some event
      → apply_event db (event_time index) (public_id index) agent_hash event schema_version backfill
        ≡ none
      → IsReported index (raw ∷ raws) result db (ran index (raw ∷ raws) result db)
  unfolding ingest_events
  broken_lem index raw raws result db event parsed failed =
      let same : ran index (raw ∷ raws) result db ≡ (db, none) = ground (arith, parsed, failed) in
      rw same
        (record { outcomes = []; whole = false; reports = broken event parsed failed; told = refl })

  tallied_lem :
      (outcome : ApplyEventOutcome) (result : EventsResult) (outs : List ApplyEventOutcome)
      (rejected : List RejectedEvent)
      → tallied (with_outcome outcome result) outs rejected
        ≡ tallied result (outcome ∷ outs) rejected
  tallied_lem accepted result outs rejected = ground arith
  tallied_lem duplicate result outs rejected = ground arith

  applied_lem :
      (index : ℕ) (raw : Raw) (raws : List Raw) (result : EventsResult) (db next : Db)
      (event : IngestEvent) (outcome : ApplyEventOutcome)
      → parse_event raw ≡ some event
      → apply_event db (event_time index) (public_id index) agent_hash event schema_version backfill
        ≡ some (next, outcome)
      → IsReported
          (suc index)
          raws
          (with_outcome outcome result)
          next
          (ran (suc index) raws (with_outcome outcome result) next)
      → IsReported index (raw ∷ raws) result db (ran index (raw ∷ raws) result db)
  unfolding ingest_events
  applied_lem index raw raws result db next event outcome parsed done rest =
      let told = rest.told in
      let moved =
        tallied_lem outcome result rest.outcomes (rejections Raw parse_event (suc index) raws) in
      let same : ran index (raw ∷ raws) result db
          ≡ ran (suc index) raws (with_outcome outcome result) next =
        ground (arith, parsed, done) in
      rw same (record {
        outcomes = outcome ∷ rest.outcomes;
        whole = rest.whole;
        reports = applied event outcome parsed done rest.reports;
        told = ground (arith, told, parsed, moved);
      })

  pub ingest-IsReported :
      (index : ℕ) (raws : List Raw) (result : EventsResult) (db : Db)
      → IsReported index raws result db (ran index raws result db)
  ingest-IsReported index [] result db = ended_lem index result db
  ingest-IsReported index (raw ∷ raws) result db = elim (Option-cases (parse_event raw)) [
    | inl rejected ↦
        left_out_lem index raw raws result db rejected
          (ingest-IsReported (suc index) raws (with_rejected index result) db)
    | inr (event, parsed) ↦
        elim (Option-cases (
          apply_event db (event_time index) (public_id index) agent_hash event schema_version
            backfill)) [
              | inl failed ↦ broken_lem index raw raws result db event parsed failed
              | inr ((next, outcome), done) ↦
                  applied_lem index raw raws result db next event outcome parsed done
                    (ingest-IsReported (suc index) raws (with_outcome outcome result) next)
            ]
  ]
