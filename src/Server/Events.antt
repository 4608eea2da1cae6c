-- ===== src/Server/Events.antt =====
-- apps/server/src/routes/events.ts. What the schemas make of the body and of a raw event, the hash
-- function, the clock and the random public ids are parameters; the i-th event of a batch is stored
-- under `public_id i` at `event_time i`. Log lines are left out.
pub mod Batch
pub mod Reports
pub mod Answers
use vex_agentscan.Base.{
  ℕ, suc, String, Bool, not, List, [], ◌∷◌, ◌++◌, Option, none, some, ltb, length, ◌==◌, string_eq,
  if◌then◌else◌,
}
use vex_agentscan.Contract.Event.{IngestEvent}
use vex_agentscan.Server.Db.{AgentStatus, Db}
use vex_agentscan.Server.Ingest.{ApplyEventOutcome, accepted, duplicate, Applied, apply_event}
use vex_agentscan.Server.RateLimit.{RateLimitDecision, allowed, limited, HitsRow, allow}
use vex_agentscan.Server.Auth.{
  AuthenticatedAgent, bearer_token_from, authenticate_agent, rate_limit_key_hash,
}

pub record RejectedEvent : Type 0 where
  pub index : ℕ
  pub code : String

pub record EventsResult : Type 0 where
  pub accepted : ℕ
  pub duplicates : ℕ
  pub rejected : List RejectedEvent
  pub strike_count : ℕ
  pub status : AgentStatus

-- A body that passed `eventsBatchSchema`; its events are as they were sent.
pub record EventsBatch (Raw : Type 0) : Type 0 where
  pub schema_version : ℕ
  pub agent_hash : String
  pub backfill : Bool
  pub events : List Raw

pub record EventsConfig : Type 0 where
  pub ingest_rate_limit_per_token : ℕ
  pub ingest_rate_window_sec : ℕ
  pub rate_limit_key_salt : List ℕ
  pub max_batch_events : ℕ

pub record EventsState : Type 0 where
  pub db : Db
  pub hits : List HitsRow

-- The reply: an error of a status and a code, `retry-after` where the rate limit was hit, a result,
-- or an exception.
pub data EventsAnswer : Type 0 where
  refused : (status : ℕ) → (code : String) → EventsAnswer
  rate_limited : (retry_after_sec : ℕ) → EventsAnswer
  ingested : EventsResult → EventsAnswer
  thrown : EventsAnswer

abbrev pub with_rejected : ℕ → EventsResult → EventsResult
with_rejected index result = record result {
  rejected = result.rejected ++ record { index = index; code = "validation_failed" } ∷ [];
}

abbrev pub with_outcome : ApplyEventOutcome → EventsResult → EventsResult
with_outcome accepted result = record result { accepted = suc result.accepted }
with_outcome duplicate result = record result { duplicates = suc result.duplicates }

abbrev pub empty_result : AuthenticatedAgent → EventsResult
empty_result agent = record {
  accepted = 0;
  duplicates = 0;
  rejected = [];
  strike_count = agent.strike_count;
  status = agent.status;
}

abbrev pub answer_of : Option EventsResult → EventsAnswer
answer_of none = thrown
answer_of (some result) = ingested result

module _ (Raw : Type 0) (parse_event : Raw → Option IngestEvent) (event_time : ℕ → ℕ)
    (public_id : ℕ → String) where
  -- One transaction for each event. One that throws ends the batch, and those before it stay.
  unfoldable pub ingest_events :
      (agent_hash : String)
      → (schema_version : ℕ) → (backfill : Bool) → (index : ℕ) → List Raw
      → EventsResult
      → Db
      → Db × Option EventsResult
  ingest_events agent_hash schema_version backfill index [] result db = (db, some result)
  ingest_events agent_hash schema_version backfill index (raw ∷ raws) result db =
      elim (parse_event raw) [
        | none ↦
            ingest_events agent_hash schema_version backfill (suc index) raws
              (with_rejected index result) db
        | some event ↦
            elim (apply_event db (event_time index) (public_id index) agent_hash event
              schema_version backfill) [
                | none ↦ (db, none)
                | some (next, outcome) ↦
                    ingest_events agent_hash schema_version backfill (suc index) raws
                      (with_outcome outcome result) next
              ]
      ]

  unfoldable pub ingest_batch : AuthenticatedAgent → EventsBatch Raw → Db → Db × Option EventsResult
  ingest_batch agent batch db =
      ingest_events agent.agent_hash batch.schema_version batch.backfill 0 batch.events
        (empty_result agent) db

  unfoldable pub checked_batch :
      EventsConfig → AuthenticatedAgent → EventsBatch Raw → EventsState → EventsState × EventsAnswer
  checked_batch config agent batch state =
      let ran = ingest_batch agent batch state.db in
      if not (batch.agent_hash == agent.agent_hash)
      then (state, refused 403 "not_registered")
      else if ltb config.max_batch_events (length batch.events)
      then (state, refused 413 "payload_too_large")
      else (record state { db = ran.0 }, answer_of ran.1)

  unfoldable pub parsed_body :
      EventsConfig
      → AuthenticatedAgent
      → Option (EventsBatch Raw)
      → RateLimitDecision
      → EventsState
      → EventsState × EventsAnswer
  parsed_body config agent body (limited retry_after_sec) state =
      (state, rate_limited retry_after_sec)
  parsed_body config agent none allowed state = (state, refused 400 "validation_failed")
  parsed_body config agent (some batch) allowed state = checked_batch config agent batch state

module _ (sha256_hex : List ℕ → String) (Raw : Type 0) (parse_event : Raw → Option IngestEvent)
    (event_time : ℕ → ℕ) (public_id : ℕ → String) where
  unfoldable pub admitted_agent :
      EventsConfig
      → (now : ℕ) → (bearer_token : List ℕ) → Option (EventsBatch Raw)
      → AgentStatus
      → AuthenticatedAgent
      → EventsState
      → EventsState × EventsAnswer
  admitted_agent config now bearer_token body AgentStatus.revoked agent state =
      (state, refused 410 "consent_revoked")
  admitted_agent config now bearer_token body AgentStatus.quarantined agent state =
      (state, refused 403 "quarantined")
  admitted_agent config now bearer_token body AgentStatus.active agent state =
      let (hits, decision) =
        allow config.ingest_rate_limit_per_token config.ingest_rate_window_sec
          (rate_limit_key_hash sha256_hex "ingest" bearer_token config.rate_limit_key_salt) now
          state.hits in
      parsed_body Raw parse_event event_time public_id config agent body decision
        (record state { hits = hits })

  unfoldable pub known_token :
      EventsConfig
      → (now : ℕ) → (bearer_token : List ℕ) → Option (EventsBatch Raw)
      → Option AuthenticatedAgent
      → EventsState
      → EventsState × EventsAnswer
  known_token config now bearer_token body none state = (state, refused 401 "unauthorized")
  known_token config now bearer_token body (some agent) state =
      admitted_agent config now bearer_token body agent.status agent state

  unfoldable pub with_token :
      EventsConfig
      → (now : ℕ) → Option (EventsBatch Raw)
      → Option (List ℕ)
      → EventsState
      → EventsState × EventsAnswer
  with_token config now body none state = (state, refused 401 "unauthorized")
  with_token config now body (some bearer_token) state =
      known_token config now bearer_token body (authenticate_agent sha256_hex state.db bearer_token)
        state

  -- POST /v1/events
  unfoldable pub post_events :
      EventsConfig
      → (now : ℕ) → (authorization : Option (List ℕ)) → (body : Option (EventsBatch Raw))
      → EventsState
      → EventsState × EventsAnswer
  post_events config now authorization body state =
      with_token config now body (bearer_token_from authorization) state
