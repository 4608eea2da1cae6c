-- ===== src/Server/Events/Answers.antt =====
-- The answers of POST /v1/events on every branch.
use vex_agentscan.Base.{
  ℕ, ◌≤◌, String, Bool, true, false, not, List, Option, none, some, arith, length, ltb, ◌==◌,
  string_eq, ◌≡◌, refl, if◌then◌else◌, ◌∙◌, sym, keep_if,
}
use vex_agentscan.Contract.Event.{IngestEvent}
use vex_agentscan.Server.Db.{AgentStatus, Db}
use vex_agentscan.Server.Ingest.{ApplyEventOutcome}
use vex_agentscan.Server.RateLimit.{RateLimitDecision, allowed, limited}
use vex_agentscan.Server.Auth.{AuthenticatedAgent, bearer_token_from, authenticate_agent}
use vex_agentscan.Server.Queue.Coherence.{Inv}
use vex_agentscan.Server.Events.{
  RejectedEvent, EventsResult, EventsBatch, EventsConfig, EventsState, EventsAnswer, refused,
  rate_limited, ingested, thrown, empty_result, answer_of, ingest_batch, checked_batch, parsed_body,
  admitted_agent, known_token, with_token, post_events,
}
use vex_agentscan.Server.Events.Reports.{
  is_accepted, is_duplicate, tallied, Reports, ingest-IsReported,
}
use vex_agentscan.Server.Events.Batch.{rejections, events_counted, ingest-Inv, ingest_counts}

-- Whether events of the batch may have been applied.
abbrev pub is_served : EventsAnswer → Bool
is_served (refused status code) = false
is_served (rate_limited retry_after_sec) = false
is_served _ = true

-- What is told of a batch: how many events were accepted, how many duplicates, which were rejected,
-- and the agent's standing before it.
abbrev pub told_of : AuthenticatedAgent → List ApplyEventOutcome → List RejectedEvent → EventsResult
told_of agent outcomes rejected = record {
  accepted = length (keep_if is_accepted outcomes);
  duplicates = length (keep_if is_duplicate outcomes);
  rejected = rejected;
  strike_count = agent.strike_count;
  status = agent.status;
}

told_lem :
    (agent : AuthenticatedAgent) (result : Option EventsResult) (whole : Bool)
    (outcomes : List ApplyEventOutcome) (rejected : List RejectedEvent)
    → result ≡ (if whole then some (tallied (empty_result agent) outcomes rejected) else none)
    → answer_of result ≡ (if whole then ingested (told_of agent outcomes rejected) else thrown)
told_lem agent result true outcomes rejected h = rw h (ground arith)
told_lem agent result false outcomes rejected h = rw h refl

module _ (sha256_hex : List ℕ → String) (Raw : Type 0) (parse_event : Raw → Option IngestEvent)
    (event_time : ℕ → ℕ) (public_id : ℕ → String) (config : EventsConfig)
    (authorization : Option (List ℕ)) (body : Option (EventsBatch Raw)) (db : Db) where
  -- The request may write: its token is an active agent's, and its batch is that agent's and not
  -- too large.
  pub record IsAuthorized : Type 0 where
    pub token : List ℕ
    pub agent : AuthenticatedAgent
    pub batch : EventsBatch Raw
    pub sent : bearer_token_from authorization ≡ some token
    pub known : authenticate_agent sha256_hex db token ≡ some agent
    pub active : agent.status ≡ AgentStatus.active
    pub parsed : body ≡ some batch
    pub same_agent : batch.agent_hash ≡ agent.agent_hash
    pub bounded : length batch.events ≤ config.max_batch_events

  -- The request's events were applied for its agent, in order, until one threw. The answer tells
  -- the agent's standing, and of the outcomes how many there are of each kind.
  pub record IsServed (later : EventsState) (answer : EventsAnswer) : Type 0 where
    pub authorized : IsAuthorized
    pub outcomes : List ApplyEventOutcome
    pub whole : Bool
    pub reports :
        Reports Raw parse_event event_time public_id authorized.agent.agent_hash
          authorized.batch.schema_version authorized.batch.backfill 0 authorized.batch.events db
          outcomes whole later.db
    pub replied : answer ≡ (
        if whole
        then ingested (
            told_of authorized.agent outcomes
              (rejections Raw parse_event 0 authorized.batch.events))
        else thrown)

  pub record IsAnswer (later : EventsState) (answer : EventsAnswer) : Type 0 where
    pub unserved : is_served answer ≡ false → later.db ≡ db
    pub served : is_served answer ≡ true → IsServed later answer
    pub kept : Inv db → Inv later.db
    pub accounted :
        (r : EventsResult) (batch : EventsBatch Raw)
        → answer ≡ ingested r
        → body ≡ some batch
        → (events_counted r ≡ length batch.events)
          × (r.rejected ≡ rejections Raw parse_event 0 batch.events)

  unserved_lem : (result : Option EventsResult) → is_served (answer_of result) ≡ false → ⊥
  unserved_lem none h = ground (arith, h)
  unserved_lem (some r) h = ground (arith, h)

  result_lem :
      (result : Option EventsResult) (r : EventsResult)
      → answer_of result ≡ ingested r
      → result ≡ some r
  result_lem none r h = absurd (ground (arith, h))
  result_lem (some s) r h = ground (arith, h)

  refused-IsAnswer :
      (later : EventsState) (answer : EventsAnswer)
      → later.db ≡ db
      → is_served answer ≡ false
      → IsAnswer later answer
  refused-IsAnswer later answer same h = record {
    unserved = λ k. same;
    served = λ k. absurd (ground (arith, h, k));
    kept = λ v. rw same v;
    accounted = λ r batch k parsed. absurd (ground (arith, h, k));
  }

  of_branches :
      (b : Bool) (x y : EventsState × EventsAnswer)
      → (b ≡ true → IsAnswer x.0 x.1)
      → (b ≡ false → IsAnswer y.0 y.1)
      → IsAnswer (if b then x else y).0 (if b then x else y).1
  of_branches true x y h k = h refl
  of_branches false x y h k = k refl

  module _ (token : List ℕ) (agent : AuthenticatedAgent)
      (sent : bearer_token_from authorization ≡ some token)
      (known : authenticate_agent sha256_hex db token ≡ some agent) where
    served-IsAnswer :
        (batch : EventsBatch Raw) (state : EventsState) (result : Option EventsResult)
        → agent.status ≡ AgentStatus.active
        → body ≡ some batch
        → batch.agent_hash ≡ agent.agent_hash
        → length batch.events ≤ config.max_batch_events
        → (ingest_batch Raw parse_event event_time public_id agent batch db).1 ≡ result
        → IsAnswer
            (record state {
              db = (ingest_batch Raw parse_event event_time public_id agent batch db).0;
            })
            (answer_of result)
    unfolding ingest_batch
    served-IsAnswer batch state result active parsed same_agent bounded ran =
        let counts =
          ingest_counts Raw parse_event event_time public_id agent.agent_hash batch.schema_version
            batch.backfill 0 batch.events (empty_result agent) db in
        let reported =
          ingest-IsReported Raw parse_event event_time public_id agent.agent_hash
            batch.schema_version batch.backfill 0 batch.events (empty_result agent) db in
        record {
          unserved = λ k. absurd (unserved_lem result k);
          served = λ k. record {
            authorized = record {
              token = token;
              agent = agent;
              batch = batch;
              sent = sent;
              known = known;
              active = active;
              parsed = parsed;
              same_agent = same_agent;
              bounded = bounded;
            };
            outcomes = reported.outcomes;
            whole = reported.whole;
            reports = reported.reports;
            replied =
                told_lem agent result reported.whole reported.outcomes
                  (rejections Raw parse_event 0 batch.events) (sym ran ∙ reported.told);
          };
          kept = λ v.
              ingest-Inv Raw parse_event event_time public_id agent.agent_hash batch.schema_version
                batch.backfill 0 batch.events (empty_result agent) db v;
          accounted = λ r b answered again.
              let same : b ≡ batch = ground (arith, parsed, again) in
              let (count, places) = counts r (ran ∙ result_lem result r answered) in
              rw same (omega (arith, count), places);
        }

    abbrev Answered : EventsState × EventsAnswer → Type 0
    Answered out = IsAnswer out.0 out.1

    checked-IsAnswer :
        (batch : EventsBatch Raw) (state : EventsState)
        → agent.status ≡ AgentStatus.active
        → body ≡ some batch
        → state.db ≡ db
        → Answered (checked_batch Raw parse_event event_time public_id config agent batch state)
    unfolding checked_batch
    checked-IsAnswer batch state active parsed same =
        of_branches (not (batch.agent_hash == agent.agent_hash)) _ _
          (λ foreign. refused-IsAnswer state (refused 403 "not_registered") same refl)
          (λ own.
            of_branches (ltb config.max_batch_events (length batch.events)) _ _
              (λ large. refused-IsAnswer state (refused 413 "payload_too_large") same refl)
              (λ small. rw same (
                served-IsAnswer batch state _ active parsed
                  (ground (arith, own, string_eq.beq_iff batch.agent_hash agent.agent_hash))
                  (ground (arith, small)) refl)))

    parsed-IsAnswer :
        (given : Option (EventsBatch Raw)) (decision : RateLimitDecision) (state : EventsState)
        → agent.status ≡ AgentStatus.active
        → body ≡ given
        → state.db ≡ db
        → Answered
            (parsed_body Raw parse_event event_time public_id config agent given decision state)
    unfolding parsed_body
    parsed-IsAnswer given (limited retry_after_sec) state active parsed same =
        refused-IsAnswer state (rate_limited retry_after_sec) same refl
    parsed-IsAnswer none allowed state active parsed same =
        refused-IsAnswer state (refused 400 "validation_failed") same refl
    parsed-IsAnswer (some batch) allowed state active parsed same =
        checked-IsAnswer batch state active parsed same

    admitted-IsAnswer :
        (now : ℕ) (status : AgentStatus) (state : EventsState)
        → agent.status ≡ status
        → state.db ≡ db
        → Answered (
            admitted_agent sha256_hex Raw parse_event event_time public_id config now token body
              status agent state)
    unfolding admitted_agent
    admitted-IsAnswer now AgentStatus.revoked state held same =
        refused-IsAnswer state (refused 410 "consent_revoked") same refl
    admitted-IsAnswer now AgentStatus.quarantined state held same =
        refused-IsAnswer state (refused 403 "quarantined") same refl
    admitted-IsAnswer now AgentStatus.active state held same =
        parsed-IsAnswer body _ _ held refl same

  known-IsAnswer :
      (now : ℕ) (token : List ℕ) (found : Option AuthenticatedAgent) (state : EventsState)
      → bearer_token_from authorization ≡ some token
      → authenticate_agent sha256_hex db token ≡ found
      → state.db ≡ db
      → IsAnswer
          (known_token sha256_hex Raw parse_event event_time public_id config now token body found
            state).0
          (known_token sha256_hex Raw parse_event event_time public_id config now token body found
            state).1
  unfolding known_token
  known-IsAnswer now token none state sent known same =
      refused-IsAnswer state (refused 401 "unauthorized") same refl
  known-IsAnswer now token (some agent) state sent known same =
      admitted-IsAnswer token agent sent known now agent.status state refl same

  token-IsAnswer :
      (now : ℕ) (token : Option (List ℕ)) (state : EventsState)
      → bearer_token_from authorization ≡ token
      → state.db ≡ db
      → IsAnswer
          (with_token sha256_hex Raw parse_event event_time public_id config now body token state).0
          (with_token sha256_hex Raw parse_event event_time public_id config now body token state).1
  unfolding with_token
  token-IsAnswer now none state sent same =
      refused-IsAnswer state (refused 401 "unauthorized") same refl
  token-IsAnswer now (some token) state sent same =
      known-IsAnswer now token _ state sent (rw same refl) same

-- Every answer of the events route is one of these. A refusal and a rate-limited request leave the
-- database as it was. Events are applied only where the bearer token is that of an active agent,
-- whose batch it is, and the batch is within its limit. Then those of the batch that the schema
-- admits are applied in their order, under the agent's hash, until one throws; the answer is an
-- exception exactly where one does, and else tells how many were accepted and how many were
-- duplicates, the places of those that the schema rejects, and the agent's strikes and status as
-- they were before; the accepted, the duplicate and the rejected events add up to those that were
-- sent. The invariant of the queue is kept, also where an event throws.
pub post_events-IsAnswer :
    (sha256_hex : List ℕ → String) (Raw : Type 0) (parse_event : Raw → Option IngestEvent)
    (event_time : ℕ → ℕ) (public_id : ℕ → String) (config : EventsConfig) (now : ℕ)
    (authorization : Option (List ℕ)) (body : Option (EventsBatch Raw)) (state : EventsState)
    → let (later, answer) =
        post_events sha256_hex Raw parse_event event_time public_id config now authorization body
          state in
      IsAnswer sha256_hex Raw parse_event event_time public_id config authorization body state.db
        later answer
unfolding post_events
post_events-IsAnswer sha256_hex Raw parse_event event_time public_id config now authorization body
      state =
    token-IsAnswer sha256_hex Raw parse_event event_time public_id config authorization body
      state.db now (bearer_token_from authorization) state refl refl
