-- ===== src/Server/Ingest.antt =====
-- apps/server/src/repos/activities-ingest-repo.ts: one event, applied in one transaction.
pub mod Replay
use vex_agentscan.Base.{
  ℕ, String, Bool, true, false, ◌&&◌, List, [], ◌∷◌, ◌++◌, Option, none, some, is_some, coalesce,
  suc, lookup, put, find, ◌==◌, nat_eq, string_eq, if◌then◌else◌,
}
use vex_agentscan.Contract.Enums.{EventStatus, status_eq}
use vex_agentscan.Contract.Event.{Leg, Usd, IngestEvent}
use vex_agentscan.Core.Ingest.{ExistingActivityState, IngestOutcome, decide_ingest}
use vex_agentscan.Server.Db.{
  VerificationState, PricingState, Pricing, Activity, Job, Db, by_id, by_activity, is_queued,
}

pub data ApplyEventOutcome : Type 0 where
  accepted duplicate : ApplyEventOutcome

-- The committed state and the result, or `none` where an error is thrown and rolled back.
abbrev pub Applied : Type 0
Applied = Option (Db × ApplyEventOutcome)

-- SELECT_EXISTING_FOR_UPDATE
unfoldable pub select_existing : String → String → Db → Option Activity
select_existing agent_hash source_row_id db =
    find (λ a. a.agent_hash == agent_hash && a.source_row_id == source_row_id) db.activities

abbrev pub is_confirmed : EventStatus → Bool
is_confirmed EventStatus.confirmed = true
is_confirmed _ = false

abbrev pub is_pending : EventStatus → Bool
is_pending EventStatus.pending = true
is_pending _ = false

unfoldable pub initial_verification_state : IngestEvent → VerificationState
initial_verification_state event =
    if is_confirmed event.status && is_some event.tx_hash
    then VerificationState.queued
    else VerificationState.none

-- A job that is due at once and was never tried.
abbrev pub new_job : ℕ → ℕ → Job
new_job now activity_id = record {
  activity_id = activity_id;
  attempts = 0;
  first_attempt_at = now;
  next_attempt_at = now;
  last_error = none;
}

-- ENQUEUE_VERIFICATION_JOB
unfoldable pub enqueue_job : ℕ → ℕ → List Job → List Job
enqueue_job now activity_id jobs = elim (lookup by_activity activity_id jobs) [
  | some existing ↦ jobs
  | none ↦ put by_activity (new_job now activity_id) jobs
]

unfoldable pub enqueue_when_queued : ℕ → Activity → Db → Db
unfolding enqueue_job
enqueue_when_queued now row db =
    if is_queued row.verification_state
    then record db { jobs = enqueue_job now row.id db.jobs }
    else db

abbrev unpriced_yet : Pricing
unpriced_yet = record {
  state = PricingState.pending;
  usd_in_priced = none;
  usd_out_priced = none;
  priced_at = none;
  attempts = 0;
  next_attempt_at = none;
}

-- INSERT_ACTIVITY's row; the columns that it leaves out take the schema's defaults.
unfoldable pub inserted_row : ℕ → String → String → IngestEvent → ℕ → Bool → Activity
unfolding initial_verification_state
inserted_row id public_id agent_hash event schema_version backfill = record {
  id = id;
  agent_hash = agent_hash;
  source_row_id = event.source_row_id;
  public_id = public_id;
  source_execution_id = event.source_execution_id;
  event_index = event.event_index;
  kind = event.kind;
  event_role = event.event_role;
  status = event.status;
  protocol = event.protocol;
  chain_family = event.chain_family;
  chain_id = event.chain_id;
  from_chain_id = event.from_chain_id;
  to_chain_id = event.to_chain_id;
  leg_in = event.leg_in;
  leg_out = event.leg_out;
  leg_in2 = event.leg_in2;
  leg_out2 = event.leg_out2;
  usd = event.usd;
  tx_hash = event.tx_hash;
  failure_code = event.failure_code;
  client_created_at = event.created_at;
  client_confirmed_at = event.confirmed_at;
  client_observed_at = event.observed_at;
  statuses_seen = event.status ∷ [];
  verification_state = initial_verification_state event;
  verified_at = none;
  block_time = none;
  backfill = backfill;
  received_schema_version = schema_version;
  pricing = unpriced_yet;
}

-- A public id that is taken violates its UNIQUE constraint, and the insert throws.
unfoldable pub insert_activity : Db → ℕ → String → String → IngestEvent → ℕ → Bool → Applied
unfolding inserted_row enqueue_when_queued
insert_activity db now public_id agent_hash event schema_version backfill =
    let row = inserted_row db.next_activity_id public_id agent_hash event schema_version backfill in
    elim (find (λ a. a.public_id == public_id) db.activities) [
      | some taken ↦ none
      | none ↦ some (
        enqueue_when_queued now row (record db {
          activities = put by_id row db.activities;
          next_activity_id = suc db.next_activity_id;
        }),
        accepted,
      )
    ]

abbrev coalesced_executed : Leg → Leg → Leg
coalesced_executed given stored = record stored {
  executed_raw = coalesce given.executed_raw stored.executed_raw;
}

abbrev coalesced_leg : Leg → Leg → Leg
coalesced_leg given stored = record stored {
  token = coalesce given.token stored.token;
  executed_raw = coalesce given.executed_raw stored.executed_raw;
}

abbrev coalesced_usd : Usd → Usd → Usd
coalesced_usd given stored = record {
  usd_in_est = coalesce given.usd_in_est stored.usd_in_est;
  usd_out_est = coalesce given.usd_out_est stored.usd_out_est;
  usd_fee_est = coalesce given.usd_fee_est stored.usd_fee_est;
  usd_network_gas_est = coalesce given.usd_network_gas_est stored.usd_network_gas_est;
  usd_venue_fee_est = coalesce given.usd_venue_fee_est stored.usd_venue_fee_est;
  usd_vex_fee_est = coalesce given.usd_vex_fee_est stored.usd_vex_fee_est;
  usd_destination_prepay_est =
      coalesce given.usd_destination_prepay_est stored.usd_destination_prepay_est;
  usd_source = coalesce given.usd_source stored.usd_source;
}

-- The row that PROMOTE_PENDING_ACTIVITY writes over a pending one.
unfoldable pub promoted_row : Activity → IngestEvent → Activity
promoted_row row event = record row {
  status = event.status;
  statuses_seen = row.statuses_seen ++ event.status ∷ [];
  tx_hash = coalesce event.tx_hash row.tx_hash;
  leg_in = coalesced_executed event.leg_in row.leg_in;
  leg_out = coalesced_executed event.leg_out row.leg_out;
  leg_in2 = coalesced_leg event.leg_in2 row.leg_in2;
  leg_out2 = coalesced_leg event.leg_out2 row.leg_out2;
  usd = coalesced_usd event.usd row.usd;
  failure_code = coalesce event.failure_code row.failure_code;
  client_confirmed_at = coalesce event.confirmed_at row.client_confirmed_at;
  client_observed_at = coalesce event.observed_at row.client_observed_at;
  verification_state =
      if is_confirmed event.status && is_some (coalesce event.tx_hash row.tx_hash)
      then VerificationState.queued
      else row.verification_state;
}

-- The UPDATE is conditional on a pending status, and returns no row where it is not.
unfoldable pub promote_pending_activity : Db → ℕ → Activity → IngestEvent → Applied
unfolding promoted_row enqueue_when_queued
promote_pending_activity db now row event =
    if is_pending row.status
    then some (
      enqueue_when_queued now (promoted_row row event)
          (record db { activities = put by_id (promoted_row row event) db.activities }),
      accepted,
    )
    else some (db, duplicate)

-- APPEND_STATUS_SEEN
unfoldable pub append_status_seen : Db → Activity → EventStatus → Db
append_status_seen db row status = record db {
  activities =
      put by_id (record row { statuses_seen = row.statuses_seen ++ status ∷ [] }) db.activities;
}

abbrev pub state_of : Option Activity → Option ExistingActivityState
state_of none = none
state_of (some row) = some (record { status = row.status; statuses_seen = row.statuses_seen })

-- The switch over the decision. `lockedRow` throws where there is no row.
unfoldable pub perform :
    IngestOutcome → Option Activity → Db → ℕ → String → String → IngestEvent → ℕ → Bool → Applied
perform IngestOutcome.insert existing db now public_id agent_hash event schema_version backfill =
    insert_activity db now public_id agent_hash event schema_version backfill
perform IngestOutcome.duplicate existing db now _ _ event _ _ = some (db, duplicate)
perform IngestOutcome.promote (some row) db now _ _ event _ _ =
    promote_pending_activity db now row event
perform IngestOutcome.accept_noop (some row) db now _ _ event _ _ =
    some (append_status_seen db row event.status, accepted)
perform _ none db now _ _ event _ _ = none

unfoldable pub apply_event : Db → ℕ → String → String → IngestEvent → ℕ → Bool → Applied
unfolding perform select_existing
apply_event db now public_id agent_hash event schema_version backfill =
    let existing = select_existing agent_hash event.source_row_id db in
    perform (decide_ingest (state_of existing) event.status) existing db now public_id agent_hash
      event schema_version backfill

-- The state that is left: a transaction that throws is rolled back.
abbrev pub after : Db → Applied → Db
after db none = db
after db (some (db', outcome)) = db'
