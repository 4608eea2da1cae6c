-- ===== src/Examples.antt =====
-- Concrete runs: a swap that is reported, claimed and verified, and what the theorems say of it.
pub mod Worker
pub mod Metrics
pub mod Attestations
pub mod Events
pub mod Handshake
pub mod Decisions
pub mod Pricing
pub mod Contract
use mathlib.Core.Bool.{decide}
use vex_agentscan.Base.{
  ℕ, ◌+◌, String, Bool, true, false, List, [], ◌∷◌, ◌++◌, Option, none, some, is_some, lookup, put,
  delete, find, contains, ◌≡◌, refl, ◌==◌, nat_eq, string_eq, if◌then◌else◌, length,
}
use vex_agentscan.Base.Int.{ℤ, pos}
use vex_agentscan.Contract.Enums.{
  EventKind, EventRole, EventStatus, ChainFamily, EventRole_discrete,
}
use vex_agentscan.Contract.Event.{Token, Leg, Usd, IngestEvent}
use vex_agentscan.Core.Verdict.{TerminalVerdict, StrikeVerdict}
use vex_agentscan.Core.Ingest.{decide_ingest}
use vex_agentscan.Core.Policy.{is_launch_shaped, kind_verification_policies}
use vex_agentscan.Server.Db.{
  AgentStatus, Activity, Agent, Db, by_id, by_activity, is_queued, is_none_state,
}
use vex_agentscan.Server.Ingest.{
  ApplyEventOutcome, accepted, duplicate, apply_event, inserted_row, insert_activity, perform,
  select_existing, enqueue_when_queued, enqueue_job, initial_verification_state, new_job,
}
use vex_agentscan.Server.Finalize.{finalize_verification, volume_contribution}
use vex_agentscan.Server.Queue.Coherence.{is_verifiable}
use vex_agentscan.Server.Queue.Transitions.{AllMove}
use vex_agentscan.Server.Queue.Histories.{
  Call, report, finalize, Timed, run, step_call, empty_db, queued_iff_job, job-has_activity,
  judged-IsVerifiable, step-AllMove, empty-Inv,
}
use vex_agentscan.Server.Finalize.Once.{
  finalize_once, finalize-totals, total_count, total_volume, is_verified,
}
use vex_agentscan.Server.Finalize.Strikes.{IsStruck, strike-IsStruck}
use vex_agentscan.Server.Ingest.Replay.{accepted-duplicate}

abbrev pub usdc : Token
usdc = record { address = "0xaa"; symbol = "USDC"; decimals = pos 6 }

abbrev pub no_leg : Leg
no_leg = record { token = none; amount_raw = none; executed_raw = none }

abbrev pub usd_5 : Usd
usd_5 = record {
  usd_in_est = some 5;
  usd_out_est = none;
  usd_fee_est = none;
  usd_network_gas_est = none;
  usd_venue_fee_est = none;
  usd_vex_fee_est = none;
  usd_destination_prepay_est = none;
  usd_source = none;
}

abbrev pub swapped : IngestEvent
swapped = record {
  source_row_id = "row-1";
  source_execution_id = "run-1";
  event_index = 0;
  kind = EventKind.swap;
  event_role = EventRole.swap;
  status = EventStatus.confirmed;
  protocol = "uniswap";
  chain_family = ChainFamily.eip155;
  chain_id = pos 1;
  from_chain_id = none;
  to_chain_id = none;
  leg_in = record { token = some usdc; amount_raw = some 100; executed_raw = some 100 };
  leg_out = no_leg;
  leg_in2 = no_leg;
  leg_out2 = no_leg;
  usd = usd_5;
  tx_hash = some "0x01";
  failure_code = none;
  created_at = 900;
  confirmed_at = some 950;
  observed_at = none;
}

abbrev pub history : List Timed
history = record { now = 1000; call = report "pub-1" "agent" swapped 1 false } ∷ []

abbrev pub swap_row : Activity
swap_row = inserted_row 1 "pub-1" "agent" swapped 1 false

abbrev pub reported : Db
reported = run 3 history empty_db

abbrev reporter : Agent
reporter = record {
  agent_hash = "agent";
  ingest_token_sha256 = "hash";
  consent_version = 1;
  accepted_at = 100;
  app_version = none;
  name = none;
  last_handshake_at = none;
  status = AgentStatus.active;
  strike_count = 0;
  first_verified_at = none;
  revoked_at = none;
  quarantined_at = none;
  purged_at = none;
}

abbrev known_reported : Db
known_reported = record reported { agents = reporter ∷ [] }

pub reported-row : lookup by_id 1 reported.activities ≡ some swap_row
unfolding run step_call apply_event perform select_existing insert_activity decide_ingest
    inserted_row enqueue_when_queued enqueue_job initial_verification_state lookup put
reported-row = refl

swap_row-is_queued : is_queued swap_row.verification_state ≡ true
unfolding inserted_row initial_verification_state
swap_row-is_queued = refl

swap_row-not_none : is_none_state swap_row.verification_state ≡ false
unfolding inserted_row initial_verification_state
swap_row-not_none = refl

queued_iff_job_example :
    is_some (lookup by_activity 1 reported.jobs) ≡ is_queued swap_row.verification_state
queued_iff_job_example = queued_iff_job 3 history 1 swap_row reported-row

reported-has_job : is_some (lookup by_activity 1 reported.jobs) ≡ true
unfolding run step_call apply_event perform select_existing insert_activity decide_ingest
    inserted_row enqueue_when_queued enqueue_job initial_verification_state lookup put
reported-has_job = refl

job-has_activity_example : is_some (lookup by_id 1 reported.activities) ≡ true
job-has_activity_example = job-has_activity 3 history 1 reported-has_job

judged-IsVerifiable_example : is_verifiable swap_row ≡ true
judged-IsVerifiable_example =
    judged-IsVerifiable 3 history 1 swap_row reported-row swap_row-not_none

step-AllMove_example :
    AllMove reported (step_call 3 2000 (finalize 1 (TerminalVerdict.verified_full 940)) reported)
step-AllMove_example = step-AllMove 3 history 2000 (finalize 1 (TerminalVerdict.verified_full 940))

finalize_once_example :
    finalize_verification 3
      (finalize_verification 3 reported 2000 1 (TerminalVerdict.verified_full 940))
      3000
      1
      (TerminalVerdict.strike StrikeVerdict.amount_mismatch)
    ≡ finalize_verification 3 reported 2000 1 (TerminalVerdict.verified_full 940)
finalize_once_example =
    finalize_once 3 reported 2000 3000 1 (TerminalVerdict.verified_full 940)
      (TerminalVerdict.strike StrikeVerdict.amount_mismatch)

finalize-totals_example :
    (total_count
        (finalize_verification 3 reported 2000 1 (TerminalVerdict.verified_full 940)).aggregates
      ≡ total_count reported.aggregates + 1)
    × (total_volume
          (finalize_verification 3 reported 2000 1 (TerminalVerdict.verified_full 940)).aggregates
        ≡ total_volume reported.aggregates + volume_contribution swap_row)
finalize-totals_example =
    finalize-totals 3 reported 2000 1 (TerminalVerdict.verified_full 940) swap_row reported-row
      swap_row-is_queued

strike-IsStruck_example : IsStruck 3 2000 swap_row StrikeVerdict.amount_mismatch known_reported (
    finalize_verification 3 known_reported 2000 1
      (TerminalVerdict.strike StrikeVerdict.amount_mismatch))
strike-IsStruck_example =
    strike-IsStruck 3 known_reported 2000 1 StrikeVerdict.amount_mismatch swap_row reported-row
      swap_row-is_queued

first-accepted :
    apply_event empty_db 1000 "pub-1" "agent" swapped 1 false ≡ some (reported, accepted)
unfolding run step_call apply_event perform select_existing insert_activity decide_ingest
    inserted_row enqueue_when_queued enqueue_job initial_verification_state lookup put
first-accepted = refl

accepted-duplicate_example :
    apply_event reported 5000 "pub-2" "agent" swapped 1 false ≡ some (reported, duplicate)
accepted-duplicate_example =
    accepted-duplicate empty_db reported 1000 5000 "pub-1" "pub-2" "agent" swapped 1 1 false false
      empty-Inv first-accepted

pub swap_row-stored : lookup by_id swap_row.id reported.activities ≡ some swap_row
unfolding inserted_row
swap_row-stored = reported-row
