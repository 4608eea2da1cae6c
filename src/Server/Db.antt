-- ===== src/Server/Db.antt =====
-- The tables of db/schema.sql that ingest and verification read and write, as one state. Times
-- are milliseconds; a `numeric` is a count of its finest unit; a name is a list of code units. `next_activity_id` is the sequence
-- of `activities.id`.
use vex_agentscan.Base.{ℕ, String, Bool, List, Option, Eq, from_discrete}
use vex_agentscan.Base.Int.{ℤ}
use vex_agentscan.Contract.Enums.{EventKind, EventRole, EventStatus, ChainFamily, FailureCode}
use vex_agentscan.Contract.Event.{Leg, Usd}
pub use vex_agentscan.Core.Metrics.{PricingState}

pub data VerificationState : Type 0 where
  none queued verified_full verified_basic mismatch : VerificationState

pub data AgentStatus : Type 0 where
  active revoked quarantined : AgentStatus

pub data StrikeReason : Type 0 where
  tx_reverted amount_mismatch time_mismatch tx_not_found : StrikeReason
  operator_lift operator_reopen : StrikeReason

unfoldable pub StrikeReason_discrete : Discrete StrikeReason
StrikeReason_discrete = hlevel

instance abbrev pub reason_eq : Eq StrikeReason
reason_eq = from_discrete StrikeReason_discrete

pub record Pricing : Type 0 where
  pub state : PricingState
  pub usd_in_priced : Option ℕ
  pub usd_out_priced : Option ℕ
  pub priced_at : Option ℕ
  pub attempts : ℕ
  pub next_attempt_at : Option ℕ

pub record Activity : Type 0 where
  pub id : ℕ
  pub agent_hash : String
  pub source_row_id : String
  pub public_id : String
  pub source_execution_id : String
  pub event_index : ℕ
  pub kind : EventKind
  pub event_role : EventRole
  pub status : EventStatus
  pub protocol : String
  pub chain_family : ChainFamily
  pub chain_id : ℤ
  pub from_chain_id : Option ℤ
  pub to_chain_id : Option ℤ
  pub leg_in : Leg
  pub leg_out : Leg
  pub leg_in2 : Leg
  pub leg_out2 : Leg
  pub usd : Usd
  pub tx_hash : Option String
  pub failure_code : Option FailureCode
  pub client_created_at : ℕ
  pub client_confirmed_at : Option ℕ
  pub client_observed_at : Option ℕ
  pub statuses_seen : List EventStatus
  pub verification_state : VerificationState
  pub verified_at : Option ℕ
  pub block_time : Option ℕ
  pub backfill : Bool
  pub received_schema_version : ℕ
  pub pricing : Pricing

pub record Job : Type 0 where
  pub activity_id : ℕ
  pub attempts : ℕ
  pub first_attempt_at : ℕ
  pub next_attempt_at : ℕ
  pub last_error : Option String

pub record Agent : Type 0 where
  pub agent_hash : String
  pub ingest_token_sha256 : String
  pub consent_version : ℕ
  pub accepted_at : ℕ
  pub app_version : Option String
  pub name : Option (List ℕ)
  pub last_handshake_at : Option ℕ
  pub status : AgentStatus
  pub strike_count : ℕ
  pub first_verified_at : Option ℕ
  pub revoked_at : Option ℕ
  pub quarantined_at : Option ℕ
  pub purged_at : Option ℕ

pub record Strike : Type 0 where
  pub agent_hash : String
  pub activity_id : Option ℕ
  pub reason : StrikeReason

pub record Wallet : Type 0 where
  pub agent_hash : String
  pub chain_family : ChainFamily
  pub address_hmac : String
  pub proof_signature : String
  pub proven_at : ℕ

pub record Aggregate : Type 0 where
  pub day : ℕ
  pub protocol : String
  pub kind : EventKind
  pub volume_usd : ℕ
  pub tx_count : ℕ
  pub volume_usd_priced : ℕ

pub record Db : Type 0 where
  pub activities : List Activity
  pub jobs : List Job
  pub agents : List Agent
  pub strikes : List Strike
  pub aggregates : List Aggregate
  pub wallets : List Wallet
  pub next_activity_id : ℕ

abbrev pub by_id : Activity → ℕ
by_id a = a.id

abbrev pub by_activity : Job → ℕ
by_activity j = j.activity_id

abbrev pub by_hash : Agent → String
by_hash g = g.agent_hash

abbrev pub is_none_state : VerificationState → Bool
is_none_state none = Bool.true
is_none_state _ = Bool.false

abbrev pub is_queued : VerificationState → Bool
is_queued queued = Bool.true
is_queued _ = Bool.false
