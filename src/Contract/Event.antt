-- ===== src/Contract/Event.antt =====
-- packages/contract/src/event.ts: an event as `eventShape` delivers it. A digit string is the
-- number that it writes, a USD string a count of the finest decimal unit of the database's
-- `numeric`, an ISO date its milliseconds.
pub mod Issues
pub mod Admission
use vex_agentscan.Base.{ℕ, String, Option}
use vex_agentscan.Base.Int.{ℤ}
use vex_agentscan.Contract.Enums.{EventKind, EventRole, EventStatus, ChainFamily, FailureCode}

pub record Token : Type 0 where
  pub address : String
  pub symbol : String
  pub decimals : ℤ

-- One side of a trade: `tokenIn`, `amountInRaw`, `executedInRaw`, or those of `Out`, `In2`, `Out2`.
pub record Leg : Type 0 where
  pub token : Option Token
  pub amount_raw : Option ℕ
  pub executed_raw : Option ℕ

pub record Usd : Type 0 where
  pub usd_in_est : Option ℕ
  pub usd_out_est : Option ℕ
  pub usd_fee_est : Option ℕ
  pub usd_network_gas_est : Option ℕ
  pub usd_venue_fee_est : Option ℕ
  pub usd_vex_fee_est : Option ℕ
  pub usd_destination_prepay_est : Option ℕ
  pub usd_source : Option String

pub record IngestEvent : Type 0 where
  pub source_row_id : String
  pub source_execution_id : String
  pub event_index : ℕ
  pub kind : EventKind
  pub event_role : EventRole
  pub status : EventStatus
  pub protocol : String
  pub chain_family : ChainFamily
  pub chain_id : ℤ
  pub from_chain_id : Option ℤ
  pub to_chain_id : Option ℤ
  pub leg_in : Leg
  pub leg_out : Leg
  pub leg_in2 : Leg
  pub leg_out2 : Leg
  pub usd : Usd
  pub tx_hash : Option String
  pub failure_code : Option FailureCode
  pub created_at : ℕ
  pub confirmed_at : Option ℕ
  pub observed_at : Option ℕ
