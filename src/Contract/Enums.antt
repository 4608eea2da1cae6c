-- ===== src/Contract/Enums.antt =====
-- packages/contract/src/enums.ts: the words of the wire format, each tuple as a data type.
use vex_agentscan.Base.{Eq, from_discrete}

pub data EventKind : Type 0 where
  swap bridge lend prediction wrap yield launch claim : EventKind

pub data EventRole : Type 0 where
  swap trench_fee swap_fee : EventRole
  bridge_deposit bridge_fee bridge_fill_expected bridge_fill_observed bridge_refund : EventRole
  lend_deposit lend_withdraw lend_borrow_operate : EventRole
  predict_buy predict_sell predict_claim predict_close : EventRole
  wrap unwrap : EventRole
  yield_pt yield_yt yield_py yield_lp yield_sy yield_claim : EventRole
  token_launch pools_fee pools_claim : EventRole

pub data EventStatus : Type 0 where
  pending confirmed definitively_failed superseded_unproven : EventStatus

pub data ChainFamily : Type 0 where
  eip155 solana : ChainFamily

pub data FailureCode : Type 0 where
  route_not_found slippage deadline_expired insufficient_liquidity : FailureCode
  allowance_or_balance chain_unsupported simulation_reverted mined_revert : FailureCode
  broadcast_error confirmation_timeout unknown bridge_failed bridge_refunded : FailureCode
  solana_signature_expired venue_unavailable : FailureCode

unfoldable pub EventKind_discrete : Discrete EventKind
EventKind_discrete = hlevel

unfoldable pub EventRole_discrete : Discrete EventRole
EventRole_discrete = hlevel

unfoldable pub EventStatus_discrete : Discrete EventStatus
EventStatus_discrete = hlevel

unfoldable pub ChainFamily_discrete : Discrete ChainFamily
ChainFamily_discrete = hlevel

instance abbrev pub kind_eq : Eq EventKind
kind_eq = from_discrete EventKind_discrete

instance abbrev pub role_eq : Eq EventRole
role_eq = from_discrete EventRole_discrete

instance abbrev pub status_eq : Eq EventStatus
status_eq = from_discrete EventStatus_discrete

instance abbrev pub family_eq : Eq ChainFamily
family_eq = from_discrete ChainFamily_discrete
