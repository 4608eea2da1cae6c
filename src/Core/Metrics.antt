-- ===== src/Core/Metrics.antt =====
-- packages/core/src/agent-metrics: agent-activity.ts and usd-contribution.ts.
pub mod Decimal
pub mod Realized
pub mod Breakdowns
pub mod Published
use vex_agentscan.Base.{
  ℕ, String, Bool, true, false, not, ◌&&◌, ◌||◌, List, [], ◌∷◌, Option, none, some, is_some, ltb,
  length, keep_if, sort, ◌==◌, nat_eq, if◌then◌else◌,
}
use vex_agentscan.Base.Int.{ℤ}
use vex_agentscan.Contract.Enums.{EventKind, EventRole, ChainFamily}
use vex_agentscan.Contract.Roles.{deploys_capital_role}

pub data PricingState : Type 0 where
  pending server_priced unpriced : PricingState

-- Amounts are texts, lists of code units.
pub record AgentActivityLeg : Type 0 where
  pub token_address : Option String
  pub token_decimals : Option ℤ
  pub executed_raw : Option (List ℕ)
  pub usd_priced : Option (List ℕ)

pub record AgentActivity : Type 0 where
  pub activity_id : ℕ
  pub observed_at_seconds : ℕ
  pub kind : EventKind
  pub event_role : EventRole
  pub protocol : String
  pub chain_family : ChainFamily
  pub chain_id : ℤ
  pub pricing_state : PricingState
  pub spent : AgentActivityLeg
  pub received : AgentActivityLeg

abbrev pub is_state_priced : PricingState → Bool
is_state_priced PricingState.server_priced = true
is_state_priced _ = false

unfoldable pub is_server_priced : AgentActivity → Bool
is_server_priced activity = is_state_priced activity.pricing_state

unfoldable pub deploys_capital : AgentActivity → Bool
deploys_capital activity = deploys_capital_role activity.event_role

-- The comparator of `chronological`: `left` may stand before `right`.
abbrev not_after : AgentActivity → AgentActivity → Bool
not_after left right =
    if left.observed_at_seconds == right.observed_at_seconds
    then not (ltb right.activity_id left.activity_id)
    else ltb left.observed_at_seconds right.observed_at_seconds

unfoldable pub chronological : List AgentActivity → List AgentActivity
chronological activities = sort not_after activities

pub data UsdContribution : Type 0 where
  contributes_usd contributes_no_usd awaiting_a_price outside_usd_figures : UsdContribution

unfoldable pub declares_a_leg_without_a_price : AgentActivity → Bool
declares_a_leg_without_a_price activity =
    if not (is_some activity.spent.usd_priced)
    then true
    else is_some activity.received.token_address && not (is_some activity.received.usd_priced)

unfoldable pub could_not_be_priced : AgentActivity → Bool
could_not_be_priced activity = elim activity.pricing_state [
  | PricingState.unpriced ↦ true
  | PricingState.pending ↦ is_server_priced activity && declares_a_leg_without_a_price activity
  | PricingState.server_priced ↦
      is_server_priced activity && declares_a_leg_without_a_price activity
]

unfoldable pub usd_contribution_of : AgentActivity → UsdContribution
usd_contribution_of activity =
    let settled = if could_not_be_priced activity then contributes_no_usd else contributes_usd in
    if not (deploys_capital activity) then outside_usd_figures else elim activity.pricing_state [
      | PricingState.pending ↦ awaiting_a_price
      | PricingState.unpriced ↦ settled
      | PricingState.server_priced ↦ settled
    ]

abbrev is_awaiting : UsdContribution → Bool
is_awaiting awaiting_a_price = true
is_awaiting _ = false

unfoldable pub awaiting_a_price_count : List AgentActivity → ℕ
awaiting_a_price_count activities =
    length (keep_if (λ activity. is_awaiting (usd_contribution_of activity)) activities)
