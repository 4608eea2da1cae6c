-- ===== src/Core/Metrics/Realized.antt =====
-- packages/core/src/agent-metrics/realized-result.ts: swaps matched first in, first out. Quantities
-- are not negative, since `decimalFromRawAmount` returns none; `none` is a thrown error.
pub mod Matching
pub mod Runs
use vex_agentscan.Base.{
  ℕ, suc, ◌+◌, ◌-◌, String, Bool, true, false, ◌&&◌, ◌++◌, List, [], ◌∷◌, Option, none, some, ltb,
  min, lookup, put, ◌==◌, nat_eq, if◌then◌else◌, ◌>>=◌,
}
use vex_agentscan.Base.Int.{ℤ, pos, ◌+ℤ◌, ◌-ℤ◌, ltb_ℤ}
use vex_agentscan.Base.Text.{codes, codes_eq, lower}
use vex_agentscan.Contract.Enums.{EventKind, kind_eq, ChainFamily}
use vex_agentscan.Core.Chains.Registry.{int_text}
use vex_agentscan.Core.Metrics.{AgentActivityLeg, AgentActivity, is_server_priced, chronological}
use vex_agentscan.Core.Metrics.Decimal.{
  decimal_from_raw_amount, decimal_from_text, proportion_of_decimal, decimal_to_text,
}

pub record RealizedResult : Type 0 where
  pub realized_usd : List ℕ
  pub closed_round_trips : ℕ
  pub winning_round_trips : ℕ
  pub unmatched_disposals : ℕ

pub record PricedLeg : Type 0 where
  pub inventory_key : List ℕ
  pub quantity : ℕ
  pub usd : ℤ

pub record SwapTrade : Type 0 where
  pub disposal : PricedLeg
  pub acquisition : PricedLeg

pub record InventoryLot : Type 0 where
  pub quantity : ℕ
  pub cost : ℤ

pub record Consumption : Type 0 where
  pub matched_cost : ℤ
  pub matched_quantity : ℕ
  pub consumed_lots : ℕ

abbrev pub family_text : ChainFamily → String
family_text ChainFamily.eip155 = "eip155"
family_text ChainFamily.solana = "solana"

unfoldable pub inventory_key_of : AgentActivity → String → List ℕ
inventory_key_of activity token_address =
    codes (family_text activity.chain_family)
    ++ 58 ∷ (int_text activity.chain_id ++ 58 ∷ codes (lower token_address))

-- A leg whose columns are all there; its texts may be malformed, which throws.
unfoldable pub priced_leg_from : List ℕ → List ℕ → ℤ → List ℕ → Option PricedLeg
priced_leg_from key raw decimals usd_text = do
  quantity ← decimal_from_raw_amount raw decimals
  usd ← decimal_from_text usd_text
  some (record { inventory_key = key; quantity = quantity; usd = usd })

abbrev present : Option PricedLeg → Option (Option PricedLeg)
present none = none
present (some leg) = some (some leg)

unfoldable pub priced_leg_of : AgentActivity → AgentActivityLeg → Option (Option PricedLeg)
priced_leg_of activity leg = elim leg.token_address [
  | none ↦ some none
  | some address ↦ elim leg.token_decimals [
    | none ↦ some none
    | some decimals ↦ elim leg.executed_raw [
      | none ↦ some none
      | some raw ↦ elim leg.usd_priced [
        | none ↦ some none
        | some usd_text ↦
            present (priced_leg_from (inventory_key_of activity address) raw decimals usd_text)
      ]
    ]
  ]
]

abbrev pub trade_of : Option PricedLeg → Option PricedLeg → Option SwapTrade
trade_of (some disposal) (some acquisition) =
    some (record { disposal = disposal; acquisition = acquisition })
trade_of _ _ = none

unfoldable pub swap_trade_of : AgentActivity → Option (Option SwapTrade)
swap_trade_of activity =
    let legs : Option (Option SwapTrade) = do
      disposal ← priced_leg_of activity activity.spent
      acquisition ← priced_leg_of activity activity.received
      some (trade_of disposal acquisition)
    in if activity.kind == EventKind.swap && is_server_priced activity then legs else some none

abbrev pub with_match : Consumption → ℤ → ℕ → Consumption
with_match c cost taken = record {
  matched_cost = c.matched_cost +ℤ cost;
  matched_quantity = c.matched_quantity + taken;
  consumed_lots = suc c.consumed_lots;
}

-- The loop of `consumeInventory`. A lot that is not used up takes all that remained, and the loop
-- ends.
unfoldable pub consume_inventory :
    List InventoryLot → ℕ → Consumption → Option (List InventoryLot × Consumption)
consume_inventory [] remaining c = some ([], c)
consume_inventory (oldest ∷ lots) remaining c =
    let taken = min oldest.quantity remaining in
    let rest = consume_inventory lots (remaining - taken) (with_match c oldest.cost taken) in
    let partly : Option (List InventoryLot × Consumption) = do
      cost ← proportion_of_decimal oldest.cost taken oldest.quantity
      some (
        record { quantity = oldest.quantity - taken; cost = oldest.cost -ℤ cost } ∷ lots,
        with_match c cost taken,
      )
    in if ltb 0 remaining
      then (if taken == oldest.quantity then rest else partly)
      else some (oldest ∷ lots, c)

abbrev pub nothing_matched : Consumption
nothing_matched = record { matched_cost = pos 0; matched_quantity = 0; consumed_lots = 0 }

-- An entry of the map from keys to lots.
pub record Inventory : Type 0 where
  pub key : List ℕ
  pub lots : List InventoryLot

abbrev pub by_inventory_key : Inventory → List ℕ
by_inventory_key i = i.key

unfoldable pub lots_for : List ℕ → List Inventory → List InventoryLot
lots_for key inventory = elim (lookup by_inventory_key key inventory) [
  | none ↦ []
  | some i ↦ i.lots
]

abbrev pub with_lots : List ℕ → List InventoryLot → List Inventory → List Inventory
with_lots key lots inventory = put by_inventory_key (record { key = key; lots = lots }) inventory

-- The variables of the loop in `realizedResult`.
pub record Ledger : Type 0 where
  pub inventory : List Inventory
  pub realized : ℤ
  pub closed_round_trips : ℕ
  pub winning_round_trips : ℕ
  pub unmatched_disposals : ℕ

abbrev pub with_disposal : PricedLeg → Consumption → Ledger → Ledger
with_disposal disposal c ledger = record ledger {
  unmatched_disposals =
      if ltb c.matched_quantity disposal.quantity
      then suc ledger.unmatched_disposals
      else ledger.unmatched_disposals;
}

abbrev pub with_result : ℤ → Ledger → Ledger
with_result result ledger = record ledger {
  realized = ledger.realized +ℤ result;
  closed_round_trips = suc ledger.closed_round_trips;
  winning_round_trips =
      if ltb_ℤ (pos 0) result then suc ledger.winning_round_trips else ledger.winning_round_trips;
}

unfoldable pub settle_disposal : PricedLeg → Consumption → Ledger → Option Ledger
settle_disposal disposal c ledger =
    let closed : Option Ledger = do
      proceeds ← proportion_of_decimal disposal.usd c.matched_quantity disposal.quantity
      some (with_result (proceeds -ℤ c.matched_cost) (with_disposal disposal c ledger))
    in if ltb 0 c.consumed_lots then closed else some (with_disposal disposal c ledger)

unfoldable pub acquire : PricedLeg → Ledger → Ledger
acquire acquisition ledger =
    if ltb 0 acquisition.quantity
    then record ledger {
      inventory =
          with_lots acquisition.inventory_key
            (lots_for acquisition.inventory_key ledger.inventory
              ++ record { quantity = acquisition.quantity; cost = acquisition.usd } ∷ [])
            ledger.inventory;
    }
    else ledger

unfoldable pub apply_trade : SwapTrade → Ledger → Option Ledger
apply_trade trade ledger = do
  (lots, c) ←
      consume_inventory (lots_for trade.disposal.inventory_key ledger.inventory)
        trade.disposal.quantity nothing_matched
  settled ←
      settle_disposal trade.disposal c
        (record ledger { inventory = with_lots trade.disposal.inventory_key lots ledger.inventory })
  some (acquire trade.acquisition settled)

unfoldable pub run_trades : List AgentActivity → Ledger → Option Ledger
run_trades [] ledger = some ledger
run_trades (activity ∷ activities) ledger = do
  trade ← swap_trade_of activity
  next ← elim trade [ none ↦ some ledger | some t ↦ apply_trade t ledger ]
  run_trades activities next

abbrev pub empty_ledger : Ledger
empty_ledger = record {
  inventory = [];
  realized = pos 0;
  closed_round_trips = 0;
  winning_round_trips = 0;
  unmatched_disposals = 0;
}

unfoldable pub realized_result : List AgentActivity → Option RealizedResult
realized_result activities = do
  ledger ← run_trades (chronological activities) empty_ledger
  some (record {
    realized_usd = decimal_to_text ledger.realized;
    closed_round_trips = ledger.closed_round_trips;
    winning_round_trips = ledger.winning_round_trips;
    unmatched_disposals = ledger.unmatched_disposals;
  })
