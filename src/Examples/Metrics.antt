-- ===== src/Examples/Metrics.antt =====
-- The figures of an agent at concrete activities: two purchases and a sale.
use mathlib.Core.Bool.{decide}
use vex_agentscan.Base.{
  ℕ, String, Bool, true, List, [], ◌∷◌, some, All, ◌≡◌, refl, length, sort, insert_sorted, put,
  lookup,
}
use vex_agentscan.Base.Int.{ℤ, pos, negsuc, ◌+ℤ◌}
use vex_agentscan.Base.Digits.{number_text, digits_of, digit_value, pad_start, pad_end, strip_zeros}
use vex_agentscan.Base.Text.{codes}
use vex_agentscan.Contract.Enums.{
  ChainFamily, EventKind, EventRole, EventKind_discrete, EventRole_discrete,
}
use vex_agentscan.Core.Chains.Catalog.{chain_keys_for_slug}
use vex_agentscan.Core.Chains.Catalog.Slugs.{IsOfSlug, chain_keys-IsOfSlug}
use vex_agentscan.Contract.Roles.{deploys_capital_role, capital_deploying_roles}
use vex_agentscan.Core.Metrics.{
  PricingState, AgentActivityLeg, AgentActivity, is_server_priced, deploys_capital,
}
use vex_agentscan.Core.Metrics.Decimal.{
  decimal_from_text, decimal_to_text, split_point, unsigned_units, unsigned_text,
  decimal_from_raw_amount,
}
use vex_agentscan.Core.Metrics.Decimal.RoundTrip.{decimal_from_text-decimal_to_text}
use vex_agentscan.Core.Metrics.Published.{published_usd, IsPublished, published_usd-IsPublished}
use vex_agentscan.Core.Metrics.Realized.{
  InventoryLot, Ledger, nothing_matched, swap_trade_of, priced_leg_of, priced_leg_from, run_trades,
  empty_ledger,
}
use vex_agentscan.Core.Metrics.Realized.Matching.{Matches, consume-Matches}
use vex_agentscan.Core.Metrics.Realized.Runs.{IsParsed, IsRun, run_trades-IsRun}
use vex_agentscan.Core.Metrics.Breakdowns.{
  ProtocolVolume, protocol_breakdown, protocol_tallies, priced_volume_of, heavier_volume_first,
}
use vex_agentscan.Core.Metrics.Breakdowns.Totals.{
  read_count, read_volume, summed_volume, protocol_breakdown-totals,
}

-- -1.5
abbrev loss : ℤ
loss = negsuc 1499999999999999999

-- -1.505
abbrev odd_loss : ℤ
odd_loss = negsuc 1504999999999999999

decimal_from_text-decimal_to_text_example : decimal_from_text (decimal_to_text loss) ≡ some loss
decimal_from_text-decimal_to_text_example = decimal_from_text-decimal_to_text loss

-- -1.505 is published as -1.51.
published_usd-IsPublished_example :
    (published : List ℕ) × (published_usd (decimal_to_text odd_loss) ≡ some published)
    × IsPublished odd_loss published
published_usd-IsPublished_example =
    published_usd-IsPublished (decimal_to_text odd_loss) odd_loss
      (decimal_from_text-decimal_to_text odd_loss)

abbrev two_lots : List InventoryLot
two_lots = record { quantity = 3; cost = pos 30 } ∷ record { quantity = 4; cost = pos 80 } ∷ []

consume-Matches_example : Matches two_lots 5 nothing_matched
consume-Matches_example = consume-Matches two_lots 5 nothing_matched

abbrev leg_of : String → String → AgentActivityLeg
leg_of token raw = record {
  token_address = some token;
  token_decimals = some (pos 18);
  executed_raw = some (codes raw);
  usd_priced = some (codes "12.5");
}

abbrev swap_of : ℕ → String → AgentActivityLeg → AgentActivityLeg → AgentActivity
swap_of id protocol spent received = record {
  activity_id = id;
  observed_at_seconds = 1000;
  kind = EventKind.swap;
  event_role = EventRole.swap;
  protocol = protocol;
  chain_family = ChainFamily.eip155;
  chain_id = pos 1;
  pricing_state = PricingState.server_priced;
  spent = spent;
  received = received;
}

abbrev activities : List AgentActivity
activities =
    swap_of 1 "uniswap" (leg_of "0xaa" "5") (leg_of "0xbb" "7")
    ∷ swap_of 2 "relay" (leg_of "0xbb" "6") (leg_of "0xaa" "4")
    ∷ []

activities-IsParsed : All IsParsed activities
unfolding swap_trade_of priced_leg_of priced_leg_from decimal_from_raw_amount decimal_from_text
    split_point unsigned_units is_server_priced decide EventKind_discrete
activities-IsParsed = (refl, (refl, tt))

run_trades-IsRun_example :
    (l : Ledger) × (run_trades activities empty_ledger ≡ some l) × IsRun activities empty_ledger l
run_trades-IsRun_example = run_trades-IsRun activities empty_ledger activities-IsParsed

abbrev by_codes : String → String → Bool
by_codes left right = true

abbrev rows : List ProtocolVolume
rows =
    record { protocol = "uniswap"; volume_usd = codes "12.5"; tx_count = 1 }
    ∷ record { protocol = "relay"; volume_usd = codes "12.5"; tx_count = 1 }
    ∷ []

rows-broken_down : protocol_breakdown by_codes activities ≡ some rows
unfolding protocol_breakdown protocol_tallies priced_volume_of deploys_capital deploys_capital_role
    capital_deploying_roles is_server_priced decimal_from_text decimal_to_text split_point
    unsigned_units unsigned_text heavier_volume_first sort insert_sorted put lookup ◌+ℤ◌ decide
    EventRole_discrete number_text digits_of digit_value pad_start pad_end strip_zeros
rows-broken_down = refl

protocol_breakdown-totals_example :
    (read_count rows ≡ length activities)
    × (read_volume rows (pos 0) ≡ summed_volume activities (pos 0))
protocol_breakdown-totals_example =
    protocol_breakdown-totals by_codes activities rows rows-broken_down

chain_keys-IsOfSlug_example : All (IsOfSlug "solana" "relay") (chain_keys_for_slug "solana")
chain_keys-IsOfSlug_example = chain_keys-IsOfSlug "solana" "relay"
