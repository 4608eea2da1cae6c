-- ===== src/Core/Metrics/Breakdowns.antt =====
-- packages/core/src/agent-metrics/breakdowns.ts. A malformed text throws, which is `none`. The
-- order of `localeCompare` comes from the runtime and is a parameter.
pub mod Totals
use vex_agentscan.Base.{
  ℕ, ◌+◌, String, Bool, List, [], ◌∷◌, ◌++◌, Option, none, some, map, sort, lookup, put, contains,
  ◌==◌, string_eq, if◌then◌else◌, ◌>>=◌,
}
use vex_agentscan.Base.Int.{ℤ, pos, ◌+ℤ◌, ltb_ℤ, int_eq}
use vex_agentscan.Base.Text.{codes, codes_eq}
use vex_agentscan.Contract.Enums.{ChainFamily}
use vex_agentscan.Core.Chains.Registry.{int_text}
use vex_agentscan.Core.Metrics.{AgentActivity, is_server_priced, deploys_capital}
use vex_agentscan.Core.Metrics.Decimal.{decimal_from_text, decimal_to_text}
use vex_agentscan.Core.Metrics.Realized.{family_text}

pub record ProtocolVolume : Type 0 where
  pub protocol : String
  pub volume_usd : List ℕ
  pub tx_count : ℕ

pub record ChainVolume : Type 0 where
  pub chain_family : ChainFamily
  pub chain_id : ℤ
  pub protocols : List String
  pub volume_usd : List ℕ
  pub tx_count : ℕ

pub record VolumeTally : Type 0 where
  pub volume : ℤ
  pub tx_count : ℕ

abbrev pub empty_tally : VolumeTally
empty_tally = record { volume = pos 0; tx_count = 0 }

unfoldable pub priced_volume_of : AgentActivity → Option ℤ
priced_volume_of activity =
    let priced : Option ℤ = elim activity.spent.usd_priced [
      | none ↦ some (pos 0)
      | some text ↦ decimal_from_text text
    ] in
    if deploys_capital activity
    then (if is_server_priced activity then priced else some (pos 0))
    else some (pos 0)

abbrev pub add_volume : VolumeTally → ℤ → VolumeTally
add_volume tally volume = record { volume = tally.volume +ℤ volume; tx_count = tally.tx_count + 1 }

-- An entry of the map from protocols to tallies.
pub record ProtocolTally : Type 0 where
  pub protocol : String
  pub tally : VolumeTally

abbrev pub by_protocol : ProtocolTally → String
by_protocol t = t.protocol

abbrev pub tally_of : Option ProtocolTally → VolumeTally
tally_of none = empty_tally
tally_of (some t) = t.tally

unfoldable pub protocol_tallies :
    List AgentActivity → List ProtocolTally → Option (List ProtocolTally)
protocol_tallies [] tallies = some tallies
protocol_tallies (activity ∷ activities) tallies = do
  volume ← priced_volume_of activity
  protocol_tallies activities (
      put by_protocol
        (record {
          protocol = activity.protocol;
          tally = add_volume (tally_of (lookup by_protocol activity.protocol tallies)) volume;
        })
        tallies)

-- `heavierVolumeFirst(left, right) || tie`, as "left may stand before right".
unfoldable pub heavier_volume_first : ℤ → ℤ → Bool → Bool
heavier_volume_first left right tie = if left == right then tie else ltb_ℤ right left

abbrev pub protocol_volume : ProtocolTally → ProtocolVolume
protocol_volume t = record {
  protocol = t.protocol;
  volume_usd = decimal_to_text t.tally.volume;
  tx_count = t.tally.tx_count;
}

-- An entry of the map from chain keys to tallies.
pub record ChainVolumeTally : Type 0 where
  pub key : List ℕ
  pub chain_family : ChainFamily
  pub chain_id : ℤ
  pub protocols : List String
  pub tally : VolumeTally

abbrev pub by_chain_key : ChainVolumeTally → List ℕ
by_chain_key t = t.key

unfoldable pub chain_key_of : AgentActivity → List ℕ
chain_key_of activity = codes (family_text activity.chain_family) ++ 58 ∷ int_text activity.chain_id

-- `set.add(protocol)`
abbrev pub with_protocol : String → List String → List String
with_protocol protocol protocols =
    if contains protocols protocol then protocols else protocols ++ protocol ∷ []

unfoldable pub chain_tally_of : Option ChainVolumeTally → AgentActivity → ℤ → ChainVolumeTally
chain_tally_of none activity volume = record {
  key = chain_key_of activity;
  chain_family = activity.chain_family;
  chain_id = activity.chain_id;
  protocols = activity.protocol ∷ [];
  tally = add_volume empty_tally volume;
}
chain_tally_of (some base) activity volume = record base {
  protocols = with_protocol activity.protocol base.protocols;
  tally = add_volume base.tally volume;
}

unfoldable pub chain_tallies :
    List AgentActivity → List ChainVolumeTally → Option (List ChainVolumeTally)
chain_tallies [] tallies = some tallies
chain_tallies (activity ∷ activities) tallies = do
  volume ← priced_volume_of activity
  chain_tallies activities (
      put by_chain_key
        (chain_tally_of (lookup by_chain_key (chain_key_of activity) tallies) activity volume)
        tallies)

module _ (locale_before : String → String → Bool) where
  unfoldable pub protocol_breakdown : List AgentActivity → Option (List ProtocolVolume)
  protocol_breakdown activities = do
    tallies ← protocol_tallies activities []
    some (
        map protocol_volume (
          sort
            (λ left right.
              heavier_volume_first left.tally.volume right.tally.volume
                (locale_before left.protocol right.protocol))
            tallies))

  abbrev chain_identity_order : ChainVolumeTally → ChainVolumeTally → Bool
  chain_identity_order left right = elim left.chain_family [
    | ChainFamily.eip155 ↦ elim right.chain_family [
      | ChainFamily.eip155 ↦
          if left.chain_id == right.chain_id then Bool.true else ltb_ℤ left.chain_id right.chain_id
      | ChainFamily.solana ↦ locale_before "eip155" "solana"
    ]
    | ChainFamily.solana ↦ elim right.chain_family [
      | ChainFamily.eip155 ↦ locale_before "solana" "eip155"
      | ChainFamily.solana ↦
          if left.chain_id == right.chain_id then Bool.true else ltb_ℤ left.chain_id right.chain_id
    ]
  ]

  abbrev chain_volume : ChainVolumeTally → ChainVolume
  chain_volume t = record {
    chain_family = t.chain_family;
    chain_id = t.chain_id;
    protocols = sort locale_before t.protocols;
    volume_usd = decimal_to_text t.tally.volume;
    tx_count = t.tally.tx_count;
  }

  unfoldable pub chain_breakdown : List AgentActivity → Option (List ChainVolume)
  chain_breakdown activities = do
    tallies ← chain_tallies activities []
    some (
        map chain_volume (
          sort
            (λ left right.
              heavier_volume_first left.tally.volume right.tally.volume
                (chain_identity_order left right))
            tallies))
