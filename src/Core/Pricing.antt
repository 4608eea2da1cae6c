-- ===== src/Core/Pricing.antt =====
-- packages/core/src/pricing/pricing-decision.ts. A USD text is a number of the finest unit, and a
-- thrown error is `none`.
pub mod Retries
pub mod CoinKey
use vex_agentscan.Base.{
  ℕ, ◌+◌, ◌-◌, Bool, true, false, not, ◌&&◌, ◌||◌, List, [], ◌∷◌, Option, none, some, is_some, any,
  every, ltb, leb, max, String, if◌then◌else◌,
}
use vex_agentscan.Base.Int.{ℤ}
use vex_agentscan.Core.Backoff.{backoff_delay_ms}

pub record ActivityLeg : Type 0 where
  pub executed_raw : ℕ
  pub token_address : String
  pub decimals : ℤ

pub data LegPricing : Type 0 where
  absent : LegPricing
  priced : (usd : ℕ) → LegPricing
  unpriceable : (not_before : Option ℕ) → LegPricing
  unmappable : LegPricing

pub data PricingOutcome : Type 0 where
  priced : (usd_in usd_out : Option ℕ) → PricingOutcome
  reschedule : (delay_ms : ℕ) → PricingOutcome
  nothing_to_price no_settlement_time unmappable attempts_exhausted : PricingOutcome

pub record PricingRetryBudget : Type 0 where
  pub attempts : ℕ
  pub max_attempts : ℕ
  pub schedule : List (List ℕ)
  pub now : ℕ

unfoldable pub present_leg : Option ℕ → Option String → Option ℤ → Option ActivityLeg
present_leg (some raw) (some address) (some decimals) =
    some (record { executed_raw = raw; token_address = address; decimals = decimals })
present_leg _ _ _ = none

unfoldable pub usd_of : LegPricing → Option ℕ
usd_of (LegPricing.priced usd) = some usd
usd_of _ = none

abbrev pub is_absent : LegPricing → Bool
is_absent LegPricing.absent = true
is_absent _ = false

abbrev pub is_priced : LegPricing → Bool
is_priced (LegPricing.priced usd) = true
is_priced _ = false

abbrev pub is_unpriceable : LegPricing → Bool
is_unpriceable (LegPricing.unpriceable not_before) = true
is_unpriceable _ = false

abbrev pub is_unmappable : LegPricing → Bool
is_unmappable LegPricing.unmappable = true
is_unmappable _ = false

unfoldable pub is_definitive_miss : LegPricing → Bool
is_definitive_miss (LegPricing.unpriceable not_before) = is_some not_before
is_definitive_miss _ = false

unfoldable pub priced_sibling_settles_every_miss : List LegPricing → Bool
priced_sibling_settles_every_miss legs =
    any is_priced legs && every (λ leg. not (is_unpriceable leg) || is_definitive_miss leg) legs

-- The loop of `latestNotBefore`, from the latest so far.
unfoldable pub latest_from : Option ℕ → List LegPricing → Option ℕ
latest_from latest [] = latest
latest_from none (LegPricing.unpriceable (some t) ∷ legs) = latest_from (some t) legs
latest_from (some l) (LegPricing.unpriceable (some t) ∷ legs) =
    latest_from (if ltb l t then some t else some l) legs
latest_from latest (leg ∷ legs) = latest_from latest legs

unfoldable pub latest_not_before : List LegPricing → Option ℕ
latest_not_before legs = latest_from none legs

-- A time that is blocked until the past is a negative wait, below every delay, as 0 is.
unfoldable pub pricing_retry_outcome : PricingRetryBudget → Option ℕ → Option PricingOutcome
pricing_retry_outcome budget not_before =
    if leb budget.max_attempts (budget.attempts + 1)
    then some attempts_exhausted
    else elim (backoff_delay_ms budget.attempts budget.schedule) [
      | none ↦ none
      | some scheduled_ms ↦
          let blocked_ms : ℕ = elim not_before [ none ↦ 0 | some t ↦ t - budget.now ] in
          some (reschedule (max scheduled_ms blocked_ms))
    ]

unfoldable pub decide_pricing_outcome :
    PricingRetryBudget → Option ℕ → LegPricing → LegPricing → Option PricingOutcome
decide_pricing_outcome budget settled_at leg_in leg_out =
    let legs = leg_in ∷ leg_out ∷ [] in
    let retry = pricing_retry_outcome budget (latest_not_before legs) in
    if every is_absent legs
    then some nothing_to_price
    else if not (is_some settled_at)
    then some no_settlement_time
    else if any is_unmappable legs
    then some PricingOutcome.unmappable
    else if any is_unpriceable legs && not (priced_sibling_settles_every_miss legs)
    then retry
    else some (PricingOutcome.priced (usd_of leg_in) (usd_of leg_out))
