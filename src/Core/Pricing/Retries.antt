-- ===== src/Core/Pricing/Retries.antt =====
-- When an activity is priced, when it is tried again, and how long that may go on.
use vex_agentscan.Base.{
  ℕ, ◌+◌, ◌≤◌, ◌<◌, Bool, true, ◌&&◌, ◌||◌, not, [], ◌∷◌, Option, none, some, is_some, arith, ◌≡◌,
}
use vex_agentscan.Core.Pricing.{
  LegPricing, PricingOutcome, PricingRetryBudget, is_priced, is_unpriceable, is_unmappable,
  is_definitive_miss, usd_of, latest_from, latest_not_before, pricing_retry_outcome,
  priced_sibling_settles_every_miss, decide_pricing_outcome,
}

-- The leg is not unmappable, and if it has no price then the feed has answered that it has none.
abbrev pub is_settled : LegPricing → Bool
is_settled leg = not (is_unmappable leg) && (not (is_unpriceable leg) || is_definitive_miss leg)

-- An activity is priced only when it has a settlement time, at least one of its legs has a price,
-- every leg without one is absent or known to have none, and the prices are those of the legs.
pub priced-is_settled :
    (budget : PricingRetryBudget) (settled_at : Option ℕ) (leg_in leg_out : LegPricing)
    (usd_in usd_out : Option ℕ)
    → decide_pricing_outcome budget settled_at leg_in leg_out
      ≡ some (PricingOutcome.priced usd_in usd_out)
    → (is_some settled_at ≡ true)
      × ((is_priced leg_in || is_priced leg_out) ≡ true)
      × ((is_settled leg_in && is_settled leg_out) ≡ true)
      × (usd_in ≡ usd_of leg_in)
      × (usd_out ≡ usd_of leg_out)
unfolding decide_pricing_outcome pricing_retry_outcome priced_sibling_settles_every_miss
    is_definitive_miss
priced-is_settled budget settled_at leg_in leg_out usd_in usd_out h = ground arith

-- The time before which a leg may not be asked for again.
abbrev pub blocked_until : LegPricing → ℕ
blocked_until (LegPricing.unpriceable (some t)) = t
blocked_until _ = 0

abbrev time_of : Option ℕ → ℕ
time_of none = 0
time_of (some t) = t

latest-bound :
    (leg_in leg_out : LegPricing)
    → (blocked_until leg_in ≤ time_of (latest_not_before (leg_in ∷ leg_out ∷ [])))
      × (blocked_until leg_out ≤ time_of (latest_not_before (leg_in ∷ leg_out ∷ [])))
unfolding latest_not_before latest_from
latest-bound leg_in leg_out = ground arith

retry-bound :
    (budget : PricingRetryBudget) (not_before : Option ℕ) (delay_ms : ℕ)
    → pricing_retry_outcome budget not_before ≡ some (PricingOutcome.reschedule delay_ms)
    → (budget.attempts + 1 < budget.max_attempts) × (time_of not_before ≤ budget.now + delay_ms)
unfolding pricing_retry_outcome
retry-bound budget not_before delay_ms h = ground arith

decided-retry :
    (budget : PricingRetryBudget) (settled_at : Option ℕ) (leg_in leg_out : LegPricing)
    (delay_ms : ℕ)
    → decide_pricing_outcome budget settled_at leg_in leg_out
      ≡ some (PricingOutcome.reschedule delay_ms)
    → pricing_retry_outcome budget (latest_not_before (leg_in ∷ leg_out ∷ []))
      ≡ some (PricingOutcome.reschedule delay_ms)
unfolding decide_pricing_outcome
decided-retry budget settled_at leg_in leg_out delay_ms h = ground arith

-- An activity's pricing is tried again only while its budget of attempts lasts, and not before any
-- of its legs may be asked for again.
pub reschedule-bound :
    (budget : PricingRetryBudget) (settled_at : Option ℕ) (leg_in leg_out : LegPricing)
    (delay_ms : ℕ)
    → decide_pricing_outcome budget settled_at leg_in leg_out
      ≡ some (PricingOutcome.reschedule delay_ms)
    → (budget.attempts + 1 < budget.max_attempts)
      × (blocked_until leg_in ≤ budget.now + delay_ms)
      × (blocked_until leg_out ≤ budget.now + delay_ms)
reschedule-bound budget settled_at leg_in leg_out delay_ms h = ground (
  arith,
  latest-bound leg_in leg_out,
  retry-bound budget (latest_not_before (leg_in ∷ leg_out ∷ [])) delay_ms
      (decided-retry budget settled_at leg_in leg_out delay_ms h),
)
