-- ===== src/Examples/Pricing.antt =====
-- The price of the reported swap, published twice.
use vex_agentscan.Base.{◌+◌, some, none, ◌≡◌}
use vex_agentscan.Server.Ingest.{inserted_row}
use vex_agentscan.Core.Pricing.{PricingOutcome}
use vex_agentscan.Server.Finalize.Once.{total_count, total_volume}
use vex_agentscan.Server.Pricing.{priced_volume_of, publish_priced_activity, apply_pricing_outcome}
use vex_agentscan.Server.Pricing.Publication.{total_priced, publish-totals, publish_once}
use vex_agentscan.Examples.{reported, swap_row-stored, swap_row}

publish-totals_example :
    (total_priced (publish_priced_activity 3000 swap_row (some 6) none reported).aggregates
      ≡ total_priced reported.aggregates + priced_volume_of swap_row (some 6) none)
    × (total_count (publish_priced_activity 3000 swap_row (some 6) none reported).aggregates
        ≡ total_count reported.aggregates)
    × (total_volume (publish_priced_activity 3000 swap_row (some 6) none reported).aggregates
        ≡ total_volume reported.aggregates)
unfolding inserted_row
publish-totals_example =
    publish-totals 3000 swap_row swap_row (some 6) none reported swap_row-stored

publish_once_example :
    apply_pricing_outcome 4000 swap_row
      (PricingOutcome.priced (some 9) none)
      (publish_priced_activity 3000 swap_row (some 6) none reported)
    ≡ publish_priced_activity 3000 swap_row (some 6) none reported
publish_once_example =
    publish_once 3000 4000 swap_row swap_row (some 6) none (PricingOutcome.priced (some 9) none)
      reported swap_row-stored
