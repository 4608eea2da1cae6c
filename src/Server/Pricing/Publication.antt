-- ===== src/Server/Pricing/Publication.antt =====
-- A priced activity is published once.
use vex_agentscan.Base.{
  ℕ, ◌+◌, String, false, List, [], ◌∷◌, Option, some, arith, map, sum, lookup, lookup-put,
  key-lookup, beq_refl, ◌≡◌, refl, nat_eq, if◌then◌else◌, Bool-cases, inl, inr,
}
use vex_agentscan.Contract.Enums.{EventKind}
use vex_agentscan.Core.Pricing.{PricingOutcome}
use vex_agentscan.Server.Db.{Activity, Aggregate, Db, by_id}
use vex_agentscan.Server.Finalize.{aggregate_day, add_to_aggregate}
use vex_agentscan.Server.Finalize.Once.{
  total_count, total_volume, add-total_count, add-total_volume,
}
use vex_agentscan.Server.Pricing.{
  is_pricing_pending, update_pending, priced_as, mark_server_priced, add_priced_volume,
  reschedule_pricing, abandon_pricing, exhaust_pricing, priced_volume_of, publish_priced_activity,
  apply_pricing_outcome,
}

abbrev pub total_priced : List Aggregate → ℕ
total_priced gs = sum (map (λ g. g.volume_usd_priced) gs)

add-total_priced :
    (day : ℕ) (protocol : String) (kind : EventKind) (volume count priced : ℕ) (gs : List Aggregate)
    → total_priced (add_to_aggregate day protocol kind volume count priced gs)
      ≡ total_priced gs + priced
unfolding add_to_aggregate
add-total_priced day protocol kind volume count priced [] = omega arith
add-total_priced day protocol kind volume count priced (g ∷ gs) =
    ground (arith, add-total_priced day protocol kind volume count priced gs)

-- Publishing the price of a stored activity adds its priced volume to the aggregates' total exactly
-- when its pricing is still pending, and never changes their count or their estimated volume.
pub publish-totals :
    (now : ℕ) (a stored : Activity) (usd_in usd_out : Option ℕ) (db : Db)
    → lookup by_id a.id db.activities ≡ some stored
    → (total_priced (publish_priced_activity now a usd_in usd_out db).aggregates
        ≡ total_priced db.aggregates
          + (if is_pricing_pending stored.pricing.state
              then priced_volume_of a usd_in usd_out
              else 0))
      × (total_count (publish_priced_activity now a usd_in usd_out db).aggregates
          ≡ total_count db.aggregates)
      × (total_volume (publish_priced_activity now a usd_in usd_out db).aggregates
          ≡ total_volume db.aggregates)
unfolding publish_priced_activity mark_server_priced update_pending add_priced_volume
publish-totals now a stored usd_in usd_out db found =
    let day = aggregate_day a in
    let volume = priced_volume_of a usd_in usd_out in
    ground (
      arith,
      found,
      add-total_priced day a.protocol a.kind 0 0 volume db.aggregates,
      add-total_count day a.protocol a.kind 0 0 volume db.aggregates,
      add-total_volume day a.protocol a.kind 0 0 volume db.aggregates,
    )

-- The activity's pricing is over: nothing of it is pending.
abbrev IsPriced : ℕ → Db → Type 0
IsPriced id db =
    (a : Activity) × (lookup by_id id db.activities ≡ some a)
    × (is_pricing_pending a.pricing.state ≡ false)

published-IsPriced :
    (now : ℕ) (a stored : Activity) (usd_in usd_out : Option ℕ) (db : Db)
    → lookup by_id a.id db.activities ≡ some stored
    → IsPriced a.id (publish_priced_activity now a usd_in usd_out db)
unfolding publish_priced_activity mark_server_priced update_pending add_priced_volume
published-IsPriced now a stored usd_in usd_out db found =
    elim (Bool-cases (is_pricing_pending stored.pricing.state)) [
      | inl pending_ ↦
          let b : Activity = record stored {
            pricing = priced_as now usd_in usd_out stored.pricing;
          } in
          (
            b,
            ground (
              arith,
              found,
              lookup-put by_id a.id b db.activities,
              key-lookup by_id a.id stored db.activities found,
              beq_refl a.id,
            ),
            refl,
          )
      | inr over ↦ (stored, ground (arith, found), over)
    ]

priced-fixed :
    (now : ℕ) (a : Activity) (outcome : PricingOutcome) (db : Db)
    → IsPriced a.id db
    → apply_pricing_outcome now a outcome db ≡ db
unfolding apply_pricing_outcome publish_priced_activity mark_server_priced update_pending
    reschedule_pricing abandon_pricing exhaust_pricing
priced-fixed now a outcome db (stored, found, over) = ground (arith, found)

-- After the price of a stored activity was published, applying any further pricing outcome to it,
-- at any time, changes nothing in the database.
pub publish_once :
    (now later : ℕ) (a stored : Activity) (usd_in usd_out : Option ℕ) (outcome : PricingOutcome)
    (db : Db)
    → lookup by_id a.id db.activities ≡ some stored
    → apply_pricing_outcome later a outcome (publish_priced_activity now a usd_in usd_out db)
      ≡ publish_priced_activity now a usd_in usd_out db
publish_once now later a stored usd_in usd_out outcome db found =
    priced-fixed later a outcome _ (published-IsPriced now a stored usd_in usd_out db found)
