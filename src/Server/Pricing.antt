-- ===== src/Server/Pricing.antt =====
-- apps/server/src/repos/activity-pricing-repo.ts, what worker/pricing-loop.ts applies with it, and
-- cli/pricing-requeue.ts. The claimed row is the activity as it was when it was claimed.
pub mod Publication
use vex_agentscan.Base.{
  ℕ, suc, ◌+◌, Bool, true, false, ◌&&◌, List, Option, none, some, or_else, coalesce, map, lookup,
  put, ◌==◌, nat_eq, if◌then◌else◌,
}
use vex_agentscan.Base.Int.{ℤ, int_eq}
use vex_agentscan.Contract.Roles.{deploys_capital_role}
use vex_agentscan.Core.Pricing.{PricingOutcome}
use vex_agentscan.Server.Db.{PricingState, Pricing, Activity, Db, by_id}
use vex_agentscan.Server.Finalize.{aggregate_day, add_to_aggregate}

abbrev pub is_pricing_pending : PricingState → Bool
is_pricing_pending PricingState.pending = true
is_pricing_pending _ = false

abbrev pub is_unpriced : PricingState → Bool
is_unpriced PricingState.unpriced = true
is_unpriced _ = false

-- `UPDATE activities SET … WHERE id = $1 AND pricing_state = 'pending'`, and whether a row was hit.
unfoldable pub update_pending : (Pricing → Pricing) → ℕ → Db → Db × Bool
update_pending f id db = elim (lookup by_id id db.activities) [
  | none ↦ (db, false)
  | some a ↦
      if is_pricing_pending a.pricing.state
      then (
        record db { activities = put by_id (record a { pricing = f a.pricing }) db.activities },
        true,
      )
      else (db, false)
]

abbrev pub priced_as : ℕ → Option ℕ → Option ℕ → Pricing → Pricing
priced_as now usd_in usd_out p = record p {
  state = PricingState.server_priced;
  usd_in_priced = usd_in;
  usd_out_priced = usd_out;
  priced_at = some now;
  next_attempt_at = none;
}

unfoldable pub mark_server_priced : ℕ → ℕ → Option ℕ → Option ℕ → Db → Db × Bool
mark_server_priced now id usd_in usd_out db = update_pending (priced_as now usd_in usd_out) id db

-- INSERT … ON CONFLICT DO UPDATE with no volume and no count: only the priced volume adds up.
unfoldable pub add_priced_volume : Activity → ℕ → Db → Db
add_priced_volume a volume db = record db {
  aggregates = add_to_aggregate (aggregate_day a) a.protocol a.kind 0 0 volume db.aggregates;
}

unfoldable pub reschedule_pricing : ℕ → ℕ → ℕ → Db → Db
reschedule_pricing now id delay_ms db =
    (update_pending
      (λ p. record p { attempts = suc p.attempts; next_attempt_at = some (now + delay_ms) }) id
      db).0

unfoldable pub abandon_pricing : ℕ → Db → Db
abandon_pricing id db =
    (update_pending (λ p. record p { state = PricingState.unpriced; next_attempt_at = none }) id
      db).0

unfoldable pub exhaust_pricing : ℕ → Db → Db
exhaust_pricing id db =
    (update_pending
      (λ p. record p {
        state = PricingState.unpriced;
        attempts = suc p.attempts;
        next_attempt_at = none;
      })
      id db).0

unfoldable pub priced_volume_of : Activity → Option ℕ → Option ℕ → ℕ
priced_volume_of a usd_in usd_out =
    if deploys_capital_role a.event_role then or_else (coalesce usd_in usd_out) 0 else 0

unfoldable pub publish_priced_activity : ℕ → Activity → Option ℕ → Option ℕ → Db → Db
publish_priced_activity now a usd_in usd_out db =
    let (marked, claimed_by_this_pass) = mark_server_priced now a.id usd_in usd_out db in
    let volume = priced_volume_of a usd_in usd_out in
    if claimed_by_this_pass then add_priced_volume a volume marked else marked

unfoldable pub apply_pricing_outcome : ℕ → Activity → PricingOutcome → Db → Db
apply_pricing_outcome now a (PricingOutcome.priced usd_in usd_out) db =
    publish_priced_activity now a usd_in usd_out db
apply_pricing_outcome now a (PricingOutcome.reschedule delay_ms) db =
    reschedule_pricing now a.id delay_ms db
apply_pricing_outcome now a PricingOutcome.attempts_exhausted db = exhaust_pricing a.id db
apply_pricing_outcome now a _ db = abandon_pricing a.id db

abbrev pub in_scope : Option ℤ → Activity → Bool
in_scope none a = true
in_scope (some chain_id) a = a.chain_id == chain_id

unfoldable pub requeued_row : ℕ → Option ℤ → Activity → Activity
requeued_row now chain_id a =
    if is_unpriced a.pricing.state && in_scope chain_id a
    then record a {
      pricing = record a.pricing {
        state = PricingState.pending;
        attempts = 0;
        next_attempt_at = some now;
      };
    }
    else a

unfoldable pub requeue_unpriced_activities : ℕ → Option ℤ → Db → Db
requeue_unpriced_activities now chain_id db = record db {
  activities = map (requeued_row now chain_id) db.activities;
}
