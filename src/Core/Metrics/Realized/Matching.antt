-- ===== src/Core/Metrics/Realized/Matching.antt =====
-- `consumeInventory`: what is matched against the lots, and what is left of them.
use vex_agentscan.Base.{
  ℕ, ◌+◌, ◌-◌, ◌<◌, List, [], ◌∷◌, some, arith, ltb, min, ◌≡◌, refl, ◌==◌, nat_eq, nat_beq_iff,
  Bool-cases, inl, inr,
}
use vex_agentscan.Base.Int.{ℤ, pos, ◌+ℤ◌, ◌-ℤ◌, ◌*ℤ◌, quot_ℤ, int_laws}
use vex_agentscan.Core.Metrics.Decimal.{proportion_of_decimal}
use vex_agentscan.Core.Metrics.Realized.{InventoryLot, Consumption, with_match, consume_inventory}

abbrev pub total_quantity : List InventoryLot → ℕ
total_quantity [] = 0
total_quantity (l ∷ lots) = l.quantity + total_quantity lots

abbrev pub total_cost : List InventoryLot → ℤ
total_cost [] = pos 0
total_cost (l ∷ lots) = l.cost +ℤ total_cost lots

pub proportion_returns :
    (value : ℤ) (part whole : ℕ)
    → 0 < whole
    → proportion_of_decimal value part whole ≡ some (quot_ℤ (value *ℤ pos part) whole)
unfolding proportion_of_decimal
proportion_returns value part whole h = ground (arith, nat_beq_iff whole 0)

-- What `consumeInventory` leaves: `lots'` and `c'`, from `lots` and `c`.
pub record IsMatched (lots : List InventoryLot) (quantity : ℕ) (c : Consumption)
    (lots' : List InventoryLot) (c' : Consumption) : Type 0 where
  pub matched : c'.matched_quantity ≡ c.matched_quantity + min quantity (total_quantity lots)
  pub kept : c'.matched_quantity + total_quantity lots' ≡ c.matched_quantity + total_quantity lots
  pub cost : c'.matched_cost +ℤ total_cost lots' ≡ c.matched_cost +ℤ total_cost lots
  pub wanted : c.consumed_lots < c'.consumed_lots → 0 < quantity

abbrev pub Matches : List InventoryLot → ℕ → Consumption → Type 0
Matches lots quantity c =
    (r : List InventoryLot × Consumption) × (consume_inventory lots quantity c ≡ some r)
    × IsMatched lots quantity c r.0 r.1

-- Matching a quantity against the lots always returns. It matches the smaller of the quantity and
-- what the lots hold, and what it matches and what it leaves add up to what there was, both in
-- quantity and in cost.
pub consume-Matches :
    (lots : List InventoryLot) (quantity : ℕ) (c : Consumption) → Matches lots quantity c
unfolding consume_inventory
consume-Matches [] quantity c = (
  ([], c),
  refl,
  record { matched = omega arith; kept = omega arith; cost = refl; wanted = λ h. omega arith },
)
consume-Matches (l ∷ lots) quantity c =
    let taken = min l.quantity quantity in
    elim (Bool-cases (ltb 0 quantity)) [
      | inr over ↦ (
        (l ∷ lots, c),
        ground (arith, over),
        record {
          matched = ground (arith, over);
          kept = refl;
          cost = refl;
          wanted = λ h. omega arith;
        },
      )
      | inl more ↦ elim (Bool-cases (taken == l.quantity)) [
        | inl used ↦
            let (r, returned, is) =
              consume-Matches lots (quantity - taken) (with_match c l.cost taken) in
            (
              r,
              ground (arith, more, used, returned),
              record {
                matched = ground (arith, is.matched, nat_beq_iff taken l.quantity);
                kept = ground (arith, is.kept, nat_beq_iff taken l.quantity);
                cost = rw is.cost (omega int_laws);
                wanted = λ h. ground arith;
              },
            )
        | inr part ↦
            let cost = quot_ℤ (l.cost *ℤ pos taken) l.quantity in
            let left : InventoryLot = record {
              quantity = l.quantity - taken;
              cost = l.cost -ℤ cost;
            } in
            (
              (left ∷ lots, with_match c cost taken),
              ground (
                arith,
                more,
                part,
                proportion_returns l.cost taken l.quantity,
                nat_beq_iff taken l.quantity,
              ),
              record {
                matched = ground (arith, nat_beq_iff taken l.quantity);
                kept = ground (arith, nat_beq_iff taken l.quantity);
                cost = omega int_laws;
                wanted = λ h. ground arith;
              },
            )
      ]
    ]
