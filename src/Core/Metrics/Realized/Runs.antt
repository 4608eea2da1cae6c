-- ===== src/Core/Metrics/Realized/Runs.antt =====
-- `realizedResult` over a list of activities: it returns, its counts are bounded, and its lots hold
-- what the trades bought and did not sell.
use vex_agentscan.Base.{
  ℕ, suc, ◌+◌, ◌-◌, ◌≤◌, ◌<◌, true, List, [], ◌∷◌, ◌++◌, Option, none, some, is_some, arith, ltb,
  length, lookup-put, All, ◌≡◌, refl, ◌==◌, if◌then◌else◌, Bool-cases, Option-cases, inl, inr,
}
use vex_agentscan.Base.Int.{pos, ◌-ℤ◌, ◌*ℤ◌, quot_ℤ}
use vex_agentscan.Base.Text.{codes_eq, codes_beq_iff}
use vex_agentscan.Core.Metrics.{AgentActivity}
use vex_agentscan.Core.Metrics.Realized.{
  PricedLeg, SwapTrade, InventoryLot, Consumption, swap_trade_of, nothing_matched, Inventory,
  by_inventory_key, lots_for, with_lots, Ledger, with_disposal, with_result, settle_disposal,
  acquire, apply_trade, run_trades,
}
use vex_agentscan.Core.Metrics.Realized.Matching.{
  total_quantity, IsMatched, consume-Matches, proportion_returns,
}

-- How much of a token the lots hold.
abbrev pub stock : List ℕ → Ledger → ℕ
stock key ledger = total_quantity (lots_for key ledger.inventory)

lots_for-with_lots :
    (k key : List ℕ) (lots : List InventoryLot) (inventory : List Inventory)
    → lots_for k (with_lots key lots inventory) ≡ (if key == k then lots else lots_for k inventory)
unfolding lots_for
lots_for-with_lots k key lots inventory =
    ground (arith, lookup-put by_inventory_key k (record { key = key; lots = lots }) inventory)

total_quantity-snoc :
    (lots : List InventoryLot) (l : InventoryLot)
    → total_quantity (lots ++ l ∷ []) ≡ total_quantity lots + l.quantity
total_quantity-snoc [] l = omega arith
total_quantity-snoc (m ∷ lots) l = omega (arith, total_quantity-snoc lots l)

-- A step of the counts: each grows by one at most, and every winning trip is a closed one.
abbrev Counts : Ledger → Ledger → Type 0
Counts a b =
    (b.closed_round_trips ≤ suc a.closed_round_trips)
    × (b.unmatched_disposals ≤ suc a.unmatched_disposals)
    × (a.winning_round_trips ≤ a.closed_round_trips → b.winning_round_trips ≤ b.closed_round_trips)

settle_returns :
    (disposal : PricedLeg) (c : Consumption) (ledger : Ledger)
    → (0 < c.consumed_lots → 0 < disposal.quantity)
    → (l : Ledger) × (settle_disposal disposal c ledger ≡ some l)
      × (l.inventory ≡ ledger.inventory)
      × Counts ledger l
unfolding settle_disposal
settle_returns disposal c ledger wanted = elim (Bool-cases (ltb 0 c.consumed_lots)) [
  | inr left ↦ (with_disposal disposal c ledger, ground (arith, left), refl, ground arith)
  | inl used ↦ (
    with_result
        (quot_ℤ (disposal.usd *ℤ pos c.matched_quantity) disposal.quantity -ℤ c.matched_cost)
        (with_disposal disposal c ledger),
    ground (
      arith,
      used,
      proportion_returns disposal.usd c.matched_quantity disposal.quantity (wanted (ground arith)),
    ),
    refl,
    ground arith,
  )
]

acquire-stock :
    (k : List ℕ) (acquisition : PricedLeg) (ledger : Ledger)
    → stock k (acquire acquisition ledger)
      ≡ stock k ledger + (if acquisition.inventory_key == k then acquisition.quantity else 0)
unfolding acquire
acquire-stock k acquisition ledger =
    let key = acquisition.inventory_key in
    let lot : InventoryLot = record { quantity = acquisition.quantity; cost = acquisition.usd } in
    ground (
      arith,
      lots_for-with_lots k key (lots_for key ledger.inventory ++ lot ∷ []) ledger.inventory,
      total_quantity-snoc (lots_for key ledger.inventory) lot,
      codes_beq_iff key k,
    )

acquire-Counts :
    (acquisition : PricedLeg) (a ledger : Ledger)
    → Counts a ledger
    → Counts a (acquire acquisition ledger)
unfolding acquire
acquire-Counts acquisition a ledger h = ground arith

-- The stock of a token after a trade: what the disposal takes goes, as far as it is there, and what
-- is acquired comes.
abbrev pub traded : SwapTrade → List ℕ → ℕ → ℕ
traded trade k held =
    held
    - (if trade.disposal.inventory_key == k then trade.disposal.quantity else 0)
    + (if trade.acquisition.inventory_key == k then trade.acquisition.quantity else 0)

record IsTraded (trade : SwapTrade) (a b : Ledger) : Type 0 where
  counts : Counts a b
  stocks : (k : List ℕ) → stock k b ≡ traded trade k (stock k a)

disposed-stock :
    (k key : List ℕ) (quantity : ℕ) (ledger : Ledger) (lots : List InventoryLot) (c : Consumption)
    → IsMatched (lots_for key ledger.inventory) quantity nothing_matched lots c
    → total_quantity (lots_for k (with_lots key lots ledger.inventory))
      ≡ stock k ledger - (if key == k then quantity else 0)
disposed-stock k key quantity ledger lots c is = ground (
  arith,
  lots_for-with_lots k key lots ledger.inventory,
  is.matched,
  is.kept,
  codes_beq_iff key k,
)

apply_returns :
    (trade : SwapTrade) (ledger : Ledger)
    → (l : Ledger) × (apply_trade trade ledger ≡ some l) × IsTraded trade ledger l
unfolding apply_trade
apply_returns trade ledger =
    let key = trade.disposal.inventory_key in
    let (r, matched, is) =
      consume-Matches (lots_for key ledger.inventory) trade.disposal.quantity nothing_matched in
    let taken : Ledger = record ledger { inventory = with_lots key r.0 ledger.inventory } in
    let (settled, done, same, counts) =
      settle_returns trade.disposal r.1 taken (λ h. is.wanted h) in
    (
      acquire trade.acquisition settled,
      ground (arith, matched, done),
      record {
        counts = acquire-Counts trade.acquisition ledger settled counts;
        stocks = λ k. ground (
          arith,
          same,
          acquire-stock k trade.acquisition settled,
          disposed-stock k key trade.disposal.quantity ledger r.0 r.1 is,
        );
      },
    )

-- The trade of an activity whose texts are well formed, if it makes one.
abbrev pub trade_in : AgentActivity → Option SwapTrade
trade_in activity = elim (swap_trade_of activity) [ none ↦ none | some trade ↦ trade ]

-- The specification: the stock of one token, with no lots.
abbrev pub position_after : List ℕ → List AgentActivity → ℕ → ℕ
position_after k [] held = held
position_after k (activity ∷ activities) held =
    position_after k activities
      (elim (trade_in activity) [ none ↦ held | some t ↦ traded t k held ])

pub record IsRun (activities : List AgentActivity) (a b : Ledger) : Type 0 where
  pub closed : b.closed_round_trips ≤ a.closed_round_trips + length activities
  pub unmatched : b.unmatched_disposals ≤ a.unmatched_disposals + length activities
  pub winning :
      a.winning_round_trips ≤ a.closed_round_trips → b.winning_round_trips ≤ b.closed_round_trips
  pub positions : (k : List ℕ) → stock k b ≡ position_after k activities (stock k a)

abbrev pub IsParsed : AgentActivity → Type 0
IsParsed activity = is_some (swap_trade_of activity) ≡ true

step_returns :
    (activity : AgentActivity) (ledger : Ledger) (trade : Option SwapTrade)
    → swap_trade_of activity ≡ some trade
    → (l : Ledger) × ((elim trade as (λ _. Option Ledger) [
      | none ↦ some ledger
      | some t ↦ apply_trade t ledger
    ])
        ≡ some l)
      × Counts ledger l
      × ((k : List ℕ)
          → stock k l ≡ (elim trade as (λ _. ℕ) [
            | none ↦ stock k ledger
            | some t ↦ traded t k (stock k ledger)
          ]))
step_returns activity ledger none h = (ledger, refl, ground arith, λ k. refl)
step_returns activity ledger (some t) h =
    let (l, applied, is) = apply_returns t ledger in (l, applied, is.counts, is.stocks)

-- From any ledger, the run over activities whose texts are well formed returns. It closes at most
-- one round trip and counts at most one unmatched disposal for each activity, the winning trips
-- stay among the closed ones, and the lots of each token hold what the position without lots is:
-- what was held and bought, less what was sold as far as it was there.
pub run_trades-IsRun :
    (activities : List AgentActivity) (ledger : Ledger)
    → All IsParsed activities
    → (l : Ledger) × (run_trades activities ledger ≡ some l) × IsRun activities ledger l
unfolding run_trades
run_trades-IsRun [] ledger h = (
  ledger,
  refl,
  record { closed = omega arith; unmatched = omega arith; winning = λ w. w; positions = λ k. refl },
)
run_trades-IsRun (activity ∷ activities) ledger h = elim (Option-cases (swap_trade_of activity)) [
  | inl malformed ↦ absurd (ground arith)
  | inr (trade, parsed) ↦
      let (next, stepped, counts, stocks) = step_returns activity ledger trade parsed in
      let (l, done, is) = run_trades-IsRun activities next h.1 in
      (
        l,
        rw parsed (rw stepped done),
        record {
          closed = omega (arith, counts.0, is.closed);
          unmatched = omega (arith, counts.1, is.unmatched);
          winning = λ w. is.winning (counts.2 w);
          positions = λ k. rw parsed (rw (is.positions k, stocks k) refl);
        },
      )
]
