-- ===== src/Core/Metrics/Published.antt =====
-- packages/core/src/agent-metrics: published-usd.ts and capital-deployed.ts with utc-day-window.ts.
-- The text of a UTC day comes from `Date` and is a parameter.
use vex_agentscan.Base.{
  ℕ, zero, suc, ◌+◌, ◌-◌, ◌*◌, ◌/◌, ◌%◌, ◌≤◌, ◌<◌, String, true, false, ◌&&◌, List, [], ◌∷◌, Option,
  none, some, leb, arith, map, lookup, put, string_eq, if◌then◌else◌, ◌>>=◌, All, ◌≡◌, refl,
}
use vex_agentscan.Base.Int.{ℤ, pos, negsuc, ◌+ℤ◌, ◌-ℤ◌, neg_ℤ, abs_ℤ, is_negative, ltb_ℤ}
use vex_agentscan.Core.Metrics.{AgentActivity, is_server_priced, deploys_capital}
use vex_agentscan.Core.Metrics.Decimal.{decimal_from_text, decimal_to_text}
use vex_agentscan.Core.Metrics.Decimal.RoundTrip.{decimal_from_text-decimal_to_text}

abbrev cent_unit : ℕ
cent_unit = 10000000000000000

abbrev rounded_magnitude : ℕ → ℕ
rounded_magnitude magnitude =
    let remainder = magnitude % cent_unit in
    magnitude - remainder + (if leb cent_unit (remainder * 2) then cent_unit else 0)

unfoldable pub rounded_to_cents : ℤ → ℤ
rounded_to_cents value =
    let rounded = rounded_magnitude (abs_ℤ value) in
    if is_negative value then neg_ℤ (pos rounded) else pos rounded

unfoldable pub published_usd : List ℕ → Option (List ℕ)
published_usd text = elim (decimal_from_text text) [
  | none ↦ none
  | some value ↦ some (decimal_to_text (rounded_to_cents value))
]

-- What is published of an amount: a text that reads as a whole number of cents, off by half a cent
-- at most, where half a cent goes away from zero, with the amount's sign unless it is zero.
pub record IsPublished (value : ℤ) (text : List ℕ) : Type 0 where
  pub cents : ℤ
  pub read : decimal_from_text text ≡ some cents
  pub whole : abs_ℤ cents % cent_unit ≡ 0
  pub near : abs_ℤ (cents -ℤ value) * 2 ≤ cent_unit
  pub half_up : abs_ℤ value * 2 < abs_ℤ cents * 2 + cent_unit
  pub negative : is_negative cents ≡ true → is_negative value ≡ true
  pub positive : is_negative value ≡ true → is_negative cents ≡ false → cents ≡ pos 0

rounded-Near :
    (value : ℤ)
    → (abs_ℤ (rounded_to_cents value -ℤ value) * 2 ≤ cent_unit)
      × (abs_ℤ (rounded_to_cents value) % cent_unit ≡ 0)
      × (abs_ℤ value * 2 < abs_ℤ (rounded_to_cents value) * 2 + cent_unit)
unfolding rounded_to_cents ◌-ℤ◌
rounded-Near (pos n) = ground arith
rounded-Near (negsuc n) = ground arith

rounded-Signed :
    (value : ℤ)
    → (is_negative (rounded_to_cents value) ≡ true → is_negative value ≡ true)
      × (is_negative value ≡ true
          → is_negative (rounded_to_cents value) ≡ false
          → rounded_to_cents value ≡ pos 0)
unfolding rounded_to_cents
rounded-Signed (pos n) = (λ h. absurd (ground arith), λ h k. absurd (ground arith))
rounded-Signed (negsuc n) = (λ h. refl, λ h k. ground arith)

-- Every amount text that can be read is published as its amount rounded half up, away from zero, to
-- a whole number of cents.
pub published_usd-IsPublished :
    (text : List ℕ) (value : ℤ)
    → decimal_from_text text ≡ some value
    → (published : List ℕ) × (published_usd text ≡ some published) × IsPublished value published
unfolding published_usd
published_usd-IsPublished text value given =
    let (near, whole, half_up) = rounded-Near value in
    let (negative, positive) = rounded-Signed value in
    (
      decimal_to_text (rounded_to_cents value),
      rw (given, published_usd) refl,
      record {
        cents = rounded_to_cents value;
        read = decimal_from_text-decimal_to_text (rounded_to_cents value);
        whole = whole;
        near = near;
        half_up = half_up;
        negative = negative;
        positive = positive;
      },
    )

abbrev day_seconds : ℕ
day_seconds = 86400

abbrev trailing_window_days_count : ℕ
trailing_window_days_count = 30

unfoldable pub trailing_window_start_seconds : (now_seconds : ℕ) → ℤ
trailing_window_start_seconds now_seconds =
    pos (now_seconds / day_seconds * day_seconds)
    -ℤ pos (day_seconds * (trailing_window_days_count - 1))

-- An entry of the map from days to totals.
pub record DayTotal : Type 0 where
  pub day : String
  pub total : ℤ

abbrev pub by_day : DayTotal → String
by_day t = t.day

pub record DailyDeployed : Type 0 where
  pub day : String
  pub usd : List ℕ

pub record CapitalDeployed : Type 0 where
  pub peak_usd : List ℕ
  pub daily : List DailyDeployed

-- `some none` is an activity that deploys nothing, `none` a malformed text, which throws.
unfoldable pub deployed_usd_of : AgentActivity → Option (Option ℤ)
deployed_usd_of activity =
    let deployed : Option (Option ℤ) = elim activity.spent.usd_priced [
      | none ↦ some none
      | some text ↦ decimal_from_text text >>= λ usd. some (some usd)
    ] in
    if is_server_priced activity && deploys_capital activity then deployed else some none

unfoldable pub total_of : String → List DayTotal → ℤ
total_of day totals = elim (lookup by_day day totals) [ none ↦ pos 0 | some t ↦ t.total ]

unfoldable pub peak_from : ℤ → List DayTotal → ℤ
peak_from highest [] = highest
peak_from highest (point ∷ points) =
    peak_from (if ltb_ℤ highest point.total then point.total else highest) points

abbrev daily_point : DayTotal → DailyDeployed
daily_point point = record { day = point.day; usd = decimal_to_text point.total }

module _ (utc_day_of : ℤ → String) where
  abbrev days_from : ℤ → (count offset : ℕ) → List String
  days_from start zero offset = []
  days_from start (suc count) offset =
      utc_day_of (start +ℤ pos (offset * day_seconds)) ∷ days_from start count (suc offset)

  unfoldable pub trailing_window_days : (now_seconds : ℕ) → List String
  trailing_window_days now_seconds =
      days_from (trailing_window_start_seconds now_seconds) trailing_window_days_count 0

  unfoldable pub deployed_by_day : List AgentActivity → List DayTotal → Option (List DayTotal)
  deployed_by_day [] totals = some totals
  deployed_by_day (activity ∷ activities) totals = elim (deployed_usd_of activity) [
    | none ↦ none
    | some none ↦ deployed_by_day activities totals
    | some (some usd) ↦
        let day = utc_day_of (pos activity.observed_at_seconds) in
        deployed_by_day activities
          (put by_day (record { day = day; total = total_of day totals +ℤ usd }) totals)
  ]

  abbrev window_totals : (now_seconds : ℕ) → List DayTotal → List DayTotal
  window_totals now_seconds totals =
      map (λ day. record { day = day; total = total_of day totals })
        (trailing_window_days now_seconds)

  abbrev deployed_over : List DayTotal → CapitalDeployed
  deployed_over points = record {
    peak_usd = decimal_to_text (peak_from (pos 0) points);
    daily = map daily_point points;
  }

  unfoldable pub capital_deployed : List AgentActivity → (now_seconds : ℕ) → Option CapitalDeployed
  capital_deployed activities now_seconds = do
    totals ← deployed_by_day activities []
    some (deployed_over (window_totals now_seconds totals))

-- The peak is at least the total of every day, and at least where it started.
peak_from-Bounds :
    (highest : ℤ) (points : List DayTotal)
    → (ltb_ℤ (peak_from highest points) highest ≡ false)
      × All (λ p. ltb_ℤ (peak_from highest points) p.total ≡ false) points
unfolding peak_from
peak_from-Bounds highest [] = (ground arith, tt)
peak_from-Bounds highest (point ∷ points) =
    let next = if ltb_ℤ highest point.total then point.total else highest in
    let (here, rest) = peak_from-Bounds next points in
    (ground (arith, here), (ground (arith, here), rest))

pub peak-NotExceeded :
    (points : List DayTotal) → All (λ p. ltb_ℤ (peak_from (pos 0) points) p.total ≡ false) points
peak-NotExceeded points = (peak_from-Bounds (pos 0) points).1
