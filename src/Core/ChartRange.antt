-- ===== src/Core/ChartRange.antt =====
-- packages/core/src/chart-range.ts.
use vex_agentscan.Base.{ℕ, ◌*◌, String, Option, none, some, string_eq, ◌==◌, if◌then◌else◌}

pub data ChartRange : Type 0 where
  day week month all : ChartRange

pub data ChartRangePlan : Type 0 where
  activities : (bucket_seconds bucket_count : ℕ) → ChartRangePlan
  aggregates : (days : Option ℕ) → ChartRangePlan

unfoldable pub plans : ChartRange → ChartRangePlan
plans day = activities 3600 24
plans week = activities 21600 28
plans month = aggregates (some 30)
plans all = aggregates none

-- `isChartRange`, and the range that the text names; any other text means the default.
unfoldable pub range_of : Option String → ChartRange
range_of none = month
range_of (some raw) =
    if raw == "24h"
    then day
    else if raw == "7d"
    then week
    else if raw == "30d"
    then month
    else if raw == "all"
    then all
    else month

abbrev pub seconds_per_day : ℕ
seconds_per_day = 86400

unfoldable pub resolve_chart_range : Option String → ChartRangePlan
resolve_chart_range raw = plans (range_of raw)

unfoldable pub range_window_seconds : ChartRangePlan → Option ℕ
range_window_seconds (activities bucket_seconds bucket_count) = some (bucket_seconds * bucket_count)
range_window_seconds (aggregates none) = none
range_window_seconds (aggregates (some days)) = some (days * seconds_per_day)
