-- ===== src/Core/Metrics/Decimal.antt =====
-- packages/core/src/agent-metrics/decimal.ts: a decimal is its number of units of 10 ^ -18. A text
-- is the list of its code units; `none` is a thrown error.
pub mod RoundTrip
use vex_agentscan.Base.{
  ℕ, ◌+◌, ◌-◌, ◌*◌, ◌/◌, ◌%◌, ◌^◌, ◌<◌, Bool, true, false, ◌&&◌, List, [], ◌∷◌, ◌++◌, Option, none,
  some, ltb, leb, length, every, take, ◌==◌, nat_eq, nat_beq, if◌then◌else◌,
}
use vex_agentscan.Base.Int.{ℤ, pos, negsuc, neg_ℤ, abs_ℤ, is_negative, quot_ℤ, ◌*ℤ◌}
use vex_agentscan.Base.Digits.{is_digit, digit_value, number_text, pad_start, pad_end, strip_zeros}

abbrev pub scale : ℕ
scale = 18

abbrev pub scale_unit : ℕ
scale_unit = 1_000_000_000_000_000_000

-- `text.split(".")`: what stands before the first point, and what stands after it.
unfoldable pub split_point : List ℕ → List ℕ × Option (List ℕ)
split_point [] = ([], none)
split_point (c ∷ cs) =
    let rest = split_point cs in if c == 46 then ([], some cs) else (c ∷ rest.0, rest.1)

abbrev pub is_digits : List ℕ → Bool
is_digits cs = ltb 0 (length cs) && every is_digit cs

abbrev pub is_fraction : Option (List ℕ) → Bool
is_fraction none = true
is_fraction (some cs) = is_digits cs

abbrev pub fraction_of : Option (List ℕ) → List ℕ
fraction_of none = []
fraction_of (some cs) = cs

-- The units of a text without a sign, which `^\d+(\.\d+)?$` matches.
unfoldable pub unsigned_units : List ℕ → Option ℕ
unsigned_units text =
    let parts = split_point text in
    if is_digits parts.0 && is_fraction parts.1
    then some (
        digit_value 0 parts.0 * scale_unit
        + digit_value 0 (take scale (pad_end scale (fraction_of parts.1))))
    else none

unfoldable pub decimal_from_text : List ℕ → Option ℤ
decimal_from_text [] = none
decimal_from_text (c ∷ cs) =
    if c == 45
    then elim (unsigned_units cs) [ none ↦ none | some units ↦ some (neg_ℤ (pos units)) ]
    else elim (unsigned_units (c ∷ cs)) [ none ↦ none | some units ↦ some (pos units) ]

unfoldable pub decimal_from_raw_amount : List ℕ → ℤ → Option ℕ
decimal_from_raw_amount raw (negsuc n) = none
decimal_from_raw_amount raw (pos decimals) =
    if is_digits raw
    then some (
        if leb decimals scale
        then digit_value 0 raw * 10 ^ (scale - decimals)
        else digit_value 0 raw / 10 ^ (decimals - scale))
    else none

-- The part and the whole are amounts, which are not negative.
unfoldable pub proportion_of_decimal : ℤ → ℕ → ℕ → Option ℤ
proportion_of_decimal value part whole =
    if whole == 0 then none else some (quot_ℤ (value *ℤ pos part) whole)

unfoldable pub unsigned_text : ℕ → List ℕ
unsigned_text units =
    let fraction = strip_zeros (pad_start scale (number_text (units % scale_unit))) in
    let whole = number_text (units / scale_unit) in
    if ltb 0 (length fraction) then whole ++ 46 ∷ fraction else whole

unfoldable pub decimal_to_text : ℤ → List ℕ
decimal_to_text value =
    if is_negative value then 45 ∷ unsigned_text (abs_ℤ value) else unsigned_text (abs_ℤ value)
