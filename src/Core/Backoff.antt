-- ===== src/Core/Backoff.antt =====
-- packages/core/src/backoff.ts. A text is the list of its code units; `none` is a thrown error.
pub mod Intervals
use vex_agentscan.Base.{
  ℕ, suc, ◌+◌, ◌-◌, ◌*◌, Bool, true, false, ◌&&◌, List, [], ◌∷◌, Option, none, some, ltb, leb, min,
  length, get_elem?, ◌++◌, ◌==◌, nat_eq, if◌then◌else◌,
}
use vex_agentscan.Base.Digits.{is_digit, digit_value, number_text}

abbrev pub second_ms : ℕ
second_ms = 1000

abbrev pub minute_ms : ℕ
minute_ms = 60000

abbrev pub hour_ms : ℕ
hour_ms = 3600000

abbrev pub day_ms : ℕ
day_ms = 86400000

-- The length of a unit: `s`, `m` or `h`.
abbrev pub unit_ms : ℕ → Option ℕ
unit_ms c =
    if c == 115
    then some second_ms
    else if c == 109
    then some minute_ms
    else if c == 104
    then some hour_ms
    else none

-- The rest of `^(\d+)([smh])$`, after at least one digit: more digits, then a unit at the end.
unfoldable pub counted : ℕ → List ℕ → Option ℕ
counted count [] = none
counted count (c ∷ []) = elim (unit_ms c) [ none ↦ none | some unit ↦ some (count * unit) ]
counted count (c ∷ d ∷ cs) =
    let rest = counted (count * 10 + (c - 48)) (d ∷ cs) in if is_digit c then rest else none

unfoldable pub interval_to_ms : List ℕ → Option ℕ
interval_to_ms [] = none
interval_to_ms (c ∷ cs) = if is_digit c then counted (c - 48) cs else none

unfoldable pub backoff_delay_ms : ℕ → List (List ℕ) → Option ℕ
backoff_delay_ms attempts schedule =
    elim (get_elem? schedule (min attempts (length schedule - 1))) [
      | none ↦ none
      | some interval ↦ interval_to_ms interval
    ]

pub record BackoffArgs : Type 0 where
  pub attempts : ℕ
  pub schedule : List (List ℕ)
  pub first_attempt_at : ℕ
  pub max_age_days : ℕ
  pub now : ℕ

pub data Backoff : Type 0 where
  delay : (delay_ms : ℕ) → Backoff
  give_up : Backoff

-- A clock that runs backwards makes the age negative, which is below every maximum, as 0 is.
unfoldable pub next_backoff : BackoffArgs → Option Backoff
next_backoff args =
    if ltb (args.max_age_days * day_ms) (args.now - args.first_attempt_at)
    then some give_up
    else elim (backoff_delay_ms args.attempts args.schedule) [
      | none ↦ none
      | some delay_ms ↦ some (delay delay_ms)
    ]

-- `${n}m`
unfoldable pub minutes_text : ℕ → List ℕ
minutes_text n = number_text n ++ 109 ∷ []
