-- ===== src/Core/Backoff/Intervals.antt =====
-- Intervals that are printed from a number are read back, and a delay is one of the schedule's.
use vex_agentscan.Base.{
  ℕ, zero, suc, ◌+◌, ◌-◌, ◌*◌, ◌≤◌, ◌<◌, Bool, true, List, [], ◌∷◌, ◌++◌, some, is_some, arith, ltb,
  length, get_elem?, every, min, ◌≡◌, refl, Option-cases, inl, inr,
}
use vex_agentscan.Base.Digits.{
  is_digit, number_text, digit_value, digit_value-number_text, number_text-every,
  number_text-nonempty,
}
use vex_agentscan.Core.Backoff.{
  minutes_text, is_digit, counted, interval_to_ms, backoff_delay_ms, BackoffArgs, delay,
  next_backoff, day_ms,
}

counted-digits :
    (count : ℕ) (cs : List ℕ)
    → every is_digit cs ≡ true
    → counted count (cs ++ 109 ∷ []) ≡ some (digit_value count cs * 60000)
unfolding counted digit_value
counted-digits count [] h = refl
counted-digits count (c ∷ []) h = ground arith
counted-digits count (c ∷ d ∷ cs) h =
    ground (arith, counted-digits (count * 10 + (c - 48)) (d ∷ cs))

read-digits :
    (cs : List ℕ)
    → every is_digit cs ≡ true
    → ltb 0 (length cs) ≡ true
    → interval_to_ms (cs ++ 109 ∷ []) ≡ some (digit_value 0 cs * 60000)
unfolding interval_to_ms digit_value
read-digits [] h l = ground arith
read-digits (c ∷ cs) h l = ground (arith, counted-digits (c - 48) cs)

-- The interval of n minutes, printed as a backoff schedule has it, is read as n * 60000
-- milliseconds.
pub interval_to_ms-minutes_text : (n : ℕ) → interval_to_ms (minutes_text n) ≡ some (n * 60000)
unfolding minutes_text
interval_to_ms-minutes_text n =
    rw
      (
        read-digits (number_text n) (number_text-every n) (ground (arith, number_text-nonempty n)),
        digit_value-number_text n,
      )
      refl

every-get_elem? :
    (p : List ℕ → Bool) (xs : List (List ℕ)) (i : ℕ)
    → every p xs ≡ true
    → i < length xs
    → (a : List ℕ) × (get_elem? xs i ≡ some a) × (p a ≡ true)
every-get_elem? p [] i h l = absurd (omega arith)
every-get_elem? p (x ∷ xs) zero h l = (x, refl, ground arith)
every-get_elem? p (x ∷ xs) (suc i) h l = every-get_elem? p xs i (ground arith) (omega arith)

-- Within the maximum age, and with a schedule that is not empty and whose intervals can all be
-- read, a job gets a delay, whatever its number of attempts.
pub next_backoff-IsTotal :
    (args : BackoffArgs)
    → ltb 0 (length args.schedule) ≡ true
    → every (λ interval. is_some (interval_to_ms interval)) args.schedule ≡ true
    → args.now - args.first_attempt_at ≤ args.max_age_days * day_ms
    → (d : ℕ) × (next_backoff args ≡ some (delay d))
unfolding next_backoff backoff_delay_ms
next_backoff-IsTotal args l r age =
    let (interval, at, readable) =
      every-get_elem? (λ t. is_some (interval_to_ms t)) args.schedule
        (min args.attempts (length args.schedule - 1)) r (ground arith) in
    elim (Option-cases (interval_to_ms interval)) [
      | inl unread ↦ ground arith
      | inr (d, read) ↦ (d, ground arith)
    ]
