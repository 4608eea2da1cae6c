-- ===== src/Examples/Decisions.antt =====
-- The pure decisions at concrete inputs.
use mathlib.Core.Bool.{decide}
use vex_agentscan.Base.{
  ℕ, ◌+◌, ◌*◌, ◌≤◌, ◌<◌, true, false, ◌&&◌, ◌||◌, List, [], ◌∷◌, Option, none, some, is_some, arith,
  any, length, ◌≡◌, refl, string_eq,
}
use vex_agentscan.Core.Policy.{Tier}
use vex_agentscan.Core.Verdict.{TerminalVerdict, Verdict}
use vex_agentscan.Core.Verification.{
  Erc20Transfer, success, ReceiptView, VerificationInput, TransferCounterparty,
  evaluate_verification, block_time_outside_tolerance, judge_declared_amounts,
  declared_input_judgement, declared_output_judgement, is_native_token, is_evm_native_address,
  declared_leg_judgement, transfers_of, same_address, reader_could_not_read_transfers,
  within_tolerance, counterparty_of, some_counterparty_moved_the_declared_total,
  AmountJudgement_discrete,
}
use vex_agentscan.Base.Text.{lower}
use vex_agentscan.Core.Verification.Totals.{moved_by, some_counterparty_lem}
use vex_agentscan.Core.Verification.Soundness.{
  IsProven, IsHonest, leg_is_explained, verified_full-IsProven, is_strike, honest-not_struck,
}
use vex_agentscan.Core.Backoff.{
  BackoffArgs, delay, next_backoff, interval_to_ms, counted, backoff_delay_ms, minutes_text,
}
use vex_agentscan.Core.Backoff.Intervals.{interval_to_ms-minutes_text, next_backoff-IsTotal}
use vex_agentscan.Core.Pricing.{
  LegPricing, PricingOutcome, PricingRetryBudget, decide_pricing_outcome, pricing_retry_outcome,
  latest_not_before, latest_from, priced_sibling_settles_every_miss, is_priced, usd_of,
}
use vex_agentscan.Core.Pricing.Retries.{
  is_settled, priced-is_settled, blocked_until, reschedule-bound,
}
use vex_agentscan.Core.Attestation.{AttestationVerifyStatus, AttestationCandidate}
use vex_agentscan.Server.RateLimit.{
  limited, SlidingWindowInput, decide_sliding_window, recent_hits, oldest_hit, hits_of,
}
use vex_agentscan.Server.RateLimit.Window.{Request, serve, serve-hits_bound, limited-retry_after}

abbrev moved : Erc20Transfer
moved = record { token = "0xAA"; sender = "0xb1"; recipient = "0xb2"; amount_raw = 100 }

abbrev receipt : ReceiptView
receipt = record {
  status = success;
  block_timestamp = 940;
  block_number = none;
  erc20_transfers = moved ∷ [];
  transaction_value_raw = some 0;
  logs = none;
}

abbrev input : VerificationInput
input = record {
  tx_hash = "0x01";
  client_confirmed_at = some 950;
  executed_in_raw = some 100;
  executed_out_raw = none;
  token_in_address = some "0xaa";
  token_out_address = none;
  tier = Tier.full;
  time_tolerance_min = 10;
  amount_tolerance_bp = 50;
}

receipt-verified :
    evaluate_verification (some receipt) input
    ≡ Verdict.terminal (TerminalVerdict.verified_full 940)
unfolding evaluate_verification block_time_outside_tolerance judge_declared_amounts
    declared_input_judgement declared_output_judgement is_native_token is_evm_native_address
    declared_leg_judgement transfers_of same_address reader_could_not_read_transfers
    within_tolerance lower AmountJudgement_discrete decide
receipt-verified = refl

verified_full-IsProven_example : IsProven receipt input 940
verified_full-IsProven_example = verified_full-IsProven receipt input 940 receipt-verified

-- A token is sold for the native one; the transaction sends no value.
abbrev sold : VerificationInput
sold = record input {
  token_out_address = some "0xEeeeeEeeeEeEeeEeEeEeeEEEeeeeEeeeeeeeEEeE";
  executed_out_raw = some 7;
}

sold-explained :
    leg_is_explained receipt (some "0xaa") (some 100) 50 TransferCounterparty.from ≡ true
unfolding transfers_of same_address within_tolerance lower
sold-explained = refl

sold-in_time : block_time_outside_tolerance receipt sold ≡ false
unfolding block_time_outside_tolerance
sold-in_time = refl

sold-input : is_native_token (some "0xaa") ≡ false
unfolding is_native_token is_evm_native_address lower
sold-input = refl

sold-output : is_native_token sold.token_out_address ≡ true
unfolding is_native_token is_evm_native_address lower
sold-output = refl

sold-IsHonest : IsHonest receipt sold
sold-IsHonest = record {
  succeeded = refl;
  in_time = sold-in_time;
  input_leg = λ h. sold-explained;
  native_input = λ h declared value given sent. absurd (ground (arith, sold-input, h));
  output_leg = λ h. absurd (ground (arith, sold-output, h));
}

honest-not_struck_example : is_strike (evaluate_verification (some receipt) sold) ≡ false
honest-not_struck_example = honest-not_struck receipt sold sold-IsHonest

some_counterparty_lem_example :
    some_counterparty_moved_the_declared_total (moved ∷ moved ∷ []) TransferCounterparty.from 200 50
    ≡ any
        (λ t.
          within_tolerance
            (moved_by TransferCounterparty.from
              (counterparty_of TransferCounterparty.from t)
              (moved ∷ moved ∷ []))
            200
            50)
        (moved ∷ moved ∷ [])
some_counterparty_lem_example =
    some_counterparty_lem TransferCounterparty.from (moved ∷ moved ∷ []) 200 50

interval_to_ms-minutes_text_example : interval_to_ms (minutes_text 360) ≡ some 21600000
interval_to_ms-minutes_text_example = interval_to_ms-minutes_text 360

abbrev backoff_args : BackoffArgs
backoff_args = record {
  attempts = 4;
  schedule = (49 ∷ 109 ∷ []) ∷ (53 ∷ 109 ∷ []) ∷ [];
  first_attempt_at = 1000;
  max_age_days = 7;
  now = 5000;
}

schedule-read :
    (is_some (interval_to_ms (49 ∷ 109 ∷ [])) && (is_some (interval_to_ms (53 ∷ 109 ∷ [])) && true))
    ≡ true
unfolding interval_to_ms counted
schedule-read = refl

next_backoff-IsTotal_example : (d : ℕ) × (next_backoff backoff_args ≡ some (delay d))
next_backoff-IsTotal_example = next_backoff-IsTotal backoff_args refl schedule-read (omega arith)

abbrev budget : PricingRetryBudget
budget = record { attempts = 0; max_attempts = 6; schedule = (49 ∷ 109 ∷ []) ∷ []; now = 1000 }

abbrev settled_at : Option ℕ
settled_at = some 900

pair-priced :
    decide_pricing_outcome budget settled_at (LegPricing.priced 7) LegPricing.absent
    ≡ some (PricingOutcome.priced (some 7) none)
unfolding decide_pricing_outcome usd_of
pair-priced = refl

priced-is_settled_example :
    (is_some settled_at ≡ true)
    × ((is_priced (LegPricing.priced 7) || is_priced LegPricing.absent) ≡ true)
    × ((is_settled (LegPricing.priced 7) && is_settled LegPricing.absent) ≡ true)
    × (some 7 ≡ usd_of (LegPricing.priced 7))
    × (none ≡ usd_of LegPricing.absent)
priced-is_settled_example =
    priced-is_settled budget settled_at (LegPricing.priced 7) LegPricing.absent (some 7) none
      pair-priced

pair-rescheduled :
    decide_pricing_outcome budget (some 900) (LegPricing.unpriceable (some 90000)) LegPricing.absent
    ≡ some (PricingOutcome.reschedule 89000)
unfolding decide_pricing_outcome pricing_retry_outcome backoff_delay_ms interval_to_ms counted
    latest_not_before latest_from priced_sibling_settles_every_miss
pair-rescheduled = refl

reschedule-bound_example :
    (1 < 6)
    × (blocked_until (LegPricing.unpriceable (some 90000)) ≤ 1000 + 89000)
    × (blocked_until LegPricing.absent ≤ 1000 + 89000)
reschedule-bound_example =
    reschedule-bound budget (some 900) (LegPricing.unpriceable (some 90000)) LegPricing.absent 89000
      pair-rescheduled

abbrev unverified_seen : ℕ → AttestationCandidate
unverified_seen t = record {
  verify_status = AttestationVerifyStatus.unverified;
  revoked_at = none;
  first_seen_at = t;
}

abbrev requests : List Request
requests = record { key = "a"; at = 1000 } ∷ record { key = "a"; at = 2000 } ∷ []

serve-hits_bound_example : length (hits_of "a" (serve 1 60 requests [])) ≤ 1
serve-hits_bound_example = serve-hits_bound 1 60 requests "a"

abbrev full_window : SlidingWindowInput
full_window = record { hits_ms = 1000 ∷ []; now_ms = 2500; limit = 1; window_sec = 60 }

full_window-limited : (decide_sliding_window full_window).decision ≡ limited 59
unfolding decide_sliding_window recent_hits oldest_hit
full_window-limited = refl

limited-retry_after_example :
    (1 ≤ 59) × (oldest_hit 2500 (recent_hits full_window) + 60 * 1000 ≤ 2500 + 59 * 1000)
limited-retry_after_example = limited-retry_after full_window 59 full_window-limited
