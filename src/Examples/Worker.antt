-- ===== src/Examples/Worker.antt =====
-- The worker at concrete jobs.
use vex_agentscan.Base.{ℕ, false, [], ◌∷◌, none, some, is_some, arith, lookup, ◌≡◌, refl, nat_eq}
use vex_agentscan.Contract.Enums.{ChainFamily}
use vex_agentscan.Core.Policy.{Tier}
use vex_agentscan.Core.Backoff.{next_backoff, backoff_delay_ms, interval_to_ms, counted}
use vex_agentscan.Core.Verification.{evaluate_verification}
use vex_agentscan.Server.Db.{by_activity}
use vex_agentscan.Server.Ingest.{new_job, inserted_row}
use vex_agentscan.Server.Claim.{ClaimedJob}
use vex_agentscan.Core.Chains.{ChainEntry}
use vex_agentscan.Server.Worker.{
  Config, ChainReader, Fetched, MissingReceiptCorroboration, VerifyJobDeps, JobOutcome, reschedule,
  finalize, read_receipt, corroborate_missing, verdict_from, job_backoff, window_over, outcome_of,
  read_outcome, resolve_job_outcome, apply_job_outcome, run_verification_pass,
}
use vex_agentscan.Core.Verdict.{TerminalVerdict, StrikeVerdict}
use vex_agentscan.Server.Worker.Outcomes.{
  is_finalize, IsMissing, IsExhausted, outage-not_judged, tx_not_found-IsMissing,
}
use vex_agentscan.Server.Worker.Passes.{exhausted-leaves}
use vex_agentscan.Server.Queue.Histories.{reached-Inv}
use vex_agentscan.Server.Claim.{claim_due_jobs}
use vex_agentscan.Server.Worker.Entries.{entry_of, outcomes_for, settled_by, pass-entry}
use vex_agentscan.Examples.{history, reported, reported-row, swap_row}

abbrev config : Config
config = record {
  verify_time_tolerance_min = 10;
  verify_amount_tolerance_bp = 50;
  verify_backoff_schedule = (49 ∷ 109 ∷ []) ∷ [];
  verify_max_age_days = 7;
  unknown_chain_backoff_min = 360;
  quarantine_strikes = 3;
  worker_batch = 10;
  worker_lease_ms = 60000;
}

abbrev ethereum : ChainEntry
ethereum = record {
  canonical_slug = "ethereum";
  chain_family = ChainFamily.eip155;
  display_name = "Ethereum";
  explorer_tx_url = λ tx_hash. none;
  rpc_urls = [];
  verification_tier = Tier.full;
  price_feed_key = none;
}

-- An endpoint that is down, and one that has no such transaction.
abbrev down_reader : ChainReader
down_reader = record {
  get_receipt = λ tx_hash. Fetched.threw "timeout";
  get_head_block_number = none;
  corroborate_missing_receipt = none;
}

abbrev empty_reader : ChainReader
empty_reader = record {
  get_receipt = λ tx_hash. Fetched.returned none;
  get_head_block_number = none;
  corroborate_missing_receipt = some (λ tx_hash. some MissingReceiptCorroboration.missing);
}

abbrev deps_with : ChainReader → ℕ → VerifyJobDeps
deps_with reader now = record {
  config = config;
  now = now;
  resolve_chain = λ key. some ethereum;
  chain_reader_for = λ entry context. reader;
}

abbrev swap_job : ClaimedJob
swap_job = record { job = new_job 1000 1; activity = swap_row }

-- More than seven days after the first attempt.
abbrev too_late : ℕ
too_late = 700000000

swap_row-tx_hash : swap_row.tx_hash ≡ some "0x01"
unfolding inserted_row
swap_row-tx_hash = refl

down-outcome :
    resolve_job_outcome swap_job (deps_with down_reader 2000) ≡ some (reschedule 60000 "timeout")
unfolding resolve_job_outcome read_outcome read_receipt verdict_from outcome_of job_backoff
    next_backoff backoff_delay_ms interval_to_ms counted inserted_row
down-outcome = refl

outage-not_judged_example : is_finalize (reschedule 60000 "timeout") ≡ false
outage-not_judged_example =
    outage-not_judged swap_job (deps_with down_reader 2000) ethereum "0x01" "timeout"
      (reschedule 60000 "timeout") refl swap_row-tx_hash refl down-outcome

missing-outcome :
    resolve_job_outcome swap_job (deps_with empty_reader too_late)
    ≡ some (finalize (TerminalVerdict.strike StrikeVerdict.tx_not_found) none)
unfolding resolve_job_outcome read_outcome read_receipt verdict_from outcome_of job_backoff
    next_backoff evaluate_verification window_over corroborate_missing inserted_row
missing-outcome = refl

tx_not_found-IsMissing_example : IsMissing swap_job (deps_with empty_reader too_late)
tx_not_found-IsMissing_example =
    tx_not_found-IsMissing swap_job (deps_with empty_reader too_late)
      (finalize (TerminalVerdict.strike StrikeVerdict.tx_not_found) none) missing-outcome refl

swap_job-IsExhausted : IsExhausted swap_job (deps_with empty_reader too_late)
swap_job-IsExhausted = omega arith

exhausted-leaves_example :
    (o : JobOutcome) × (resolve_job_outcome swap_job (deps_with empty_reader too_late) ≡ some o)
    × (is_some (lookup by_activity 1 (apply_job_outcome config reported too_late 1 o).jobs) ≡ false)
exhausted-leaves_example =
    exhausted-leaves reported swap_job (deps_with empty_reader too_late) swap_row
      (reached-Inv 3 history) reported-row swap_job-IsExhausted

pass-entry_example :
    let (leased, claimed) =
      claim_due_jobs reported too_late (λ id. false) config.worker_batch config.worker_lease_ms in
    entry_of 1 (run_verification_pass reported (λ id. false) (deps_with empty_reader too_late))
    ≡ settled_by too_late
        (outcomes_for 1 claimed (deps_with empty_reader too_late))
        (entry_of 1 leased)
pass-entry_example = pass-entry reported (λ id. false) (deps_with empty_reader too_late) 1
