-- ===== src/Server/Worker.antt =====
-- apps/server/src/worker: verify-job.ts, apply-outcome.ts, and the pass of loop.ts. The chain
-- registry and the chain readers are parameters: what a reader returns comes from an RPC endpoint.
-- A pass reads the clock once.
pub mod Outcomes
pub mod Passes
pub mod Entries
use vex_agentscan.Base.{
  ℕ, String, Bool, true, false, List, [], ◌∷◌, Option, none, some, keep_if, take, contains, map,
  ◌>>=◌, ◌==◌, string_eq, if◌then◌else◌,
}
use vex_agentscan.Base.Int.{ℤ}
use vex_agentscan.Base.Text.{lower}
use vex_agentscan.Contract.Enums.{ChainFamily}
use vex_agentscan.Contract.Event.{Token}
use vex_agentscan.Core.Policy.{Tier, resolve_verification_tier}
use vex_agentscan.Core.Verdict.{StrikeVerdict, TerminalVerdict, Verdict}
use vex_agentscan.Core.Verification.{
  Erc20Transfer, ReceiptView, VerificationInput, evaluate_verification,
}
use vex_agentscan.Core.Chains.{ChainEntry}
use vex_agentscan.Core.Chains.Registry.{ChainKey}
use vex_agentscan.Core.Backoff.{Backoff, delay, give_up, next_backoff, minutes_text}
use vex_agentscan.Server.Db.{Activity, Db}
use vex_agentscan.Server.Claim.{ClaimedJob, claim_due_jobs}
use vex_agentscan.Server.Finalize.{finalize_verification, reschedule_job, close_unverifiable}

pub record Config : Type 0 where
  pub verify_time_tolerance_min : ℕ
  pub verify_amount_tolerance_bp : ℕ
  pub verify_backoff_schedule : List (List ℕ)
  pub verify_max_age_days : ℕ
  pub unknown_chain_backoff_min : ℕ
  pub quarantine_strikes : ℕ
  pub worker_batch : ℕ
  pub worker_lease_ms : ℕ

pub record ChainReaderContext : Type 0 where
  pub client_confirmed_at : Option ℕ
  pub executed_in_raw : Option ℕ
  pub executed_out_raw : Option ℕ
  pub token_in_address : Option String
  pub token_out_address : Option String

pub data MissingReceiptCorroboration : Type 0 where
  missing found unknown : MissingReceiptCorroboration

-- What a call of a reader comes to.
pub data Fetched : Type 0 where
  returned : Option ReceiptView → Fetched
  threw : (message : String) → Fetched

-- `corroborateMissingReceipt` is optional, and a call of it may throw, which is `some none`.
pub record ChainReader : Type 0 where
  pub get_receipt : String → Fetched
  pub get_head_block_number : Option (Option ℕ)
  pub corroborate_missing_receipt : Option (String → Option MissingReceiptCorroboration)

pub record VerifyJobDeps : Type 0 where
  pub config : Config
  pub now : ℕ
  pub resolve_chain : ChainKey → Option ChainEntry
  pub chain_reader_for : ChainEntry → ChainReaderContext → ChainReader

pub data CloseReason : Type 0 where
  no_tx_hash chain_not_in_registry no_transfers_decoded : CloseReason
  missing_receipt_not_corroborated missing_receipt_seen_elsewhere : CloseReason
  verification_window_exhausted : CloseReason

pub record StrikeObservation : Type 0 where
  pub transaction_value_raw : Option ℕ
  pub declared_token_transfers : List Erc20Transfer

pub data JobOutcome : Type 0 where
  reschedule : (delay_ms : ℕ) → (last_error : String) → JobOutcome
  close : CloseReason → JobOutcome
  finalize : TerminalVerdict → (observed : Option StrikeObservation) → JobOutcome

pub data ReceiptRead : Type 0 where
  receipt : ReceiptView → ReceiptRead
  not_found : ReceiptRead
  error : (message : String) → ReceiptRead

unfoldable pub read_receipt : ChainReader → String → ReceiptRead
read_receipt reader tx_hash = elim (reader.get_receipt tx_hash) [
  | threw message ↦ error message
  | returned none ↦ not_found
  | returned (some r) ↦ receipt r
]

unfoldable pub corroborate_missing : ChainReader → String → MissingReceiptCorroboration
corroborate_missing reader tx_hash = elim reader.corroborate_missing_receipt [
  | none ↦ unknown
  | some corroborate ↦ elim (corroborate tx_hash) [ none ↦ unknown | some answer ↦ answer ]
]

abbrev pub address_of : Option Token → Option String
address_of none = none
address_of (some token) = some token.address

abbrev pub context_of : Activity → ChainReaderContext
context_of a = record {
  client_confirmed_at = a.client_confirmed_at;
  executed_in_raw = a.leg_in.executed_raw;
  executed_out_raw = a.leg_out.executed_raw;
  token_in_address = address_of a.leg_in.token;
  token_out_address = address_of a.leg_out.token;
}

unfoldable pub verification_input_from : Activity → ChainEntry → Config → String → VerificationInput
verification_input_from a entry config tx_hash = record {
  tx_hash = tx_hash;
  client_confirmed_at = a.client_confirmed_at;
  executed_in_raw = a.leg_in.executed_raw;
  executed_out_raw = a.leg_out.executed_raw;
  token_in_address = address_of a.leg_in.token;
  token_out_address = address_of a.leg_out.token;
  tier = resolve_verification_tier a.kind entry.verification_tier;
  time_tolerance_min = config.verify_time_tolerance_min;
  amount_tolerance_bp = config.verify_amount_tolerance_bp;
}

unfoldable pub verdict_from : ReceiptRead → Activity → ChainEntry → Config → String → Verdict
verdict_from (error message) a entry config tx_hash = Verdict.retry message
verdict_from not_found a entry config tx_hash =
    evaluate_verification none (verification_input_from a entry config tx_hash)
verdict_from (receipt r) a entry config tx_hash =
    evaluate_verification (some r) (verification_input_from a entry config tx_hash)

abbrev pub declared_transfer_log_limit : ℕ
declared_transfer_log_limit = 8

-- The addresses that are not null, in lower case.
unfoldable pub declared_tokens : List (Option String) → List String
declared_tokens [] = []
declared_tokens (none ∷ rest) = declared_tokens rest
declared_tokens (some address ∷ rest) = lower address ∷ declared_tokens rest

unfoldable pub observation_of : ReceiptRead → Activity → TerminalVerdict → Option StrikeObservation
observation_of (receipt r) a (TerminalVerdict.strike reason) =
    let tokens = declared_tokens (address_of a.leg_in.token ∷ address_of a.leg_out.token ∷ []) in
    some (record {
      transaction_value_raw = r.transaction_value_raw;
      declared_token_transfers =
          take declared_transfer_log_limit
            (keep_if (λ t. contains tokens (lower t.token)) r.erc20_transfers);
    })
observation_of read a verdict = none

-- An unknown chain is tried again at a fixed interval, until the window is over.
unfoldable pub unknown_chain_outcome : ClaimedJob → VerifyJobDeps → Option JobOutcome
unknown_chain_outcome c deps =
    elim (next_backoff (record {
      attempts = c.job.attempts;
      schedule = minutes_text deps.config.unknown_chain_backoff_min ∷ [];
      first_attempt_at = c.job.first_attempt_at;
      max_age_days = deps.config.verify_max_age_days;
      now = deps.now;
    })) [
      | none ↦ none
      | some (delay ms) ↦ some (reschedule ms "chain_not_in_registry")
      | some give_up ↦ some (close chain_not_in_registry)
    ]

unfoldable pub job_backoff : ClaimedJob → VerifyJobDeps → Option Backoff
job_backoff c deps = next_backoff (record {
  attempts = c.job.attempts;
  schedule = deps.config.verify_backoff_schedule;
  first_attempt_at = c.job.first_attempt_at;
  max_age_days = deps.config.verify_max_age_days;
  now = deps.now;
})

-- The end of the window for an inconclusive retry: only a missing receipt can still be a strike.
unfoldable pub window_over : ReceiptRead → ChainReader → String → JobOutcome
window_over not_found reader tx_hash = elim (corroborate_missing reader tx_hash) [
  | found ↦ close missing_receipt_seen_elsewhere
  | unknown ↦ close missing_receipt_not_corroborated
  | missing ↦ finalize (TerminalVerdict.strike StrikeVerdict.tx_not_found) none
]
window_over read reader tx_hash = close verification_window_exhausted

-- What follows from the verdict.
unfoldable pub outcome_of :
    Verdict → ReceiptRead → ClaimedJob → ChainReader → String → VerifyJobDeps → Option JobOutcome
outcome_of (Verdict.terminal verdict) read c reader tx_hash deps =
    some (finalize verdict (observation_of read c.activity verdict))
outcome_of Verdict.unverifiable read c reader tx_hash deps = elim (job_backoff c deps) [
  | none ↦ none
  | some (delay ms) ↦ some (reschedule ms "no_transfers_decoded")
  | some give_up ↦ some (close no_transfers_decoded)
]
outcome_of (Verdict.retry message) read c reader tx_hash deps = elim (job_backoff c deps) [
  | none ↦ none
  | some (delay ms) ↦ some (reschedule ms message)
  | some give_up ↦ some (window_over read reader tx_hash)
]

unfoldable pub read_outcome : ClaimedJob → ChainEntry → String → VerifyJobDeps → Option JobOutcome
read_outcome c entry tx_hash deps =
    let reader = deps.chain_reader_for entry (context_of c.activity) in
    let read = read_receipt reader tx_hash in
    outcome_of (verdict_from read c.activity entry deps.config tx_hash) read c reader tx_hash deps

abbrev pub chain_key : Activity → ChainKey
chain_key a = record { protocol = a.protocol; chain_family = a.chain_family; chain_id = a.chain_id }

unfoldable pub resolve_job_outcome : ClaimedJob → VerifyJobDeps → Option JobOutcome
resolve_job_outcome c deps = elim (deps.resolve_chain (chain_key c.activity)) [
  | none ↦ unknown_chain_outcome c deps
  | some entry ↦ elim c.activity.tx_hash [
    | none ↦ some (close no_tx_hash)
    | some tx_hash ↦ read_outcome c entry tx_hash deps
  ]
]

unfoldable pub apply_job_outcome : Config → Db → ℕ → ℕ → JobOutcome → Db
apply_job_outcome config db now id (reschedule delay_ms last_error) =
    reschedule_job db now id delay_ms last_error
apply_job_outcome config db now id (close reason) = close_unverifiable db id
apply_job_outcome config db now id (finalize verdict observed) =
    finalize_verification config.quarantine_strikes db now id verdict

-- `resolveWithConcurrency`, in the order of the claimed jobs: all outcomes, or a thrown error.
unfoldable pub resolve_all : List ClaimedJob → VerifyJobDeps → Option (List (ℕ × JobOutcome))
resolve_all [] deps = some []
resolve_all (c ∷ cs) deps = do
  outcome ← resolve_job_outcome c deps
  rest ← resolve_all cs deps
  some ((c.activity.id, outcome) ∷ rest)

unfoldable pub persist_all : Config → ℕ → List (ℕ × JobOutcome) → Db → Db
persist_all config now [] db = db
persist_all config now ((id, outcome) ∷ rest) db =
    persist_all config now rest (apply_job_outcome config db now id outcome)

-- A pass whose resolution throws keeps the leases, and writes no outcome.
unfoldable pub run_verification_pass : Db → (ℕ → Bool) → VerifyJobDeps → Db
run_verification_pass db locked deps =
    let config = deps.config in
    let (leased, claimed) =
      claim_due_jobs db deps.now locked config.worker_batch config.worker_lease_ms in
    elim (resolve_all claimed deps) [
      | none ↦ leased
      | some outcomes ↦ persist_all config deps.now outcomes leased
    ]
