-- ===== src/Server/Attestations/Verify.antt =====
-- apps/server/src/attestation: verify-job.ts and trench-creation-event.ts, and apps/server/src/worker:
-- attestation-apply-outcome.ts and the pass of attestation-loop.ts. Event decoding, the chain
-- registries and the readers are parameters. A pass reads the clock once and resolves in the order
-- of the claimed jobs; `commits` says which of its transactions the database commits.
pub mod Sound
pub mod Passes
use vex_agentscan.Base.{
  ℕ, String, Bool, true, false, ◌&&◌, ◌||◌, List, [], ◌∷◌, Option, none, some, or_else, every,
  length, leb, ◌==◌, nat_eq, string_eq, if◌then◌else◌, ◌>>=◌,
}
use vex_agentscan.Base.Int.{ℤ}
use vex_agentscan.Base.Text.{codes, lower}
use vex_agentscan.Base.Digits.{is_digit}
use vex_agentscan.Contract.Enums.{ChainFamily}
use vex_agentscan.Core.Chains.{ChainEntry}
use vex_agentscan.Core.Chains.Registry.{ChainKey}
use vex_agentscan.Core.Backoff.{Backoff, delay, give_up, next_backoff}
use vex_agentscan.Core.Verification.{ReceiptLog, ReceiptView}
use vex_agentscan.Core.Attestation.Evaluate.{
  AttestationCreationEvent, AttestationReceiptView, AttestationVerificationInput,
  AttestationMismatchDetail, AttestationVerdict, verified, mismatch, retry,
  evaluate_attestation_verification,
}
use vex_agentscan.Server.Worker.{
  ChainReader, ChainReaderContext, ReceiptRead, receipt, not_found, error, read_receipt,
}
use vex_agentscan.Server.Attestations.{TokenAttestation, Attestations}
use vex_agentscan.Server.Attestations.Outcomes.{
  proven, refuted, claim_due_attestations, reschedule_attestation, terminalize_unverifiable,
  finalize_attestation,
}

pub record AttestationConfig : Type 0 where
  pub attest_backoff_schedule : List (List ℕ)
  pub attest_max_age_days : ℕ
  pub attest_min_confirmations : ℕ
  pub attest_worker_batch : ℕ
  pub attest_worker_lease_ms : ℕ

pub record TokenCreatedArgs : Type 0 where
  pub token : String
  pub creator : String

-- `chain_registry` gives the factory addresses of an entry, where there is one. The last two are
-- the event's topic and `decodeEventLog`, which throws where it is `none`.
pub record AttestationVerifyDeps : Type 0 where
  pub config : AttestationConfig
  pub now : ℕ
  pub resolve_chain : ChainKey → Option ChainEntry
  pub chain_reader_for : ChainEntry → ChainReaderContext → ChainReader
  pub chain_registry : ℤ → Option (List String)
  pub token_created_topic : String
  pub decode_event_log : ReceiptLog → Option TokenCreatedArgs

pub data AttestationJobOutcome : Type 0 where
  reschedule : (delay_ms : ℕ) → AttestationJobOutcome
  terminalize : AttestationJobOutcome
  finalize_verified : (derived_tx_hash : String) → AttestationJobOutcome
  finalize_mismatch : AttestationMismatchDetail → AttestationJobOutcome

abbrev first_topic_is : String → List String → Bool
first_topic_is topic [] = false
first_topic_is topic (t ∷ topics) = t == topic

unfoldable pub decoded_token_created_args :
    AttestationVerifyDeps → ReceiptLog → Option TokenCreatedArgs
decoded_token_created_args deps log =
    if first_topic_is deps.token_created_topic log.topics then deps.decode_event_log log else none

unfoldable pub decode_token_creation_events :
    AttestationVerifyDeps → List ReceiptLog → List AttestationCreationEvent
decode_token_creation_events deps [] = []
decode_token_creation_events deps (log ∷ logs) =
    let rest = decode_token_creation_events deps logs in
    elim (decoded_token_created_args deps log) [
      | none ↦ rest
      | some decoded ↦
          record {
            emitter_address = lower log.address;
            token_address = lower decoded.token;
            creator_address = lower decoded.creator;
          }
          ∷ rest
    ]

-- `[0-9a-fA-F]`
abbrev is_hex_digit : ℕ → Bool
is_hex_digit c = is_digit c || leb 97 c && leb c 102 || leb 65 c && leb c 70

-- `WELL_FORMED_TX_HASH`
unfoldable pub is_well_formed_hash : List ℕ → Bool
is_well_formed_hash (first ∷ x ∷ digits) =
    first == 48 && x == 120 && length digits == 64 && every is_hex_digit digits
is_well_formed_hash _ = false

abbrev pub attest_chain_key : TokenAttestation → ChainKey
attest_chain_key job = record {
  protocol = "token_attestation";
  chain_family = ChainFamily.eip155;
  chain_id = job.chain_id;
}

abbrev pub empty_chain_reader_context : ChainReaderContext
empty_chain_reader_context = record {
  client_confirmed_at = none;
  executed_in_raw = none;
  executed_out_raw = none;
  token_in_address = none;
  token_out_address = none;
}

unfoldable pub read_head_block_number : ChainReader → Option ℕ
read_head_block_number reader = elim reader.get_head_block_number [ none ↦ none | some head ↦ head ]

unfoldable pub attestation_receipt_view_from :
    AttestationVerifyDeps → ReceiptView → Option AttestationReceiptView
attestation_receipt_view_from deps r = elim r.block_number [
  | none ↦ none
  | some block_number ↦ some (record {
    status = r.status;
    block_number = block_number;
    creation_events = decode_token_creation_events deps (or_else r.logs []);
  })
]

-- `none` is a schedule that does not parse, which throws.
unfoldable pub schedule_or_give_up :
    TokenAttestation → AttestationVerifyDeps → Option AttestationJobOutcome
schedule_or_give_up job deps =
    elim (next_backoff (record {
      attempts = job.attempt_count;
      schedule = deps.config.attest_backoff_schedule;
      first_attempt_at = job.first_seen_at;
      max_age_days = deps.config.attest_max_age_days;
      now = deps.now;
    })) [
      | none ↦ none
      | some (delay delay_ms) ↦ some (reschedule delay_ms)
      | some give_up ↦ some terminalize
    ]

abbrev pub attestation_input_from :
    TokenAttestation → AttestationVerifyDeps → ℕ → AttestationVerificationInput
attestation_input_from job deps head_block_number = record {
  token_address = job.token_address;
  recovered_signer = job.recovered_signer;
  allowlisted_factory_addresses = or_else (deps.chain_registry job.chain_id) [];
  head_block_number = head_block_number;
  min_confirmations = deps.config.attest_min_confirmations;
}

unfoldable pub outcome_of_verdict :
    AttestationVerdict
    → String
    → TokenAttestation
    → AttestationVerifyDeps
    → Option AttestationJobOutcome
outcome_of_verdict (retry reason) tx_hash job deps = schedule_or_give_up job deps
outcome_of_verdict (mismatch detail) tx_hash job deps = some (finalize_mismatch detail)
outcome_of_verdict verified tx_hash job deps = some (finalize_verified tx_hash)

unfoldable pub outcome_of_read :
    ReceiptRead
    → Option ℕ
    → String
    → TokenAttestation
    → AttestationVerifyDeps
    → Option AttestationJobOutcome
outcome_of_read (receipt r) (some head) tx_hash job deps =
    outcome_of_verdict
      (evaluate_attestation_verification (attestation_receipt_view_from deps r)
        (attestation_input_from job deps head))
      tx_hash job deps
outcome_of_read _ _ tx_hash job deps = schedule_or_give_up job deps

abbrev pub reader_of : ChainEntry → AttestationVerifyDeps → ChainReader
reader_of entry deps = deps.chain_reader_for entry empty_chain_reader_context

unfoldable pub outcome_of_hash :
    String → TokenAttestation → AttestationVerifyDeps → Option AttestationJobOutcome
outcome_of_hash tx_hash job deps = elim (deps.resolve_chain (attest_chain_key job)) [
  | none ↦ schedule_or_give_up job deps
  | some entry ↦
      let reader = reader_of entry deps in
      outcome_of_read (read_receipt reader tx_hash) (read_head_block_number reader) tx_hash job deps
]

unfoldable pub resolve_attestation_outcome :
    TokenAttestation → AttestationVerifyDeps → Option AttestationJobOutcome
resolve_attestation_outcome job deps = elim job.tx_hash_hint [
  | none ↦ schedule_or_give_up job deps
  | some tx_hash ↦
      if is_well_formed_hash (codes tx_hash)
      then outcome_of_hash tx_hash job deps
      else schedule_or_give_up job deps
]

-- The handler of a thrown error calls `scheduleOrGiveUp`, which may throw again.
unfoldable pub resolve_outcome_safely :
    TokenAttestation → AttestationVerifyDeps → Option AttestationJobOutcome
resolve_outcome_safely job deps = elim (resolve_attestation_outcome job deps) [
  | none ↦ schedule_or_give_up job deps
  | some outcome ↦ some outcome
]

unfoldable pub apply_attestation_outcome :
    ℕ → AttestationJobOutcome → ℕ → Attestations → Attestations
apply_attestation_outcome id (reschedule delay_ms) now db =
    reschedule_attestation id delay_ms now db
apply_attestation_outcome id terminalize now db = terminalize_unverifiable id db
apply_attestation_outcome id (finalize_verified derived_tx_hash) now db =
    finalize_attestation id (proven derived_tx_hash) now db
apply_attestation_outcome id (finalize_mismatch detail) now db =
    finalize_attestation id (refuted detail) now db

unfoldable pub resolve_jobs :
    List TokenAttestation
    → AttestationVerifyDeps
    → Option (List (TokenAttestation × AttestationJobOutcome))
resolve_jobs [] deps = some []
resolve_jobs (job ∷ jobs) deps = do
  outcome ← resolve_outcome_safely job deps
  rest ← resolve_jobs jobs deps
  some ((job, outcome) ∷ rest)

unfoldable pub persist_outcomes :
    (commits : ℕ → Bool)
    → ℕ
    → List (TokenAttestation × AttestationJobOutcome)
    → Attestations
    → Attestations
persist_outcomes commits now [] db = db
persist_outcomes commits now ((job, outcome) ∷ rest) db =
    persist_outcomes commits now rest
      (if commits job.id then apply_attestation_outcome job.id outcome now db else db)

-- A pass whose resolution throws keeps the leases, and writes no outcome.
unfoldable pub run_attestation_verification_pass :
    (locked commits : ℕ → Bool) → AttestationVerifyDeps → Attestations → Attestations
run_attestation_verification_pass locked commits deps db =
    let (leased, jobs) =
      claim_due_attestations locked deps.config.attest_worker_batch
        deps.config.attest_worker_lease_ms deps.now db in
    elim (resolve_jobs jobs deps) [
      | none ↦ leased
      | some resolved ↦ persist_outcomes commits deps.now resolved leased
    ]
