-- ===== src/Examples/Attestations.antt =====
-- Attestations at concrete tables: a submission, its verification and its lookup.
use vex_agentscan.Base.{
  ℕ, String, true, false, List, [], ◌∷◌, none, some, arith, ◌≡◌, ◌↔◌, string_eq, nat_eq,
}
use vex_agentscan.Base.Int.{pos}
use vex_agentscan.Base.Text.{codes}
use vex_agentscan.Core.Attestation.{verified}
use vex_agentscan.Core.Attestation.Evaluate.{
  AttestationCreationEvent, AttestationReceiptView, AttestationVerificationInput,
  AttestationVerdict, evaluate_attestation_verification,
}
use vex_agentscan.Core.Attestation.Factories.{build_attestation_chain_registry}
use vex_agentscan.Core.Attestation.Proof.{IsAttested, verified-IsAttested}
use vex_agentscan.Core.Chains.Registry.{resolve_chain}
use vex_agentscan.Core.Verification.{ReceiptStatus, ReceiptView}
use vex_agentscan.Server.Worker.{ChainReader, Fetched}
use vex_agentscan.Server.Attestations.{
  TokenAttestation, Attestations, AttestSubmission, AttestSubmissionLimits, inserted_row,
  pending_count_for, pending_count,
}
use vex_agentscan.Server.Attestations.Outcomes.{proven}
use vex_agentscan.Server.Attestations.History.{Operation, submit, claim, finalize, revoke, run}
use vex_agentscan.Server.Attestations.Limits.{Inv, history-Inv}
use vex_agentscan.Server.Attestations.Final.{Extends, history-Extends}
use vex_agentscan.Server.Attestations.Verify.{
  AttestationVerifyDeps, run_attestation_verification_pass,
}
use vex_agentscan.Server.Attestations.Verify.Passes.{IsPass, run-IsPass}

abbrev created : AttestationCreationEvent
created = record { emitter_address = "0xFac"; token_address = "0xaa"; creator_address = "0xbb" }

abbrev view : AttestationReceiptView
view = record { status = ReceiptStatus.success; block_number = 100; creation_events = created ∷ [] }

abbrev input : AttestationVerificationInput
input = record {
  token_address = "0xAA";
  recovered_signer = "0xbb";
  allowlisted_factory_addresses = "0xfac" ∷ [];
  head_block_number = 120;
  min_confirmations = 12;
}

verified-IsAttested_example :
    (evaluate_attestation_verification (some view) input ≡ AttestationVerdict.verified)
    ↔ IsAttested view input
verified-IsAttested_example = verified-IsAttested view input

abbrev limits : AttestSubmissionLimits
limits = record { max_pending_per_ip = 1; max_pending_global = 10 }

abbrev empty_table : Attestations
empty_table = record { rows = []; next_id = 1 }

abbrev submission_of : String → AttestSubmission
submission_of signer = record {
  chain_id = pos 4663;
  token_address = "0xaa";
  recovered_signer = signer;
  attest_signature = "0x5e";
  tx_hash_hint = some "0x0123456789abcdef0123456789abcdef0123456789abcdef0123456789abcdef";
  submitter_ip_hash = "ip";
}

-- The second submission of the address is over its cap until the first one is decided.
abbrev history : List (Operation × ℕ)
history =
    (submit (submission_of "0xbb"), 1000)
    ∷ (submit (submission_of "0xcc"), 1100)
    ∷ (claim (λ id. false) 10 60000, 2000)
    ∷ (finalize 1 (proven "0x01"), 2100)
    ∷ (submit (submission_of "0xcc"), 2200)
    ∷ (revoke (pos 4663) "0xaa" "spam", 3000)
    ∷ []

empty-Inv : Inv limits empty_table
unfolding pending_count_for pending_count
empty-Inv = record { per_ip = λ ip. omega arith; in_all = omega arith; coherent = tt }

history-Inv_example : Inv limits (run limits history empty_table)
history-Inv_example = history-Inv limits history empty_table empty-Inv

abbrev first_row : TokenAttestation
first_row = inserted_row (submission_of "0xbb") 1 1000

abbrev second_row : TokenAttestation
second_row = record (inserted_row (submission_of "0xcc") 2 900) { verify_status = verified }

abbrev stored : Attestations
stored = record { rows = first_row ∷ second_row ∷ []; next_id = 3 }

history-Extends_example : Extends stored.rows (run limits history stored).rows
history-Extends_example = history-Extends limits history stored

abbrev receipt : ReceiptView
receipt = record {
  status = ReceiptStatus.reverted;
  block_timestamp = 900;
  block_number = some 100;
  erc20_transfers = [];
  transaction_value_raw = none;
  logs = some [];
}

abbrev reader : ChainReader
reader = record {
  get_receipt = λ tx_hash. Fetched.returned (some receipt);
  get_head_block_number = some (some 120);
  corroborate_missing_receipt = none;
}

abbrev deps : AttestationVerifyDeps
deps = record {
  config = record {
    attest_backoff_schedule = codes "1m" ∷ [];
    attest_max_age_days = 7;
    attest_min_confirmations = 12;
    attest_worker_batch = 10;
    attest_worker_lease_ms = 60000;
  };
  now = 2000;
  resolve_chain = λ key. resolve_chain key;
  chain_reader_for = λ entry context. reader;
  chain_registry = λ chain_id. build_attestation_chain_registry (λ id. none) chain_id;
  token_created_topic = "0x70";
  decode_event_log = λ log. none;
}

run-IsPass_example :
    IsPass limits deps
      (λ id. false)
      (λ id. true)
      stored
      (run_attestation_verification_pass (λ id. false) (λ id. true) deps stored)
run-IsPass_example = run-IsPass limits deps (λ id. false) (λ id. true) stored
