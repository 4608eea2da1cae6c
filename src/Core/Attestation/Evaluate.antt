-- ===== src/Core/Attestation/Evaluate.antt =====
-- packages/core/src/verification/evaluate-attestation.ts.
use vex_agentscan.Base.{
  ℕ, String, Bool, true, false, List, [], ◌∷◌, Option, none, some, keep_if, any, if◌then◌else◌,
}
use vex_agentscan.Base.Int.{pos, ◌-ℤ◌, ltb_ℤ}
use vex_agentscan.Core.Verification.{ReceiptStatus, success, reverted, same_address}

pub record AttestationCreationEvent : Type 0 where
  pub emitter_address : String
  pub token_address : String
  pub creator_address : String

pub record AttestationReceiptView : Type 0 where
  pub status : ReceiptStatus
  pub block_number : ℕ
  pub creation_events : List AttestationCreationEvent

pub record AttestationVerificationInput : Type 0 where
  pub token_address : String
  pub recovered_signer : String
  pub allowlisted_factory_addresses : List String
  pub head_block_number : ℕ
  pub min_confirmations : ℕ

pub data AttestationMismatchDetail : Type 0 where
  tx_reverted wrong_token creator_mismatch emitter_not_allowlisted : AttestationMismatchDetail

pub data AttestationRetry : Type 0 where
  receipt_not_found confirmations_pending allowlist_unconfigured : AttestationRetry

pub data AttestationVerdict : Type 0 where
  verified : AttestationVerdict
  mismatch : AttestationMismatchDetail → AttestationVerdict
  retry : AttestationRetry → AttestationVerdict

-- The difference of two `bigint`s, which is negative where the head lags behind the receipt.
unfoldable pub confirmations_below_threshold :
    (block_number head_block_number min_confirmations : ℕ) → Bool
confirmations_below_threshold block_number head_block_number min_confirmations =
    ltb_ℤ (pos head_block_number -ℤ pos block_number) (pos min_confirmations)

abbrev pub names_token : AttestationVerificationInput → AttestationCreationEvent → Bool
names_token input event = same_address event.token_address input.token_address

abbrev pub from_allowlisted_factory : AttestationVerificationInput → AttestationCreationEvent → Bool
from_allowlisted_factory input event =
    any (λ factory_address. same_address factory_address event.emitter_address)
      input.allowlisted_factory_addresses

abbrev pub by_recovered_signer : AttestationVerificationInput → AttestationCreationEvent → Bool
by_recovered_signer input event = same_address event.creator_address input.recovered_signer

abbrev pub is_empty {ℓ} : {A : Type ℓ} → List A → Bool
is_empty [] = true
is_empty (x ∷ xs) = false

abbrev pub is_reverted : ReceiptStatus → Bool
is_reverted success = false
is_reverted reverted = true

unfoldable pub evaluate_attestation_verification :
    Option AttestationReceiptView → AttestationVerificationInput → AttestationVerdict
evaluate_attestation_verification none input = retry receipt_not_found
evaluate_attestation_verification (some receipt) input =
    let naming_claimed_token = keep_if (names_token input) receipt.creation_events in
    let from_allowlisted = keep_if (from_allowlisted_factory input) naming_claimed_token in
    if confirmations_below_threshold receipt.block_number input.head_block_number
      input.min_confirmations
    then retry confirmations_pending
    else if is_reverted receipt.status
    then mismatch tx_reverted
    else if is_empty naming_claimed_token
    then mismatch wrong_token
    else if is_empty from_allowlisted
    then (if is_empty input.allowlisted_factory_addresses
        then retry allowlist_unconfigured
        else mismatch emitter_not_allowlisted)
    else if any (by_recovered_signer input) from_allowlisted
    then verified
    else mismatch creator_mismatch
