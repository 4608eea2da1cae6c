-- ===== src/Core/Attestation/Proof.antt =====
-- What the verdict of `evaluateAttestationVerification` says of the receipt.
use vex_agentscan.Base.{
  ℕ, ◌+◌, ◌≤◌, Bool, true, false, ◌&&◌, List, [], ◌∷◌, some, arith, keep_if, any, ◌≡◌, ◌↔◌, refl,
  ◌∙◌,
}
use vex_agentscan.Base.Int.{pos, -ℤ_parts}
use vex_agentscan.Core.Verification.{success}
use vex_agentscan.Core.Attestation.Evaluate.{
  AttestationCreationEvent, AttestationReceiptView, AttestationVerificationInput,
  AttestationMismatchDetail, verified, is_empty, mismatch, confirmations_below_threshold,
  names_token, from_allowlisted_factory, by_recovered_signer, evaluate_attestation_verification,
}

-- An event that proves the attestation: it names the token, an allowlisted factory emitted it, and
-- its creator is the signer.
abbrev pub proves : AttestationVerificationInput → AttestationCreationEvent → Bool
proves input event =
    names_token input event
    && (from_allowlisted_factory input event && by_recovered_signer input event)

pub record IsAttested (receipt : AttestationReceiptView) (input : AttestationVerificationInput)
    : Type 0 where
  pub confirmed : receipt.block_number + input.min_confirmations ≤ input.head_block_number
  pub succeeded : receipt.status ≡ success
  pub proven : any (proves input) receipt.creation_events ≡ true

confirmations_lem :
    (block_number head min : ℕ)
    → (confirmations_below_threshold block_number head min ≡ false) ↔ (block_number + min ≤ head)
unfolding confirmations_below_threshold
confirmations_lem block_number head min = ground (arith, -ℤ_parts (pos head) (pos block_number))

any-keep_if {ℓ} :
    {A : Type ℓ} (p q : A → Bool) (xs : List A) → any q (keep_if p xs) ≡ any (λ x. p x && q x) xs
any-keep_if p q [] = refl
any-keep_if p q (x ∷ xs) = ground (arith, any-keep_if p q xs)

any-nonempty {ℓ} : {A : Type ℓ} (q : A → Bool) (xs : List A) → any q xs ≡ true → is_empty xs ≡ false
any-nonempty q [] h = ground arith
any-nonempty q (x ∷ xs) h = refl

keep_if-nonempty {ℓ} :
    {A : Type ℓ} (p : A → Bool) (xs : List A)
    → is_empty (keep_if p xs) ≡ false
    → is_empty xs ≡ false
keep_if-nonempty p [] h = h
keep_if-nonempty p (x ∷ xs) h = refl

any-proves :
    (input : AttestationVerificationInput) (events : List AttestationCreationEvent)
    → any
        (by_recovered_signer input)
        (keep_if (from_allowlisted_factory input) (keep_if (names_token input) events))
      ≡ any (proves input) events
any-proves input events =
    any-keep_if (from_allowlisted_factory input) (by_recovered_signer input)
      (keep_if (names_token input) events)
    ∙ any-keep_if (names_token input) _ events

-- An attestation is verified exactly where its receipt has the confirmations, did not revert, and
-- holds an event that names the token, comes from an allowlisted factory and has the signer as its
-- creator.
pub verified-IsAttested :
    (receipt : AttestationReceiptView) (input : AttestationVerificationInput)
    → (evaluate_attestation_verification (some receipt) input ≡ verified) ↔ IsAttested receipt input
unfolding evaluate_attestation_verification
verified-IsAttested receipt input =
    let named = keep_if (names_token input) receipt.creation_events in
    let kept = keep_if (from_allowlisted_factory input) named in
    let confirmed =
      confirmations_lem receipt.block_number input.head_block_number input.min_confirmations in
    let proven = any-proves input receipt.creation_events in
    let nonempty = any-nonempty (by_recovered_signer input) kept in
    (
      λ h. record {
        confirmed = ground (arith, confirmed, h);
        succeeded = ground (arith, h);
        proven = ground (arith, proven, h);
      },
      λ is. ground (
        arith,
        confirmed,
        is.confirmed,
        is.succeeded,
        is.proven,
        proven,
        nonempty,
        keep_if-nonempty (from_allowlisted_factory input) named,
      ),
    )

pub mismatch_confirmed :
    (receipt : AttestationReceiptView) (input : AttestationVerificationInput)
    (detail : AttestationMismatchDetail)
    → evaluate_attestation_verification (some receipt) input ≡ mismatch detail
    → receipt.block_number + input.min_confirmations ≤ input.head_block_number
unfolding evaluate_attestation_verification
mismatch_confirmed receipt input detail h =
    let confirmed =
      confirmations_lem receipt.block_number input.head_block_number input.min_confirmations in
    ground (arith, confirmed, h)
