-- ===== src/Server/Attestations/Verify/Sound.antt =====
-- What stands behind a final outcome of `resolveAttestationOutcome`.
use vex_agentscan.Base.{
  ℕ, ◌+◌, ◌≤◌, String, Bool, true, false, Option, none, some, arith, ◌≡◌, inl, inr, refl,
  Option-cases, Bool-cases,
}
use vex_agentscan.Base.Text.{codes}
use vex_agentscan.Core.Chains.{ChainEntry}
use vex_agentscan.Core.Verification.{ReceiptView}
use vex_agentscan.Core.Attestation.Evaluate.{
  AttestationReceiptView, AttestationVerdict, verified, mismatch, retry,
  evaluate_attestation_verification,
}
use vex_agentscan.Core.Attestation.Proof.{IsAttested, verified-IsAttested, mismatch_confirmed}
use vex_agentscan.Server.Worker.{
  ChainReader, returned, ReceiptRead, receipt, not_found, error, read_receipt,
}
use vex_agentscan.Server.Attestations.{TokenAttestation}
use vex_agentscan.Server.Attestations.Verify.{
  AttestationVerifyDeps, AttestationJobOutcome, reschedule, terminalize, finalize_verified,
  finalize_mismatch, is_well_formed_hash, attest_chain_key, read_head_block_number,
  attestation_receipt_view_from, schedule_or_give_up, attestation_input_from, outcome_of_verdict,
  outcome_of_read, reader_of, outcome_of_hash, resolve_attestation_outcome, resolve_outcome_safely,
}

abbrev pub is_final : AttestationJobOutcome → Bool
is_final (reschedule delay_ms) = false
is_final terminalize = false
is_final _ = true

module _ (job : TokenAttestation) (deps : AttestationVerifyDeps) where
  -- What a receipt and a head block justify.
  abbrev pub Justifies : String → AttestationReceiptView → ℕ → AttestationJobOutcome → Type 0
  Justifies tx_hash view head (finalize_verified derived_tx_hash) =
      (derived_tx_hash ≡ tx_hash) × IsAttested view (attestation_input_from job deps head)
  Justifies tx_hash view head (finalize_mismatch detail) =
      (view.block_number + deps.config.attest_min_confirmations ≤ head)
      × ¬ IsAttested view (attestation_input_from job deps head)
  Justifies tx_hash view head _ = Unit

  -- What was read: the receipt of the hint and the head of its chain.
  pub record IsRead (outcome : AttestationJobOutcome) : Type 0 where
    pub tx_hash : String
    pub entry : ChainEntry
    pub r : ReceiptView
    pub view : AttestationReceiptView
    pub head : ℕ
    pub hinted : job.tx_hash_hint ≡ some tx_hash
    pub well_formed : is_well_formed_hash (codes tx_hash) ≡ true
    pub known : deps.resolve_chain (attest_chain_key job) ≡ some entry
    pub received : (reader_of entry deps).get_receipt tx_hash ≡ returned (some r)
    pub headed : (reader_of entry deps).get_head_block_number ≡ some (some head)
    pub viewed : attestation_receipt_view_from deps r ≡ some view
    pub justified : Justifies tx_hash view head outcome

  schedule-not_final :
      (outcome : AttestationJobOutcome)
      → schedule_or_give_up job deps ≡ some outcome
      → is_final outcome ≡ true
      → ⊥
  unfolding schedule_or_give_up
  schedule-not_final outcome h f = ground arith

  verdict-Justifies :
      (verdict : AttestationVerdict) (tx_hash : String) (view : AttestationReceiptView) (head : ℕ)
      (outcome : AttestationJobOutcome)
      → evaluate_attestation_verification (some view) (attestation_input_from job deps head)
        ≡ verdict
      → outcome_of_verdict verdict tx_hash job deps ≡ some outcome
      → is_final outcome ≡ true
      → Justifies tx_hash view head outcome
  unfolding outcome_of_verdict
  verdict-Justifies (retry reason) tx_hash view head outcome e h f =
      absurd (schedule-not_final outcome h f)
  verdict-Justifies (mismatch detail) tx_hash view head (finalize_mismatch d) e h f = (
    mismatch_confirmed view (attestation_input_from job deps head) detail e,
    λ is. ground (arith, e, (verified-IsAttested view (attestation_input_from job deps head)).1 is),
  )
  verdict-Justifies verified tx_hash view head (finalize_verified hash) e h f =
      (ground (arith, h), (verified-IsAttested view (attestation_input_from job deps head)).0 e)
  verdict-Justifies (mismatch detail) tx_hash view head (finalize_verified hash) e h f =
      absurd (ground (arith, h))
  verdict-Justifies verified tx_hash view head (finalize_mismatch d) e h f =
      absurd (ground (arith, h))
  verdict-Justifies (mismatch detail) tx_hash view head (reschedule delay_ms) e h f = tt
  verdict-Justifies (mismatch detail) tx_hash view head terminalize e h f = tt
  verdict-Justifies verified tx_hash view head (reschedule delay_ms) e h f = tt
  verdict-Justifies verified tx_hash view head terminalize e h f = tt

  -- The rest of the chain, from what was read of a receipt and of the head.
  unseen_lem :
      (r : ReceiptView) (head : ℕ) (tx_hash : String) (outcome : AttestationJobOutcome)
      → attestation_receipt_view_from deps r ≡ none
      → outcome_of_read (receipt r) (some head) tx_hash job deps ≡ some outcome
      → schedule_or_give_up job deps ≡ some outcome
  unfolding outcome_of_read outcome_of_verdict evaluate_attestation_verification
  unseen_lem r head tx_hash outcome unseen h = ground (arith, unseen, h)

  read_lem :
      (read : ReceiptRead) (head : Option ℕ) (tx_hash : String) (outcome : AttestationJobOutcome)
      → outcome_of_read read head tx_hash job deps ≡ some outcome
      → is_final outcome ≡ true
      → (r : ReceiptView) × (n : ℕ) × (view : AttestationReceiptView) × (read ≡ receipt r)
        × (head ≡ some n)
        × (attestation_receipt_view_from deps r ≡ some view)
        × Justifies tx_hash view n outcome
  unfolding outcome_of_read
  read_lem not_found head tx_hash outcome h f = absurd (schedule-not_final outcome h f)
  read_lem (error message) head tx_hash outcome h f = absurd (schedule-not_final outcome h f)
  read_lem (receipt r) none tx_hash outcome h f = absurd (schedule-not_final outcome h f)
  read_lem (receipt r) (some n) tx_hash outcome h f =
      elim (Option-cases (attestation_receipt_view_from deps r)) [
        | inl unseen ↦
            absurd (schedule-not_final outcome (unseen_lem r n tx_hash outcome unseen h) f)
        | inr (view, seen) ↦
            let verdict =
              evaluate_attestation_verification (some view) (attestation_input_from job deps n) in
            (
              r,
              n,
              view,
              refl,
              refl,
              seen,
              verdict-Justifies verdict tx_hash view n outcome refl (ground (arith, seen, h)) f,
            )
      ]

  receipt_lem :
      (reader : ChainReader) (tx_hash : String) (r : ReceiptView)
      → read_receipt reader tx_hash ≡ receipt r
      → reader.get_receipt tx_hash ≡ returned (some r)
  unfolding read_receipt
  receipt_lem reader tx_hash r h = ground arith

  head_lem :
      (reader : ChainReader) (head : ℕ)
      → read_head_block_number reader ≡ some head
      → reader.get_head_block_number ≡ some (some head)
  unfolding read_head_block_number
  head_lem reader head h = ground arith

  hash-IsRead :
      (tx_hash : String) (outcome : AttestationJobOutcome)
      → job.tx_hash_hint ≡ some tx_hash
      → is_well_formed_hash (codes tx_hash) ≡ true
      → outcome_of_hash tx_hash job deps ≡ some outcome
      → is_final outcome ≡ true
      → IsRead outcome
  unfolding outcome_of_hash
  hash-IsRead tx_hash outcome hinted formed h f =
      elim (Option-cases (deps.resolve_chain (attest_chain_key job))) [
        | inl unknown ↦ absurd (schedule-not_final outcome (ground (arith, unknown, h)) f)
        | inr (entry, known) ↦
            let reader = reader_of entry deps in
            let (r, head, view, received, headed, viewed, justified) =
              read_lem (read_receipt reader tx_hash) (read_head_block_number reader) tx_hash outcome
                (ground (arith, known, h)) f in
            record {
              tx_hash = tx_hash;
              entry = entry;
              r = r;
              view = view;
              head = head;
              hinted = hinted;
              well_formed = formed;
              known = known;
              received = receipt_lem reader tx_hash r received;
              headed = head_lem reader head headed;
              viewed = viewed;
              justified = justified;
            }
      ]

  resolved-IsRead :
      (outcome : AttestationJobOutcome)
      → resolve_attestation_outcome job deps ≡ some outcome
      → is_final outcome ≡ true
      → IsRead outcome
  unfolding resolve_attestation_outcome
  resolved-IsRead outcome h f = elim (Option-cases job.tx_hash_hint) [
    | inl unhinted ↦ absurd (schedule-not_final outcome (ground (arith, unhinted, h)) f)
    | inr (tx_hash, hinted) ↦ elim (Bool-cases (is_well_formed_hash (codes tx_hash))) [
      | inl formed ↦ hash-IsRead tx_hash outcome hinted formed (ground (arith, hinted, formed, h)) f
      | inr malformed ↦ absurd (schedule-not_final outcome (ground (arith, hinted, malformed, h)) f)
    ]
  ]

  -- A final outcome of an attestation's job rests on a receipt that the chain's reader returned for
  -- its well-formed hint, and on the head of that chain: a verified one on a receipt that attests
  -- the token, a mismatch on a confirmed receipt that does not. Where the hint, the chain, the
  -- receipt or the head is missing or fails to be read, the outcome is not final.
  pub resolved_outcome-IsRead :
      (outcome : AttestationJobOutcome)
      → resolve_outcome_safely job deps ≡ some outcome
      → is_final outcome ≡ true
      → IsRead outcome
  unfolding resolve_outcome_safely
  resolved_outcome-IsRead outcome h f = elim (Option-cases (resolve_attestation_outcome job deps)) [
    | inl thrown ↦ absurd (schedule-not_final outcome (ground (arith, thrown, h)) f)
    | inr (o, resolved) ↦ resolved-IsRead outcome (ground (arith, resolved, h)) f
  ]
