-- ===== src/Server/Attestations/History.antt =====
-- Histories of the table: any order of submissions, leases, outcomes and revocations.
use vex_agentscan.Base.{ℕ, String, Bool, List, [], ◌∷◌}
use vex_agentscan.Base.Int.{ℤ}
use vex_agentscan.Server.Attestations.{
  Attestations, AttestSubmission, AttestSubmissionLimits, submit_attestation,
}
use vex_agentscan.Server.Attestations.Outcomes.{
  AttestationTerminalVerdict, claim_due_attestations, reschedule_attestation,
  terminalize_unverifiable, finalize_attestation, revoke_attestations,
}

pub data Operation : Type 0 where
  submit : AttestSubmission → Operation
  claim : (locked : ℕ → Bool) → (limit lease_ms : ℕ) → Operation
  reschedule : (id delay_ms : ℕ) → Operation
  terminalize : (id : ℕ) → Operation
  finalize : (id : ℕ) → AttestationTerminalVerdict → Operation
  revoke : ℤ → (token_address reason : String) → Operation

unfoldable pub operate : AttestSubmissionLimits → Operation → ℕ → Attestations → Attestations
operate limits (submit s) now db = (submit_attestation limits s now db).0
operate limits (claim locked limit lease_ms) now db =
    (claim_due_attestations locked limit lease_ms now db).0
operate limits (reschedule id delay_ms) now db = reschedule_attestation id delay_ms now db
operate limits (terminalize id) now db = terminalize_unverifiable id db
operate limits (finalize id verdict) now db = finalize_attestation id verdict now db
operate limits (revoke chain_id token_address reason) now db =
    (revoke_attestations chain_id token_address reason now db).0

-- The operations of a history, each at the time it ran.
unfoldable pub run : AttestSubmissionLimits → List (Operation × ℕ) → Attestations → Attestations
run limits [] db = db
run limits ((operation, now) ∷ rest) db = run limits rest (operate limits operation now db)
