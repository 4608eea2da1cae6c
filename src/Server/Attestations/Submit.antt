-- ===== src/Server/Attestations/Submit.antt =====
-- The branches of `submitAttestation`.
use vex_agentscan.Base.{ℕ, Bool, true, false, Option, none, some, leb, ◌≡◌, refl, if◌then◌else◌}
use vex_agentscan.Server.Attestations.{
  TokenAttestation, Attestations, AttestSubmission, AttestSubmissionLimits, AttestSubmissionOutcome,
  existing_row, refresh_existing_row, insert_row, pending_count_for, pending_count, submit_at,
  submit_attestation,
}

module _ (P : Attestations → Type 0) where
  branch :
      (b : Bool) (x y : Attestations × AttestSubmissionOutcome)
      → P x.0
      → (b ≡ false → P y.0)
      → P (if b then x else y).0
  branch true x y h k = h
  branch false x y h k = k refl

-- What holds of the table as it is, of a refreshed row, and of a row that both caps let in, holds
-- after a submission.
module _ (limits : AttestSubmissionLimits) (s : AttestSubmission) (now : ℕ) (db : Attestations)
    (P : Attestations → Type 0) where
  at_elim :
      (existing : Option TokenAttestation)
      → ((row : TokenAttestation) → existing ≡ some row → P (refresh_existing_row row s db).0)
      → P db
      → (leb limits.max_pending_per_ip (pending_count_for s.submitter_ip_hash db) ≡ false
          → leb limits.max_pending_global (pending_count db) ≡ false
          → P (insert_row s now db).0)
      → P (submit_at existing limits s now db).0
  unfolding submit_at
  at_elim (some row) old same new = old row refl
  at_elim none old same new =
      branch P _ _ _ same (λ ip_free. branch P _ _ _ same (λ free. new ip_free free))

  pub submit_elim :
      ((row : TokenAttestation)
        → existing_row s db ≡ some row
        → P (refresh_existing_row row s db).0)
      → P db
      → (leb limits.max_pending_per_ip (pending_count_for s.submitter_ip_hash db) ≡ false
          → leb limits.max_pending_global (pending_count db) ≡ false
          → P (insert_row s now db).0)
      → P (submit_attestation limits s now db).0
  unfolding submit_attestation
  submit_elim old same new = at_elim (existing_row s db) old same new
