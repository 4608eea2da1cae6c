-- ===== src/Server/Attestations/Outcomes.antt =====
-- apps/server/src/repos/token-attestations-verify-repo.ts: the lease, the outcomes and the revocation.
use vex_agentscan.Base.{
  ℕ, suc, ◌+◌, String, Bool, not, ◌&&◌, List, some, leb, length, keep_if, take, contains, map, sort,
  ◌==◌, nat_eq,
}
use vex_agentscan.Base.Int.{ℤ}
use vex_agentscan.Core.Attestation.{verified, mismatch, unverifiable}
use vex_agentscan.Core.Attestation.Evaluate.{AttestationMismatchDetail}
use vex_agentscan.Server.Attestations.{
  never_verified, mismatched, TokenAttestation, Attestations, is_null, is_pending, is_undecided,
  is_of_token, update_where,
}

abbrev pub leased_until : ℕ → TokenAttestation → TokenAttestation
leased_until until row = record row { next_attempt_at = until }

abbrev pub ids_of : List TokenAttestation → List ℕ
ids_of rows = map (λ row. row.id) rows

abbrev pub is_claimable : (locked : ℕ → Bool) → ℕ → TokenAttestation → Bool
is_claimable locked now row = is_pending row && leb row.next_attempt_at now && not (locked row.id)

-- The lease on due rows that no other worker has locked, oldest first, up to the limit.
unfoldable pub claim_due_attestations :
    (locked : ℕ → Bool)
    → (limit lease_ms now : ℕ) → Attestations
    → Attestations × List TokenAttestation
claim_due_attestations locked limit lease_ms now db =
    let claimed = take limit (
      sort (λ a b. leb a.next_attempt_at b.next_attempt_at)
        (keep_if (is_claimable locked now) db.rows)) in
    (
      record db {
        rows =
            update_where (λ row. contains (ids_of claimed) row.id) (leased_until (now + lease_ms))
              db.rows;
      },
      claimed,
    )

abbrev pub attempted : ℕ → TokenAttestation → TokenAttestation
attempted next_attempt_at row = record row {
  attempt_count = suc row.attempt_count;
  next_attempt_at = next_attempt_at;
}

unfoldable pub reschedule_attestation : ℕ → (delay_ms now : ℕ) → Attestations → Attestations
reschedule_attestation id delay_ms now db = record db {
  rows = update_where (λ row. row.id == id) (attempted (now + delay_ms)) db.rows;
}

abbrev pub never_verified_row : TokenAttestation → TokenAttestation
never_verified_row row = record row {
  verify_status = unverifiable;
  verify_detail = some never_verified;
}

unfoldable pub terminalize_unverifiable : ℕ → Attestations → Attestations
terminalize_unverifiable id db = record db {
  rows = update_where (is_undecided id) never_verified_row db.rows;
}

pub data AttestationTerminalVerdict : Type 0 where
  proven : (derived_tx_hash : String) → AttestationTerminalVerdict
  refuted : AttestationMismatchDetail → AttestationTerminalVerdict

abbrev pub decided_row : AttestationTerminalVerdict → ℕ → TokenAttestation → TokenAttestation
decided_row (proven derived_tx_hash) now row = record row {
  verify_status = verified;
  verified_at = some now;
  derived_tx_hash = some derived_tx_hash;
}
decided_row (refuted detail) now row = record row {
  verify_status = mismatch;
  verify_detail = some (mismatched detail);
}

unfoldable pub finalize_attestation :
    ℕ → AttestationTerminalVerdict → (now : ℕ) → Attestations → Attestations
finalize_attestation id verdict now db = record db {
  rows = update_where (is_undecided id) (decided_row verdict now) db.rows;
}

abbrev pub is_unrevoked_of : ℤ → String → TokenAttestation → Bool
is_unrevoked_of chain_id token_address row =
    is_of_token chain_id token_address row && is_null row.revoked_at

abbrev pub revoked_row : String → ℕ → TokenAttestation → TokenAttestation
revoked_row reason now row = record row { revoked_at = some now; revoke_reason = some reason }

-- The rows that are revoked are counted before the write.
unfoldable pub revoke_attestations :
    ℤ → String → (reason : String) → (now : ℕ) → Attestations → Attestations × ℕ
revoke_attestations chain_id token_address reason now db = (
  record db {
    rows = update_where (is_unrevoked_of chain_id token_address) (revoked_row reason now) db.rows;
  },
  length (keep_if (is_unrevoked_of chain_id token_address) db.rows),
)
