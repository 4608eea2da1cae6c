-- ===== src/Core/Attestation.antt =====
-- packages/core/src/attestation-precedence.ts.
pub mod Best
pub mod Evaluate
pub mod Factories
pub mod Proof
use vex_agentscan.Base.{
  ℕ, ◌≤◌, Bool, true, false, List, [], ◌∷◌, Option, none, some, ltb, arith, ◌≡◌, if◌then◌else◌, All,
  inl, inr, refl,
}

pub data AttestationVerifyStatus : Type 0 where
  unverified verified mismatch unverifiable : AttestationVerifyStatus

pub data AttestationDisplayStatus : Type 0 where
  shown : AttestationVerifyStatus → AttestationDisplayStatus
  revoked : AttestationDisplayStatus

pub record AttestationCandidate : Type 0 where
  pub verify_status : AttestationVerifyStatus
  pub revoked_at : Option ℕ
  pub first_seen_at : ℕ

pub data AttestationSignal : Type 0 where
  creator_attested onchain_verified : AttestationSignal

unfoldable pub display_status_rank : AttestationDisplayStatus → ℕ
display_status_rank (shown verified) = 0
display_status_rank (shown unverified) = 1
display_status_rank (shown mismatch) = 2
display_status_rank (shown unverifiable) = 2
display_status_rank revoked = 3

unfoldable pub display_status_of : AttestationCandidate → AttestationDisplayStatus
display_status_of candidate = elim candidate.revoked_at [
  | none ↦ shown candidate.verify_status
  | some t ↦ revoked
]

abbrev pub rank_of : AttestationCandidate → ℕ
rank_of candidate = display_status_rank (display_status_of candidate)

-- One step of the `reduce`, where there is a best candidate so far.
unfoldable pub better_candidate : AttestationCandidate → AttestationCandidate → AttestationCandidate
better_candidate best candidate =
    if ltb (rank_of candidate) (rank_of best)
    then candidate
    else if ltb (rank_of best) (rank_of candidate)
    then best
    else if ltb candidate.first_seen_at best.first_seen_at
    then candidate
    else best

unfoldable pub best_from : AttestationCandidate → List AttestationCandidate → AttestationCandidate
best_from best [] = best
best_from best (candidate ∷ candidates) = best_from (better_candidate best candidate) candidates

unfoldable pub best_attestation_candidate : List AttestationCandidate → Option AttestationCandidate
best_attestation_candidate [] = none
best_attestation_candidate (candidate ∷ candidates) = some (best_from candidate candidates)

unfoldable pub attestation_signals_for : AttestationDisplayStatus → List AttestationSignal
attestation_signals_for revoked = []
attestation_signals_for (shown verified) = creator_attested ∷ onchain_verified ∷ []
attestation_signals_for (shown status) = creator_attested ∷ []
