-- ===== src/Core/Attestation/Best.antt =====
-- The candidate that `bestAttestationCandidate` returns is not worse than any other.
use vex_agentscan.Base.{◌≤◌, arith, ◌≡◌}
use vex_agentscan.Core.Attestation.{AttestationCandidate, rank_of}

-- `a` is at least as good as `b`: of a smaller rank, or of the same and not seen later.
abbrev pub IsAsGood : AttestationCandidate → AttestationCandidate → Type 0
IsAsGood a b = (rank_of a ≤ rank_of b) × (rank_of a ≡ rank_of b → a.first_seen_at ≤ b.first_seen_at)

pub IsAsGood-trans : (a b c : AttestationCandidate) → IsAsGood a b → IsAsGood b c → IsAsGood a c
IsAsGood-trans a b c h k = ground arith
