-- ===== src/Server/Attestations/Lookup.antt =====
-- The row that the lookup of a token shows is the best of all its rows.
use vex_agentscan.Base.{List, [], ◌∷◌, arith, All, nat_eq}
use vex_agentscan.Core.Attestation.{AttestationCandidate}
use vex_agentscan.Core.Attestation.Best.{IsAsGood}
use vex_agentscan.Server.Attestations.{TokenAttestation, Attestations, candidate_of}

abbrev IsAsGoodRow : TokenAttestation → TokenAttestation → Type 0
IsAsGoodRow a b = IsAsGood (candidate_of a) (candidate_of b)

IsAsGood-refl : (c : AttestationCandidate) → IsAsGood c c
IsAsGood-refl c = ground arith

-- The first row is as good as every row.
abbrev HasBestFirst : List TokenAttestation → Type 0
HasBestFirst [] = Unit
HasBestFirst (row ∷ rows) = All (IsAsGoodRow row) rows
