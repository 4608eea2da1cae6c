-- ===== src/Server/Attestations.antt =====
-- apps/server/src/repos/token-attestations-repo.ts, over the table `token_attestations`. Each operation is one transaction; the advisory lock of a submission
-- is held to its end. A call reads the clock once.
pub mod Outcomes
pub mod History
pub mod Submit
pub mod Limits
pub mod Final
pub mod Verify
pub mod Lookup
pub mod Route
use vex_agentscan.Base.{
  ℕ, suc, ◌+◌, String, Bool, true, false, not, ◌&&◌, List, [], ◌∷◌, ◌++◌, Option, none, some, leb,
  ltb, length, keep_if, take, contains, find, map, sort, ◌==◌, nat_eq, string_eq, coalesce,
  if◌then◌else◌,
}
use vex_agentscan.Base.Int.{ℤ, int_eq}
use vex_agentscan.Core.Attestation.{
  AttestationVerifyStatus, unverified, verified, mismatch, unverifiable, AttestationCandidate,
}
use vex_agentscan.Core.Attestation.Evaluate.{AttestationMismatchDetail}

pub data VerifyDetail : Type 0 where
  never_verified : VerifyDetail
  mismatched : AttestationMismatchDetail → VerifyDetail

pub record TokenAttestation : Type 0 where
  pub id : ℕ
  pub chain_id : ℤ
  pub token_address : String
  pub recovered_signer : String
  pub attest_signature : String
  pub tx_hash_hint : Option String
  pub derived_tx_hash : Option String
  pub verify_status : AttestationVerifyStatus
  pub verify_detail : Option VerifyDetail
  pub verified_at : Option ℕ
  pub revoked_at : Option ℕ
  pub revoke_reason : Option String
  pub submitter_ip_hash : String
  pub first_seen_at : ℕ
  pub attempt_count : ℕ
  pub next_attempt_at : ℕ

-- The table and the sequence of its ids.
pub record Attestations : Type 0 where
  pub rows : List TokenAttestation
  pub next_id : ℕ

pub record AttestSubmission : Type 0 where
  pub chain_id : ℤ
  pub token_address : String
  pub recovered_signer : String
  pub attest_signature : String
  pub tx_hash_hint : Option String
  pub submitter_ip_hash : String

pub record AttestSubmissionLimits : Type 0 where
  pub max_pending_per_ip : ℕ
  pub max_pending_global : ℕ

pub data AttestSubmissionOutcome : Type 0 where
  accepted : AttestationVerifyStatus → AttestSubmissionOutcome
  per_ip_cap_exceeded global_cap_exceeded : AttestSubmissionOutcome

abbrev pub is_unverified : AttestationVerifyStatus → Bool
is_unverified unverified = true
is_unverified _ = false

abbrev pub is_null {ℓ} : {A : Type ℓ} → Option A → Bool
is_null none = true
is_null (some a) = false

-- `PENDING_PREDICATE`
abbrev pub is_pending : TokenAttestation → Bool
is_pending row = is_unverified row.verify_status && is_null row.revoked_at

-- UPDATE ... SET f WHERE p
unfoldable pub update_where :
    (TokenAttestation → Bool)
    → (TokenAttestation → TokenAttestation)
    → List TokenAttestation
    → List TokenAttestation
update_where p f [] = []
update_where p f (row ∷ rows) = (if p row then f row else row) ∷ update_where p f rows

abbrev pub is_row_of : AttestSubmission → TokenAttestation → Bool
is_row_of s row =
    row.chain_id == s.chain_id
    && row.token_address == s.token_address
    && row.recovered_signer == s.recovered_signer

unfoldable pub existing_row : AttestSubmission → Attestations → Option TokenAttestation
existing_row s db = find (is_row_of s) db.rows

-- `id = $1 AND verify_status = 'unverified'`
abbrev pub is_undecided : ℕ → TokenAttestation → Bool
is_undecided id row = row.id == id && is_unverified row.verify_status

abbrev pub with_hint : Option String → TokenAttestation → TokenAttestation
with_hint hint row = record row { tx_hash_hint = coalesce row.tx_hash_hint hint }

unfoldable pub refresh_existing_row :
    TokenAttestation → AttestSubmission → Attestations → Attestations × AttestationVerifyStatus
refresh_existing_row existing s db =
    if is_unverified existing.verify_status
    then (
      record db {
        rows = update_where (is_undecided existing.id) (with_hint s.tx_hash_hint) db.rows;
      },
      unverified,
    )
    else (db, existing.verify_status)

abbrev pub is_pending_of : String → TokenAttestation → Bool
is_pending_of ip_hash row = row.submitter_ip_hash == ip_hash && is_pending row

-- `pendingCountFor`, for one submitter and for all.
unfoldable pub pending_count_for : String → Attestations → ℕ
pending_count_for ip_hash db = length (keep_if (is_pending_of ip_hash) db.rows)

unfoldable pub pending_count : Attestations → ℕ
pending_count db = length (keep_if is_pending db.rows)

abbrev pub inserted_row : AttestSubmission → ℕ → ℕ → TokenAttestation
inserted_row s id now = record {
  id = id;
  chain_id = s.chain_id;
  token_address = s.token_address;
  recovered_signer = s.recovered_signer;
  attest_signature = s.attest_signature;
  tx_hash_hint = s.tx_hash_hint;
  derived_tx_hash = none;
  verify_status = unverified;
  verify_detail = none;
  verified_at = none;
  revoked_at = none;
  revoke_reason = none;
  submitter_ip_hash = s.submitter_ip_hash;
  first_seen_at = now;
  attempt_count = 0;
  next_attempt_at = now;
}

unfoldable pub insert_row :
    AttestSubmission → ℕ → Attestations → Attestations × AttestationVerifyStatus
insert_row s now db = (
  record { rows = db.rows ++ inserted_row s db.next_id now ∷ []; next_id = suc db.next_id },
  unverified,
)

unfoldable pub submit_at :
    Option TokenAttestation
    → AttestSubmissionLimits
    → AttestSubmission
    → ℕ
    → Attestations
    → Attestations × AttestSubmissionOutcome
submit_at (some existing) limits s now db =
    let (refreshed, status) = refresh_existing_row existing s db in (refreshed, accepted status)
submit_at none limits s now db =
    let (inserted, status) = insert_row s now db in
    if leb limits.max_pending_per_ip (pending_count_for s.submitter_ip_hash db)
    then (db, per_ip_cap_exceeded)
    else if leb limits.max_pending_global (pending_count db)
    then (db, global_cap_exceeded)
    else (inserted, accepted status)

unfoldable pub submit_attestation :
    AttestSubmissionLimits
    → AttestSubmission
    → ℕ
    → Attestations
    → Attestations × AttestSubmissionOutcome
submit_attestation limits s now db = submit_at (existing_row s db) limits s now db

-- `DISPLAY_STATUS_RANK_SQL`
unfoldable pub display_status_rank_sql : TokenAttestation → ℕ
display_status_rank_sql row = elim row.revoked_at [
  | some t ↦ 3
  | none ↦ elim row.verify_status as (λ _. ℕ) [
    | verified ↦ 0
    | unverified ↦ 1
    | mismatch ↦ 2
    | unverifiable ↦ 2
  ]
]

-- The ORDER BY: by rank, then by the time of the first submission.
abbrev pub is_shown_before : TokenAttestation → TokenAttestation → Bool
is_shown_before a b =
    if ltb (display_status_rank_sql a) (display_status_rank_sql b)
    then true
    else display_status_rank_sql a == display_status_rank_sql b
      && leb a.first_seen_at b.first_seen_at

abbrev pub candidate_of : TokenAttestation → AttestationCandidate
candidate_of row = record {
  verify_status = row.verify_status;
  revoked_at = row.revoked_at;
  first_seen_at = row.first_seen_at;
}

abbrev pub is_of_token : ℤ → String → TokenAttestation → Bool
is_of_token chain_id token_address row =
    row.chain_id == chain_id && row.token_address == token_address

unfoldable pub attestation_candidates_for :
    ℤ → String → (max_candidates : ℕ) → Attestations → List TokenAttestation
attestation_candidates_for chain_id token_address max_candidates db =
    take max_candidates
      (sort is_shown_before (keep_if (is_of_token chain_id token_address) db.rows))
