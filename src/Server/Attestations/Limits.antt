-- ===== src/Server/Attestations/Limits.antt =====
-- The caps on pending attestations, and what the columns of a row say together.
use vex_agentscan.Base.{
  ℕ, ◌+◌, ◌≤◌, String, Bool, true, false, List, [], ◌∷◌, none, some, is_some, arith, length,
  keep_if, leb, ◌≡◌, refl, nat_eq, All, All-append, keep_if-append, length-append, string_eq,
  if◌then◌else◌, Bool-cases, inl, inr,
}
use vex_agentscan.Core.Attestation.{unverified, verified, mismatch, unverifiable}
use vex_agentscan.Server.Attestations.{
  TokenAttestation, Attestations, AttestSubmission, AttestSubmissionLimits, never_verified,
  is_pending, is_pending_of, is_unverified, is_undecided, update_where, with_hint, inserted_row,
  refresh_existing_row, insert_row, pending_count_for, pending_count, submit_attestation,
}
use vex_agentscan.Server.Attestations.Outcomes.{
  AttestationTerminalVerdict, leased_until, claim_due_attestations, attempted,
  reschedule_attestation, never_verified_row, terminalize_unverifiable, proven, refuted,
  decided_row, finalize_attestation, revoked_row, revoke_attestations,
}
use vex_agentscan.Server.Attestations.Submit.{submit_elim}
use vex_agentscan.Server.Attestations.History.{
  Operation, submit, claim, reschedule, terminalize, finalize, revoke, operate, run,
}

-- The columns that a status sets are set, and those of the other statuses are not.
abbrev pub IsCoherent : TokenAttestation → Type 0
IsCoherent row =
    (is_some row.verified_at ≡ is_some row.derived_tx_hash)
    × (elim row.verify_status as (λ _. Type 0) [
      | unverified ↦ (row.verify_detail ≡ none) × (row.derived_tx_hash ≡ none)
      | verified ↦ (row.verify_detail ≡ none) × (is_some row.derived_tx_hash ≡ true)
      | mismatch ↦ (is_some row.verify_detail ≡ true) × (row.derived_tx_hash ≡ none)
      | unverifiable ↦ (row.verify_detail ≡ some never_verified) × (row.derived_tx_hash ≡ none)
    ])

-- An update that makes no row pending: of one submitter, and of all.
abbrev Relieves : (TokenAttestation → Bool) → (TokenAttestation → TokenAttestation) → Type 0
Relieves p f =
    (row : TokenAttestation)
    → p row ≡ true
    → ((is_pending (f row) ≡ true → is_pending row ≡ true)
        × ((f row).submitter_ip_hash ≡ row.submitter_ip_hash)
        × (IsCoherent row → IsCoherent (f row)))

count-update :
    (q p : TokenAttestation → Bool) (f : TokenAttestation → TokenAttestation)
    → ((row : TokenAttestation) → p row ≡ true → q (f row) ≡ true → q row ≡ true)
    → (rows : List TokenAttestation)
    → length (keep_if q (update_where p f rows)) ≤ length (keep_if q rows)
unfolding update_where
count-update q p f h [] = omega arith
count-update q p f h (row ∷ rows) = ground (arith, count-update q p f h rows, h row)

of_branches :
    (b : Bool) (x y : TokenAttestation)
    → (b ≡ true → IsCoherent x)
    → IsCoherent y
    → IsCoherent (if b then x else y)
of_branches true x y h k = h refl
of_branches false x y h k = k

update-IsCoherent :
    (p : TokenAttestation → Bool) (f : TokenAttestation → TokenAttestation)
    → ((row : TokenAttestation) → p row ≡ true → IsCoherent row → IsCoherent (f row))
    → (rows : List TokenAttestation) → All IsCoherent rows
    → All IsCoherent (update_where p f rows)
unfolding update_where
update-IsCoherent p f h [] all = tt
update-IsCoherent p f h (row ∷ rows) all = (
  of_branches (p row) (f row) row (λ picked. h row picked all.0) all.0,
  update-IsCoherent p f h rows all.1,
)

pub record Inv (limits : AttestSubmissionLimits) (db : Attestations) : Type 0 where
  pub per_ip : (ip_hash : String) → pending_count_for ip_hash db ≤ limits.max_pending_per_ip
  pub in_all : pending_count db ≤ limits.max_pending_global
  pub coherent : All IsCoherent db.rows

update-Inv :
    (limits : AttestSubmissionLimits) (p : TokenAttestation → Bool)
    (f : TokenAttestation → TokenAttestation) (db : Attestations)
    → Relieves p f
    → Inv limits db
    → Inv limits (record db { rows = update_where p f db.rows })
unfolding pending_count_for pending_count
update-Inv limits p f db relieves inv = record {
  per_ip = λ ip. omega (
    arith,
    inv.per_ip ip,
    count-update (is_pending_of ip) p f (λ row h k. ground (arith, relieves row h)) db.rows,
  );
  in_all =
      omega (arith, inv.in_all, count-update is_pending p f (λ row h. (relieves row h).0) db.rows);
  coherent = update-IsCoherent p f (λ row h. (relieves row h).2) db.rows inv.coherent;
}

-- A submission that gets past both caps.
insert-Inv :
    (limits : AttestSubmissionLimits) (s : AttestSubmission) (now : ℕ) (db : Attestations)
    → leb limits.max_pending_per_ip (pending_count_for s.submitter_ip_hash db) ≡ false
    → leb limits.max_pending_global (pending_count db) ≡ false
    → Inv limits db
    → Inv limits (insert_row s now db).0
unfolding insert_row pending_count_for pending_count
insert-Inv limits s now db ip_free free inv =
    let row = inserted_row s db.next_id now in
    record {
      per_ip = λ ip. ground (
        arith,
        inv.per_ip ip,
        ip_free,
        keep_if-append (is_pending_of ip) db.rows (row ∷ []),
        length-append (keep_if (is_pending_of ip) db.rows) (keep_if (is_pending_of ip) (row ∷ [])),
        string_eq.beq_iff s.submitter_ip_hash ip,
      );
      in_all = ground (
        arith,
        inv.in_all,
        free,
        keep_if-append is_pending db.rows (row ∷ []),
        length-append (keep_if is_pending db.rows) (keep_if is_pending (row ∷ [])),
      );
      coherent = All-append IsCoherent db.rows (row ∷ []) inv.coherent ((refl, (refl, refl)), tt);
    }

refresh-Inv :
    (limits : AttestSubmissionLimits) (existing : TokenAttestation) (s : AttestSubmission)
    (db : Attestations)
    → Inv limits db
    → Inv limits (refresh_existing_row existing s db).0
unfolding refresh_existing_row
refresh-Inv limits existing s db inv = elim (Bool-cases (is_unverified existing.verify_status)) [
  | inl pending ↦ rw pending (
      update-Inv limits (is_undecided existing.id) (with_hint s.tx_hash_hint) db
        (λ row h. (λ k. k, refl, λ k. k)) inv)
  | inr decided ↦ rw decided inv
]

pub submit-Inv :
    (limits : AttestSubmissionLimits) (s : AttestSubmission) (now : ℕ) (db : Attestations)
    → Inv limits db
    → Inv limits (submit_attestation limits s now db).0
submit-Inv limits s now db inv =
    submit_elim limits s now db (λ later. Inv limits later)
      (λ existing found. refresh-Inv limits existing s db inv) inv
      (λ ip_free free. insert-Inv limits s now db ip_free free inv)

decided-Relieves :
    (id : ℕ) (verdict : AttestationTerminalVerdict) (now : ℕ)
    → Relieves (is_undecided id) (decided_row verdict now)
decided-Relieves id (proven hash) now row h = (λ k. ground arith, refl, λ c. ground (arith, h, c))
decided-Relieves id (refuted detail) now row h =
    (λ k. ground arith, refl, λ c. ground (arith, h, c))

operate-Inv :
    (limits : AttestSubmissionLimits) (operation : Operation) (now : ℕ) (db : Attestations)
    → Inv limits db
    → Inv limits (operate limits operation now db)
unfolding operate claim_due_attestations reschedule_attestation terminalize_unverifiable
    finalize_attestation revoke_attestations
operate-Inv limits (submit s) now db inv = submit-Inv limits s now db inv
operate-Inv limits (claim locked limit lease_ms) now db inv =
    update-Inv limits _ (leased_until (now + lease_ms)) db (λ row h. (λ k. k, refl, λ k. k)) inv
operate-Inv limits (reschedule id delay_ms) now db inv =
    update-Inv limits _ (attempted (now + delay_ms)) db (λ row h. (λ k. k, refl, λ k. k)) inv
operate-Inv limits (terminalize id) now db inv =
    update-Inv limits (is_undecided id) never_verified_row db
      (λ row h. (λ k. ground arith, refl, λ c. ground (arith, h, c))) inv
operate-Inv limits (finalize id verdict) now db inv =
    update-Inv limits (is_undecided id) (decided_row verdict now) db
      (decided-Relieves id verdict now) inv
operate-Inv limits (revoke chain_id token_address reason) now db inv =
    update-Inv limits _ (revoked_row reason now) db (λ row h. (λ k. ground arith, refl, λ c. c)) inv

-- From a table within the caps whose rows have the columns of their status, every history of
-- submissions, leases, outcomes and revocations leaves such a table: the pending attestations of
-- each submitter, and those of all, stay within their limits.
pub history-Inv :
    (limits : AttestSubmissionLimits) (history : List (Operation × ℕ)) (db : Attestations)
    → Inv limits db
    → Inv limits (run limits history db)
unfolding run
history-Inv limits [] db inv = inv
history-Inv limits ((operation, now) ∷ rest) db inv =
    history-Inv limits rest (operate limits operation now db)
      (operate-Inv limits operation now db inv)
