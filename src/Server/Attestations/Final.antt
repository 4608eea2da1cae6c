-- ===== src/Server/Attestations/Final.antt =====
-- What no later operation takes back from a row of the table.
use vex_agentscan.Base.{
  ℕ, zero, suc, String, Bool, true, false, List, [], ◌∷◌, ◌++◌, some, arith, get_elem?, nat_eq, ◌≡◌,
  refl, Bool-cases, inl, inr, ◌+◌,
}
use vex_agentscan.Server.Attestations.{
  TokenAttestation, Attestations, AttestSubmission, AttestSubmissionLimits, is_null, is_unverified,
  is_undecided, update_where, with_hint, inserted_row, refresh_existing_row, insert_row,
  submit_attestation,
}
use vex_agentscan.Server.Attestations.Outcomes.{
  AttestationTerminalVerdict, is_unrevoked_of, leased_until, claim_due_attestations, attempted,
  reschedule_attestation, never_verified_row, terminalize_unverifiable, proven, refuted,
  decided_row, finalize_attestation, revoked_row, revoke_attestations,
}
use vex_agentscan.Server.Attestations.Submit.{submit_elim}
use vex_agentscan.Base.Int.{ℤ}
use vex_agentscan.Server.Attestations.History.{
  Operation, submit, claim, reschedule, terminalize, finalize, revoke, operate, run,
}

-- The columns that no operation writes after the INSERT.
pub record Origin : Type 0 where
  pub id : ℕ
  pub chain_id : ℤ
  pub token_address : String
  pub recovered_signer : String
  pub attest_signature : String
  pub submitter_ip_hash : String
  pub first_seen_at : ℕ

abbrev pub origin : TokenAttestation → Origin
origin row = record {
  id = row.id;
  chain_id = row.chain_id;
  token_address = row.token_address;
  recovered_signer = row.recovered_signer;
  attest_signature = row.attest_signature;
  submitter_ip_hash = row.submitter_ip_hash;
  first_seen_at = row.first_seen_at;
}

-- What an earlier row fixes of a later one.
pub record Keeps (a b : TokenAttestation) : Type 0 where
  pub same_origin : origin b ≡ origin a
  pub same_hint : is_null a.tx_hash_hint ≡ false → b.tx_hash_hint ≡ a.tx_hash_hint
  pub decided :
      is_unverified a.verify_status ≡ false
      → (b.verify_status ≡ a.verify_status)
        × (b.verify_detail ≡ a.verify_detail)
        × (b.verified_at ≡ a.verified_at)
        × (b.derived_tx_hash ≡ a.derived_tx_hash)
  pub revoked :
      is_null a.revoked_at ≡ false
      → (b.revoked_at ≡ a.revoked_at) × (b.revoke_reason ≡ a.revoke_reason)

Keeps-refl : (a : TokenAttestation) → Keeps a a
Keeps-refl a = record {
  same_origin = refl;
  same_hint = λ h. refl;
  decided = λ h. (refl, refl, refl, refl);
  revoked = λ h. (refl, refl);
}

Keeps-trans : (a b c : TokenAttestation) → Keeps a b → Keeps b c → Keeps a c
Keeps-trans a b c h k = record {
  same_origin = ground (arith, h.same_origin, k.same_origin);
  same_hint = λ n. ground (arith, h.same_hint n, k.same_hint);
  decided = λ n. ground (arith, h.decided n, k.decided);
  revoked = λ n. ground (arith, h.revoked n, k.revoked);
}

-- Every earlier row is still at its place, with what it fixes.
abbrev pub Extends : List TokenAttestation → List TokenAttestation → Type 0
Extends rows later =
    (i : ℕ) (a : TokenAttestation)
    → get_elem? rows i ≡ some a
    → (b : TokenAttestation) × (get_elem? later i ≡ some b) × Keeps a b

Extends-refl : (rows : List TokenAttestation) → Extends rows rows
Extends-refl rows i a h = (a, h, Keeps-refl a)

Extends-trans :
    (first second third : List TokenAttestation)
    → Extends first second
    → Extends second third
    → Extends first third
Extends-trans first second third h k i a found =
    let (b, there, kept) = h i a found in
    let (c, later, on) = k i b there in (c, later, Keeps-trans a b c kept on)

update-Extends :
    (p : TokenAttestation → Bool) (f : TokenAttestation → TokenAttestation)
    → ((a : TokenAttestation) → p a ≡ true → Keeps a (f a))
    → (rows : List TokenAttestation) → Extends rows (update_where p f rows)
unfolding update_where
update-Extends p f keeps [] i a h = absurd (ground arith)
update-Extends p f keeps (row ∷ rows) zero a h = elim (Bool-cases (p row)) [
  | inl picked ↦ (f row, rw picked refl, ground (arith, keeps row picked, h))
  | inr left ↦ (row, rw left refl, ground (arith, Keeps-refl row, h))
]
update-Extends p f keeps (row ∷ rows) (suc i) a h = update-Extends p f keeps rows i a h

append-Extends : (rows new : List TokenAttestation) → Extends rows (rows ++ new)
append-Extends [] new i a h = absurd (ground arith)
append-Extends (row ∷ rows) new zero a h = (row, refl, ground (arith, Keeps-refl row, h))
append-Extends (row ∷ rows) new (suc i) a h = append-Extends rows new i a h

refresh-Extends :
    (existing : TokenAttestation) (s : AttestSubmission) (db : Attestations)
    → Extends db.rows (refresh_existing_row existing s db).0.rows
unfolding refresh_existing_row
refresh-Extends existing s db = elim (Bool-cases (is_unverified existing.verify_status)) [
  | inl pending ↦ rw pending (
      update-Extends (is_undecided existing.id) (with_hint s.tx_hash_hint)
        (λ a h. record {
          same_origin = refl;
          same_hint = λ held. ground (arith, held);
          decided = λ n. (refl, refl, refl, refl);
          revoked = λ n. (refl, refl);
        })
        db.rows)
  | inr decided ↦ rw decided (Extends-refl db.rows)
]

submit-Extends :
    (limits : AttestSubmissionLimits) (s : AttestSubmission) (now : ℕ) (db : Attestations)
    → Extends db.rows (submit_attestation limits s now db).0.rows
unfolding insert_row
submit-Extends limits s now db =
    submit_elim limits s now db (λ later. Extends db.rows later.rows)
      (λ existing found. refresh-Extends existing s db) (Extends-refl db.rows)
      (λ ip_free free. append-Extends db.rows (inserted_row s db.next_id now ∷ []))

decided-Keeps :
    (id : ℕ) (verdict : AttestationTerminalVerdict) (now : ℕ) (a : TokenAttestation)
    → is_undecided id a ≡ true
    → Keeps a (decided_row verdict now a)
decided-Keeps id (proven hash) now a h = record {
  same_origin = refl;
  same_hint = λ n. refl;
  decided = λ n. ground (arith, h, n);
  revoked = λ n. (refl, refl);
}
decided-Keeps id (refuted detail) now a h = record {
  same_origin = refl;
  same_hint = λ n. refl;
  decided = λ n. ground (arith, h, n);
  revoked = λ n. (refl, refl);
}

operate-Extends :
    (limits : AttestSubmissionLimits) (operation : Operation) (now : ℕ) (db : Attestations)
    → Extends db.rows (operate limits operation now db).rows
unfolding operate claim_due_attestations reschedule_attestation terminalize_unverifiable
    finalize_attestation revoke_attestations
operate-Extends limits (submit s) now db = submit-Extends limits s now db
operate-Extends limits (claim locked limit lease_ms) now db =
    update-Extends _ (leased_until (now + lease_ms))
      (λ a h. record {
        same_origin = refl;
        same_hint = λ n. refl;
        decided = λ n. (refl, refl, refl, refl);
        revoked = λ n. (refl, refl);
      })
      db.rows
operate-Extends limits (reschedule id delay_ms) now db =
    update-Extends _ (attempted (now + delay_ms))
      (λ a h. record {
        same_origin = refl;
        same_hint = λ n. refl;
        decided = λ n. (refl, refl, refl, refl);
        revoked = λ n. (refl, refl);
      })
      db.rows
operate-Extends limits (terminalize id) now db =
    update-Extends (is_undecided id) never_verified_row
      (λ a h. record {
        same_origin = refl;
        same_hint = λ n. refl;
        decided = λ n. ground (arith, h, n);
        revoked = λ n. (refl, refl);
      })
      db.rows
operate-Extends limits (finalize id verdict) now db =
    update-Extends (is_undecided id) (decided_row verdict now) (decided-Keeps id verdict now)
      db.rows
operate-Extends limits (revoke chain_id token_address reason) now db =
    update-Extends (is_unrevoked_of chain_id token_address) (revoked_row reason now)
      (λ a h. record {
        same_origin = refl;
        same_hint = λ n. refl;
        decided = λ n. (refl, refl, refl, refl);
        revoked = λ n. ground (arith, h, n);
      })
      db.rows

-- No history takes back what a row of the table says: the row stays, with its identity, its
-- signature, the time it was first seen and a hint once it has one; a status other than
-- `unverified` stays with its detail, its time and its transaction, and a revocation stays with its
-- reason.
pub history-Extends :
    (limits : AttestSubmissionLimits) (history : List (Operation × ℕ)) (db : Attestations)
    → Extends db.rows (run limits history db).rows
unfolding run
history-Extends limits [] db = Extends-refl db.rows
history-Extends limits ((operation, now) ∷ rest) db =
    let next = operate limits operation now db in
    Extends-trans db.rows next.rows (run limits rest next).rows
      (operate-Extends limits operation now db) (history-Extends limits rest next)
