-- ===== src/Server/Worker/Outcomes.antt =====
-- What `resolveJobOutcome` may come to.
use vex_agentscan.Base.{
  ◌-◌, ◌*◌, ◌<◌, String, Bool, true, false, Option, none, some, arith, ◌≡◌, ◌≢◌, refl, Option-cases,
  inl, inr,
}
use vex_agentscan.Core.Backoff.{next_backoff, day_ms}
use vex_agentscan.Core.Verdict.{StrikeVerdict, TerminalVerdict, Verdict}
use vex_agentscan.Core.Verification.{ReceiptView, VerificationInput, evaluate_verification}
use vex_agentscan.Server.Claim.{ClaimedJob}
use vex_agentscan.Core.Chains.{ChainEntry}
use vex_agentscan.Server.Worker.{
  VerifyJobDeps, CloseReason, ChainReader, Fetched, MissingReceiptCorroboration, JobOutcome,
  reschedule, close, finalize, ReceiptRead, receipt, not_found, error, read_receipt,
  corroborate_missing, context_of, verdict_from, unknown_chain_outcome, job_backoff, window_over,
  outcome_of, read_outcome, chain_key, resolve_job_outcome,
}

abbrev pub is_finalize : JobOutcome → Bool
is_finalize (finalize verdict observed) = true
is_finalize _ = false

abbrev pub is_reschedule : JobOutcome → Bool
is_reschedule (reschedule delay_ms last_error) = true
is_reschedule _ = false

abbrev pub tx_not_found_strike : JobOutcome → Bool
tx_not_found_strike (finalize (TerminalVerdict.strike StrikeVerdict.tx_not_found) observed) = true
tx_not_found_strike _ = false

-- The time since the first attempt is more than the maximum age.
abbrev pub IsExhausted : ClaimedJob → VerifyJobDeps → Type 0
IsExhausted c deps = deps.config.verify_max_age_days * day_ms < deps.now - c.job.first_attempt_at

module _ (c : ClaimedJob) (deps : VerifyJobDeps) where
  resolve-unknown :
      deps.resolve_chain (chain_key c.activity) ≡ none
      → resolve_job_outcome c deps ≡ unknown_chain_outcome c deps
  unfolding resolve_job_outcome
  resolve-unknown out = rw (out, resolve_job_outcome) refl

  resolve-hashless :
      (entry : ChainEntry)
      → deps.resolve_chain (chain_key c.activity) ≡ some entry
      → c.activity.tx_hash ≡ none
      → resolve_job_outcome c deps ≡ some (close CloseReason.no_tx_hash)
  unfolding resolve_job_outcome
  resolve-hashless entry known out =
      rw (known, resolve_job_outcome) (rw (out, resolve_job_outcome) refl)

  resolve-read :
      (entry : ChainEntry) (tx_hash : String)
      → deps.resolve_chain (chain_key c.activity) ≡ some entry
      → c.activity.tx_hash ≡ some tx_hash
      → resolve_job_outcome c deps ≡ read_outcome c entry tx_hash deps
  unfolding resolve_job_outcome
  resolve-read entry tx_hash known claimed = ground arith

  read-threw :
      (entry : ChainEntry) (tx_hash message : String)
      → (deps.chain_reader_for entry (context_of c.activity)).get_receipt tx_hash
        ≡ Fetched.threw message
      → read_outcome c entry tx_hash deps
        ≡ outcome_of
            (Verdict.retry message)
            (error message)
            c
            (deps.chain_reader_for entry (context_of c.activity))
            tx_hash
            deps
  unfolding read_outcome read_receipt verdict_from
  read-threw entry tx_hash message threw = ground arith

outage-outcome :
    (message : String) (c : ClaimedJob) (reader : ChainReader) (tx_hash : String)
    (deps : VerifyJobDeps) (o : JobOutcome)
    → outcome_of (Verdict.retry message) (error message) c reader tx_hash deps ≡ some o
    → is_finalize o ≡ false
unfolding outcome_of window_over
outage-outcome message c reader tx_hash deps o h = ground arith

-- When the chain is known and the reader throws for the job's transaction, the job is never
-- finalized: an outage of the RPC endpoint neither verifies nor strikes.
pub outage-not_judged :
    (c : ClaimedJob) (deps : VerifyJobDeps) (entry : ChainEntry) (tx_hash message : String)
    (o : JobOutcome)
    → deps.resolve_chain (chain_key c.activity) ≡ some entry
    → c.activity.tx_hash ≡ some tx_hash
    → (deps.chain_reader_for entry (context_of c.activity)).get_receipt tx_hash
      ≡ Fetched.threw message
    → resolve_job_outcome c deps ≡ some o
    → is_finalize o ≡ false
outage-not_judged c deps entry tx_hash message o known hash threw h =
    outage-outcome message c (deps.chain_reader_for entry (context_of c.activity)) tx_hash deps o (
      rw
        (
          resolve-read c deps entry tx_hash known hash,
          read-threw c deps entry tx_hash message threw,
        )
        at h)

evaluated-found :
    (r : Option ReceiptView) (input : VerificationInput)
    → evaluate_verification r input
      ≢ Verdict.terminal (TerminalVerdict.strike StrikeVerdict.tx_not_found)
unfolding evaluate_verification
evaluated-found none input = ground arith
evaluated-found (some r) input = ground arith

verdict-found :
    (read : ReceiptRead) (c : ClaimedJob) (entry : ChainEntry) (tx_hash : String)
    (deps : VerifyJobDeps)
    → verdict_from read c.activity entry deps.config tx_hash
      ≢ Verdict.terminal (TerminalVerdict.strike StrikeVerdict.tx_not_found)
unfolding verdict_from
verdict-found (error message) c entry tx_hash deps = ground arith
verdict-found not_found c entry tx_hash deps = evaluated-found none _
verdict-found (receipt r) c entry tx_hash deps = evaluated-found (some r) _

outcome-found :
    (verdict : Verdict) (read : ReceiptRead) (c : ClaimedJob) (reader : ChainReader)
    (tx_hash : String) (deps : VerifyJobDeps) (o : JobOutcome)
    → verdict ≢ Verdict.terminal (TerminalVerdict.strike StrikeVerdict.tx_not_found)
    → outcome_of verdict read c reader tx_hash deps ≡ some o
    → tx_not_found_strike o ≡ true
    → IsExhausted c deps
      × (read ≡ not_found)
      × (corroborate_missing reader tx_hash ≡ MissingReceiptCorroboration.missing)
unfolding outcome_of window_over job_backoff next_backoff
outcome-found (Verdict.terminal verdict) read c reader tx_hash deps o n h s = ground arith
outcome-found Verdict.unverifiable read c reader tx_hash deps o n h s = ground arith
outcome-found (Verdict.retry message) read c reader tx_hash deps o n h s = ground arith

unknown-not_judged :
    (c : ClaimedJob) (deps : VerifyJobDeps) (o : JobOutcome)
    → unknown_chain_outcome c deps ≡ some o
    → is_finalize o ≡ false
unfolding unknown_chain_outcome
unknown-not_judged c deps o h = ground arith

-- What a strike for a missing transaction rests on.
pub record IsMissing (c : ClaimedJob) (deps : VerifyJobDeps) : Type 0 where
  pub entry : ChainEntry
  pub tx_hash : String
  pub known : deps.resolve_chain (chain_key c.activity) ≡ some entry
  pub claimed : c.activity.tx_hash ≡ some tx_hash
  pub exhausted : IsExhausted c deps
  pub unread :
      read_receipt (deps.chain_reader_for entry (context_of c.activity)) tx_hash ≡ not_found
  pub corroborated :
      corroborate_missing (deps.chain_reader_for entry (context_of c.activity)) tx_hash
      ≡ MissingReceiptCorroboration.missing

-- A strike for a transaction that was not found needs all of: a known chain, a claimed hash, a
-- verification window that is over, a reader that finds no receipt, and its corroboration that the
-- transaction is missing.
pub tx_not_found-IsMissing :
    (c : ClaimedJob) (deps : VerifyJobDeps) (o : JobOutcome)
    → resolve_job_outcome c deps ≡ some o
    → tx_not_found_strike o ≡ true
    → IsMissing c deps
unfolding read_outcome
tx_not_found-IsMissing c deps o h s =
    elim (Option-cases (deps.resolve_chain (chain_key c.activity))) [
      | inl out ↦ absurd (ground (arith, unknown-not_judged c deps o, resolve-unknown c deps out))
      | inr (entry, known) ↦ elim (Option-cases c.activity.tx_hash) [
        | inl out ↦ absurd (ground (arith, resolve-hashless c deps entry known out))
        | inr (tx_hash, claimed) ↦
            let reader = deps.chain_reader_for entry (context_of c.activity) in
            let read = read_receipt reader tx_hash in
            let (exhausted, unread, corroborated) =
              outcome-found (verdict_from read c.activity entry deps.config tx_hash) read c reader
                tx_hash deps o (verdict-found read c entry tx_hash deps)
                (rw (resolve-read c deps entry tx_hash known claimed) at h) s in
            record {
              entry = entry;
              tx_hash = tx_hash;
              known = known;
              claimed = claimed;
              exhausted = exhausted;
              unread = unread;
              corroborated = corroborated;
            }
      ]
    ]

exhausted-outcome :
    (verdict : Verdict) (read : ReceiptRead) (c : ClaimedJob) (reader : ChainReader)
    (tx_hash : String) (deps : VerifyJobDeps)
    → IsExhausted c deps
    → (o : JobOutcome) × (outcome_of verdict read c reader tx_hash deps ≡ some o)
      × (is_reschedule o ≡ false)
unfolding outcome_of window_over job_backoff next_backoff
exhausted-outcome (Verdict.terminal verdict) read c reader tx_hash deps over = (_, refl, refl)
exhausted-outcome Verdict.unverifiable read c reader tx_hash deps over =
    (close CloseReason.no_transfers_decoded, ground arith, refl)
exhausted-outcome (Verdict.retry message) read c reader tx_hash deps over =
    (window_over read reader tx_hash, ground arith, ground arith)

-- After the verification window every job is resolved, without an error, and it is not rescheduled.
pub exhausted-IsResolved :
    (c : ClaimedJob) (deps : VerifyJobDeps)
    → IsExhausted c deps
    → (o : JobOutcome) × (resolve_job_outcome c deps ≡ some o) × (is_reschedule o ≡ false)
unfolding read_outcome unknown_chain_outcome next_backoff
exhausted-IsResolved c deps over = elim (Option-cases (deps.resolve_chain (chain_key c.activity))) [
  | inl out ↦
      rw (resolve-unknown c deps out) (close CloseReason.chain_not_in_registry, ground arith, refl)
  | inr (entry, known) ↦ elim (Option-cases c.activity.tx_hash) [
    | inl out ↦
        rw (resolve-hashless c deps entry known out) (close CloseReason.no_tx_hash, refl, refl)
    | inr (tx_hash, claimed) ↦
        let reader = deps.chain_reader_for entry (context_of c.activity) in
        let read = read_receipt reader tx_hash in
        rw (resolve-read c deps entry tx_hash known claimed) (
          exhausted-outcome (verdict_from read c.activity entry deps.config tx_hash) read c reader
            tx_hash deps over)
  ]
]
