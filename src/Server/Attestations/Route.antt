-- ===== src/Server/Attestations/Route.antt =====
-- POST /v1/tokens/attest of apps/server/src/routes/token-attestations.ts, with
-- attestation/recover-attest-signer.ts and the message of packages/contract/src/attest.ts. The hash
-- function and the recovery of an address from a signature, which may throw, are parameters; the
-- body is as the schema leaves it.
use vex_agentscan.Base.{
  ℕ, String, Bool, true, false, List, ◌∷◌, ◌++◌, Option, none, some, is_some, if◌then◌else◌,
}
use vex_agentscan.Base.Int.{ℤ}
use vex_agentscan.Base.Text.{codes, lower}
use vex_agentscan.Core.Attestation.{AttestationVerifyStatus}
use vex_agentscan.Core.Chains.Registry.{int_text}
use vex_agentscan.Server.RateLimit.{RateLimitDecision, allowed, limited, HitsRow, allow}
use vex_agentscan.Server.Auth.{rate_limit_key_hash}
use vex_agentscan.Server.Attestations.{
  Attestations, AttestSubmissionLimits, AttestSubmissionOutcome, accepted, per_ip_cap_exceeded,
  global_cap_exceeded, submit_attestation,
}
use vex_agentscan.Server.Attestations.Limits.{Inv, submit-Inv}

pub record AttestRequest : Type 0 where
  pub chain_id : ℤ
  pub token_address : String
  pub attest_signature : String
  pub tx_hash : Option String

pub record AttestDeps : Type 0 where
  pub limits : AttestSubmissionLimits
  pub attest_rate_limit_per_ip : ℕ
  pub attest_rate_window_sec : ℕ
  pub rate_limit_key_salt : List ℕ
  pub now : ℕ
  pub sha256_hex : List ℕ → String
  pub recover_message_address : (message : List ℕ) → (signature : String) → Option String
  pub chain_registry : ℤ → Option (List String)

pub record AttestState : Type 0 where
  pub db : Attestations
  pub hits : List HitsRow

pub data AttestAnswer : Type 0 where
  refused : (status : ℕ) → (code : String) → AttestAnswer
  rate_limited : (retry_after_sec : ℕ) → AttestAnswer
  taken : AttestationVerifyStatus → AttestAnswer

unfoldable pub canonical_attest_message : ℤ → (token_address : String) → List ℕ
canonical_attest_message chain_id token_address =
    codes "VEX-attest:" ++ (int_text chain_id ++ 58 ∷ codes (lower token_address))

unfoldable pub recover_attest_signer :
    AttestDeps → (message : List ℕ) → (signature : String) → Option String
recover_attest_signer deps message signature =
    elim (deps.recover_message_address message signature) [
      | none ↦ none
      | some address ↦ some (lower address)
    ]

abbrev attest_answer : (retry_after_sec : ℕ) → AttestSubmissionOutcome → AttestAnswer
attest_answer retry_after_sec (accepted status) = taken status
attest_answer retry_after_sec per_ip_cap_exceeded = rate_limited retry_after_sec
attest_answer retry_after_sec global_cap_exceeded = rate_limited retry_after_sec

module _ (deps : AttestDeps) where
  unfoldable pub signed_attestation :
      (ip : List ℕ) → AttestRequest → Option String → AttestState → AttestState × AttestAnswer
  signed_attestation ip request none state = (state, refused 400 "invalid_signature")
  signed_attestation ip request (some recovered_signer) state =
      let (db, outcome) =
        submit_attestation deps.limits
          (record {
            chain_id = request.chain_id;
            token_address = lower request.token_address;
            recovered_signer = recovered_signer;
            attest_signature = request.attest_signature;
            tx_hash_hint = request.tx_hash;
            submitter_ip_hash =
                rate_limit_key_hash deps.sha256_hex "attest_submitter" ip deps.rate_limit_key_salt;
          })
          deps.now state.db in
      (record state { db = db }, attest_answer deps.attest_rate_window_sec outcome)

  unfoldable pub parsed_attestation :
      (ip : List ℕ)
      → Option AttestRequest
      → RateLimitDecision
      → AttestState
      → AttestState × AttestAnswer
  parsed_attestation ip body (limited retry_after_sec) state = (state, rate_limited retry_after_sec)
  parsed_attestation ip none allowed state = (state, refused 400 "validation_failed")
  parsed_attestation ip (some request) allowed state =
      let signed =
        signed_attestation ip request
          (recover_attest_signer deps
            (canonical_attest_message request.chain_id (lower request.token_address))
            request.attest_signature)
          state in
      if is_some (deps.chain_registry request.chain_id)
      then signed
      else (state, refused 400 "chain_unsupported")

  unfoldable pub post_attest :
      (ip : List ℕ) → Option AttestRequest → AttestState → AttestState × AttestAnswer
  post_attest ip body state =
      let (hits, decision) =
        allow deps.attest_rate_limit_per_ip deps.attest_rate_window_sec
          (rate_limit_key_hash deps.sha256_hex "attest" ip deps.rate_limit_key_salt) deps.now
          state.hits in
      parsed_attestation ip body decision (record state { hits = hits })

  signed-Inv :
      (ip : List ℕ) (request : AttestRequest) (signer : Option String) (state : AttestState)
      → Inv deps.limits state.db
      → Inv deps.limits (signed_attestation ip request signer state).0.db
  unfolding signed_attestation
  signed-Inv ip request none state inv = inv
  signed-Inv ip request (some signer) state inv = submit-Inv deps.limits _ deps.now state.db inv

  of_branches :
      (b : Bool) (x y : AttestState × AttestAnswer)
      → Inv deps.limits x.0.db
      → Inv deps.limits y.0.db
      → Inv deps.limits (if b then x else y).0.db
  of_branches true x y h k = h
  of_branches false x y h k = k

  parsed-Inv :
      (ip : List ℕ) (body : Option AttestRequest) (decision : RateLimitDecision)
      (state : AttestState)
      → Inv deps.limits state.db
      → Inv deps.limits (parsed_attestation ip body decision state).0.db
  unfolding parsed_attestation
  parsed-Inv ip body (limited retry_after_sec) state inv = inv
  parsed-Inv ip none allowed state inv = inv
  parsed-Inv ip (some request) allowed state inv =
      of_branches _ _ _ (signed-Inv ip request _ state inv) inv

  -- A request keeps the table within the caps, whatever is answered.
  pub post_attest-Inv :
      (ip : List ℕ) (body : Option AttestRequest) (state : AttestState)
      → Inv deps.limits state.db
      → Inv deps.limits (post_attest ip body state).0.db
  unfolding post_attest
  post_attest-Inv ip body state inv = parsed-Inv ip body _ _ inv
