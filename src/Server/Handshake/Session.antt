-- ===== src/Server/Handshake/Session.antt =====
-- apps/server/src/routes/handshake.ts: the two routes. The random tokens are parameters, as is what
-- the schemas make of a body.
use vex_agentscan.Base.{
  ℕ, ◌+◌, ◌*◌, String, not, List, Option, none, some, every, map, nat_eq, string_eq, if◌then◌else◌,
}
use vex_agentscan.Server.Db.{AgentStatus, Db}
use vex_agentscan.Server.RateLimit.{RateLimitDecision, allowed, limited, HitsRow, allow}
use vex_agentscan.Server.Auth.{rate_limit_key_hash}
use vex_agentscan.Server.Handshake.{
  Challenge, insert_challenge, claim_challenge, complete_handshake_binding,
  last_accepted_row_id_for,
}
use vex_agentscan.Server.Handshake.Proofs.{
  ExistingAgentGateOutcome, HandshakeAddress, HandshakeDeps, HandshakeProof, address_hmac_for,
  authorized, binding_of, existing_agent_gate, hmac_of, new_agent, same_address_hmac_set,
  unauthorized, verify_proof,
}

pub record StartRequest : Type 0 where
  pub agent_hash : String
  pub addresses : List HandshakeAddress

pub record CompleteRequest : Type 0 where
  pub challenge_id : String
  pub agent_hash : String
  pub consent_version : ℕ
  pub app_version : Option String
  pub proofs : List HandshakeProof

pub record HandshakeState : Type 0 where
  pub db : Db
  pub challenges : List Challenge
  pub hits : List HitsRow

pub data HandshakeAnswer : Type 0 where
  refused : (status : ℕ) → (code : String) → HandshakeAnswer
  rate_limited : (retry_after_sec : ℕ) → HandshakeAnswer
  started : Challenge → HandshakeAnswer
  bound :
      (ingest_token : List ℕ)
      → (agent_name : List ℕ) → (last_accepted_row_id : Option String) → HandshakeAnswer
  thrown : HandshakeAnswer

module _ (deps : HandshakeDeps) where
  unfoldable pub started_session :
      Option StartRequest
      → (id nonce : String) → RateLimitDecision
      → HandshakeState
      → HandshakeState × HandshakeAnswer
  started_session body id nonce (limited retry_after_sec) state =
      (state, rate_limited retry_after_sec)
  started_session none id nonce allowed state = (state, refused 400 "validation_failed")
  started_session (some request) id nonce allowed state =
      let challenge : Challenge = record {
        id = id;
        agent_hash = request.agent_hash;
        nonce = nonce;
        domain = deps.config.handshake_domain;
        address_hmacs = map (λ a. address_hmac_for deps a.chain_family a.address) request.addresses;
        created_at = deps.now;
        expires_at = deps.now + deps.config.handshake_challenge_ttl_min * 60000;
      } in
      (record state { challenges = insert_challenge challenge state.challenges }, started challenge)

  -- POST /v1/agents/session/start
  unfoldable pub post_session_start :
      (ip : List ℕ)
      → Option StartRequest
      → (id nonce : String) → HandshakeState
      → HandshakeState × HandshakeAnswer
  post_session_start ip body id nonce state =
      let (hits, decision) =
        allow deps.config.handshake_rate_limit_per_ip deps.config.handshake_rate_window_sec
          (rate_limit_key_hash deps.sha256_hex "handshake_start" ip deps.config.rate_limit_key_salt)
          deps.now state.hits in
      started_session body id nonce decision (record state { hits = hits })

  -- The repository never returns `wallet_conflict`, for which the route has an answer of its own.
  abbrev pub bound_answer :
      (ingest_token : List ℕ)
      → (agent_hash : String) → Option (Db × List ℕ)
      → HandshakeState
      → HandshakeState × HandshakeAnswer
  bound_answer ingest_token agent_hash none state = (state, thrown)
  bound_answer ingest_token agent_hash (some (db, name)) state =
      (record state { db = db }, bound ingest_token name (last_accepted_row_id_for agent_hash db))

  -- The proofs of an agent that passed the gate.
  unfoldable pub proven_session :
      CompleteRequest
      → (ingest_token : List ℕ) → Challenge
      → HandshakeState
      → HandshakeState × HandshakeAnswer
  proven_session request ingest_token challenge state =
      let bindings = map (binding_of deps) request.proofs in
      let done =
        complete_handshake_binding
          (record {
            agent_hash = request.agent_hash;
            consent_version = request.consent_version;
            app_version = request.app_version;
            ingest_token_sha256 = deps.sha256_hex ingest_token;
            wallets = bindings;
          })
          deps.now state.db in
      if not (same_address_hmac_set (map hmac_of bindings) challenge.address_hmacs)
      then (state, refused 400 "invalid_signature")
      else if not (every (verify_proof deps request.agent_hash challenge) request.proofs)
      then (state, refused 400 "invalid_signature")
      else bound_answer ingest_token request.agent_hash done state

  unfoldable pub gated_session :
      ExistingAgentGateOutcome
      → CompleteRequest
      → (ingest_token : List ℕ) → Challenge
      → HandshakeState
      → HandshakeState × HandshakeAnswer
  gated_session unauthorized request ingest_token challenge state =
      (state, refused 401 "unauthorized")
  gated_session (authorized AgentStatus.revoked) request ingest_token challenge state =
      (state, refused 410 "consent_revoked")
  gated_session (authorized AgentStatus.quarantined) request ingest_token challenge state =
      (state, refused 403 "quarantined")
  gated_session (authorized AgentStatus.active) request ingest_token challenge state =
      proven_session request ingest_token challenge state
  gated_session new_agent request ingest_token challenge state =
      proven_session request ingest_token challenge state

  unfoldable pub claimed_session :
      Option Challenge
      → CompleteRequest
      → (authorization : Option (List ℕ)) → (ingest_token : List ℕ) → HandshakeState
      → HandshakeState × HandshakeAnswer
  claimed_session none request authorization ingest_token state =
      (state, refused 400 "challenge_expired")
  claimed_session (some challenge) request authorization ingest_token state =
      gated_session (existing_agent_gate deps request.agent_hash authorization state.db) request
        ingest_token challenge state

  unfoldable pub completed_session :
      Option CompleteRequest
      → (authorization : Option (List ℕ)) → (ingest_token : List ℕ) → RateLimitDecision
      → HandshakeState
      → HandshakeState × HandshakeAnswer
  completed_session body authorization ingest_token (limited retry_after_sec) state =
      (state, rate_limited retry_after_sec)
  completed_session none authorization ingest_token allowed state =
      (state, refused 400 "validation_failed")
  completed_session (some request) authorization ingest_token allowed state =
      let (challenges, claimed) =
        claim_challenge request.challenge_id request.agent_hash deps.now state.challenges in
      claimed_session claimed request authorization ingest_token
        (record state { challenges = challenges })

  -- POST /v1/agents/session/complete
  unfoldable pub post_session_complete :
      (ip : List ℕ)
      → Option CompleteRequest
      → (authorization : Option (List ℕ)) → (ingest_token : List ℕ) → HandshakeState
      → HandshakeState × HandshakeAnswer
  post_session_complete ip body authorization ingest_token state =
      let (hits, decision) =
        allow deps.config.handshake_rate_limit_per_ip deps.config.handshake_rate_window_sec
          (rate_limit_key_hash deps.sha256_hex "handshake_complete" ip
            deps.config.rate_limit_key_salt)
          deps.now state.hits in
      completed_session body authorization ingest_token decision (record state { hits = hits })
