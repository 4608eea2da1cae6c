-- ===== src/Server/Handshake/Spent.antt =====
-- What POST /v1/agents/session/complete leaves of the stored challenges.
use vex_agentscan.Base.{
  ℕ, String, Bool, true, false, ◌&&◌, not, List, Option, none, some, every, arith, map, lookup,
  lookup-delete, ◌≡◌, refl, ◌==◌, string_eq, if◌then◌else◌, Option-cases, inl, inr,
}
use vex_agentscan.Server.Db.{AgentStatus, Db}
use vex_agentscan.Server.RateLimit.{RateLimitDecision, allowed, limited}
use vex_agentscan.Server.Handshake.{
  Challenge, by_challenge, claim_challenge, complete_handshake_binding,
}
use vex_agentscan.Server.Handshake.Session.{
  CompleteRequest, HandshakeState, HandshakeAnswer, rate_limited, bound_answer, proven_session,
  gated_session, claimed_session, completed_session,
}
use vex_agentscan.Server.Handshake.Proofs.{
  HandshakeDeps, same_address_hmac_set, verify_proof, ExistingAgentGateOutcome, new_agent,
  unauthorized, authorized, binding_of, hmac_of,
}

abbrev pub is_rate_limited : HandshakeAnswer → Bool
is_rate_limited (rate_limited retry_after_sec) = true
is_rate_limited _ = false

-- The challenge that the request names is stored, and is the one of its agent.
abbrev pub is_own_challenge : CompleteRequest → List Challenge → Bool
is_own_challenge request challenges = elim (lookup by_challenge request.challenge_id challenges) [
  | none ↦ false
  | some row ↦ row.agent_hash == request.agent_hash
]

-- The challenge of an id after the request: the request's own one is gone.
abbrev pub remaining : CompleteRequest → List Challenge → String → Option Challenge
remaining request challenges id =
    if request.challenge_id == id && is_own_challenge request challenges
    then none
    else lookup by_challenge id challenges

claimed-remaining :
    (request : CompleteRequest) (now : ℕ) (challenges : List Challenge) (id : String)
    → lookup by_challenge id
        (claim_challenge request.challenge_id request.agent_hash now challenges).0
      ≡ remaining request challenges id
unfolding claim_challenge
claimed-remaining request now challenges id =
    elim (Option-cases (lookup by_challenge request.challenge_id challenges)) [
      | inl missing ↦ ground (arith, missing)
      | inr (row, found) ↦
          ground (arith, found, lookup-delete by_challenge id request.challenge_id challenges)
    ]

module _ (deps : HandshakeDeps) (request : CompleteRequest) (ingest_token : List ℕ) where
  -- The answer of a request that is not rate-limited, with the challenges as they were.
  record IsAnsweredWith (state : HandshakeState) (out : HandshakeState × HandshakeAnswer)
      : Type 0 where
    same : out.0.challenges ≡ state.challenges
    unlimited : is_rate_limited out.1 ≡ false

  of_branches :
      (state : HandshakeState) (b : Bool) (x y : HandshakeState × HandshakeAnswer)
      → IsAnsweredWith state x
      → IsAnsweredWith state y
      → IsAnsweredWith state (if b then x else y)
  of_branches state true x y h k = h
  of_branches state false x y h k = k

  done-IsAnsweredWith :
      (done : Option (Db × List ℕ)) (state : HandshakeState)
      → IsAnsweredWith state (bound_answer deps ingest_token request.agent_hash done state)
  done-IsAnsweredWith none state = record { same = refl; unlimited = refl }
  done-IsAnsweredWith (some (db, name)) state = record { same = refl; unlimited = refl }

  proven-IsAnsweredWith :
      (challenge : Challenge) (state : HandshakeState)
      → IsAnsweredWith state (proven_session deps request ingest_token challenge state)
  unfolding proven_session
  proven-IsAnsweredWith challenge state =
      let bindings = map (binding_of deps) request.proofs in
      let done =
        complete_handshake_binding
          (record {
            agent_hash = request.agent_hash;
            consent_version = request.consent_version;
            app_version = request.app_version;
            ingest_token_sha256 = deps.sha256_hex ingest_token;
            wallets = bindings;
          })
          deps.now state.db in
      of_branches state (not (same_address_hmac_set (map hmac_of bindings) challenge.address_hmacs))
        _ _ (record { same = refl; unlimited = refl })
        (of_branches state
          (not (every (verify_proof deps request.agent_hash challenge) request.proofs)) _ _
          (record { same = refl; unlimited = refl }) (done-IsAnsweredWith done state))

  gated-IsAnsweredWith :
      (gate : ExistingAgentGateOutcome) (challenge : Challenge) (state : HandshakeState)
      → IsAnsweredWith state (gated_session deps gate request ingest_token challenge state)
  unfolding gated_session
  gated-IsAnsweredWith unauthorized challenge state = record { same = refl; unlimited = refl }
  gated-IsAnsweredWith (authorized AgentStatus.revoked) challenge state = record {
    same = refl;
    unlimited = refl;
  }
  gated-IsAnsweredWith (authorized AgentStatus.quarantined) challenge state = record {
    same = refl;
    unlimited = refl;
  }
  gated-IsAnsweredWith (authorized AgentStatus.active) challenge state =
      proven-IsAnsweredWith challenge state
  gated-IsAnsweredWith new_agent challenge state = proven-IsAnsweredWith challenge state

  claimed-IsAnsweredWith :
      (claimed : Option Challenge) (authorization : Option (List ℕ)) (state : HandshakeState)
      → IsAnsweredWith state (claimed_session deps claimed request authorization ingest_token state)
  unfolding claimed_session
  claimed-IsAnsweredWith none authorization state = record { same = refl; unlimited = refl }
  claimed-IsAnsweredWith (some challenge) authorization state =
      gated-IsAnsweredWith _ challenge state

-- The challenges after a request, of its body and its answer.
pub record IsSpent (body : Option CompleteRequest) (challenges : List Challenge)
    (later : HandshakeState) (answer : HandshakeAnswer) : Type 0 where
  pub limited : is_rate_limited answer ≡ true → later.challenges ≡ challenges
  pub unread : body ≡ none → later.challenges ≡ challenges
  pub spent :
      is_rate_limited answer ≡ false
      → (request : CompleteRequest) → body ≡ some request
      → (id : String) → lookup by_challenge id later.challenges ≡ remaining request challenges id

pub completed-IsSpent :
    (deps : HandshakeDeps) (body : Option CompleteRequest) (authorization : Option (List ℕ))
    (ingest_token : List ℕ) (decision : RateLimitDecision) (state : HandshakeState)
    → IsSpent body state.challenges
        (completed_session deps body authorization ingest_token decision state).0
        (completed_session deps body authorization ingest_token decision state).1
unfolding completed_session
completed-IsSpent deps body authorization ingest_token (limited retry_after_sec) state = record {
  limited = λ h. refl;
  unread = λ h. refl;
  spent = λ h request parsed id. absurd (ground (arith, h));
}
completed-IsSpent deps none authorization ingest_token allowed state = record {
  limited = λ h. refl;
  unread = λ h. refl;
  spent = λ h request parsed id. absurd (ground (arith, parsed));
}
completed-IsSpent deps (some request) authorization ingest_token allowed state =
    let (challenges, claimed) =
      claim_challenge request.challenge_id request.agent_hash deps.now state.challenges in
    let passed =
      claimed-IsAnsweredWith deps request ingest_token claimed authorization
        (record state { challenges = challenges }) in
    let same = passed.same in
    let unlimited = passed.unlimited in
    record {
      limited = λ h. absurd (ground (arith, unlimited, h));
      unread = λ h. absurd (ground (arith, h));
      spent = λ h given parsed id.
          let is : request ≡ given = ground (arith, parsed) in
          rw same (rw is (claimed-remaining given deps.now state.challenges id));
    }
