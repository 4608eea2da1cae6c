-- ===== src/Server/Handshake/Completion.antt =====
-- The answers of POST /v1/agents/session/complete on every branch.
use vex_agentscan.Base.{
  ℕ, ◌≤◌, String, Bool, true, false, not, List, Option, none, some, arith, every, map, lookup,
  lookup-delete, All, ◌≡◌, ◌⊎◌, refl, string_eq, if◌then◌else◌, Option-cases, inl, inr,
}
use vex_agentscan.Server.Db.{AgentStatus, Agent, Db, by_hash}
use vex_agentscan.Server.RateLimit.{RateLimitDecision, allowed, limited}
use vex_agentscan.Server.Auth.{bearer_token_from}
use vex_agentscan.Server.Handshake.{
  Challenge, by_challenge, claim_challenge, HandshakeBindingRequest, HandshakeWalletBinding,
  complete_handshake_binding,
}
use vex_agentscan.Server.Handshake.Session.{
  CompleteRequest, HandshakeState, HandshakeAnswer, refused, rate_limited, bound, thrown,
  bound_answer, proven_session, gated_session, claimed_session, completed_session,
  post_session_complete,
}
use vex_agentscan.Server.Handshake.Spent.{IsSpent, completed-IsSpent}
use vex_agentscan.Server.Handshake.Proofs.{
  HandshakeDeps, same_address_hmac_set, verify_proof, ExistingAgentGateOutcome, new_agent,
  unauthorized, authorized, existing_agent_gate, binding_of, hmac_of,
}
use vex_agentscan.Server.Handshake.Wallets.{
  completed-wallets, is_owned, claimed-All_owned, occurrences, same_set-occurrences,
}

abbrev pub is_bound : HandshakeAnswer → Bool
is_bound (bound ingest_token agent_name last_accepted_row_id) = true
is_bound _ = false

-- Who may bind: an agent that is not known, or a known one that is active and sends its token.
abbrev pub MayBind : HandshakeDeps → String → Option (List ℕ) → Db → Type 0
MayBind deps agent_hash authorization db =
    (lookup by_hash agent_hash db.agents ≡ none)
    ⊎ ((g : Agent) × (token : List ℕ) × (lookup by_hash agent_hash db.agents ≡ some g)
        × (bearer_token_from authorization ≡ some token)
        × (deps.sha256_hex token ≡ g.ingest_token_sha256)
        × (g.status ≡ AgentStatus.active))

module _ (deps : HandshakeDeps) (body : Option CompleteRequest) (authorization : Option (List ℕ))
    (ingest_token : List ℕ) (db : Db) (challenges : List Challenge) where
  -- What has held where the agent is bound, and what holds then.
  pub record IsBinding (later : HandshakeState) : Type 0 where
    pub request : CompleteRequest
    pub challenge : Challenge
    pub parsed : body ≡ some request
    pub stored : lookup by_challenge request.challenge_id challenges ≡ some challenge
    pub own : challenge.agent_hash ≡ request.agent_hash
    pub in_time : deps.now ≤ challenge.expires_at
    pub spent : lookup by_challenge request.challenge_id later.challenges ≡ none
    pub gate : MayBind deps request.agent_hash authorization db
    pub covers :
        (x : String)
        → occurrences x (map hmac_of (map (binding_of deps) request.proofs))
          ≡ occurrences x challenge.address_hmacs
    pub verified : every (verify_proof deps request.agent_hash challenge) request.proofs ≡ true
    pub wallets :
        All
          (λ w. is_owned request.agent_hash w later.db.wallets ≡ true)
          (map (binding_of deps) request.proofs)

  pub record IsOutcome (later : HandshakeState) (answer : HandshakeAnswer) : Type 0 where
    pub unbound : is_bound answer ≡ false → later.db ≡ db
    pub binding : is_bound answer ≡ true → IsBinding later

  refused-IsOutcome :
      (later : HandshakeState) (answer : HandshakeAnswer)
      → later.db ≡ db
      → is_bound answer ≡ false
      → IsOutcome later answer
  refused-IsOutcome later answer same h = record {
    unbound = λ k. same;
    binding = λ k. absurd (ground (arith, h, k));
  }

  of_branches :
      (b : Bool) (x y : HandshakeState × HandshakeAnswer)
      → (b ≡ true → IsOutcome x.0 x.1)
      → (b ≡ false → IsOutcome y.0 y.1)
      → IsOutcome (if b then x else y).0 (if b then x else y).1
  of_branches true x y h k = h refl
  of_branches false x y h k = k refl

  gate-MayBind :
      (agent_hash : String) (status : AgentStatus)
      → existing_agent_gate deps agent_hash authorization db ≡ authorized status
      → (g : Agent) × (token : List ℕ) × (lookup by_hash agent_hash db.agents ≡ some g)
        × (bearer_token_from authorization ≡ some token)
        × (deps.sha256_hex token ≡ g.ingest_token_sha256)
        × (g.status ≡ status)
  unfolding existing_agent_gate
  gate-MayBind agent_hash status h = elim (Option-cases (lookup by_hash agent_hash db.agents)) [
    | inl missing ↦ absurd (ground (arith, missing, h))
    | inr (g, found) ↦ elim (Option-cases (bearer_token_from authorization)) [
      | inl missing ↦ absurd (ground (arith, found, missing, h))
      | inr (token, sent) ↦ (
        g,
        token,
        found,
        sent,
        ground (
          arith,
          found,
          sent,
          h,
          string_eq.beq_iff (deps.sha256_hex token) g.ingest_token_sha256,
        ),
        ground (arith, found, sent, h),
      )
    ]
  ]

  gate-new :
      (agent_hash : String)
      → existing_agent_gate deps agent_hash authorization db ≡ new_agent
      → lookup by_hash agent_hash db.agents ≡ none
  unfolding existing_agent_gate
  gate-new agent_hash h = ground (arith, h)

  claim_lem :
      (id agent_hash : String) (challenge : Challenge)
      → (claim_challenge id agent_hash deps.now challenges).1 ≡ some challenge
      → (lookup by_challenge id challenges ≡ some challenge)
        × (challenge.agent_hash ≡ agent_hash)
        × (deps.now ≤ challenge.expires_at)
        × (lookup by_challenge id (claim_challenge id agent_hash deps.now challenges).0 ≡ none)
  unfolding claim_challenge
  claim_lem id agent_hash challenge h = elim (Option-cases (lookup by_challenge id challenges)) [
    | inl missing ↦ absurd (ground (arith, missing, h))
    | inr (row, found) ↦
        let same = string_eq.beq_iff row.agent_hash agent_hash in
        (
          ground (arith, found, h),
          ground (arith, found, h, same),
          ground (arith, found, h),
          ground (
            arith,
            found,
            h,
            lookup-delete by_challenge id id challenges,
            string_eq.beq_iff id id,
          ),
        )
  ]

  module _ (request : CompleteRequest) (challenge : Challenge) (now_challenges : List Challenge)
      (parsed : body ≡ some request)
      (stored : lookup by_challenge request.challenge_id challenges ≡ some challenge)
      (own : challenge.agent_hash ≡ request.agent_hash) (in_time : deps.now ≤ challenge.expires_at)
      (spent : lookup by_challenge request.challenge_id now_challenges ≡ none) where
    bindings : List HandshakeWalletBinding
    bindings = map (binding_of deps) request.proofs

    binding_request : HandshakeBindingRequest
    binding_request = record {
      agent_hash = request.agent_hash;
      consent_version = request.consent_version;
      app_version = request.app_version;
      ingest_token_sha256 = deps.sha256_hex ingest_token;
      wallets = bindings;
    }

    done-IsOutcome :
        (done : Option (Db × List ℕ)) (state : HandshakeState)
        → complete_handshake_binding binding_request deps.now db ≡ done
        → state.challenges ≡ now_challenges
        → state.db ≡ db
        → MayBind deps request.agent_hash authorization db
        → same_address_hmac_set (map hmac_of bindings) challenge.address_hmacs ≡ true
        → every (verify_proof deps request.agent_hash challenge) request.proofs ≡ true
        → IsOutcome
            (bound_answer deps ingest_token request.agent_hash done state).0
            (bound_answer deps ingest_token request.agent_hash done state).1
    unfolding bindings binding_request
    done-IsOutcome none state bound_to claimed same gate covers proven =
        refused-IsOutcome state thrown same refl
    done-IsOutcome (some (next, name)) state bound_to claimed same gate covers proven =
        let owned = completed-wallets binding_request deps.now db (next, name) bound_to in
        record {
          unbound = λ k. absurd (ground (arith, k));
          binding = λ k. record {
            request = request;
            challenge = challenge;
            parsed = parsed;
            stored = stored;
            own = own;
            in_time = in_time;
            spent = rw claimed spent;
            gate = gate;
            covers =
                λ x. same_set-occurrences (map hmac_of bindings) challenge.address_hmacs x covers;
            verified = proven;
            wallets = rw owned (claimed-All_owned request.agent_hash bindings deps.now db.wallets);
          };
        }

    abbrev Completed : HandshakeState × HandshakeAnswer → Type 0
    Completed out = IsOutcome out.0 out.1

    proven-IsOutcome :
        (state : HandshakeState)
        → state.challenges ≡ now_challenges
        → state.db ≡ db
        → MayBind deps request.agent_hash authorization db
        → Completed (proven_session deps request ingest_token challenge state)
    unfolding proven_session bindings binding_request
    proven-IsOutcome state claimed same gate =
        of_branches (not (same_address_hmac_set (map hmac_of bindings) challenge.address_hmacs)) _ _
          (λ uncovered. refused-IsOutcome state (refused 400 "invalid_signature") same refl)
          (λ covered.
            of_branches
              (not (every (verify_proof deps request.agent_hash challenge) request.proofs)) _ _
              (λ unproven. refused-IsOutcome state (refused 400 "invalid_signature") same refl)
              (λ proven.
                done-IsOutcome (complete_handshake_binding binding_request deps.now state.db) state
                  (rw same refl) claimed same gate (ground (arith, covered))
                  (ground (arith, proven))))

    gated-IsOutcome :
        (gate : ExistingAgentGateOutcome) (state : HandshakeState)
        → existing_agent_gate deps request.agent_hash authorization db ≡ gate
        → state.challenges ≡ now_challenges
        → state.db ≡ db
        → Completed (gated_session deps gate request ingest_token challenge state)
    unfolding gated_session
    gated-IsOutcome unauthorized state g claimed same =
        refused-IsOutcome state (refused 401 "unauthorized") same refl
    gated-IsOutcome (authorized AgentStatus.revoked) state g claimed same =
        refused-IsOutcome state (refused 410 "consent_revoked") same refl
    gated-IsOutcome (authorized AgentStatus.quarantined) state g claimed same =
        refused-IsOutcome state (refused 403 "quarantined") same refl
    gated-IsOutcome (authorized AgentStatus.active) state g claimed same =
        proven-IsOutcome state claimed same
          (inr (gate-MayBind request.agent_hash AgentStatus.active g))
    gated-IsOutcome new_agent state g claimed same =
        proven-IsOutcome state claimed same (inl (gate-new request.agent_hash g))

  claimed-IsOutcome :
      (claimed : Option Challenge) (request : CompleteRequest) (state : HandshakeState)
      → body ≡ some request
      → (claim_challenge request.challenge_id request.agent_hash deps.now challenges).1 ≡ claimed
      → state.challenges
        ≡ (claim_challenge request.challenge_id request.agent_hash deps.now challenges).0
      → state.db ≡ db
      → IsOutcome
          (claimed_session deps claimed request authorization ingest_token state).0
          (claimed_session deps claimed request authorization ingest_token state).1
  unfolding claimed_session
  claimed-IsOutcome none request state parsed h k same =
      refused-IsOutcome state (refused 400 "challenge_expired") same refl
  claimed-IsOutcome (some challenge) request state parsed h k same =
      let (stored, own, in_time, spent) =
        claim_lem request.challenge_id request.agent_hash challenge h in
      gated-IsOutcome request challenge _ parsed stored own in_time spent _ state (rw same refl) k
        same

  completed-IsOutcome :
      (given : Option CompleteRequest) (decision : RateLimitDecision) (state : HandshakeState)
      → body ≡ given
      → state.challenges ≡ challenges
      → state.db ≡ db
      → IsOutcome
          (completed_session deps given authorization ingest_token decision state).0
          (completed_session deps given authorization ingest_token decision state).1
  unfolding completed_session
  completed-IsOutcome given (limited retry_after_sec) state parsed k same =
      refused-IsOutcome state (rate_limited retry_after_sec) same refl
  completed-IsOutcome none allowed state parsed k same =
      refused-IsOutcome state (refused 400 "validation_failed") same refl
  completed-IsOutcome (some request) allowed state parsed k same =
      claimed-IsOutcome _ request _ parsed (rw k refl) (rw k refl) same

-- What a completion does to the database, and to the stored challenges.
pub record IsCompletion (deps : HandshakeDeps) (body : Option CompleteRequest)
    (authorization : Option (List ℕ)) (ingest_token : List ℕ) (db : Db)
    (challenges : List Challenge) (later : HandshakeState) (answer : HandshakeAnswer) : Type 0 where
  pub outcome : IsOutcome deps body authorization ingest_token db challenges later answer
  pub challenge : IsSpent body challenges later answer

-- Every answer to the completion of a handshake but `bound` leaves the agents, the wallets and the
-- activities as they were. The stored challenges stay as they were where the request is
-- rate-limited or its body is not read; on every other answer, a refusal too, the challenge that
-- the request names is gone if it is the request's agent's own, and every other one stays. An agent
-- is bound only with a stored challenge of its own that has not expired; it is new, or active and
-- sends its token; its proofs all verify, and they are of the challenge's addresses, each as often
-- as there. Afterwards every proven wallet is its own.
pub post_session_complete-IsCompletion :
    (deps : HandshakeDeps) (ip : List ℕ) (body : Option CompleteRequest)
    (authorization : Option (List ℕ)) (ingest_token : List ℕ) (state : HandshakeState)
    → let (later, answer) = post_session_complete deps ip body authorization ingest_token state in
      IsCompletion deps body authorization ingest_token state.db state.challenges later answer
unfolding post_session_complete
post_session_complete-IsCompletion deps ip body authorization ingest_token state = record {
  outcome =
      completed-IsOutcome deps body authorization ingest_token state.db state.challenges body _ _
        refl refl refl;
  challenge = completed-IsSpent deps body authorization ingest_token _ _;
}
