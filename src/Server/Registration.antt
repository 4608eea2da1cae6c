-- ===== src/Server/Registration.antt =====
-- apps/server/src/routes/agents.ts. The bodies are as the schema leaves them; the hash function is a
-- parameter.
use vex_agentscan.Base.{ℕ, String, List, Option, none, some}
use vex_agentscan.Server.Db.{Db}
use vex_agentscan.Server.Agents.{
  RegisterOutcome, registered, token_conflict, upsert_agent_registration, revoke_agent,
}
use vex_agentscan.Server.RateLimit.{RateLimitDecision, allowed, limited, HitsRow, allow}
use vex_agentscan.Server.Auth.{bearer_token_from, authenticate_agent, rate_limit_key_hash}

pub record RegisterRequest : Type 0 where
  pub agent_hash : String
  pub ingest_token : List ℕ
  pub consent_version : ℕ
  pub accepted_at : ℕ
  pub app_version : Option String

pub record RegisterConfig : Type 0 where
  pub register_rate_limit_per_ip : ℕ
  pub register_rate_window_sec : ℕ
  pub rate_limit_key_salt : List ℕ

pub record AgentsState : Type 0 where
  pub db : Db
  pub hits : List HitsRow

pub data AgentsAnswer : Type 0 where
  refused : (status : ℕ) → (code : String) → AgentsAnswer
  rate_limited : (retry_after_sec : ℕ) → AgentsAnswer
  done : (status : String) → AgentsAnswer

abbrev register_answer : RegisterOutcome → AgentsAnswer
register_answer registered = done "registered"
register_answer token_conflict = refused 409 "agent_conflict"

module _ (sha256_hex : List ℕ → String) where
  unfoldable pub registered_agent :
      Option RegisterRequest → RateLimitDecision → AgentsState → AgentsState × AgentsAnswer
  registered_agent body (limited retry_after_sec) state = (state, rate_limited retry_after_sec)
  registered_agent none allowed state = (state, refused 400 "validation_failed")
  registered_agent (some request) allowed state =
      let (db, outcome) = upsert_agent_registration state.db (record {
        agent_hash = request.agent_hash;
        ingest_token_sha256 = sha256_hex request.ingest_token;
        consent_version = request.consent_version;
        accepted_at = request.accepted_at;
        app_version = request.app_version;
      }) in
      (record state { db = db }, register_answer outcome)

  -- POST /v1/agents/register
  unfoldable pub post_register :
      RegisterConfig
      → (now : ℕ) → (ip : List ℕ) → Option RegisterRequest
      → AgentsState
      → AgentsState × AgentsAnswer
  post_register config now ip body state =
      let (hits, decision) =
        allow config.register_rate_limit_per_ip config.register_rate_window_sec
          (rate_limit_key_hash sha256_hex "register" ip config.rate_limit_key_salt) now
          state.hits in
      registered_agent body decision (record state { hits = hits })

  -- POST /v1/agents/revoke
  unfoldable pub post_revoke :
      (now : ℕ) → (authorization : Option (List ℕ)) → Db → Db × AgentsAnswer
  post_revoke now authorization db = elim (bearer_token_from authorization) [
    | none ↦ (db, refused 401 "unauthorized")
    | some token ↦ elim (authenticate_agent sha256_hex db token) [
      | none ↦ (db, refused 401 "unauthorized")
      | some agent ↦ (revoke_agent db now agent.agent_hash, done "revoked")
    ]
  ]
