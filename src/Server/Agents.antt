-- ===== src/Server/Agents.antt =====
-- apps/server/src/repos/agents-repo.ts and purge-repo.ts: registration, revocation and the purge
-- of an agent's data.
use vex_agentscan.Base.{
  ℕ, ◌+◌, ◌*◌, String, Bool, true, false, not, ◌&&◌, ◌||◌, List, map, Option, none, some, is_some,
  leb, ltb, length, delete_all, keep_if, sort, lookup, max, ◌==◌, if◌then◌else◌, nat_eq, string_eq,
  or_else,
}
use vex_agentscan.Server.Db.{AgentStatus, Agent, Db, by_id, by_activity, by_hash}
use vex_agentscan.Server.Finalize.{with_agent}

pub record AgentRegistration : Type 0 where
  pub agent_hash : String
  pub ingest_token_sha256 : String
  pub consent_version : ℕ
  pub accepted_at : ℕ
  pub app_version : Option String

pub data RegisterOutcome : Type 0 where
  registered token_conflict : RegisterOutcome

-- An agent hash that is bound to another token is left as it is, and the caller is told so.
unfoldable pub upsert_agent_registration : Db → AgentRegistration → Db × RegisterOutcome
upsert_agent_registration db r = elim (lookup by_hash r.agent_hash db.agents) [
  | none ↦ (
    with_agent
        (record {
          agent_hash = r.agent_hash;
          ingest_token_sha256 = r.ingest_token_sha256;
          consent_version = r.consent_version;
          accepted_at = r.accepted_at;
          app_version = r.app_version;
          name = none;
          last_handshake_at = none;
          status = AgentStatus.active;
          strike_count = 0;
          first_verified_at = none;
          revoked_at = none;
          quarantined_at = none;
          purged_at = none;
        })
        db,
    registered,
  )
  | some g ↦
      if g.ingest_token_sha256 == r.ingest_token_sha256
      then (
        with_agent
            (record g {
              consent_version = max g.consent_version r.consent_version;
              accepted_at = r.accepted_at;
              app_version = r.app_version;
              status = AgentStatus.active;
              revoked_at = none;
            })
            db,
        registered,
      )
      else (db, token_conflict)
]

abbrev pub is_revoked : AgentStatus → Bool
is_revoked AgentStatus.revoked = true
is_revoked _ = false

unfoldable pub revoke_agent : Db → ℕ → String → Db
revoke_agent db now agent_hash = elim (lookup by_hash agent_hash db.agents) [
  | none ↦ db
  | some g ↦
      if is_revoked g.status
      then db
      else with_agent (record g { status = AgentStatus.revoked; revoked_at = some now }) db
]

abbrev pub hour_ms : ℕ
hour_ms = 3600000

-- A null `revoked_at` fails the comparison.
abbrev is_due_for_purge : ℕ → ℕ → Agent → Bool
is_due_for_purge now delay_h g =
    is_revoked g.status
    && elim g.revoked_at [ none ↦ false | some t ↦ leb (t + delay_h * hour_ms) now ]

unfoldable pub find_agents_due_for_purge : Db → ℕ → ℕ → List String
find_agents_due_for_purge db now delay_h =
    map (λ g. g.agent_hash)
      (sort (λ a b. leb (or_else a.revoked_at 0) (or_else b.revoked_at 0))
        (keep_if (is_due_for_purge now delay_h) db.agents))

-- Deleting an activity deletes its verification job (ON DELETE CASCADE).
unfoldable pub purge_agent_data : Db → ℕ → String → Db × Bool
purge_agent_data db now agent_hash =
    let activities = keep_if (λ a. a.agent_hash == agent_hash) db.activities in
    let strikes = keep_if (λ s. s.agent_hash == agent_hash) db.strikes in
    let wallets = keep_if (λ w. w.agent_hash == agent_hash) db.wallets in
    let gone = map (λ a. a.id) activities in
    let cleared : Db = record db {
      activities = delete_all by_id gone db.activities;
      jobs = delete_all by_activity gone db.jobs;
      strikes = keep_if (λ s. not (s.agent_hash == agent_hash)) db.strikes;
      wallets = keep_if (λ w. not (w.agent_hash == agent_hash)) db.wallets;
    } in
    let removed = ltb 0 (length activities) || (ltb 0 (length strikes) || ltb 0 (length wallets)) in
    elim (lookup by_hash agent_hash db.agents) [
      | none ↦ (cleared, removed)
      | some g ↦
          if is_some g.purged_at
          then (cleared, removed)
          else (with_agent (record g { purged_at = some now }) cleared, true)
    ]
