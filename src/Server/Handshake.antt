-- ===== src/Server/Handshake.antt =====
-- apps/server/src/repos/handshake-repo.ts and handshake/agent-name.ts. The ids of challenges are
-- random and come from the caller. A wallet that another transaction inserts in between ends in the
-- same reassignment; here the transactions come one after another.
pub mod Proofs
pub mod Session
pub mod Wallets
pub mod Spent
pub mod Completion
use vex_agentscan.Base.{
  ℕ, ◌+◌, ◌*◌, String, Bool, true, false, not, ◌&&◌, List, [], ◌∷◌, ◌++◌, Option, none, some, ltb,
  leb, max, take, any, every, keep_if, sort, lookup, put, delete, ◌==◌, string_eq, nat_eq,
  if◌then◌else◌, ◌>>=◌,
}
use vex_agentscan.Base.Text.{codes, codes_eq}
use vex_agentscan.Base.Digits.{is_digit, digit_value}
use vex_agentscan.Contract.Enums.{ChainFamily, family_eq}
use vex_agentscan.Server.Db.{AgentStatus, Agent, Activity, Wallet, Db, by_hash}
use vex_agentscan.Server.Finalize.{with_agent}

pub record Challenge : Type 0 where
  pub id : String
  pub agent_hash : String
  pub nonce : String
  pub domain : String
  pub address_hmacs : List String
  pub created_at : ℕ
  pub expires_at : ℕ

abbrev pub by_challenge : Challenge → String
by_challenge c = c.id

unfoldable pub insert_challenge : Challenge → List Challenge → List Challenge
insert_challenge challenge challenges = put by_challenge challenge challenges

-- The challenge of another agent stays; that of the request's agent is deleted, expired or not.
unfoldable pub claim_challenge :
    (challenge_id : String)
    → (request_agent_hash : String) → (now : ℕ) → List Challenge
    → List Challenge × Option Challenge
claim_challenge challenge_id request_agent_hash now challenges =
    elim (lookup by_challenge challenge_id challenges) [
      | none ↦ (challenges, none)
      | some row ↦
          let rest = delete by_challenge challenge_id challenges in
          if row.agent_hash == request_agent_hash
          then (if ltb row.expires_at now then (rest, none) else (rest, some row))
          else (challenges, none)
    ]

abbrev pub hour_ms : ℕ
hour_ms = 3600000

unfoldable pub delete_expired_handshake_challenges : (now : ℕ) → List Challenge → List Challenge
delete_expired_handshake_challenges now challenges =
    keep_if (λ c. not (ltb (c.created_at + hour_ms) now)) challenges

pub record HandshakeWalletBinding : Type 0 where
  pub chain_family : ChainFamily
  pub address_hmac : String
  pub proof_signature : String

pub record HandshakeBindingRequest : Type 0 where
  pub agent_hash : String
  pub consent_version : ℕ
  pub app_version : Option String
  pub ingest_token_sha256 : String
  pub wallets : List HandshakeWalletBinding

-- The agent with its token and consent, and the row as it is after the upsert.
unfoldable pub upserted_agent : Option Agent → HandshakeBindingRequest → ℕ → Agent
upserted_agent none request now = record {
  agent_hash = request.agent_hash;
  ingest_token_sha256 = request.ingest_token_sha256;
  consent_version = request.consent_version;
  accepted_at = now;
  app_version = request.app_version;
  name = none;
  last_handshake_at = some now;
  status = AgentStatus.active;
  strike_count = 0;
  first_verified_at = none;
  revoked_at = none;
  quarantined_at = none;
  purged_at = none;
}
upserted_agent (some g) request now = record g {
  ingest_token_sha256 = request.ingest_token_sha256;
  consent_version = max g.consent_version request.consent_version;
  app_version = request.app_version;
  last_handshake_at = some now;
}

unfoldable pub upsert_agent_for_handshake : HandshakeBindingRequest → ℕ → Db → Db × Agent
upsert_agent_for_handshake request now db =
    let agent = upserted_agent (lookup by_hash request.agent_hash db.agents) request now in
    (with_agent agent db, agent)

unfoldable pub agent_name_candidates : (agent_hash : String) → List (List ℕ)
agent_name_candidates agent_hash =
    let name_of : ℕ → List ℕ = λ hex_length. codes "Vex-" ++ take hex_length (codes agent_hash) in
    name_of 8 ∷ name_of 12 ∷ name_of 16 ∷ []

-- The name is another agent's, which the unique index refuses.
abbrev is_taken_by : (candidate : List ℕ) → (agent_hash : String) → Agent → Bool
is_taken_by candidate agent_hash g =
    not (g.agent_hash == agent_hash) && elim g.name [ none ↦ false | some name ↦ name == candidate ]

-- The candidates in turn; the last violation throws.
unfoldable pub assign_agent_name : List (List ℕ) → Agent → Db → Option (Db × List ℕ)
assign_agent_name [] agent db = none
assign_agent_name (candidate ∷ candidates) agent db =
    let rest = assign_agent_name candidates agent db in
    if any (is_taken_by candidate agent.agent_hash) db.agents
    then rest
    else some (with_agent (record agent { name = some candidate }) db, candidate)

abbrev pub is_wallet : HandshakeWalletBinding → Wallet → Bool
is_wallet wallet row =
    row.chain_family == wallet.chain_family && row.address_hmac == wallet.address_hmac

unfoldable pub reassign_wallet :
    (agent_hash : String) → HandshakeWalletBinding → (now : ℕ) → List Wallet → List Wallet
reassign_wallet agent_hash wallet now [] = []
reassign_wallet agent_hash wallet now (row ∷ rows) =
    (if is_wallet wallet row
      then record row {
        agent_hash = agent_hash;
        proof_signature = wallet.proof_signature;
        proven_at = now;
      }
      else row)
    ∷ reassign_wallet agent_hash wallet now rows

abbrev pub inserted_wallet : (agent_hash : String) → HandshakeWalletBinding → (now : ℕ) → Wallet
inserted_wallet agent_hash wallet now = record {
  agent_hash = agent_hash;
  chain_family = wallet.chain_family;
  address_hmac = wallet.address_hmac;
  proof_signature = wallet.proof_signature;
  proven_at = now;
}

unfoldable pub claim_wallet :
    (agent_hash : String) → HandshakeWalletBinding → (now : ℕ) → List Wallet → List Wallet
claim_wallet agent_hash wallet now rows =
    if any (is_wallet wallet) rows
    then reassign_wallet agent_hash wallet now rows
    else rows ++ inserted_wallet agent_hash wallet now ∷ []

unfoldable pub claim_wallets :
    (agent_hash : String) → List HandshakeWalletBinding → (now : ℕ) → List Wallet → List Wallet
claim_wallets agent_hash [] now rows = rows
claim_wallets agent_hash (wallet ∷ wallets) now rows =
    claim_wallets agent_hash wallets now (claim_wallet agent_hash wallet now rows)

-- `none` is a thrown error, after which the transaction is rolled back.
unfoldable pub complete_handshake_binding : HandshakeBindingRequest → ℕ → Db → Option (Db × List ℕ)
complete_handshake_binding request now db =
    let (upserted, agent) = upsert_agent_for_handshake request now db in
    let claimed : Db = record upserted {
      wallets = claim_wallets request.agent_hash request.wallets now upserted.wallets;
    } in
    elim agent.name [
      | some name ↦ some (claimed, name)
      | none ↦ assign_agent_name (agent_name_candidates request.agent_hash) agent claimed
    ]

abbrev is_numeric : List ℕ → Bool
is_numeric [] = false
is_numeric (c ∷ cs) = every is_digit (c ∷ cs)

abbrev first_row_id : List Activity → Option String
first_row_id [] = none
first_row_id (row ∷ rows) = some row.source_row_id

unfoldable pub last_accepted_row_id_for : (agent_hash : String) → Db → Option String
last_accepted_row_id_for agent_hash db = first_row_id (
    sort
      (λ a b. leb (digit_value 0 (codes b.source_row_id)) (digit_value 0 (codes a.source_row_id)))
      (keep_if (λ a. a.agent_hash == agent_hash && is_numeric (codes a.source_row_id))
        db.activities))
