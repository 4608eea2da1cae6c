-- ===== src/Server/Handshake/Proofs.antt =====
-- apps/server/src/routes/handshake.ts: the proofs of a handshake and the gate of a known agent, with
-- handshake/wallet-hmac.ts and the template of packages/contract/src/handshake.ts. The hash functions,
-- the verifiers of signatures, the reading of a date and the clock are parameters.
use vex_agentscan.Base.{
  ℕ, ◌+◌, String, Bool, true, false, ◌&&◌, List, [], ◌∷◌, ◌++◌, Option, none, some, leb, length,
  sort, lookup, ◌==◌, nat_eq, string_eq, if◌then◌else◌,
}
use vex_agentscan.Base.Text.{codes, lower}
use vex_agentscan.Contract.Enums.{ChainFamily}
use vex_agentscan.Server.Db.{AgentStatus, Db, by_hash}
use vex_agentscan.Server.Auth.{bearer_token_from}
use vex_agentscan.Server.Handshake.{Challenge, HandshakeWalletBinding}

pub record HandshakeConfig : Type 0 where
  pub handshake_rate_limit_per_ip : ℕ
  pub handshake_rate_window_sec : ℕ
  pub rate_limit_key_salt : List ℕ
  pub wallet_hmac_pepper : String
  pub handshake_challenge_ttl_min : ℕ
  pub handshake_domain : String

-- `verify` is the verifier of the chain family; `time_of` is none where the date is not one.
pub record HandshakeDeps : Type 0 where
  pub config : HandshakeConfig
  pub now : ℕ
  pub sha256_hex : List ℕ → String
  pub hmac_sha256_hex : (key : String) → List ℕ → String
  pub verify : ChainFamily → (template : List ℕ) → (address signature : String) → Bool
  pub time_of : String → Option ℕ

pub record HandshakeAddress : Type 0 where
  pub chain_family : ChainFamily
  pub address : String

pub record HandshakeProof : Type 0 where
  pub chain_family : ChainFamily
  pub address : String
  pub signature : String
  pub issued_at : String

unfoldable pub normalize_handshake_address : ChainFamily → String → String
normalize_handshake_address ChainFamily.eip155 address = lower address
normalize_handshake_address ChainFamily.solana address = address

abbrev family_codes : ChainFamily → List ℕ
family_codes ChainFamily.eip155 = codes "eip155"
family_codes ChainFamily.solana = codes "solana"

unfoldable pub address_hmac_for : HandshakeDeps → ChainFamily → (address : String) → String
address_hmac_for deps chain_family address =
    deps.hmac_sha256_hex deps.config.wallet_hmac_pepper
      (family_codes chain_family ++ 58 ∷ codes (normalize_handshake_address chain_family address))

-- The order of `sort()`: by code units, a prefix first.
unfoldable pub codes_leb : List ℕ → List ℕ → Bool
codes_leb [] ds = true
codes_leb (c ∷ cs) [] = false
codes_leb (c ∷ cs) (d ∷ ds) = let rest = codes_leb cs ds in if c == d then rest else leb c d

unfoldable pub same_values : List String → List String → Bool
same_values [] [] = true
same_values (a ∷ xs) (b ∷ ys) = a == b && same_values xs ys
same_values _ _ = false

abbrev pub text_order : String → String → Bool
text_order a b = codes_leb (codes a) (codes b)

unfoldable pub same_address_hmac_set : List String → List String → Bool
same_address_hmac_set a b =
    length a == length b && same_values (sort text_order a) (sort text_order b)

unfoldable pub is_within_issued_at_window : HandshakeDeps → (issued_at : String) → Challenge → Bool
is_within_issued_at_window deps issued_at challenge = elim (deps.time_of issued_at) [
  | none ↦ false
  | some issued_at_ms ↦
      leb challenge.created_at (issued_at_ms + 60000) && leb issued_at_ms challenge.expires_at
]

unfoldable pub handshake_challenge_template :
    (domain agent_hash address : String) → ChainFamily → (nonce issued_at : String) → List ℕ
handshake_challenge_template domain agent_hash address chain_family nonce issued_at =
    codes "AgentScan Handshake v1"
    ++ 10 ∷ codes "Domain: "
    ++ codes domain
    ++ 10 ∷ codes "Agent: "
    ++ codes agent_hash
    ++ 10 ∷ codes "Address: "
    ++ codes address
    ++ 10 ∷ codes "Chain-Family: "
    ++ family_codes chain_family
    ++ 10 ∷ codes "Nonce: "
    ++ codes nonce
    ++ 10 ∷ codes "Issued-At: "
    ++ codes issued_at

unfoldable pub verify_proof :
    HandshakeDeps → (agent_hash : String) → Challenge → HandshakeProof → Bool
verify_proof deps agent_hash challenge proof =
    let address = normalize_handshake_address proof.chain_family proof.address in
    is_within_issued_at_window deps proof.issued_at challenge
    && deps.verify proof.chain_family
        (handshake_challenge_template challenge.domain agent_hash address proof.chain_family
          challenge.nonce proof.issued_at)
        address proof.signature

pub data ExistingAgentGateOutcome : Type 0 where
  new_agent unauthorized : ExistingAgentGateOutcome
  authorized : AgentStatus → ExistingAgentGateOutcome

unfoldable pub existing_agent_gate :
    HandshakeDeps
    → (agent_hash : String) → (authorization : Option (List ℕ)) → Db
    → ExistingAgentGateOutcome
existing_agent_gate deps agent_hash authorization db = elim (lookup by_hash agent_hash db.agents) [
  | none ↦ new_agent
  | some g ↦ elim (bearer_token_from authorization) [
    | none ↦ unauthorized
    | some token ↦
        if deps.sha256_hex token == g.ingest_token_sha256 then authorized g.status else unauthorized
  ]
]

abbrev pub binding_of : HandshakeDeps → HandshakeProof → HandshakeWalletBinding
binding_of deps proof = record {
  chain_family = proof.chain_family;
  address_hmac = address_hmac_for deps proof.chain_family proof.address;
  proof_signature = proof.signature;
}

abbrev pub hmac_of : HandshakeWalletBinding → String
hmac_of binding = binding.address_hmac
