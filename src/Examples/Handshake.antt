-- ===== src/Examples/Handshake.antt =====
-- A handshake that binds a new agent to one wallet.
use vex_agentscan.Base.{true, [], ◌∷◌, none, some}
use vex_agentscan.Base.Text.{codes}
use vex_agentscan.Contract.Enums.{ChainFamily}
use vex_agentscan.Server.Queue.Histories.{empty_db}
use vex_agentscan.Server.Handshake.{Challenge}
use vex_agentscan.Server.Handshake.Session.{
  CompleteRequest, HandshakeState, HandshakeAnswer, post_session_complete,
}
use vex_agentscan.Server.Handshake.Proofs.{HandshakeDeps, HandshakeProof}
use vex_agentscan.Server.Handshake.Completion.{IsCompletion, post_session_complete-IsCompletion}

abbrev deps : HandshakeDeps
deps = record {
  config = record {
    handshake_rate_limit_per_ip = 10;
    handshake_rate_window_sec = 60;
    rate_limit_key_salt = codes "salt";
    wallet_hmac_pepper = "pepper";
    handshake_challenge_ttl_min = 10;
    handshake_domain = "agentscan";
  };
  now = 5000;
  sha256_hex = λ text. "hash";
  hmac_sha256_hex = λ key text. "hmac";
  verify = λ chain_family template address signature. true;
  time_of = λ issued_at. some 2000;
}

abbrev challenge : Challenge
challenge = record {
  id = "challenge";
  agent_hash = "agent-hash-0123456789";
  nonce = "nonce";
  domain = "agentscan";
  address_hmacs = "hmac" ∷ [];
  created_at = 1000;
  expires_at = 601000;
}

abbrev proof : HandshakeProof
proof = record {
  chain_family = ChainFamily.eip155;
  address = "0xAA";
  signature = "0x5e";
  issued_at = "1970-01-01T00:00:02Z";
}

abbrev request : CompleteRequest
request = record {
  challenge_id = "challenge";
  agent_hash = "agent-hash-0123456789";
  consent_version = 1;
  app_version = none;
  proofs = proof ∷ [];
}

abbrev state : HandshakeState
state = record { db = empty_db; challenges = challenge ∷ []; hits = [] }

abbrev completed : HandshakeState × HandshakeAnswer
completed = post_session_complete deps (codes "ip") (some request) none (codes "token") state

post_session_complete-IsCompletion_example :
    IsCompletion deps
      (some request)
      none
      (codes "token")
      state.db
      state.challenges
      completed.0
      completed.1
post_session_complete-IsCompletion_example =
    post_session_complete-IsCompletion deps (codes "ip") (some request) none (codes "token") state
