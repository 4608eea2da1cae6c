-- ===== src/Examples/Events.antt =====
-- POST /v1/events with a batch of an active agent: an event that is stored and one that is rejected.
use vex_agentscan.Base.{ℕ, String, Bool, true, false, List, [], ◌∷◌, Option, none, some}
use vex_agentscan.Base.Text.{codes}
use vex_agentscan.Contract.Event.{IngestEvent}
use vex_agentscan.Server.Db.{AgentStatus, Agent}
use vex_agentscan.Server.Queue.Histories.{empty_db}
use vex_agentscan.Server.Events.{EventsBatch, EventsConfig, EventsState, EventsAnswer, post_events}
use vex_agentscan.Server.Events.Answers.{IsAnswer, post_events-IsAnswer}
use vex_agentscan.Examples.{swapped}

abbrev hash_of : List ℕ → String
hash_of text = "hash"

-- A raw event is a truth value here; one of the two passes the schema.
abbrev parse : Bool → Option IngestEvent
parse true = some swapped
parse false = none

abbrev public_id_of : ℕ → String
public_id_of index = "pub"

abbrev time_of : ℕ → ℕ
time_of index = 1000

abbrev agent : Agent
agent = record {
  agent_hash = "agent";
  ingest_token_sha256 = "hash";
  consent_version = 1;
  accepted_at = 100;
  app_version = none;
  name = none;
  last_handshake_at = none;
  status = AgentStatus.active;
  strike_count = 0;
  first_verified_at = none;
  revoked_at = none;
  quarantined_at = none;
  purged_at = none;
}

abbrev config : EventsConfig
config = record {
  ingest_rate_limit_per_token = 60;
  ingest_rate_window_sec = 60;
  rate_limit_key_salt = codes "salt";
  max_batch_events = 100;
}

abbrev batch : EventsBatch Bool
batch = record {
  schema_version = 3;
  agent_hash = "agent";
  backfill = false;
  events = true ∷ false ∷ [];
}

abbrev authorization : Option (List ℕ)
authorization = some (codes "Bearer token")

abbrev state : EventsState
state = record { db = record empty_db { agents = agent ∷ [] }; hits = [] }

abbrev posted : EventsState × EventsAnswer
posted =
    post_events hash_of Bool parse time_of public_id_of config 1000 authorization (some batch) state

post_events-IsAnswer_example :
    IsAnswer hash_of Bool parse time_of public_id_of config authorization
      (some batch)
      state.db
      posted.0
      posted.1
post_events-IsAnswer_example =
    post_events-IsAnswer hash_of Bool parse time_of public_id_of config 1000 authorization
      (some batch) state
