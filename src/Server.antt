-- ===== src/Server.antt =====
-- apps/server: the ingest API and the workers over the database.
pub mod Db
pub mod Ingest
pub mod Claim
pub mod Finalize
pub mod Operator
pub mod Agents
pub mod Queue
pub mod Worker
pub mod RateLimit
pub mod Cache
pub mod Pricing
pub mod Attestations
pub mod Auth
pub mod Events
pub mod Handshake
pub mod Registration
