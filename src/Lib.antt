-- ===== src/Lib.antt =====
-- The core of AgentScan: agents report what they did on chain (packages/contract), the server
-- stores it (apps/server/src/repos), a worker verifies it against the chain (apps/server/src/worker
-- and packages/core), and an operator corrects it (apps/server/src/cli).
--
-- Contract: packages/contract/src. `Contract.Event` is the event that the API admits, and
--   `Contract.Event.Issues` the refinements of `eventSchema`; `Contract.Roles` has role-binding.ts.
-- Core: packages/core/src. `Core.Ingest` is ingest-decision.ts, `Core.Policy`
--   verification-policy.ts, `Core.Verification` evaluate.ts, `Core.Backoff` backoff.ts,
--   `Core.Pricing` pricing/pricing-decision.ts, `Core.Attestation` attestation-precedence.ts with
--   verification/evaluate-attestation.ts in `Core.Attestation.Evaluate`, `Core.ChartRange`
--   chart-range.ts, `Core.Chains` chain-registry/chains.ts, registry.ts and catalog.ts with
--   bridge-chain.ts, and `Core.Metrics` agent-metrics: agent-activity.ts, usd-contribution.ts,
--   decimal.ts, breakdowns.ts, realized-result.ts, published-usd.ts and capital-deployed.ts.
--   `Core.Pricing.CoinKey` is pricing/coin-key.ts with legUsd, `Core.Attestation.Factories`
--   chain-registry/attestation-chain-registry.ts. Their children hold the theorems.
-- Server: apps/server/src. `Server.Db` is the state, one list of rows for each table.
--   `Server.Ingest` is repos/activities-ingest-repo.ts, `Server.Claim` and `Server.Finalize`
--   repos/activities-verify-repo.ts, `Server.Operator` the commands of cli, `Server.Agents`
--   repos/agents-repo.ts and repos/purge-repo.ts, `Server.Worker` worker/verify-job.ts,
--   worker/apply-outcome.ts and worker/loop.ts, `Server.RateLimit` plugins/rate-limit.ts and
--   repos/rate-limit-repo.ts, `Server.Cache` plugins/ttl-cache.ts, `Server.Pricing`
--   repos/activity-pricing-repo.ts with worker/pricing-loop.ts. `Server.Attestations` is
--   repos/token-attestations-repo.ts over its own table, `Server.Attestations.Outcomes`
--   repos/token-attestations-verify-repo.ts and `Server.Attestations.Verify` its worker:
--   attestation/verify-job.ts, attestation/trench-creation-event.ts,
--   worker/attestation-apply-outcome.ts and worker/attestation-loop.ts. `Server.Events` is
--   routes/events.ts, over `Server.Ingest`, `Server.RateLimit` and `Server.Auth`, which is
--   plugins/auth.ts. `Server.Handshake` is repos/handshake-repo.ts with handshake/agent-name.ts,
--   `Server.Handshake.Proofs` and `Server.Handshake.Session` routes/handshake.ts with
--   handshake/wallet-hmac.ts,
--   `Server.Registration` routes/agents.ts and `Server.Attestations.Route` the submission of
--   routes/token-attestations.ts. `Server.Queue` is about all operations on `Server.Db` together:
--   their invariant, the state machine, and the histories of calls from an empty database.
-- Base: tables with a primary key, lists, tests on numbers, text. Examples: concrete runs.
--
-- One transaction is one function on the database, which is what the row locks and conditional
-- updates of the source give; a thrown error is `none`, and its transaction is rolled back. Times
-- are milliseconds, a digit string is its number unless a function reads its digits, a `numeric` a
-- count of its finest unit, and ids come from a sequence. `toLowerCase` is that of ASCII letters.
-- Numbers are unbounded, as `bigint` and `numeric` are; times and counts stay far below the bounds
-- of a JavaScript number. The only fuel is that of the digits of a number, for which the number
-- itself is enough.
--
-- Chain readers answer from RPC endpoints and are parameters, as are the hash function, the decoder
-- of event logs and what zod makes of a body. Floating-point figures (rates, shares, the divergence
-- of prices) are left out. Not modelled are the other HTTP routes, read-only SQL, logs and timers,
-- and the web interface.
pub mod Base
pub mod Contract
pub mod Core
pub mod Server
pub mod Examples
