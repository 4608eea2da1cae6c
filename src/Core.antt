-- ===== src/Core.antt =====
-- packages/core: the domain logic, which does no I/O.
pub mod Ingest
pub mod Policy
pub mod Verdict
pub mod Verification
pub mod Backoff
pub mod Pricing
pub mod Attestation
pub mod ChartRange
pub mod Metrics
pub mod Chains
