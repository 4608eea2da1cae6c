-- ===== src/Contract.antt =====
-- packages/contract: the wire contract of the events that agents report.
pub mod Enums
pub mod Roles
pub mod Event
