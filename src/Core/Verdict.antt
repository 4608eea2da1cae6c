-- ===== src/Core/Verdict.antt =====
-- The verdicts of packages/core/src/verification/evaluate.ts. `Terminal` is the part of them that
-- apps/server/src/repos/activities-verify-repo.ts extracts as `TerminalVerdict`.
use vex_agentscan.Base.{ℕ, String}

pub data StrikeVerdict : Type 0 where
  tx_reverted amount_mismatch time_mismatch tx_not_found : StrikeVerdict

pub data TerminalVerdict : Type 0 where
  verified_full verified_basic : (block_timestamp : ℕ) → TerminalVerdict
  strike : StrikeVerdict → TerminalVerdict

pub data Verdict : Type 0 where
  terminal : TerminalVerdict → Verdict
  unverifiable : Verdict
  retry : (error : String) → Verdict
