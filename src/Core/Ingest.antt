-- ===== src/Core/Ingest.antt =====
-- packages/core/src/ingest-decision.ts: what a reported status does to the stored activity.
use vex_agentscan.Base.{
  Bool, ◌&&◌, List, [], ◌∷◌, Option, none, some, contains, ◌==◌, if◌then◌else◌,
}
use vex_agentscan.Contract.Enums.{
  EventStatus, pending, confirmed, definitively_failed, superseded_unproven, status_eq,
}

pub record ExistingActivityState : Type 0 where
  pub status : EventStatus
  pub statuses_seen : List EventStatus

pub data IngestOutcome : Type 0 where
  insert duplicate promote accept_noop : IngestOutcome

pub terminal_statuses : List EventStatus
terminal_statuses = confirmed ∷ definitively_failed ∷ superseded_unproven ∷ []

pub is_terminal_ingest_status : EventStatus → Bool
unfolding terminal_statuses
is_terminal_ingest_status status = contains terminal_statuses status

pub is_failed_ingest_status : EventStatus → Bool
is_failed_ingest_status status = status == definitively_failed

unfoldable pub decide_ingest : Option ExistingActivityState → EventStatus → IngestOutcome
unfolding terminal_statuses
decide_ingest none incoming = insert
decide_ingest (some existing) incoming =
    if contains existing.statuses_seen incoming
    then duplicate
    else if existing.status == pending && contains terminal_statuses incoming
    then promote
    else accept_noop
