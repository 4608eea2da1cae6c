-- ===== src/Server/Finalize.antt =====
-- apps/server/src/repos/activities-verify-repo.ts: how a verdict is recorded.
pub mod Once
pub mod Strikes
use vex_agentscan.Base.{
  ℕ, suc, ◌+◌, ◌/◌, String, Bool, ◌&&◌, List, [], ◌∷◌, ◌++◌, Option, none, some, or_else, coalesce,
  any, ltb, length, lookup, put, delete, ◌==◌, if◌then◌else◌, nat_eq, string_eq,
}
use vex_agentscan.Base.Int.{ℤ, int_eq}
use vex_agentscan.Contract.Enums.{EventKind, EventRole, ChainFamily, kind_eq, role_eq, family_eq}
use vex_agentscan.Contract.Roles.{deploys_capital_role}
use vex_agentscan.Core.Policy.{is_launch_shaped}
use vex_agentscan.Core.Verdict.{StrikeVerdict, TerminalVerdict}
use vex_agentscan.Server.Db.{
  VerificationState, AgentStatus, StrikeReason, reason_eq, Activity, Agent, Strike, Aggregate, Db,
  by_id, by_activity, by_hash, is_queued,
}

-- The distinct rows that `independentStrikeShapes` counts.
pub record Shape : Type 0 where
  pub reason : StrikeReason
  pub protocol : String
  pub kind : EventKind
  pub event_role : EventRole
  pub chain_family : ChainFamily
  pub chain_id : ℤ

abbrev shape_beq : Shape → Shape → Bool
shape_beq s t =
    s.reason == t.reason
    && (s.protocol == t.protocol
        && (s.kind == t.kind
            && (s.event_role == t.event_role
                && (s.chain_family == t.chain_family && s.chain_id == t.chain_id))))

unfoldable pub distinct_shapes : List Shape → List Shape
distinct_shapes [] = []
distinct_shapes (s ∷ ss) =
    let rest = distinct_shapes ss in if any (shape_beq s) rest then rest else s ∷ rest

-- The join of an agent's strikes with the activities that they name.
unfoldable pub shapes_of : String → Db → List Strike → List Shape
shapes_of agent_hash db [] = []
shapes_of agent_hash db (s ∷ ss) =
    let rest = shapes_of agent_hash db ss in
    if s.agent_hash == agent_hash
    then elim s.activity_id [
      | none ↦ rest
      | some id ↦ elim (lookup by_id id db.activities) [
        | none ↦ rest
        | some a ↦
            record {
              reason = s.reason;
              protocol = a.protocol;
              kind = a.kind;
              event_role = a.event_role;
              chain_family = a.chain_family;
              chain_id = a.chain_id;
            }
            ∷ rest
      ]
    ]
    else rest

unfoldable pub independent_strike_shapes : Db → String → ℕ
unfolding distinct_shapes shapes_of
independent_strike_shapes db agent_hash =
    length (distinct_shapes (shapes_of agent_hash db db.strikes))

abbrev pub strike_reason : StrikeVerdict → StrikeReason
strike_reason StrikeVerdict.tx_reverted = StrikeReason.tx_reverted
strike_reason StrikeVerdict.amount_mismatch = StrikeReason.amount_mismatch
strike_reason StrikeVerdict.time_mismatch = StrikeReason.time_mismatch
strike_reason StrikeVerdict.tx_not_found = StrikeReason.tx_not_found

abbrev pub with_agent : Agent → Db → Db
with_agent g db = record db { agents = put by_hash g db.agents }

unfoldable pub quarantine : ℕ → String → Db → Db
quarantine now agent_hash db = elim (lookup by_hash agent_hash db.agents) [
  | none ↦ db
  | some g ↦
      with_agent
        (record g {
          status = AgentStatus.quarantined;
          quarantined_at = coalesce g.quarantined_at (some now);
        })
        db
]

-- `recordStrike`, with the threshold QUARANTINE_STRIKES.
unfoldable pub record_strike : ℕ → ℕ → ℕ → String → StrikeVerdict → Db → Db
unfolding quarantine
record_strike threshold now activity_id agent_hash reason db =
    let strike : Strike = record {
      agent_hash = agent_hash;
      activity_id = some activity_id;
      reason = strike_reason reason;
    } in
    let struck = record db { strikes = db.strikes ++ strike ∷ [] } in
    elim (lookup by_hash agent_hash db.agents) [
      | none ↦ struck
      | some g ↦
          let counted = with_agent (record g { strike_count = suc g.strike_count }) struck in
          if ltb (independent_strike_shapes counted agent_hash) threshold
          then counted
          else quarantine now agent_hash counted
    ]

-- One day of the UTC calendar, in milliseconds; an aggregate's day is counted from the epoch.
abbrev pub day_ms : ℕ
day_ms = 86400000

-- `activityAggregateDaySql`: the day of the activity's time anchor. `verified_at` is set by the
-- statement that reads it.
unfoldable pub aggregate_day : Activity → ℕ
aggregate_day a =
    or_else (coalesce (coalesce a.client_confirmed_at a.block_time) a.verified_at) 0 / day_ms

unfoldable pub volume_contribution : Activity → ℕ
volume_contribution a = if deploys_capital_role a.event_role then or_else a.usd.usd_in_est 0 else 0

-- The row of (day, protocol, kind), or one that starts from zero.
unfoldable pub is_aggregate_of : ℕ → String → EventKind → Aggregate → Bool
is_aggregate_of day protocol kind g = g.day == day && (g.protocol == protocol && g.kind == kind)

-- INSERT … ON CONFLICT (day, protocol, kind) DO UPDATE: both volumes and the count add up.
unfoldable pub add_to_aggregate :
    ℕ → String → EventKind → ℕ → ℕ → ℕ → List Aggregate → List Aggregate
unfolding is_aggregate_of
add_to_aggregate day protocol kind volume count priced [] =
    record {
      day = day;
      protocol = protocol;
      kind = kind;
      volume_usd = volume;
      tx_count = count;
      volume_usd_priced = priced;
    }
    ∷ []
add_to_aggregate day protocol kind volume count priced (g ∷ gs) =
    let rest = add_to_aggregate day protocol kind volume count priced gs in
    if is_aggregate_of day protocol kind g
    then record g {
      volume_usd = g.volume_usd + volume;
      tx_count = g.tx_count + count;
      volume_usd_priced = g.volume_usd_priced + priced;
    }
      ∷ gs
    else g ∷ rest

unfoldable pub first_verified : ℕ → String → Db → Db
first_verified now agent_hash db = elim (lookup by_hash agent_hash db.agents) [
  | none ↦ db
  | some g ↦
      with_agent (record g { first_verified_at = coalesce g.first_verified_at (some now) }) db
]

unfoldable pub record_verified_success : ℕ → Activity → Db → Db
unfolding first_verified
record_verified_success now a db =
    let credited = first_verified now a.agent_hash db in
    record credited {
      aggregates =
          add_to_aggregate (aggregate_day a) a.protocol a.kind (volume_contribution a) 1 0
            credited.aggregates;
    }

abbrev pub delete_job : ℕ → Db → Db
delete_job id db = record db { jobs = delete by_activity id db.jobs }

abbrev pub verdict_state : TerminalVerdict → VerificationState
verdict_state (TerminalVerdict.verified_full t) = VerificationState.verified_full
verdict_state (TerminalVerdict.verified_basic t) = VerificationState.verified_basic
verdict_state (TerminalVerdict.strike r) = VerificationState.mismatch

abbrev pub block_time_of : TerminalVerdict → Option ℕ
block_time_of (TerminalVerdict.verified_full t) = some t
block_time_of (TerminalVerdict.verified_basic t) = some t
block_time_of (TerminalVerdict.strike r) = none

unfoldable pub finalized_row : ℕ → TerminalVerdict → Activity → Activity
finalized_row now verdict a = record a {
  verification_state = verdict_state verdict;
  verified_at = some now;
  block_time = block_time_of verdict;
}

-- A strike on a launch-shaped activity is not held against the agent.
unfoldable pub record_consequence : ℕ → ℕ → TerminalVerdict → Activity → Db → Db
unfolding record_strike record_verified_success
record_consequence threshold now (TerminalVerdict.strike reason) a db =
    if is_launch_shaped a.kind a.event_role
    then db
    else record_strike threshold now a.id a.agent_hash reason db
record_consequence threshold now (TerminalVerdict.verified_full t) a db =
    record_verified_success now a db
record_consequence threshold now (TerminalVerdict.verified_basic t) a db =
    record_verified_success now a db

-- The UPDATE is conditional on a queued state: otherwise nothing is written at all.
unfoldable pub finalize_verification : ℕ → Db → ℕ → ℕ → TerminalVerdict → Db
unfolding finalized_row record_consequence
finalize_verification threshold db now id verdict = elim (lookup by_id id db.activities) [
  | none ↦ db
  | some a ↦
      if is_queued a.verification_state
      then delete_job id (
          record_consequence threshold now verdict (finalized_row now verdict a)
            (record db { activities = put by_id (finalized_row now verdict a) db.activities }))
      else db
]

unfoldable pub reschedule_job : Db → ℕ → ℕ → ℕ → String → Db
reschedule_job db now id delay_ms last_error = elim (lookup by_activity id db.jobs) [
  | none ↦ db
  | some j ↦ record db {
    jobs =
        put by_activity
          (record j {
            attempts = suc j.attempts;
            next_attempt_at = now + delay_ms;
            last_error = some last_error;
          })
          db.jobs;
  }
]

-- The job goes also where the activity is no longer queued.
unfoldable pub close_unverifiable : Db → ℕ → Db
close_unverifiable db id = elim (lookup by_id id db.activities) [
  | none ↦ delete_job id db
  | some a ↦
      if is_queued a.verification_state
      then delete_job id (record db {
        activities =
            put by_id (record a { verification_state = VerificationState.none }) db.activities;
      })
      else delete_job id db
]
