-- ===== src/Server/Finalize/Strikes.antt =====
-- What a strike costs the agent: `recordStrike` with `QUARANTINE_STRIKES`, as `finalizeVerification`
-- calls it.
use mathlib.Core.Bool.{decide}
use vex_agentscan.Base.{
  ℕ, suc, String, Bool, true, false, ◌&&◌, not, List, [], ◌∷◌, ◌++◌, some, arith, coalesce, ltb,
  lookup, put, lookup-put, key-lookup, ◌≡◌, refl, ◌==◌, nat_eq, string_eq, beq_refl, Bool-cases,
  Option-cases, inl, inr,
}
use vex_agentscan.Contract.Enums.{EventKind, EventRole, kind_eq, role_eq, EventKind_discrete}
use vex_agentscan.Core.Policy.{is_launch_shaped, kind_verification_policies}
use vex_agentscan.Core.Verdict.{TerminalVerdict, StrikeVerdict}
use vex_agentscan.Server.Db.{AgentStatus, Activity, Agent, Strike, Db, by_id, by_hash, is_queued}
use vex_agentscan.Server.Finalize.{
  shapes_of, independent_strike_shapes, strike_reason, quarantine, record_strike, finalized_row,
  record_consequence, finalize_verification,
}

-- The one activity whose strikes are not held against the agent: the launch of a token.
abbrev pub is_token_launch : Activity → Bool
is_token_launch a = a.kind == EventKind.launch && a.event_role == EventRole.token_launch

token_launch_lem :
    (kind : EventKind) (role : EventRole)
    → is_launch_shaped kind role ≡ kind == EventKind.launch && role == EventRole.token_launch
unfolding is_launch_shaped kind_verification_policies decide EventKind_discrete
token_launch_lem EventKind.swap role = refl
token_launch_lem EventKind.bridge role = refl
token_launch_lem EventKind.lend role = refl
token_launch_lem EventKind.prediction role = refl
token_launch_lem EventKind.wrap role = refl
token_launch_lem EventKind.yield role = refl
token_launch_lem EventKind.launch role = ground (
  arith,
  role_eq.beq_iff role EventRole.token_launch,
  role_eq.beq_iff EventRole.token_launch role,
)
token_launch_lem EventKind.claim role = refl

abbrev pub strike_of : Activity → StrikeVerdict → Strike
strike_of a reason = record {
  agent_hash = a.agent_hash;
  activity_id = some a.id;
  reason = strike_reason reason;
}

-- The agent with one strike more, and quarantined where the threshold is reached.
abbrev pub struck_agent : (now : ℕ) → (reached : Bool) → Agent → Agent
struck_agent now false g = record g { strike_count = suc g.strike_count }
struck_agent now true g = record g {
  strike_count = suc g.strike_count;
  status = AgentStatus.quarantined;
  quarantined_at = coalesce g.quarantined_at (some now);
}

-- The agent's strikes are of as many different shapes as the threshold says.
abbrev pub is_reached : ℕ → String → Db → Bool
is_reached threshold agent_hash db = not (ltb (independent_strike_shapes db agent_hash) threshold)

-- What a strike on an activity changes of the agents and the strikes.
pub record IsStruck (threshold now : ℕ) (a : Activity) (reason : StrikeVerdict) (db later : Db)
    : Type 0 where
  pub exempt : is_token_launch a ≡ true → (later.agents ≡ db.agents) × (later.strikes ≡ db.strikes)
  pub held : is_token_launch a ≡ false → later.strikes ≡ db.strikes ++ strike_of a reason ∷ []
  pub struck :
      is_token_launch a ≡ false
      → (g : Agent) → lookup by_hash a.agent_hash db.agents ≡ some g
      → lookup by_hash a.agent_hash later.agents
        ≡ some (struck_agent now (is_reached threshold a.agent_hash later) g)
  pub others :
      (hash : String)
      → (a.agent_hash == hash) ≡ false
      → lookup by_hash hash later.agents ≡ lookup by_hash hash db.agents

shapes_of-same :
    (hash : String) (d e : Db) (ss : List Strike)
    → d.activities ≡ e.activities
    → shapes_of hash d ss ≡ shapes_of hash e ss
unfolding shapes_of
shapes_of-same hash d e [] h = refl
shapes_of-same hash d e (s ∷ ss) h = ground (arith, h, shapes_of-same hash d e ss h)

shapes-same :
    (hash : String) (d e : Db)
    → d.activities ≡ e.activities
    → d.strikes ≡ e.strikes
    → independent_strike_shapes d hash ≡ independent_strike_shapes e hash
unfolding independent_strike_shapes
shapes-same hash d e h k = rw (shapes_of-same hash d e d.strikes h) (rw k refl)

module _ (threshold now : ℕ) (a : Activity) (reason : StrikeVerdict) (db : Db) where
  after_strike : Db
  unfolding record_strike
  after_strike = record_strike threshold now a.id a.agent_hash reason db

  after_strike-strikes : after_strike.strikes ≡ db.strikes ++ strike_of a reason ∷ []
  unfolding after_strike record_strike quarantine
  after_strike-strikes = ground arith

  struck_db : Agent → Db
  struck_db g = record db {
    strikes = db.strikes ++ strike_of a reason ∷ [];
    agents = put by_hash (record g { strike_count = suc g.strike_count }) db.agents;
  }

  below_lem :
      (g : Agent)
      → lookup by_hash a.agent_hash db.agents ≡ some g
      → ltb (independent_strike_shapes (struck_db g) a.agent_hash) threshold ≡ true
      → after_strike ≡ struck_db g
  unfolding after_strike record_strike struck_db
  below_lem g found below = rw (found, record_strike) (rw (below, record_strike) refl)

  reached_lem :
      (g : Agent)
      → lookup by_hash a.agent_hash db.agents ≡ some g
      → ltb (independent_strike_shapes (struck_db g) a.agent_hash) threshold ≡ false
      → after_strike ≡ quarantine now a.agent_hash (struck_db g)
  unfolding after_strike record_strike struck_db
  reached_lem g found reached = rw (found, record_strike) (rw (reached, record_strike) refl)

  struck_db_lem :
      (g : Agent)
      → lookup by_hash a.agent_hash db.agents ≡ some g
      → lookup by_hash a.agent_hash (struck_db g).agents
        ≡ some (record g { strike_count = suc g.strike_count })
  unfolding struck_db
  struck_db_lem g found =
      let b : Agent = record g { strike_count = suc g.strike_count } in
      ground (
        arith,
        lookup-put by_hash a.agent_hash b db.agents,
        key-lookup by_hash a.agent_hash g db.agents found,
        beq_refl a.agent_hash,
      )

  quarantine_lem :
      (d : Db) (g : Agent)
      → lookup by_hash a.agent_hash d.agents ≡ some g
      → lookup by_hash a.agent_hash (quarantine now a.agent_hash d).agents
        ≡ some (record g {
          status = AgentStatus.quarantined;
          quarantined_at = coalesce g.quarantined_at (some now);
        })
  unfolding quarantine
  quarantine_lem d g found =
      let b : Agent = record g {
        status = AgentStatus.quarantined;
        quarantined_at = coalesce g.quarantined_at (some now);
      } in
      rw (found, quarantine)
        (ground (
          arith,
          lookup-put by_hash a.agent_hash b d.agents,
          key-lookup by_hash a.agent_hash g d.agents found,
          beq_refl a.agent_hash,
        ))

  quarantine-same :
      (d : Db)
      → ((quarantine now a.agent_hash d).activities ≡ d.activities)
        × ((quarantine now a.agent_hash d).strikes ≡ d.strikes)
  unfolding quarantine
  quarantine-same d = ground arith

  after_strike-struck :
      (g : Agent)
      → lookup by_hash a.agent_hash db.agents ≡ some g
      → lookup by_hash a.agent_hash after_strike.agents
        ≡ some (struck_agent now (is_reached threshold a.agent_hash after_strike) g)
  after_strike-struck g found =
      elim (Bool-cases (ltb (independent_strike_shapes (struck_db g) a.agent_hash) threshold)) [
        | inl below ↦
            let same = below_lem g found below in rw same (rw below (struck_db_lem g found))
        | inr reached ↦
            let same = reached_lem g found reached in
            let (activities, strikes) = quarantine-same (struck_db g) in
            rw same (
              rw
                (
                  shapes-same a.agent_hash (quarantine now a.agent_hash (struck_db g)) (struck_db g)
                      activities strikes,
                  reached,
                )
                (quarantine_lem (struck_db g) _ (struck_db_lem g found)))
      ]

  struck_db_others :
      (g : Agent) (hash : String)
      → g.agent_hash ≡ a.agent_hash
      → (a.agent_hash == hash) ≡ false
      → lookup by_hash hash (struck_db g).agents ≡ lookup by_hash hash db.agents
  unfolding struck_db
  struck_db_others g hash own other =
      let b : Agent = record g { strike_count = suc g.strike_count } in
      ground (arith, lookup-put by_hash hash b db.agents, own, other)

  quarantine_others :
      (g : Agent) (hash : String)
      → g.agent_hash ≡ a.agent_hash
      → (a.agent_hash == hash) ≡ false
      → lookup by_hash a.agent_hash db.agents ≡ some g
      → lookup by_hash hash (quarantine now a.agent_hash (struck_db g)).agents
        ≡ lookup by_hash hash (struck_db g).agents
  unfolding quarantine
  quarantine_others g hash own other found =
      let b : Agent = record g {
        strike_count = suc g.strike_count;
        status = AgentStatus.quarantined;
        quarantined_at = coalesce g.quarantined_at (some now);
      } in
      rw (struck_db_lem g found, quarantine)
        (ground (arith, lookup-put by_hash hash b (struck_db g).agents, own, other))

  after_strike-others :
      (hash : String)
      → (a.agent_hash == hash) ≡ false
      → lookup by_hash hash after_strike.agents ≡ lookup by_hash hash db.agents
  unfolding after_strike record_strike quarantine
  after_strike-others hash other = elim (Option-cases (lookup by_hash a.agent_hash db.agents)) [
    | inl missing ↦ rw (missing, record_strike) refl
    | inr (g, found) ↦
        let own = key-lookup by_hash a.agent_hash g db.agents found in
        elim (Bool-cases (ltb (independent_strike_shapes (struck_db g) a.agent_hash) threshold)) [
          | inl below ↦ rw (below_lem g found below) (struck_db_others g hash own other)
          | inr reached ↦
              rw (reached_lem g found reached)
                (rw (quarantine_others g hash own other found) (struck_db_others g hash own other))
        ]
  ]

abbrev written : ℕ → StrikeVerdict → Activity → Db → Db
written now reason a db = record db {
  activities = put by_id (finalized_row now (TerminalVerdict.strike reason) a) db.activities;
}

-- The verdict `strike` of a queued activity: that of a token's launch leaves the agents and the
-- strikes as they are. Any other adds one strike, for the activity and of the verdict's reason, and
-- one to the strike count of the activity's agent, if that is known; the agent is put in quarantine
-- when its strikes are then of as many shapes as the threshold or more, and keeps its status
-- otherwise. No other agent changes.
pub strike-IsStruck :
    (threshold : ℕ) (db : Db) (now id : ℕ) (reason : StrikeVerdict) (a : Activity)
    → lookup by_id id db.activities ≡ some a
    → is_queued a.verification_state ≡ true
    → IsStruck threshold now a reason db
        (finalize_verification threshold db now id (TerminalVerdict.strike reason))
unfolding finalize_verification record_consequence after_strike finalized_row lookup
    independent_strike_shapes
strike-IsStruck threshold db now id reason a found q =
    let d = written now reason a db in
    let b = finalized_row now (TerminalVerdict.strike reason) a in
    let launch = token_launch_lem a.kind a.event_role in
    rw (found, finalize_verification)
      (rw (q, finalize_verification)
        (elim (Bool-cases (is_token_launch a)) [
          | inl exempt ↦
              rw (launch, record_consequence)
                (rw (exempt, record_consequence)
                  (record {
                    exempt = λ h. (refl, refl);
                    held = λ h. absurd (ground (arith, exempt, h));
                    struck = λ h. absurd (ground (arith, exempt, h));
                    others = λ hash other. refl;
                  }))
          | inr held ↦
              rw (launch, record_consequence)
                (rw (held, record_consequence)
                  (record {
                    exempt = λ h. absurd (ground (arith, held, h));
                    held = λ h. after_strike-strikes threshold now b reason d;
                    struck = λ h g known. after_strike-struck threshold now b reason d g known;
                    others = λ hash other. after_strike-others threshold now b reason d hash other;
                  }))
        ]))
