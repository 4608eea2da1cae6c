-- ===== src/Server/Finalize/Once.antt =====
-- `finalizeVerification`: a verdict takes effect once, and the day's aggregates count it once.
use vex_agentscan.Base.{
  ℕ, ◌+◌, String, Bool, true, false, List, [], ◌∷◌, none, some, arith, map, sum, lookup, put,
  lookup-put, key-lookup, ◌≡◌, refl, nat_eq, beq_refl, Bool-cases, Option-cases, inl, inr,
  if◌then◌else◌,
}
use vex_agentscan.Contract.Enums.{EventKind}
use vex_agentscan.Core.Verdict.{TerminalVerdict, StrikeVerdict}
use vex_agentscan.Server.Db.{Activity, Aggregate, Db, by_id, is_queued}
use vex_agentscan.Server.Finalize.{
  aggregate_day, volume_contribution, add_to_aggregate, finalized_row, record_consequence,
  record_strike, record_verified_success, first_verified, finalize_verification,
}
use vex_agentscan.Server.Queue.Verdicts.{record_consequence-SameQueue}

finalized-not_queued :
    (threshold : ℕ) (db : Db) (now id : ℕ) (verdict : TerminalVerdict) (a : Activity)
    → lookup by_id id db.activities ≡ some a
    → is_queued a.verification_state ≡ true
    → lookup by_id id (finalize_verification threshold db now id verdict).activities
      ≡ some (finalized_row now verdict a)
unfolding finalize_verification finalized_row
finalized-not_queued threshold db now id verdict a found q =
    let b = finalized_row now verdict a in
    let written : Db = record db { activities = put by_id b db.activities } in
    rw (found, finalize_verification)
      (rw (q, finalize_verification)
        (rw
          (
            (record_consequence-SameQueue threshold now verdict b written).0,
            lookup-put by_id id b db.activities,
            key-lookup by_id id a db.activities found,
            beq_refl id,
          )
          refl))

settled :
    (now : ℕ) (verdict : TerminalVerdict) (a : Activity)
    → is_queued (finalized_row now verdict a).verification_state ≡ false
unfolding finalized_row
settled now verdict a = ground arith

finalize_skips :
    (threshold : ℕ) (db : Db) (now id : ℕ) (verdict : TerminalVerdict) (a : Activity)
    → lookup by_id id db.activities ≡ some a
    → is_queued a.verification_state ≡ false
    → finalize_verification threshold db now id verdict ≡ db
unfolding finalize_verification
finalize_skips threshold db now id verdict a found q =
    rw (found, finalize_verification) (rw (q, finalize_verification) refl)

finalize_missing :
    (threshold : ℕ) (db : Db) (now id : ℕ) (verdict : TerminalVerdict)
    → lookup by_id id db.activities ≡ none
    → finalize_verification threshold db now id verdict ≡ db
unfolding finalize_verification
finalize_missing threshold db now id verdict missing = rw (missing, finalize_verification) refl

-- When a verdict was recorded for an activity, recording a second verdict for it, at any time and
-- of any result, changes nothing in the database.
pub finalize_once :
    (threshold : ℕ) (db : Db) (now later id : ℕ) (verdict second : TerminalVerdict)
    → finalize_verification threshold
        (finalize_verification threshold db now id verdict)
        later
        id
        second
      ≡ finalize_verification threshold db now id verdict
finalize_once threshold db now later id verdict second =
    elim (Option-cases (lookup by_id id db.activities)) [
      | inl missing ↦
          rw (finalize_missing threshold db now id verdict missing)
            (finalize_missing threshold db later id second missing)
      | inr (a, found) ↦ elim (Bool-cases (is_queued a.verification_state)) [
        | inl q ↦
            finalize_skips threshold _ later id second (finalized_row now verdict a)
              (finalized-not_queued threshold db now id verdict a found q) (settled now verdict a)
        | inr q ↦
            rw (finalize_skips threshold db now id verdict a found q)
              (finalize_skips threshold db later id second a found q)
      ]
    ]

abbrev pub total_count : List Aggregate → ℕ
total_count gs = sum (map (λ g. g.tx_count) gs)

abbrev pub total_volume : List Aggregate → ℕ
total_volume gs = sum (map (λ g. g.volume_usd) gs)

pub add-total_count :
    (day : ℕ) (protocol : String) (kind : EventKind) (volume count priced : ℕ) (gs : List Aggregate)
    → total_count (add_to_aggregate day protocol kind volume count priced gs)
      ≡ total_count gs + count
unfolding add_to_aggregate
add-total_count day protocol kind volume count priced [] = omega arith
add-total_count day protocol kind volume count priced (g ∷ gs) =
    ground (arith, add-total_count day protocol kind volume count priced gs)

pub add-total_volume :
    (day : ℕ) (protocol : String) (kind : EventKind) (volume count priced : ℕ) (gs : List Aggregate)
    → total_volume (add_to_aggregate day protocol kind volume count priced gs)
      ≡ total_volume gs + volume
unfolding add_to_aggregate
add-total_volume day protocol kind volume count priced [] = omega arith
add-total_volume day protocol kind volume count priced (g ∷ gs) =
    ground (arith, add-total_volume day protocol kind volume count priced gs)

abbrev pub is_verified : TerminalVerdict → Bool
is_verified (TerminalVerdict.verified_full t) = true
is_verified (TerminalVerdict.verified_basic t) = true
is_verified (TerminalVerdict.strike r) = false

record_strike-aggregates :
    (threshold now id : ℕ) (hash : String) (reason : StrikeVerdict) (db : Db)
    → (record_strike threshold now id hash reason db).aggregates ≡ db.aggregates
unfolding record_strike
record_strike-aggregates threshold now id hash reason db = ground arith

success-totals :
    (now : ℕ) (a : Activity) (db : Db)
    → (total_count (record_verified_success now a db).aggregates ≡ total_count db.aggregates + 1)
      × (total_volume (record_verified_success now a db).aggregates
          ≡ total_volume db.aggregates + volume_contribution a)
unfolding record_verified_success first_verified
success-totals now a db =
    let day = aggregate_day a in
    let volume = volume_contribution a in
    ground (
      arith,
      add-total_count day a.protocol a.kind volume 1 0 db.aggregates,
      add-total_volume day a.protocol a.kind volume 1 0 db.aggregates,
    )

consequence-totals :
    (threshold now : ℕ) (verdict : TerminalVerdict) (a : Activity) (db : Db)
    → (total_count (record_consequence threshold now verdict a db).aggregates
        ≡ total_count db.aggregates + (if is_verified verdict then 1 else 0))
      × (total_volume (record_consequence threshold now verdict a db).aggregates
          ≡ total_volume db.aggregates + (if is_verified verdict then volume_contribution a else 0))
unfolding record_consequence
consequence-totals threshold now (TerminalVerdict.verified_full t) a db = success-totals now a db
consequence-totals threshold now (TerminalVerdict.verified_basic t) a db = success-totals now a db
consequence-totals threshold now (TerminalVerdict.strike reason) a db =
    ground (arith, record_strike-aggregates threshold now a.id a.agent_hash reason db)

-- Recording a verdict for a queued activity adds one to the aggregates' total count, and the
-- activity's volume contribution to their total volume, exactly when the verdict is a verified one;
-- a strike adds nothing.
pub finalize-totals :
    (threshold : ℕ) (db : Db) (now id : ℕ) (verdict : TerminalVerdict) (a : Activity)
    → lookup by_id id db.activities ≡ some a
    → is_queued a.verification_state ≡ true
    → (total_count (finalize_verification threshold db now id verdict).aggregates
        ≡ total_count db.aggregates + (if is_verified verdict then 1 else 0))
      × (total_volume (finalize_verification threshold db now id verdict).aggregates
          ≡ total_volume db.aggregates + (if is_verified verdict then volume_contribution a else 0))
unfolding finalize_verification finalized_row volume_contribution
finalize-totals threshold db now id verdict a found q =
    let b = finalized_row now verdict a in
    let written : Db = record db { activities = put by_id b db.activities } in
    rw (found, finalize_verification)
      (rw (q, finalize_verification) (consequence-totals threshold now verdict b written))
