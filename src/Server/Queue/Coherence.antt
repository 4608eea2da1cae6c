-- ===== src/Server/Queue/Coherence.antt =====
-- The invariant of the queue, and the one way in which the operations write an activity.
use vex_agentscan.Base.{
  ℕ, ◌≤◌, Bool, true, false, ◌&&◌, List, Option, none, some, is_some, arith, lookup, put,
  lookup-put, IsKeyed, put-IsKeyed, ◌≡◌, ◌==◌, nat_eq, nat_beq_iff, Bool-cases, inl, inr, ◌∙◌,
}
use vex_agentscan.Server.Db.{Activity, Job, Db, by_id, by_activity, is_queued, is_none_state}
use vex_agentscan.Server.Ingest.{is_confirmed}

-- What may be verified: a confirmed activity with a transaction hash.
abbrev pub is_verifiable : Activity → Bool
is_verifiable a = is_confirmed a.status && is_some a.tx_hash

-- An activity is queued exactly when it has a job, and only a verifiable one leaves `none`.
abbrev pub Coherent : Option Activity → Option Job → Type 0
Coherent none j = is_some j ≡ false
Coherent (some a) j =
    (is_some j ≡ is_queued a.verification_state)
    × (is_none_state a.verification_state ≡ false → is_verifiable a ≡ true)

pub record QueueInv (acts : List Activity) (jobs : List Job) (next : ℕ) : Type 0 where
  pub keyed : IsKeyed by_id acts
  pub fresh : (i : ℕ) → next ≤ i → lookup by_id i acts ≡ none
  pub coherent : (i : ℕ) → Coherent (lookup by_id i acts) (lookup by_activity i jobs)

abbrev pub Inv : Db → Type 0
Inv db = QueueInv db.activities db.jobs db.next_activity_id

-- The jobs of every other activity are as they were.
abbrev pub Elsewhere : ℕ → List Job → List Job → Type 0
Elsewhere k jobs jobs' =
    (i : ℕ) → (k == i) ≡ false → lookup by_activity i jobs' ≡ lookup by_activity i jobs

module _ {acts : List Activity} {jobs : List Job} {next : ℕ} (v : QueueInv acts jobs next)
    (a : Activity) (jobs' : List Job) where
  pub write-Coherent :
      Elsewhere a.id jobs jobs'
      → Coherent (some a) (lookup by_activity a.id jobs')
      → (i : ℕ) → Coherent (lookup by_id i (put by_id a acts)) (lookup by_activity i jobs')
  write-Coherent away here i = elim (Bool-cases (a.id == i)) [
    | inl same ↦ rw (lookup-put by_id i a acts, same, ← (nat_beq_iff _ _).0 same) here
    | inr other ↦ rw (lookup-put by_id i a acts, other, away i other) (v.coherent i)
  ]

  -- An activity of the table is written over, and its own job is made to fit.
  pub write-QueueInv :
      (b : Activity)
      → lookup by_id a.id acts ≡ some b
      → Elsewhere a.id jobs jobs'
      → Coherent (some a) (lookup by_activity a.id jobs')
      → QueueInv (put by_id a acts) jobs' next
  write-QueueInv b old away here = record {
    keyed = put-IsKeyed by_id a acts v.keyed;
    fresh = λ i h. ground (arith, lookup-put by_id i a acts, v.fresh i h, v.fresh a.id);
    coherent = write-Coherent away here;
  }

pub Coherent-at :
    {acts : List Activity} {jobs : List Job} {next : ℕ} (v : QueueInv acts jobs next) (i : ℕ)
    (a : Activity)
    → lookup by_id i acts ≡ some a
    → Coherent (some a) (lookup by_activity i jobs)
Coherent-at v i a old = rw old at (v.coherent i)

-- An id that no activity has, no job names.
pub no_job_at :
    {acts : List Activity} {jobs : List Job} {next : ℕ} (v : QueueInv acts jobs next) (i : ℕ)
    → lookup by_id i acts ≡ none
    → is_some (lookup by_activity i jobs) ≡ false
no_job_at v i free = rw free at (v.coherent i)

-- Coherence sees of a job only whether it is there.
Coherent-is_some :
    (a : Option Activity) (j j' : Option Job)
    → is_some j' ≡ is_some j
    → Coherent a j
    → Coherent a j'
Coherent-is_some none j j' e c = e ∙ c
Coherent-is_some (some a) j j' e c = (e ∙ c.0, c.1)

pub jobs-QueueInv :
    {acts : List Activity} {jobs : List Job} {next : ℕ} (v : QueueInv acts jobs next)
    (jobs' : List Job)
    → ((i : ℕ) → is_some (lookup by_activity i jobs') ≡ is_some (lookup by_activity i jobs))
    → QueueInv acts jobs' next
jobs-QueueInv v jobs' same = record {
  keyed = v.keyed;
  fresh = v.fresh;
  coherent = λ i. Coherent-is_some _ _ _ (same i) (v.coherent i);
}
