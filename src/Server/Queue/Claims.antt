-- ===== src/Server/Queue/Claims.antt =====
-- `claimDueJobs`: what a worker gets, and what its lease keeps from the others.
use vex_agentscan.Base.{
  ℕ, ◌+◌, ◌≤◌, Bool, true, false, not, ◌&&◌, List, [], ◌∷◌, some, is_some, arith, lookup, put,
  lookup-put, ◌≡◌, refl, ◌==◌, nat_eq, nat_beq_iff, length, All, All-take, All-sort, All-mono,
  All-is_stored, Bool-cases, Option-cases, inl, inr, keep_if, any, ap, sym, ◌∙◌,
}
use vex_agentscan.Server.Db.{Job, Db, by_id, by_activity}
use vex_agentscan.Server.Claim.{
  ClaimedJob, is_due, due_jobs, claims_an_inclusion, claimed_of, lease_all, claim_due_jobs,
}
use vex_agentscan.Server.Queue.Coherence.{Inv, jobs-QueueInv}

-- A claimed job was due and free, and its activity claims an inclusion.
pub record IsClaimable (now : ℕ) (locked : ℕ → Bool) (db : Db) (c : ClaimedJob) : Type 0 where
  pub due : c.job.next_attempt_at ≤ now
  pub free : locked c.job.activity_id ≡ false
  pub activity : lookup by_id c.job.activity_id db.activities ≡ some c.activity
  pub inclusion : claims_an_inclusion c.activity ≡ true
  pub stored : is_some (lookup by_activity c.job.activity_id db.jobs) ≡ true

-- The part of that which the subquery selects by.
record IsSelected (now : ℕ) (locked : ℕ → Bool) (db : Db) (j : Job) : Type 0 where
  due : j.next_attempt_at ≤ now
  free : locked j.activity_id ≡ false
  stored : is_some (lookup by_activity j.activity_id db.jobs) ≡ true

module _ (now : ℕ) (locked : ℕ → Bool) (db : Db) where
  IsSelected-All :
      (js : List Job)
      → All (λ j. is_some (lookup by_activity j.activity_id db.jobs) ≡ true) js
      → All
          (IsSelected now locked db)
          (keep_if (λ j. is_due now j && not (locked j.activity_id)) js)
  unfolding is_due
  IsSelected-All [] h = tt
  IsSelected-All (j ∷ js) h = elim (Bool-cases (is_due now j && not (locked j.activity_id))) [
    | inl kept ↦
        rw kept
          (record { due = ground arith; free = ground arith; stored = h.0 }, IsSelected-All js h.1)
    | inr left ↦ rw left (IsSelected-All js h.1)
  ]

  due_jobs-IsSelected : (limit : ℕ) → All (IsSelected now locked db) (due_jobs now locked limit db)
  unfolding due_jobs
  due_jobs-IsSelected limit = All-take _ limit _ (
      All-sort _ _ _
        (IsSelected-All db.jobs (All-is_stored by_activity db.jobs db.jobs (λ k h. h))))

  claimed_of-IsClaimable :
      (js : List Job)
      → All (IsSelected now locked db) js
      → All (IsClaimable now locked db) (claimed_of db js)
  unfolding claimed_of
  claimed_of-IsClaimable [] h = tt
  claimed_of-IsClaimable (j ∷ js) h =
      elim (Option-cases (lookup by_id j.activity_id db.activities)) [
        | inl missing ↦ rw (missing, claimed_of) (claimed_of-IsClaimable js h.1)
        | inr (a, found) ↦ elim (Bool-cases (claims_an_inclusion a)) [
          | inl ok ↦
              rw (found, claimed_of)
                (rw (ok, claimed_of)
                  (
                    record {
                      due = h.0.due;
                      free = h.0.free;
                      activity = found;
                      inclusion = ok;
                      stored = h.0.stored;
                    },
                    claimed_of-IsClaimable js h.1,
                  ))
          | inr out ↦ rw (found, claimed_of) (rw (out, claimed_of) (claimed_of-IsClaimable js h.1))
        ]
      ]

-- The job of an activity is leased until a time.
abbrev pub Leased : ℕ → ℕ → List Job → Type 0
Leased until i jobs = (j : Job) × (lookup by_activity i jobs ≡ some j) × (j.next_attempt_at ≡ until)

abbrev pub is_claimed : ℕ → List ClaimedJob → Bool
is_claimed i cs = any (λ c. c.job.activity_id == i) cs

abbrev leased_job : ℕ → ClaimedJob → Job
leased_job until c = record c.job { next_attempt_at = until }

put-Leased :
    (until i : ℕ) (c : ClaimedJob) (jobs : List Job)
    → (c.job.activity_id == i) ≡ true
    → Leased until i (put by_activity (leased_job until c) jobs)
put-Leased until i c jobs h =
    (leased_job until c, rw (lookup-put by_activity i (leased_job until c) jobs, h), refl)

Leased-put :
    (until i : ℕ) (c : ClaimedJob) (jobs : List Job)
    → Leased until i jobs
    → Leased until i (put by_activity (leased_job until c) jobs)
Leased-put until i c jobs (j, found, e) = elim (Bool-cases (c.job.activity_id == i)) [
  | inl hit ↦ put-Leased until i c jobs hit
  | inr miss ↦ (j, rw (lookup-put by_activity i (leased_job until c) jobs, miss) found, e)
]

Leased-lease_all :
    (until i : ℕ) (cs : List ClaimedJob) (jobs : List Job)
    → Leased until i jobs
    → Leased until i (lease_all until cs jobs)
unfolding lease_all
Leased-lease_all until i [] jobs l = l
Leased-lease_all until i (c ∷ cs) jobs l =
    Leased-lease_all until i cs _ (Leased-put until i c jobs l)

lease_all-Leased :
    (until i : ℕ) (cs : List ClaimedJob) (jobs : List Job)
    → is_claimed i cs ≡ true
    → Leased until i (lease_all until cs jobs)
unfolding lease_all
lease_all-Leased until i [] jobs h = cc
lease_all-Leased until i (c ∷ cs) jobs h = elim (Bool-cases (c.job.activity_id == i)) [
  | inl hit ↦ Leased-lease_all until i cs _ (put-Leased until i c jobs hit)
  | inr miss ↦ lease_all-Leased until i cs _ (rw miss at h)
]

lookup-lease_all_other :
    (until i : ℕ) (cs : List ClaimedJob) (jobs : List Job)
    → is_claimed i cs ≡ false
    → lookup by_activity i (lease_all until cs jobs) ≡ lookup by_activity i jobs
unfolding lease_all
lookup-lease_all_other until i [] jobs h = refl
lookup-lease_all_other until i (c ∷ cs) jobs h = ground (
  arith,
  lookup-lease_all_other until i cs (put by_activity (leased_job until c) jobs),
  lookup-put by_activity i (leased_job until c) jobs,
)

lease-All_stored :
    (until i : ℕ) (cs : List ClaimedJob) (jobs : List Job)
    → All (λ c. is_some (lookup by_activity c.job.activity_id jobs) ≡ true) cs
    → is_claimed i cs ≡ true
    → is_some (lookup by_activity i jobs) ≡ true
lease-All_stored until i [] jobs h e = cc
lease-All_stored until i (c ∷ cs) jobs h e = elim (Bool-cases (c.job.activity_id == i)) [
  | inl hit ↦ rw (← (nat_beq_iff _ _).0 hit) h.0
  | inr miss ↦ lease-All_stored until i cs jobs h.1 (rw miss at e)
]

-- A lease moves no job in or out of the queue.
is_some-lease_all :
    (until : ℕ) (cs : List ClaimedJob) (jobs : List Job)
    → All (λ c. is_some (lookup by_activity c.job.activity_id jobs) ≡ true) cs
    → (i : ℕ)
    → is_some (lookup by_activity i (lease_all until cs jobs)) ≡ is_some (lookup by_activity i jobs)
is_some-lease_all until cs jobs h i = elim (Bool-cases (is_claimed i cs)) [
  | inl hit ↦
      let (j, found, _) = lease_all-Leased until i cs jobs hit in
      ap is_some found ∙ sym (lease-All_stored until i cs jobs h hit)
  | inr miss ↦ ap is_some (lookup-lease_all_other until i cs jobs miss)
]

-- What one call of `claimDueJobs` promises.
pub record ClaimSpec (db : Db) (now : ℕ) (locked : ℕ → Bool) (limit lease_ms : ℕ)
    (r : Db × List ClaimedJob) : Type 0 where
  pub bounded : length r.1 ≤ limit
  pub claimable : All (IsClaimable now locked db) r.1
  pub leased : (i : ℕ) → is_claimed i r.1 ≡ true → Leased (now + lease_ms) i r.0.jobs
  pub others :
      (i : ℕ)
      → is_claimed i r.1 ≡ false
      → lookup by_activity i r.0.jobs ≡ lookup by_activity i db.jobs
  pub activities_kept : r.0.activities ≡ db.activities

pub claim-Inv :
    (db : Db) (now : ℕ) (locked : ℕ → Bool) (limit lease_ms : ℕ)
    → Inv db
    → Inv (claim_due_jobs db now locked limit lease_ms).0
unfolding claim_due_jobs
claim-Inv db now locked limit lease_ms v =
    let js = due_jobs now locked limit db in
    let claimable =
      claimed_of-IsClaimable now locked db js (due_jobs-IsSelected now locked db limit) in
    jobs-QueueInv v (lease_all (now + lease_ms) (claimed_of db js) db.jobs) (
      is_some-lease_all (now + lease_ms) (claimed_of db js) db.jobs
        (All-mono (claimed_of db js) (λ c k. k.stored) claimable))
