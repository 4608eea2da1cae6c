-- ===== src/Server/Claim.antt =====
-- apps/server/src/repos/activities-verify-repo.ts: `claimDueJobs`, the lease on due jobs.
use vex_agentscan.Base.{
  ℕ, ◌+◌, Bool, not, ◌&&◌, List, [], ◌∷◌, none, some, leb, keep_if, take, sort, lookup, put, ◌==◌,
  if◌then◌else◌, nat_eq,
}
use vex_agentscan.Contract.Enums.{EventStatus, status_eq}
use vex_agentscan.Server.Db.{Activity, Job, Db, by_id, by_activity}

-- A claimed job: the row of the queue as it was, and its activity.
pub record ClaimedJob : Type 0 where
  pub job : Job
  pub activity : Activity

unfoldable pub is_due : ℕ → Job → Bool
is_due now job = leb job.next_attempt_at now

-- The subquery: due jobs that no other worker has locked, oldest first, up to the limit.
unfoldable pub due_jobs : ℕ → (ℕ → Bool) → ℕ → Db → List Job
unfolding is_due
due_jobs now locked limit db = take limit (
    sort (λ a b. leb a.next_attempt_at b.next_attempt_at)
      (keep_if (λ j. is_due now j && not (locked j.activity_id)) db.jobs))

unfoldable pub claims_an_inclusion : Activity → Bool
claims_an_inclusion a = not (a.status == EventStatus.superseded_unproven)

unfoldable pub claimed_of : Db → List Job → List ClaimedJob
unfolding claims_an_inclusion
claimed_of db [] = []
claimed_of db (j ∷ js) =
    let rest = claimed_of db js in
    elim (lookup by_id j.activity_id db.activities) [
      | none ↦ rest
      | some a ↦ if claims_an_inclusion a then record { job = j; activity = a } ∷ rest else rest
    ]

unfoldable pub lease_all : ℕ → List ClaimedJob → List Job → List Job
lease_all until [] jobs = jobs
lease_all until (c ∷ cs) jobs =
    lease_all until cs (put by_activity (record c.job { next_attempt_at = until }) jobs)

unfoldable pub claim_due_jobs : Db → ℕ → (ℕ → Bool) → ℕ → ℕ → Db × List ClaimedJob
unfolding claimed_of lease_all due_jobs
claim_due_jobs db now locked limit lease_ms =
    let claimed = claimed_of db (due_jobs now locked limit db) in
    (record db { jobs = lease_all (now + lease_ms) claimed db.jobs }, claimed)
