-- ===== src/Run/Resources/Plan.antt =====
-- The split of the jobs.
use fuzzmeter.Prelude.{ℕ, zero, suc, ◌+◌, ◌≤◌, ◌<◌, ◌≡◌, ◌≢◌, ◌↔◌, Option, none, some, arith}
use fuzzmeter.Run.Resources.{live_resource_plan}

-- With at least one job, a plan uses all jobs and no more, has a trial worker, and has a snapshot
-- worker exactly if there is more than one job.
pub plan_splits :
    (total_jobs : ℕ) (snapshot_jobs : Option ℕ) {trial_workers snapshot_workers : ℕ}
    → 1 ≤ total_jobs
    → live_resource_plan total_jobs snapshot_jobs ≡ some (trial_workers, snapshot_workers)
    → (trial_workers + snapshot_workers ≡ total_jobs)
      × (1 ≤ trial_workers)
      × ((1 ≤ snapshot_workers) ↔ (1 < total_jobs))
unfolding live_resource_plan
plan_splits total (some (suc n)) h e =
    (ground arith, ground arith, (λ p. ground arith, λ p. ground arith))
plan_splits total (some zero) h e =
    (ground arith, ground arith, (λ p. ground arith, λ p. ground arith))
plan_splits total none h e = (ground arith, ground arith, (λ p. ground arith, λ p. ground arith))

-- There is no plan exactly if, with other than one job, the snapshot jobs asked for are positive
-- and leave no job for the trials.
pub plan-none_iff :
    (total_jobs : ℕ) (snapshot_jobs : Option ℕ)
    → (live_resource_plan total_jobs snapshot_jobs ≡ none)
      ↔ ((n : ℕ) × (snapshot_jobs ≡ some n) × (1 ≤ n) × (total_jobs ≤ n) × (total_jobs ≢ 1))
unfolding live_resource_plan
plan-none_iff total (some (suc n)) = (
  λ e. (suc n, ground arith, ground arith, ground arith, ground arith),
  λ (m, e, pos, le, ne). ground arith,
)
plan-none_iff total (some zero) = (λ e. ground arith, λ (m, e, pos, le, ne). ground arith)
plan-none_iff total none = (λ e. ground arith, λ (m, e, pos, le, ne). cc)
