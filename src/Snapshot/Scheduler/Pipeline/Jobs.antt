-- ===== src/Snapshot/Scheduler/Pipeline/Jobs.antt =====
-- The job budget of a tick, `_tick_jobs`, where the jobs are split as a live run splits them.
use fuzzmeter.Prelude.{
  ℕ, ◌+◌, ◌≤◌, ◌≡◌, ◌≢◌, ◌⊎◌, inl, inr, not, ◌&&◌, Option, some, arith, length, nat_beq, Bool-cases,
}
use fuzzmeter.Run.Resources.{live_resource_plan}
use fuzzmeter.Run.Resources.Plan.{plan_splits}
use fuzzmeter.Snapshot.Scheduler.State.{Scheduler}
use fuzzmeter.Snapshot.Scheduler.Pipeline.{tick_jobs}

-- Of a campaign of known size, every trial has begun.
abbrev pub AllBegun : Scheduler → Type 0
AllBegun s = (s.settings.total_trials ≢ 0) × (length s.campaign_trials ≡ s.settings.total_trials)

-- In a live run whose jobs are split by `_live_resource_plan`, with no more active trials than
-- trial workers: once every trial of the campaign has begun, the jobs of a tick and the active
-- trials together are exactly the run's parallel jobs; before that a tick has exactly the planned
-- snapshot jobs, and with the active trials no more than the parallel jobs.
pub tick_jobs_planned :
    (s : Scheduler) (snapshot_jobs : Option ℕ)
    → 1 ≤ s.settings.parallel_jobs
    → live_resource_plan s.settings.parallel_jobs snapshot_jobs
      ≡ some (s.settings.trial_workers, s.settings.jobs)
    → length s.active ≤ s.settings.trial_workers
    → (AllBegun s × (tick_jobs s + length s.active ≡ s.settings.parallel_jobs))
      ⊎ ((¬ AllBegun s)
          × (tick_jobs s ≡ s.settings.jobs)
          × (tick_jobs s + length s.active ≤ s.settings.parallel_jobs))
unfolding tick_jobs
tick_jobs_planned s snapshot_jobs h plan few =
    let (all_used, one_trial, some_snapshot) =
      plan_splits s.settings.parallel_jobs snapshot_jobs h plan in
    elim (Bool-cases (
      not (nat_beq s.settings.total_trials 0)
      && nat_beq (length s.campaign_trials) s.settings.total_trials)) [
        | inl begun ↦ inl ((ground arith, ground arith), ground arith)
        | inr waiting ↦ inr ((λ b. ground (arith, b.0, b.1)), ground arith, ground arith)
      ]
