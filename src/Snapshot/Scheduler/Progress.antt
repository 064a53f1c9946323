-- ===== src/Snapshot/Scheduler/Progress.antt =====
-- `_update_run_progress`: the numbers that it hands to the progress bars.
-- A difference that the source cuts off at 0 by `max(0, …)` is a difference of naturals. So is the
-- longest time left of an active trial: where it is negative in the source, the other number under
-- `max`, which is never negative, is taken there too.
pub mod Waves
mod Tests
use fuzzmeter.Prelude.{
  ℕ, zero, suc, ◌+◌, ◌-◌, ◌*◌, ◌/◌, Bool, true, false, ◌&&◌, Option, none, some, List, [], ◌∷◌, ltb,
  min, max, if◌then◌else◌, length,
}
use fuzzmeter.Prelude.Equality.{string_eq}
use fuzzmeter.Dict.{values}
use fuzzmeter.Snapshot.Scheduler.State.{TrialInstance, TrialConfig, Settings, Scheduler}

-- `update_campaign`
pub record CampaignProgress : Type 0 where
  pub completed : ℕ
  pub active : ℕ
  pub queued : ℕ
  pub remaining_seconds : ℕ

-- `update_run`
pub record RunProgress : Type 0 where
  pub elapsed_seconds : ℕ
  pub total_seconds : ℕ
  pub tick_idx : ℕ
  pub active_trials : ℕ
  pub wave_idx : ℕ
  pub wave_count : ℕ

module _ {A : Type 0} where
  abbrev pub take : ℕ → List A → List A
  take zero xs = []
  take (suc n) [] = []
  take (suc n) (x ∷ xs) = x ∷ take n xs

  abbrev pub drop : ℕ → List A → List A
  drop zero xs = xs
  drop (suc n) [] = []
  drop (suc n) (x ∷ xs) = drop n xs

-- `trial.start_ts + trial.config.trial_timeout - now_ts`
pub time_left : ℕ → TrialInstance → ℕ
time_left now trial = trial.start_ts + trial.config.trial_timeout - now

pub sum_left : ℕ → List TrialInstance → ℕ
unfolding time_left
sum_left now [] = 0
sum_left now (trial ∷ trials) = time_left now trial + sum_left now trials

pub longest_left : ℕ → List TrialInstance → ℕ
unfolding time_left
longest_left now [] = 0
longest_left now (trial ∷ trials) = max (time_left now trial) (longest_left now trials)

-- The earliest start, or the default where there is no trial.
pub earliest_start : ℕ → List TrialInstance → ℕ
earliest_start default [] = default
earliest_start default (trial ∷ []) = trial.start_ts
earliest_start default (trial ∷ trials) = min trial.start_ts (earliest_start default trials)

-- There are more trials than workers, so they run in waves.
pub in_waves : Settings → Bool
in_waves c = ltb c.trial_workers c.total_trials && ltb 0 c.trial_workers

pub wave_count : Settings → ℕ
wave_count c = (c.total_trials + c.trial_workers - 1) / c.trial_workers

pub wave_idx : Settings → ℕ → ℕ
wave_idx c started = min (wave_count c) (max 1 ((max started 1 - 1) / c.trial_workers + 1))

pub campaign_progress : ℕ → Scheduler → CampaignProgress
unfolding sum_left longest_left
campaign_progress now s =
    let c = s.settings in
    let active_trials = values s.active in
    let started = length s.campaign_trials in
    let active = length s.active in
    let queued = c.total_trials - started in
    let remaining_work = sum_left now active_trials + queued * c.campaign_seconds in
    record {
      completed = started - active;
      active = active;
      queued = queued;
      remaining_seconds =
          max (longest_left now active_trials)
            ((remaining_work + c.trial_workers - 1) / c.trial_workers);
    }

pub wave_start : Scheduler → ℕ → ℕ
unfolding earliest_start
wave_start s idx =
    let workers = s.settings.trial_workers in
    earliest_start s.start_ts (
      take (idx * workers - (idx - 1) * workers)
        (drop ((idx - 1) * workers) (values s.campaign_trials)))

-- The campaign's bar is left alone where there are no waves.
pub update_run_progress : ℕ → Scheduler → Option CampaignProgress × RunProgress
unfolding in_waves wave_count wave_idx campaign_progress wave_start
update_run_progress now s =
    let c = s.settings in
    let idx = wave_idx c (length s.campaign_trials) in
    if in_waves c
    then (
      some (campaign_progress now s),
      record {
        elapsed_seconds = now - wave_start s idx;
        total_seconds = c.campaign_seconds;
        tick_idx = s.scheduled_ticks;
        active_trials = length s.active;
        wave_idx = idx;
        wave_count = wave_count c;
      },
    )
    else (
      none,
      record {
        elapsed_seconds = now - s.start_ts;
        total_seconds = c.campaign_seconds;
        tick_idx = s.scheduled_ticks;
        active_trials = length s.active;
        wave_idx = 1;
        wave_count = 1;
      },
    )
