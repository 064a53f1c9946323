-- ===== src/Snapshot/Scheduler/State.antt =====
-- The state of `SnapshotScheduler`, and the methods that register and stop.
pub mod Invariant
pub mod Samples
mod Tests
use fuzzmeter.Prelude.{
  ℕ, ◌+◌, Bool, true, false, Option, none, some, String, List, [], ◌∷◌, ltb, if◌then◌else◌,
}
use fuzzmeter.Prelude.Equality.{string_eq}
use fuzzmeter.Dict.{Dict, put, pop, values}
use fuzzmeter.Db.Ticks.{Failure}

pub record TrialConfig : Type 0 where
  pub trial_key : String
  pub trial_timeout : ℕ

-- `replay_end_ts` is the `end_ts` of the subclass `ReplayTrialInstance`, none for a live trial.
pub record TrialInstance : Type 0 where
  pub db_id : ℕ
  pub config : TrialConfig
  pub start_ts : ℕ
  pub replay_end_ts : Option ℕ

-- The constructor's arguments that do not change.
pub record Settings : Type 0 where
  pub campaign_seconds : ℕ
  pub every_seconds : ℕ
  pub coverage_export_every : ℕ
  pub jobs : ℕ
  pub parallel_jobs : ℕ
  pub total_trials : ℕ
  pub trial_workers : ℕ

pub record SnapshotData : Type 0 where
  pub tick_idx : ℕ
  pub end_ts : ℕ
  pub render_heavy : Bool
  pub trials : List TrialInstance
  pub campaign_trials : List TrialInstance

-- `stop_event` is none where no event is shared, else whether it is set. In `tick_queue`, none is
-- the mark that ends the worker.
pub record Scheduler : Type 0 where
  pub settings : Settings
  pub start_ts : ℕ
  pub active : Dict String TrialInstance
  pub campaign_trials : Dict String TrialInstance
  pub next_periodic_ts : Dict String ℕ
  pub stop : Bool
  pub stop_event : Option Bool
  pub wake_event : Bool
  pub tick_queue : List (Option SnapshotData)
  pub fatal_error : Option Failure
  pub next_tick_idx : Option ℕ
  pub scheduled_ticks : ℕ
  pub processed_ticks : ℕ

-- `SnapshotScheduler.__init__`
unfoldable pub init : Settings → Option Bool → ℕ → Scheduler
init settings stop_event now = record {
  settings = settings;
  start_ts = now;
  active = [];
  campaign_trials = [];
  next_periodic_ts = [];
  stop = false;
  stop_event = stop_event;
  wake_event = false;
  tick_queue = [];
  fatal_error = none;
  next_tick_idx = none;
  scheduled_ticks = 0;
  processed_ticks = 0;
}

unfoldable pub register : TrialInstance → Scheduler → Scheduler
register trial s =
    let trial_key = trial.config.trial_key in
    let next_due_ts = trial.start_ts + s.settings.every_seconds in
    let campaign_end_ts = trial.start_ts + s.settings.campaign_seconds in
    record s {
      active = put trial_key trial s.active;
      campaign_trials = put trial_key trial s.campaign_trials;
      next_periodic_ts =
          if ltb next_due_ts campaign_end_ts
          then put trial_key next_due_ts s.next_periodic_ts
          else pop trial_key s.next_periodic_ts;
    }

unfoldable pub unregister : String → Scheduler → Scheduler
unregister trial_id s = record s {
  active = pop trial_id s.active;
  next_periodic_ts = pop trial_id s.next_periodic_ts;
}

-- `SnapshotScheduler.stop`
unfoldable pub request_stop : Scheduler → Scheduler
request_stop s = record s { stop = true; wake_event = true }

-- The first error is kept; a shared stop event is set.
unfoldable pub set_fatal_error : Failure → Scheduler → Scheduler
set_fatal_error exc s = record s {
  fatal_error = elim s.fatal_error [ none ↦ some exc | some first ↦ some first ];
  stop = true;
  wake_event = true;
  stop_event = elim s.stop_event [ none ↦ none | some is_set ↦ some true ];
}

-- `raise_if_failed`: the error that it raises, if it does.
unfoldable pub raise_if_failed : Scheduler → Option Failure
raise_if_failed s = s.fatal_error

unfoldable pub shutting_down : Scheduler → Bool
shutting_down s = elim s.stop_event [ none ↦ false | some is_set ↦ is_set ]

unfoldable pub campaign_trial_snapshots : Scheduler → List TrialInstance
campaign_trial_snapshots s = values s.campaign_trials
