-- ===== src/Snapshot/Scheduler/State/Samples.antt =====
-- A scheduler with two trials, for the tests.
use fuzzmeter.Prelude.{none}
use fuzzmeter.Snapshot.Scheduler.State.{TrialInstance, Settings, Scheduler, init, register}

abbrev pub five_minutes : Settings
five_minutes = record {
  campaign_seconds = 300;
  every_seconds = 100;
  coverage_export_every = 5;
  jobs = 1;
  parallel_jobs = 4;
  total_trials = 3;
  trial_workers = 2;
}

abbrev pub trial_a : TrialInstance
trial_a = record {
  db_id = 1;
  config = record { trial_key = "a"; trial_timeout = 300 };
  start_ts = 1000;
  replay_end_ts = none;
}

abbrev pub trial_b : TrialInstance
trial_b = record {
  db_id = 2;
  config = record { trial_key = "b"; trial_timeout = 300 };
  start_ts = 1000;
  replay_end_ts = none;
}

-- The second trial has just been registered.
abbrev pub two_trials : Scheduler
two_trials = register trial_b (register trial_a (init five_minutes none 990))
