-- ===== src/Run/Replay/Tests.antt =====
-- A replay of one trial whose loop fails.
use fuzzmeter.Prelude.{◌≡◌, refl, false, none, some, [], ◌∷◌}
use fuzzmeter.Prelude.Equality.{string_eq}
use fuzzmeter.Db.Trials.{TrialRecord, TrialTable}
use fuzzmeter.Snapshot.Scheduler.State.{TrialInstance, Settings}
use fuzzmeter.Trial.Container.{exception}
use fuzzmeter.Run.Replay.{ReplayCalls, run_replay_experiment}
use fuzzmeter.Run.Replay.Closing.{some_left, run_replay_experiment-closes}

abbrev row : TrialRecord
row = record {
  fuzzer = "afl";
  benchmark = "zlib";
  fuzz_target = "inflate";
  rep = 0;
  time_seconds = 60;
  status = "running";
  fuzzer_image = "img";
  build_config_json = none;
  runtime_config_json = none;
}

abbrev one_row : TrialTable
one_row = record {
  rows =
      record { trial_id = 1; run_id = "run"; trial = row; started_ts = 100; ended_ts = none } ∷ [];
  last_id = 1;
}

abbrev trial : TrialInstance
trial = record {
  db_id = 1;
  config = record { trial_key = "afl-zlib-0"; trial_timeout = 60 };
  start_ts = 100;
  replay_end_ts = some 160;
}

abbrev settings : Settings
settings = record {
  campaign_seconds = 0;
  every_seconds = 60;
  coverage_export_every = 1;
  jobs = 1;
  parallel_jobs = 2;
  total_trials = 1;
  trial_workers = 1;
}

abbrev loop_fails : ReplayCalls
loop_fails = record {
  preparing = none;
  prepared = (trial, 160) ∷ [];
  measured = λ table. table;
  run_loop = some exception;
}

run_replay_experiment-closes_example :
    some_left "run" [] (run_replay_experiment "run" settings 500 loop_fails one_row).0 ≡ false
run_replay_experiment-closes_example =
    run_replay_experiment-closes "run" settings 500 loop_fails one_row refl
