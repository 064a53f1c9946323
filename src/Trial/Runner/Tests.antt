-- ===== src/Trial/Runner/Tests.antt =====
-- A trial of one second that runs to its deadline.
use fuzzmeter.Prelude.{ℕ, ◌≡◌, ◌≢◌, refl, false, Option, none, some, String, [], ◌∷◌, arith}
use fuzzmeter.Prelude.Equality.{string_eq}
use fuzzmeter.Snapshot.Scheduler.State.{
  TrialConfig, Settings, init, register, unregister, raise_if_failed,
}
use fuzzmeter.Db.Trials.{TrialRecord, TrialTable, ensure_trial_row, set_trial_status}
use fuzzmeter.Db.Trials.Rows.{status_of}
use fuzzmeter.Trial.Container.{
  Raised, up, down, MonitorCalls, wait_round, monitor_until_deadline, start,
}
use fuzzmeter.Trial.Container.Deadline.{Advances}
use fuzzmeter.Trial.Runner.{World, Environment, run_one_trial, run_trial, end_trial, status_of_run}
use fuzzmeter.Trial.Runner.Endings.Claims.{IsGone, Recorded, RanFull}
use fuzzmeter.Trial.Runner.Outcomes.{
  run, run_one_trial-IsGone, run_one_trial-Recorded, run_one_trial-done,
}

abbrev one_second : TrialConfig
one_second = record { trial_key = "afl-zlib-0"; trial_timeout = 1 }

abbrev row : TrialRecord
row = record {
  fuzzer = "afl";
  benchmark = "zlib";
  fuzz_target = "inflate";
  rep = 0;
  time_seconds = 1;
  status = "running";
  fuzzer_image = "img";
  build_config_json = none;
  runtime_config_json = none;
}

-- The clock moves half a second a round; the container runs all the time.
abbrev steady : MonitorCalls
steady = record {
  now = 0;
  rounds = λ i. record { now = i; is_running = up; stop_set = false };
  after = λ i. record { now = i; stop_set = false; docker_raises = none };
}

abbrev quiet : Environment
quiet = record {
  before_start = λ w. w;
  start_calls = record { stop_set = false; docker_start = none; is_running = up };
  log_raises = none;
  while_running = λ w. w;
  monitor_calls = steady;
  stop_set = false;
  before_end = λ w. w;
  status_raises = none;
  ended_ts = 9;
}

-- The container stops by itself at once.
abbrev broken : Environment
broken = record quiet {
  monitor_calls = record steady {
    rounds = λ i. record { now = i; is_running = down; stop_set = false };
  };
}

abbrev settings : Settings
settings = record {
  campaign_seconds = 120;
  every_seconds = 60;
  coverage_export_every = 1;
  jobs = 1;
  parallel_jobs = 2;
  total_trials = 1;
  trial_workers = 1;
}

abbrev fresh : World
fresh = record {
  trials = record { rows = []; last_id = 0 };
  active_names = [];
  scheduler = some (init settings none 0);
}

abbrev name : ℕ → String
name id = "fm_run"

abbrev entry : TrialTable × ℕ
entry = (
  record {
    rows =
        record { trial_id = 1; run_id = "run"; trial = row; started_ts = 5; ended_ts = none } ∷ [];
    last_id = 1;
  },
  1,
)

ensured : ensure_trial_row "run" row 5 fresh.trials ≡ some entry
unfolding ensure_trial_row
ensured = refl

steady-Advances : Advances steady
steady-Advances = (omega arith, λ i. omega arith)

broken-Advances : Advances broken.monitor_calls
broken-Advances = (omega arith, λ i. omega arith)

running_not_done : ◌≢◌ {A = String} "running" "done"
running_not_done e = ground (arith, string_eq.beq_iff "running" "done")

abbrev full : World × Option Raised
full = (
  record {
    trials = record {
      rows =
          record {
            trial_id = 1;
            run_id = "run";
            trial = record row { status = "done" };
            started_ts = 5;
            ended_ts = some 9;
          }
          ∷ [];
      last_id = 1;
    };
    active_names = [];
    scheduler = some (record (init settings none 0) {
      campaign_trials =
          (
            "afl-zlib-0",
            record { db_id = 1; config = one_second; start_ts = 5; replay_end_ts = none },
          )
          ∷ [];
    });
  },
  none,
)

runs_full : run one_second name "run" row 5 quiet fresh ≡ some full
unfolding run_one_trial run_trial end_trial status_of_run ensure_trial_row monitor_until_deadline
    wait_round start init register unregister raise_if_failed set_trial_status
runs_full = refl

run_one_trial-IsGone_example :
    (r : World × Option Raised) × (run one_second name "run" row 5 broken fresh ≡ some r)
    × IsGone "afl-zlib-0" r.0.scheduler
run_one_trial-IsGone_example =
    run_one_trial-IsGone one_second name "run" row 5 broken fresh entry ensured broken-Advances

run_one_trial-Recorded_example :
    (r : World × Option Raised) × (run one_second name "run" row 5 broken fresh ≡ some r)
    × Recorded r.1 (some "running") (status_of 1 r.0.trials)
run_one_trial-Recorded_example =
    run_one_trial-Recorded one_second name "run" row 5 broken fresh entry ensured broken-Advances
      "running" (λ w. refl, λ w. refl, λ w. refl) refl refl

run_one_trial-done_example : (full.1 ≡ none) × RanFull one_second quiet
run_one_trial-done_example =
    run_one_trial-done one_second name "run" row 5 quiet fresh entry ensured steady-Advances
      "running" full (λ w. refl, λ w. refl, λ w. refl) (λ i h. h) running_not_done refl runs_full
      refl
