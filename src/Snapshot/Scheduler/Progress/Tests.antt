-- ===== src/Snapshot/Scheduler/Progress/Tests.antt =====
-- The progress of a campaign of three trials on two workers.
use fuzzmeter.Prelude.{◌≡◌, ◌≤◌, refl, some, arith, length}
use fuzzmeter.Snapshot.Scheduler.State.{Scheduler, init, register, unregister}
use fuzzmeter.Snapshot.Scheduler.State.Samples.{trial_b, two_trials}
use fuzzmeter.Snapshot.Scheduler.Progress.{
  campaign_progress, update_run_progress, in_waves, wave_count, wave_idx, wave_start, sum_left,
  longest_left, time_left, earliest_start,
}

abbrev third_runs : Scheduler
third_runs =
    register
      (record trial_b { config = record { trial_key = "c"; trial_timeout = 300 }; start_ts = 1310 })
      (unregister "a" two_trials)

progress_1400 : update_run_progress 1400 third_runs ≡ (
  some (record { completed = 1; active = 2; queued = 0; remaining_seconds = 210 }),
  record {
    elapsed_seconds = 90;
    total_seconds = 300;
    tick_idx = 0;
    active_trials = 2;
    wave_idx = 2;
    wave_count = 2;
  },
)
unfolding update_run_progress in_waves wave_count wave_idx wave_start campaign_progress sum_left
    longest_left time_left earliest_start register unregister init
progress_1400 = refl

two_active : length third_runs.active ≤ length third_runs.campaign_trials
unfolding register unregister init
two_active = omega arith

three_started : length third_runs.campaign_trials ≤ third_runs.settings.total_trials
unfolding register unregister init
three_started = omega arith
