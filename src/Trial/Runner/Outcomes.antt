-- ===== src/Trial/Runner/Outcomes.antt =====
-- What a run of `run_one_trial` leaves behind.
use fuzzmeter.Prelude.{ℕ, ◌≡◌, ◌≢◌, sym, ap, ◌∙◌, Bool, Option, none, some, String}
use fuzzmeter.Prelude.Equality.{string_eq}
use fuzzmeter.Snapshot.Scheduler.State.{TrialConfig, TrialInstance}
use fuzzmeter.Db.Trials.{TrialRecord, TrialTable, ensure_trial_row}
use fuzzmeter.Db.Trials.Rows.{status_of}
use fuzzmeter.Trial.Container.{Raised}
use fuzzmeter.Trial.Container.Deadline.{Advances}
use fuzzmeter.Trial.Runner.{World, Environment, Ran, end_trial, run_one_trial, register_with}
use fuzzmeter.Trial.Runner.Endings.{Reached, run_trial-ends}
use fuzzmeter.Trial.Runner.Endings.Claims.{
  IsGone, Recorded, StopsStay, RanFull, LeavesRow, unregister-IsGone, end_trial-Recorded,
  end_trial-done,
}

module _ (config : TrialConfig) (container_name : ℕ → String) (run_id : String) (row : TrialRecord)
    (start_ts : ℕ) (env : Environment) (w : World) where
  -- The call, with all its arguments.
  abbrev pub run : Option (World × Option Raised)
  run = run_one_trial config container_name run_id row start_ts env w

  module _ (entry : TrialTable × ℕ)
      (ensured : ensure_trial_row run_id row start_ts w.trials ≡ some entry)
      (adv : Advances env.monitor_calls) where
    run-ends :
        (ran : Ran) × (started : Bool) × (before : World) × (run
          ≡ some (
              end_trial config.trial_key
                (container_name entry.1)
                entry.1
                env
                ran
                started
                (env.before_end before)))
        × Reached config env ran started
        × (LeavesRow entry.1 env
            → status_of entry.1 (env.before_end before).trials ≡ status_of entry.1 entry.0)
    unfolding run_one_trial
    run-ends =
        let trial : TrialInstance = record {
          db_id = entry.1;
          config = config;
          start_ts = start_ts;
          replay_end_ts = none;
        } in
        let w₀ = record w { trials = entry.0; scheduler = register_with trial w.scheduler } in
        let (ran, started, before, ends, reached, kept) =
          run_trial-ends config (container_name entry.1) entry.1 env (env.before_start w₀) adv in
        (
          ran,
          started,
          before,
          rw (ensured, run_one_trial) ends,
          reached,
          λ leaves. leaves.2 before ∙ kept leaves.1 ∙ leaves.0 w₀,
        )

    -- Where each round of the wait takes its half second, a trial that has a row comes to an end,
    -- and whatever Docker, the log or the database raise, the scheduler then has the trial
    -- neither among its active ones nor in its schedule of periodic snapshots.
    pub run_one_trial-IsGone :
        (r : World × Option Raised) × (run ≡ some r) × IsGone config.trial_key r.0.scheduler
    unfolding end_trial
    run_one_trial-IsGone =
        let (ran, started, before, ends, reached, kept) = run-ends in
        (_, ends, unregister-IsGone config.trial_key (env.before_end before).scheduler)

    -- Where each round of the wait takes its half second, a trial with a row that no other thread
    -- writes comes to an end, and if the database can be opened then its row agrees with what the
    -- run raises: `done` or `interrupted` for nothing, `failed_measurement` for a measurement
    -- error, `failed_runtime` or `failed_start` for any other Exception, and the status it had
    -- for a BaseException.
    pub run_one_trial-Recorded :
        (old : String)
        → LeavesRow entry.1 env
        → env.status_raises ≡ none
        → status_of entry.1 entry.0 ≡ some old
        → (r : World × Option Raised) × (run ≡ some r)
          × Recorded r.1 (some old) (status_of entry.1 r.0.trials)
    run_one_trial-Recorded old leaves quiet row_of =
        let (ran, started, before, ends, reached, kept) = run-ends in
        (
          _,
          ends,
          end_trial-Recorded config.trial_key (container_name entry.1) entry.1 env ran started
              (env.before_end before) old quiet (kept leaves ∙ row_of),
        )

    -- Of a trial whose row was not done before and is written by no other thread, where a stop
    -- event that is set stays set and each round of the wait takes its half second: if the row
    -- says `done` after the run, the run raised nothing, was not stopped, and read a clock at or
    -- past its deadline.
    pub run_one_trial-done :
        (old : String) (r : World × Option Raised)
        → LeavesRow entry.1 env
        → StopsStay env
        → old ≢ "done"
        → status_of entry.1 entry.0 ≡ some old
        → run ≡ some r
        → status_of entry.1 r.0.trials ≡ some "done"
        → (r.1 ≡ none) × RanFull config env
    run_one_trial-done old r leaves stay not_done row_of ran_to done =
        let (ran, started, before, ends, reached, kept) = run-ends in
        let res =
          end_trial config.trial_key (container_name entry.1) entry.1 env ran started
            (env.before_end before) in
        let same : res ≡ r = cc in
        let (returns, full) =
          end_trial-done config (container_name entry.1) entry.1 env ran started
            (env.before_end before) old stay not_done (kept leaves ∙ row_of) reached
            (ap (λ (s : World × Option Raised). status_of entry.1 s.0.trials) same ∙ done) in
        (ap (λ (s : World × Option Raised). s.1) (sym same) ∙ returns, full)
