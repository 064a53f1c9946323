-- ===== src/Trial/Runner.antt =====
-- `run_one_trial` of src/fuzzmeter/trial/runner.py, with the trial's row, the names of the active
-- containers and the scheduler as one state. What other threads do in between is a parameter, and so
-- is what Docker, the clock and the stop event answer.
pub mod Endings
pub mod Outcomes
mod Tests
use fuzzmeter.Prelude.{
  ℕ, Bool, true, false, Option, none, some, String, List, [], ◌∷◌, if◌then◌else◌,
}
use fuzzmeter.Snapshot.Scheduler.State.{
  TrialConfig, TrialInstance, Scheduler, register, unregister, raise_if_failed,
}
use fuzzmeter.Db.Trials.{TrialRecord, TrialTable, ensure_trial_row, set_trial_status}
use fuzzmeter.Trial.Container.{
  Raised, processing_error, exception, base_exception, StartCalls, Started, declined, running,
  start_raised, start, stop, MonitorCalls, monitor_until_deadline,
}

pub record World : Type 0 where
  pub trials : TrialTable
  pub active_names : List String
  pub scheduler : Option Scheduler

-- What the rest of the world does while a trial runs. `log_raises` is what opening the log or
-- starting its process raises, `status_raises` what opening the database raises at the end.
pub record Environment : Type 0 where
  pub before_start : World → World
  pub start_calls : StartCalls
  pub log_raises : Option Raised
  pub while_running : World → World
  pub monitor_calls : MonitorCalls
  pub stop_set : Bool
  pub before_end : World → World
  pub status_raises : Option Raised
  pub ended_ts : ℕ

-- How the `try` block ends: by `return`, by an exception, or at its end.
pub data Ran : Type 0 where
  returned : Ran
  failed : Raised → Ran
  finished : Ran

-- `scheduler.raise_if_failed()`, where there is a scheduler.
abbrev pub after_monitor : Option Scheduler → Ran
after_monitor none = finished
after_monitor (some s) = elim (raise_if_failed s) [
  | none ↦ finished
  | some error ↦ failed processing_error
]

-- From the open log on; none is out of fuel.
abbrev pub run_started : ℕ → Environment → World → Option Ran
run_started trial_timeout env w = elim env.log_raises [
  | some error ↦ some (failed error)
  | none ↦ elim (monitor_until_deadline trial_timeout env.monitor_calls) [
    | none ↦ none
    | some (some error) ↦ some (failed error)
    | some none ↦ some (after_monitor (env.while_running w).scheduler)
  ]
]

-- The handlers and the `else`: the status that is set, by whether `started` was assigned.
pub status_of_run : Ran → Bool → Bool → Option String
status_of_run returned started stop_set = some "interrupted"
status_of_run finished started stop_set = some (if stop_set then "interrupted" else "done")
status_of_run (failed processing_error) started stop_set = some "failed_measurement"
status_of_run (failed exception) started stop_set =
    some (if started then "failed_runtime" else "failed_start")
status_of_run (failed base_exception) started stop_set = none

abbrev pub raised_by : Ran → Option Raised
raised_by returned = none
raised_by (failed error) = some error
raised_by finished = none

-- The write of the status, and the exception it leaves on its way out.
abbrev pub write_status :
    ℕ → Environment → Option String → Option Raised → TrialTable → TrialTable × Option Raised
write_status id env none error table = (table, error)
write_status id env (some status) error table = elim env.status_raises [
  | some fault ↦ (table, some fault)
  | none ↦ (set_trial_status id status (some env.ended_ts) table, error)
]

abbrev pub unregister_from : String → Option Scheduler → Option Scheduler
unregister_from key none = none
unregister_from key (some s) = some (unregister key s)

-- The `finally`.
pub end_trial : String → String → ℕ → Environment → Ran → Bool → World → World × Option Raised
unfolding status_of_run
end_trial key name id env ran started w =
    let (table, error) =
      write_status id env (status_of_run ran started env.stop_set) (raised_by ran) w.trials in
    (
      record {
        trials = table;
        active_names = if started then stop name w.active_names else w.active_names;
        scheduler = unregister_from key w.scheduler;
      },
      error,
    )

abbrev pub register_with : TrialInstance → Option Scheduler → Option Scheduler
register_with trial none = none
register_with trial (some s) = some (register trial s)

-- What follows `start`, by how it ended.
abbrev pub after_start :
    TrialConfig → String → ℕ → Environment → World → Started → Option (World × Option Raised)
after_start config name id env w declined =
    some (end_trial config.trial_key name id env returned false (env.before_end w))
after_start config name id env w (start_raised error) =
    some (end_trial config.trial_key name id env (failed error) false (env.before_end w))
after_start config name id env w running = elim (run_started config.trial_timeout env w) [
  | none ↦ none
  | some ran ↦
      some (end_trial config.trial_key name id env ran true (env.before_end (env.while_running w)))
]

-- From the start of the container on.
pub run_trial : TrialConfig → String → ℕ → Environment → World → Option (World × Option Raised)
unfolding end_trial
run_trial config name id env w =
    let (names, how) = start name env.start_calls w.active_names in
    after_start config name id env (record w { active_names = names }) how

-- `run_one_trial`, with the name of the container as a function of the row's id; none is out of
-- fuel. A trial that gets no row raises before it is registered.
pub run_one_trial :
    TrialConfig
    → (ℕ → String)
    → String
    → TrialRecord
    → ℕ
    → Environment
    → World
    → Option (World × Option Raised)
unfolding run_trial
run_one_trial config container_name run_id row start_ts env w =
    elim (ensure_trial_row run_id row start_ts w.trials) [
      | none ↦ some (w, some exception)
      | some entry ↦
          let trial : TrialInstance = record {
            db_id = entry.1;
            config = config;
            start_ts = start_ts;
            replay_end_ts = none;
          } in
          run_trial config (container_name entry.1) entry.1 env (
            env.before_start
              (record w { trials = entry.0; scheduler = register_with trial w.scheduler }))
    ]
