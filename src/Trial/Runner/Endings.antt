-- ===== src/Trial/Runner/Endings.antt =====
-- How a trial can end.
pub mod Claims
use mathlib.Core.Path.{subst}
use fuzzmeter.Prelude.{
  List, ℕ, ◌+◌, ◌≤◌, ◌≡◌, refl, ◌≢◌, inl, inr, Bool, true, false, Option, none, some, String, arith,
  leb, if◌then◌else◌, Bool-cases, Option-cases,
}
use fuzzmeter.Snapshot.Scheduler.State.{TrialConfig, TrialInstance, raise_if_failed}
use fuzzmeter.Db.Trials.Rows.{status_of}
use fuzzmeter.Trial.Container.{
  Raised, processing_error, exception, base_exception, StartCalls, Started, declined, running,
  start_raised, start, MonitorCalls, After, after_wait, deadline_of, monitor_until_deadline,
}
use fuzzmeter.Trial.Container.Deadline.{Advances, monitor-ends}
use fuzzmeter.Trial.Runner.{
  World, Environment, Ran, returned, failed, finished, after_monitor, run_started, after_start,
  end_trial, run_trial,
}

-- What a trial that reached the end of the `try` block, or left it, did before; the flag is whether
-- its container was started.
pub data Reached (config : TrialConfig) (env : Environment) : Ran → Bool → Type 0 where
  declined_start : env.start_calls.stop_set ≡ true → Reached config env returned false
  failed_start : (error : Raised) → Reached config env (failed error) false
  ran_on :
      (ran : Ran) (w : World)
      → env.start_calls.stop_set ≡ false
      → run_started config.trial_timeout env w ≡ some ran
      → Reached config env ran true

run_started-ends :
    (trial_timeout : ℕ) (env : Environment) (w : World)
    → Advances env.monitor_calls
    → (ran : Ran) × (run_started trial_timeout env w ≡ some ran)
run_started-ends trial_timeout env w adv = elim (Option-cases env.log_raises) [
  | inr e ↦ (failed e.0, rw (e.1, run_started) refl)
  | inl quiet ↦
      let (verdict, ends) = monitor-ends trial_timeout env.monitor_calls adv in
      elim (Option-cases verdict) [
        | inl fine ↦ (
          after_monitor (env.while_running w).scheduler,
          rw (quiet, ends, fine, run_started) refl,
        )
        | inr e ↦ (failed e.0, rw (quiet, ends, e.1, run_started) refl)
      ]
]

running-on :
    (name : String) (calls : StartCalls) (names : List String)
    → (start name calls names).1 ≡ running
    → calls.stop_set ≡ false
unfolding start
running-on name calls names h = ground arith

after_start-ends :
    (config : TrialConfig) (name : String) (id : ℕ) (env : Environment) (w : World) (how : Started)
    → Advances env.monitor_calls
    → (how ≡ declined → env.start_calls.stop_set ≡ true)
    → (how ≡ running → env.start_calls.stop_set ≡ false)
    → (ran : Ran) × (started : Bool) × (before : World) × (after_start config name id env w how
        ≡ some (end_trial config.trial_key name id env ran started (env.before_end before)))
      × Reached config env ran started
      × (((v : World) → status_of id (env.while_running v).trials ≡ status_of id v.trials)
          → status_of id before.trials ≡ status_of id w.trials)
after_start-ends config name id env w declined adv d r =
    (returned, false, w, refl, declined_start (d refl), λ leaves. refl)
after_start-ends config name id env w (start_raised error) adv d r =
    (failed error, false, w, refl, failed_start error, λ leaves. refl)
after_start-ends config name id env w running adv d r =
    let (ran, ends) = run_started-ends config.trial_timeout env w adv in
    (
      ran,
      true,
      env.while_running w,
      rw (ends, after_start) refl,
      ran_on ran w (r refl) ends,
      λ leaves. leaves w,
    )

pub run_trial-ends :
    (config : TrialConfig) (name : String) (id : ℕ) (env : Environment) (w : World)
    → Advances env.monitor_calls
    → (ran : Ran) × (started : Bool) × (before : World) × (run_trial config name id env w
        ≡ some (end_trial config.trial_key name id env ran started (env.before_end before)))
      × Reached config env ran started
      × (((v : World) → status_of id (env.while_running v).trials ≡ status_of id v.trials)
          → status_of id before.trials ≡ status_of id w.trials)
unfolding run_trial start
run_trial-ends config name id env w adv =
    let started = start name env.start_calls w.active_names in
    after_start-ends config name id env (record w { active_names = started.0 }) started.1 adv
      (λ e. ground arith) (λ e. running-on name env.start_calls w.active_names e)
