-- ===== src/Run/Replay.antt =====
-- `_run_replay_experiment` of src/fuzzmeter/run/runner.py, over the rows of the trials and the
-- scheduler. What preparing the trials and the scheduler's loop raise is handed in.
pub mod Closing
mod Tests
use fuzzmeter.Prelude.{
  ℕ, ◌-◌, Bool, true, false, Option, none, some, String, List, [], ◌∷◌, max, leb, any,
  if◌then◌else◌,
}
use fuzzmeter.Db.Trials.{TrialTable, set_trial_status, set_running_trial_statuses}
use fuzzmeter.Snapshot.Scheduler.State.{
  TrialInstance, Settings, Scheduler, init, register, unregister, request_stop,
}
use fuzzmeter.Trial.Container.{Raised, processing_error, exception, base_exception}

-- A prepared trial with its `end_ts`.
abbrev pub Prepared : Type 0
Prepared = TrialInstance × ℕ

pub record ReplayCalls : Type 0 where
  -- What preparing raises, and else the trials it returns.
  pub preparing : Option Raised
  pub prepared : List Prepared
  -- What other threads make of the rows meanwhile, and what the scheduler's loop raises.
  pub measured : TrialTable → TrialTable
  pub run_loop : Option Raised

-- The checks on the prepared trials.
abbrev pub preparation : ReplayCalls → Option Raised
preparation calls = elim calls.preparing [
  | some error ↦ some error
  | none ↦ elim calls.prepared [
    | [] ↦ some exception
    | p ∷ ps ↦ if any (λ q. leb q.1 q.0.start_ts) calls.prepared then some exception else none
  ]
]

-- The status by what is raised: the handlers of both `try` blocks agree on it.
abbrev pub failure_status : Raised → String
failure_status processing_error = "failed_replay"
failure_status exception = "failed_replay"
failure_status base_exception = "interrupted"

abbrev pub replay_status : Option Raised → String
replay_status none = "done"
replay_status (some error) = failure_status error

pub set_statuses : String → List Prepared → TrialTable → TrialTable
set_statuses status [] table = table
set_statuses status (p ∷ ps) table =
    set_statuses status ps (set_trial_status p.0.db_id status (some p.1) table)

abbrev pub register_all : List Prepared → Scheduler → Scheduler
register_all [] s = s
register_all (p ∷ ps) s = register_all ps (register p.0 s)

abbrev pub unregister_all : List Prepared → Scheduler → Scheduler
unregister_all [] s = s
unregister_all (p ∷ ps) s = unregister_all ps (unregister p.0.config.trial_key s)

-- `max(trial.end_ts - trial.start_ts for trial in prepared_trials)`
abbrev pub longest : List Prepared → ℕ
longest [] = 0
longest (p ∷ ps) = max (p.1 - p.0.start_ts) (longest ps)

abbrev pub stop_on : Option Raised → Scheduler → Scheduler
stop_on (some base_exception) s = request_stop s
stop_on _ s = s

-- The rows, the scheduler where one is made, and what is raised.
pub run_replay_experiment :
    String → Settings → ℕ → ReplayCalls → TrialTable → TrialTable × Option Scheduler × Option Raised
unfolding set_statuses
run_replay_experiment run_id settings now calls table = elim (preparation calls) [
  | some error ↦ (set_running_trial_statuses run_id (failure_status error) table, none, some error)
  | none ↦
      let made = init (record settings { campaign_seconds = longest calls.prepared }) none now in
      let looped = stop_on calls.run_loop (register_all calls.prepared made) in
      (
        set_statuses (replay_status calls.run_loop) calls.prepared (calls.measured table),
        some (unregister_all calls.prepared looped),
        calls.run_loop,
      )
]
