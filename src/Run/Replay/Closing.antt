-- ===== src/Run/Replay/Closing.antt =====
-- No row of a replay run stays running.
use fuzzmeter.Prelude.{
  ℕ, ◌≡◌, refl, ◌∙◌, Bool, false, not, ◌&&◌, Option, none, some, String, List, [], ◌∷◌, arith, any,
  Option-cases, inl, inr,
}
use fuzzmeter.Prelude.Equality.{◌==◌, string_eq, nat_eq, elem}
use fuzzmeter.Db.Trials.{
  TrialRow, TrialTable, set_status_rows, set_trial_status, set_running_rows,
  set_running_trial_statuses,
}
use fuzzmeter.Snapshot.Scheduler.State.{Settings}
use fuzzmeter.Trial.Container.{Raised, processing_error, exception, base_exception}
use fuzzmeter.Run.Replay.{
  Prepared, ReplayCalls, preparation, failure_status, replay_status, set_statuses,
  run_replay_experiment,
}

-- A row of the run that is running and whose id is not listed.
abbrev pub is_left : String → List ℕ → TrialRow → Bool
is_left run_id ids row =
    row.run_id == run_id && row.trial.status == "running" && not (elem row.trial_id ids)

abbrev pub some_left : String → List ℕ → TrialTable → Bool
some_left run_id ids table = any (is_left run_id ids) table.rows

set_running-closes :
    (run_id status : String) (rows : List TrialRow)
    → (status == "running") ≡ false
    → any (is_left run_id []) (set_running_rows run_id status rows) ≡ false
unfolding set_running_rows
set_running-closes run_id status [] ne = refl
set_running-closes run_id status (row ∷ rows) ne =
    ground (arith, set_running-closes run_id status rows ne)

set_status-closes :
    (run_id status : String) (id ended_ts : ℕ) (ids : List ℕ) (rows : List TrialRow)
    → (status == "running") ≡ false
    → any (is_left run_id ids) (set_status_rows id status (some ended_ts) rows)
      ≡ any (is_left run_id (id ∷ ids)) rows
unfolding set_status_rows
set_status-closes run_id status id ended_ts ids [] ne = refl
set_status-closes run_id status id ended_ts ids (row ∷ rows) ne =
    ground (arith, set_status-closes run_id status id ended_ts ids rows ne)

abbrev pub ids_of : List Prepared → List ℕ
ids_of [] = []
ids_of (p ∷ ps) = p.0.db_id ∷ ids_of ps

set_statuses-closes :
    (run_id status : String) (ps : List Prepared) (table : TrialTable)
    → (status == "running") ≡ false
    → some_left run_id [] (set_statuses status ps table) ≡ some_left run_id (ids_of ps) table
unfolding set_statuses set_trial_status
set_statuses-closes run_id status [] table ne = refl
set_statuses-closes run_id status (p ∷ ps) table ne =
    set_statuses-closes run_id status ps (set_trial_status p.0.db_id status (some p.1) table) ne
    ∙ set_status-closes run_id status p.0.db_id p.1 (ids_of ps) table.rows ne

failure-closed : (error : Raised) → (failure_status error == "running") ≡ false
failure-closed processing_error = refl
failure-closed exception = refl
failure-closed base_exception = refl

status-closed : (o : Option Raised) → (replay_status o == "running") ≡ false
status-closed none = refl
status-closed (some error) = failure-closed error

-- If after the measurement only prepared trials have rows of the run that are running, then after
-- a replay run no row of the run is running, whatever preparing the trials or the scheduler's
-- loop raise.
pub run_replay_experiment-closes :
    (run_id : String) (settings : Settings) (now : ℕ) (calls : ReplayCalls) (table : TrialTable)
    → some_left run_id (ids_of calls.prepared) (calls.measured table) ≡ false
    → some_left run_id [] (run_replay_experiment run_id settings now calls table).0 ≡ false
unfolding run_replay_experiment set_running_trial_statuses
run_replay_experiment-closes run_id settings now calls table known =
    elim (Option-cases (preparation calls)) [
      | inr e ↦
          rw (e.1, run_replay_experiment)
            (set_running-closes run_id (failure_status e.0) table.rows (failure-closed e.0))
      | inl ready ↦
          rw (ready, run_replay_experiment)
            (set_statuses-closes run_id (replay_status calls.run_loop) calls.prepared
                (calls.measured table) (status-closed calls.run_loop)
              ∙ known)
    ]
