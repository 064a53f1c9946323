-- ===== src/Run/Live/Tests.antt =====
-- A run that is interrupted while it waits for its trials.
use fuzzmeter.Prelude.{◌≡◌, refl, true, false, none, some, [], ◌∷◌}
use fuzzmeter.Trial.Container.{base_exception}
use fuzzmeter.Run.Live.{
  Calls, start_scheduler, submit_trials, cancel_futures, set_stop_event, stop_scheduler,
  cleanup_containers, shutdown_executor, join_scheduler, run_live_experiment, live_body, live_end,
}

abbrev interrupted : Calls
interrupted = record {
  has_scheduler = true;
  executor = none;
  futures = some base_exception;
  failed = false;
  final_tick = none;
  failed_after = false;
}

interrupted_actions : run_live_experiment interrupted ≡ (
  start_scheduler
      ∷ submit_trials
      ∷ cancel_futures
      ∷ set_stop_event
      ∷ stop_scheduler
      ∷ cleanup_containers
      ∷ shutdown_executor true
      ∷ join_scheduler
      ∷ [],
  some base_exception,
)
unfolding run_live_experiment live_body live_end
interrupted_actions = refl
