-- ===== src/Run/Shutdown/Tests.antt =====
-- A termination while the sweep of a Ctrl-C hangs, and a Ctrl-C after one has returned.
use fuzzmeter.Prelude.{◌≡◌, refl, true, some, none, [], ◌∷◌}
use fuzzmeter.Prelude.Failing.{fold}
use fuzzmeter.Run.Shutdown.{
  sigint, sigterm, fresh_shutdown, RunShutdown, arrives, sweep_returns, handle_all, step,
  handle_signal, finish_sweep, system_exit,
}
use fuzzmeter.Run.Shutdown.Signals.{IsHandled, one_sweep}

abbrev wedged : RunShutdown
wedged = record {
  stop_event = true;
  signal_count = 2;
  sweeps = 1;
  sweeping = sigint ∷ [];
  raised = [];
  exit_status = some 143;
}

wedged_handled : handle_all (arrives sigint ∷ arrives sigterm ∷ []) fresh_shutdown ≡ some wedged
unfolding handle_all step handle_signal fold
wedged_handled = refl

one_sweep_example : IsHandled (sigint ∷ sigterm ∷ []) wedged
one_sweep_example = one_sweep (arrives sigint ∷ arrives sigterm ∷ []) wedged wedged_handled

abbrev terminated : RunShutdown
terminated = record {
  stop_event = true;
  signal_count = 2;
  sweeps = 1;
  sweeping = [];
  raised = system_exit 143 ∷ [];
  exit_status = some 130;
}

terminated_handled :
    handle_all (arrives sigterm ∷ sweep_returns ∷ arrives sigint ∷ []) fresh_shutdown
    ≡ some terminated
unfolding handle_all step handle_signal finish_sweep fold
terminated_handled = refl

after_exit :
    handle_all (arrives sigterm ∷ arrives sigint ∷ arrives sigint ∷ []) fresh_shutdown ≡ none
unfolding handle_all step handle_signal finish_sweep fold
after_exit = refl
