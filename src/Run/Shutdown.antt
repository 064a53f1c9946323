-- ===== src/Run/Shutdown.antt =====
-- `RunShutdown` of src/fuzzmeter/run/shutdown.py: the signal handler, which a signal enters again
-- while its sweep of the containers has not returned. Sweeping is a call of Docker, of which the
-- number of calls is kept.
pub mod Signals
mod Tests
use fuzzmeter.Prelude.{
  ℕ, ◌+◌, Bool, true, false, Option, none, some, List, [], ◌∷◌, ltb, if◌then◌else◌,
}
use fuzzmeter.Prelude.Failing.{fold}

pub data Signal : Type 0 where
  sigint sigterm : Signal

abbrev pub signum : Signal → ℕ
signum sigint = 2
signum sigterm = 15

-- What the handler raises.
pub data Interruption : Type 0 where
  -- SystemExit
  system_exit : ℕ → Interruption
  keyboard_interrupt : Interruption

-- `sweeping` holds the handlers on the stack that wait for their sweep, the innermost first;
-- `exit_status` is that of `os._exit`, once it was called.
pub record RunShutdown : Type 0 where
  pub stop_event : Bool
  pub signal_count : ℕ
  pub sweeps : ℕ
  pub sweeping : List Signal
  pub raised : List Interruption
  pub exit_status : Option ℕ

abbrev pub fresh_shutdown : RunShutdown
fresh_shutdown = record {
  stop_event = false;
  signal_count = 0;
  sweeps = 0;
  sweeping = [];
  raised = [];
  exit_status = none;
}

-- `_handle_signal` up to its sweep, or to `os._exit`.
pub handle_signal : Signal → RunShutdown → RunShutdown
handle_signal s r =
    let r' = record r { signal_count = r.signal_count + 1; stop_event = true } in
    if ltb 1 r'.signal_count
    then record r' { exit_status = some (128 + signum s) }
    else record r' { sweeps = r'.sweeps + 1; sweeping = s ∷ r'.sweeping }

abbrev pub after_sweep : Signal → Interruption
after_sweep sigterm = system_exit (128 + signum sigterm)
after_sweep sigint = keyboard_interrupt

-- `_handle_signal` from the return of its sweep on. What it raises leaves the handlers that it has
-- interrupted, too.
pub finish_sweep : List Signal → RunShutdown → Option RunShutdown
finish_sweep [] r = none
finish_sweep (s ∷ interrupted) r =
    some (record r { sweeping = []; raised = after_sweep s ∷ r.raised })

-- What happens to the process: a signal arrives, or the innermost sweep returns.
pub data Event : Type 0 where
  arrives : Signal → Event
  sweep_returns : Event

-- None where the event cannot happen: after `os._exit`, and the return of a sweep if none runs.
pub step : Event → RunShutdown → Option RunShutdown
unfolding handle_signal finish_sweep
step event r = elim r.exit_status [
  | some status ↦ none
  | none ↦ elim event [
    | arrives s ↦ some (handle_signal s r)
    | sweep_returns ↦ finish_sweep r.sweeping r
  ]
]

-- The events of a run, the first one first.
pub handle_all : List Event → RunShutdown → Option RunShutdown
unfolding step
handle_all events r = fold step events r
