-- ===== src/Run/Live.antt =====
-- `_run_live_experiment` of src/fuzzmeter/run/runner.py from the start of the threads on: what it
-- does to the executor, the scheduler and the containers, in order, by what its calls raise.
pub mod Order
mod Tests
use fuzzmeter.Prelude.{
  Bool, true, false, ◌||◌, Option, none, some, List, [], ◌∷◌, ◌++◌, if◌then◌else◌,
}
use fuzzmeter.Trial.Container.{Raised, processing_error, exception, base_exception}

pub data Action : Type 0 where
  start_scheduler : Action
  submit_trials : Action
  schedule_final_tick : Action
  cancel_futures : Action
  set_stop_event : Action
  stop_scheduler : Action
  cleanup_containers : Action
  -- `executor.shutdown(wait=True, cancel_futures=…)`
  shutdown_executor : Bool → Action
  join_scheduler : Action

-- What the calls raise. `has_scheduler` is `snap_jobs != 0`; `failed` and `failed_after` say whether
-- `raise_if_failed` raises after the trials and after the end of the threads.
pub record Calls : Type 0 where
  pub has_scheduler : Bool
  pub executor : Option Raised
  pub futures : Option Raised
  pub failed : Bool
  pub final_tick : Option Raised
  pub failed_after : Bool

abbrev pub when : Bool → Action → List Action
when b a = if b then a ∷ [] else []

-- After `_wait_for_futures`.
abbrev pub after_trials : Calls → List Action × Option Raised
after_trials calls =
    if calls.has_scheduler
    then (if calls.failed
        then ([], some processing_error)
        else (schedule_final_tick ∷ [], calls.final_tick))
    else ([], none)

-- The `try` block.
pub live_body : Calls → List Action × Option Raised
live_body calls = elim calls.executor [
  | some error ↦ ([], some error)
  | none ↦ elim calls.futures [
    | some error ↦ (submit_trials ∷ [], some error)
    | none ↦ let (actions, error) = after_trials calls in (submit_trials ∷ actions, error)
  ]
]

abbrev pub is_some : Option Raised → Bool
is_some none = false
is_some (some error) = true

-- The handlers; the futures exist only with an executor.
abbrev pub handle : Option Raised → List Action
handle none = []
handle (some processing_error) = []
handle (some exception) = []
handle (some base_exception) = cancel_futures ∷ []

-- The `finally`. A failing cleanup is logged and no more.
pub live_end : Calls → Bool → List Action
live_end calls interrupted =
    (if interrupted
      then set_stop_event ∷ when calls.has_scheduler stop_scheduler ++ cleanup_containers ∷ []
      else [])
    ++ (if is_some calls.executor then [] else shutdown_executor interrupted ∷ [])
    ++ (if interrupted then [] else when calls.has_scheduler stop_scheduler)
    ++ when calls.has_scheduler join_scheduler

-- The actions, and what the run raises.
pub run_live_experiment : Calls → List Action × Option Raised
unfolding live_body live_end
run_live_experiment calls =
    let (actions, error) = live_body calls in
    let done =
      when calls.has_scheduler start_scheduler
      ++ actions
      ++ handle error
      ++ live_end calls (is_some error) in
    elim error [
      | some e ↦ (done, some e)
      | none ↦
          if calls.has_scheduler
          then (if calls.failed_after
              then (done ++ cleanup_containers ∷ [], some processing_error)
              else (done, none))
          else (done, none)
    ]
