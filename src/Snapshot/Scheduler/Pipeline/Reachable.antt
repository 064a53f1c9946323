-- ===== src/Snapshot/Scheduler/Pipeline/Reachable.antt =====
-- What the threads of a run do to the world, one step at a time in any order, and what holds of
-- every world that they reach.
use fuzzmeter.Prelude.{ℕ, ◌<◌, ◌≡◌, refl, Bool, true, false, Option, some, String}
use fuzzmeter.Db.Ticks.{Failure, TickTable}
use fuzzmeter.Db.Ticks.Lookup.{is_pending, find_tick-next}
use fuzzmeter.Snapshot.Scheduler.State.{
  TrialInstance, Settings, Scheduler, init, register, unregister, request_stop, set_fatal_error,
}
use fuzzmeter.Snapshot.Scheduler.State.Invariant.{
  IsScheduled, init-IsScheduled, register-IsScheduled, unregister-IsScheduled,
}
use fuzzmeter.Snapshot.Scheduler.Periodic.{DueByTs, due_periodic_snapshots}
use fuzzmeter.Snapshot.Scheduler.Periodic.Calls.{settings_same, due-IsScheduled}
use fuzzmeter.Snapshot.Scheduler.Pipeline.{
  World, Measured, schedule_final_tick, abort_pending_ticks, interrupt, worker_step, schedule_due,
  put_end, start,
}
use fuzzmeter.Snapshot.Scheduler.Pipeline.Tracking.{IsTracked}
use fuzzmeter.Snapshot.Scheduler.Pipeline.Steps.{
  schedule_final_tick-IsTracked, worker_step-IsTracked, set_fatal_error-IsTracked,
  abort_pending_ticks-IsTracked, tracked,
}
use fuzzmeter.Snapshot.Scheduler.Periodic.Laws.{called}
use fuzzmeter.Snapshot.Scheduler.Pipeline.Same.{
  put_end-IsTracked, schedule_due-IsTracked, SameTrials, SameTrials-due, SameTrials-work,
  SameTrials-final, SameTrials-interrupt, IsScheduled-same, SameQueue, SameQueue-interrupt,
  IsTracked-same,
}

-- The trial threads register, unregister; the scheduler's loop polls, may fail, puts the end mark,
-- and aborts what is left once the worker has ended; the main thread asks for the final tick and
-- for the stop; the worker takes items; a signal handler sets the stop event.
pub data Step (w : World) : World → Type 0 where
  registers : (trial : TrialInstance) → Step w (record w { scheduler = register trial w.scheduler })
  unregisters : (key : String) → Step w (record w { scheduler = unregister key w.scheduler })
  polls :
      (now : ℕ) (due : DueByTs) (next_due : Option ℕ) (s' : Scheduler)
      → due_periodic_snapshots now w.scheduler ≡ some (due, next_due, s')
      → Step w (schedule_due due (record w { scheduler = s' }))
  loop_fails : (exc : Failure) → Step w (record w { scheduler = set_fatal_error exc w.scheduler })
  ends : Step w (put_end w)
  aborts :
      (cause : Failure)
      → w.worker ≡ false
      → w.scheduler.fatal_error ≡ some cause
      → Step w (abort_pending_ticks cause w)
  final : (now : ℕ) → Step w (schedule_final_tick now w).1
  stops : Step w (record w { scheduler = request_stop w.scheduler })
  works : (m : Measured) → Step w (worker_step m w)
  interrupts : Step w (record w { scheduler = interrupt true w.scheduler })

pub data Reach (w : World) : World → Type 0 where
  here : Reach w w
  next : {u v : World} → Reach w u → Step u v → Reach w v

-- Queue and rows agree, the schedule is in order, and the time step is still positive.
pub record IsSound (w : World) : Type 0 where
  pub in_step : IsTracked w
  pub in_order : IsScheduled w.scheduler
  pub positive : 0 < w.scheduler.settings.every_seconds

-- For the steps that leave the trials alone.
IsSound-same :
    (w w' : World) → SameTrials w.scheduler w'.scheduler → IsTracked w' → IsSound w → IsSound w'
IsSound-same w w' e t h = record {
  in_step = t;
  in_order = IsScheduled-same e h.in_order;
  positive = rw e.settings h.positive;
}

-- For the steps that leave the queue alone.
IsSound-queue :
    (w : World) (s' : Scheduler)
    → SameQueue w.scheduler s'
    → s'.settings ≡ w.scheduler.settings
    → IsScheduled s'
    → IsSound w
    → IsSound (record w { scheduler = s' })
IsSound-queue w s' e same order h = record {
  in_step = IsTracked-same w s' e h.in_step;
  in_order = order;
  positive = rw same h.positive;
}

polled-IsSound :
    (w : World) (now : ℕ) (due : DueByTs) (next_due : Option ℕ) (s' : Scheduler)
    → due_periodic_snapshots now w.scheduler ≡ some (due, next_due, s')
    → IsSound w
    → IsSound (schedule_due due (record w { scheduler = s' }))
polled-IsSound w now due next_due s' call h =
    let c = called w.scheduler now h.positive call in
    let polled : World = record w { scheduler = s' } in
    let sound : IsSound polled =
      IsSound-queue w s' (rw c.state_eq (record { queue = refl; next_idx = refl }))
        (settings_same w.scheduler now h.positive call h.in_order)
        (due-IsScheduled w.scheduler now h.positive call h.in_order) h in
    IsSound-same polled (schedule_due due polled) (SameTrials-due due polled)
      (schedule_due-IsTracked due polled sound.in_step) sound

Step-IsSound : {w w' : World} → Step w w' → IsSound w → IsSound w'
Step-IsSound {w} (registers trial) h =
    IsSound-queue w (register trial w.scheduler)
      (unfold register in record { queue = refl; next_idx = refl }) (unfold register in refl)
      (register-IsScheduled trial w.scheduler h.in_order) h
Step-IsSound {w} (unregisters key) h =
    IsSound-queue w (unregister key w.scheduler)
      (unfold unregister in record { queue = refl; next_idx = refl }) (unfold unregister in refl)
      (unregister-IsScheduled key w.scheduler h.in_order) h
Step-IsSound {w} (polls now due next_due s' call) h = polled-IsSound w now due next_due s' call h
Step-IsSound {w} (loop_fails exc) h =
    IsSound-same w (record w { scheduler = set_fatal_error exc w.scheduler })
      (unfold set_fatal_error in
        record { settings = refl; active = refl; campaign = refl; next_ts = refl })
      (set_fatal_error-IsTracked exc w h.in_step) h
Step-IsSound {w} ends h =
    IsSound-same w (put_end w)
      (unfold put_end in record { settings = refl; active = refl; campaign = refl; next_ts = refl })
      (put_end-IsTracked w h.in_step) h
Step-IsSound {w} (aborts cause ended fatal) h =
    IsSound-same w (abort_pending_ticks cause w)
      (unfold abort_pending_ticks in
        record { settings = refl; active = refl; campaign = refl; next_ts = refl })
      (abort_pending_ticks-IsTracked cause w h.in_step) h
Step-IsSound {w} (final now) h =
    IsSound-same w (schedule_final_tick now w).1 (SameTrials-final now w)
      (schedule_final_tick-IsTracked now w h.in_step) h
Step-IsSound {w} stops h =
    IsSound-same w (record w { scheduler = request_stop w.scheduler })
      (unfold request_stop in
        record { settings = refl; active = refl; campaign = refl; next_ts = refl })
      (IsTracked-same w (request_stop w.scheduler)
        (unfold request_stop in record { queue = refl; next_idx = refl }) h.in_step)
      h
Step-IsSound {w} (works m) h =
    IsSound-same w (worker_step m w) (SameTrials-work m w) (worker_step-IsTracked m w h.in_step) h
Step-IsSound {w} interrupts h =
    IsSound-same w (record w { scheduler = interrupt true w.scheduler })
      (SameTrials-interrupt w.scheduler)
      (IsTracked-same w (interrupt true w.scheduler) (SameQueue-interrupt w.scheduler) h.in_step) h

start-IsSound :
    (settings : Settings) (stop_event : Option Bool) (now : ℕ) (ticks : TickTable)
    → 0 < settings.every_seconds
    → ((i : ℕ) → is_pending i ticks ≡ false)
    → IsSound (start settings stop_event now ticks)
unfolding start init
start-IsSound settings stop_event now ticks positive none_pending = record {
  in_step =
      tracked (start settings stop_event now ticks)
        (record { tracked = none_pending; once = tt; fresh = λ i le. find_tick-next i ticks le });
  in_order = init-IsScheduled settings stop_event now;
  positive = positive;
}

Reach-IsSound : {w w' : World} → Reach w w' → IsSound w → IsSound w'
Reach-IsSound here h = h
Reach-IsSound (next r st) h = Step-IsSound st (Reach-IsSound r h)

-- From a scheduler that has just been made with a positive time step, over rows of which none is
-- pending, whatever the threads do in steps of `Step` and in whatever order: a tick's row is
-- pending exactly while the tick stands in the queue, no tick stands there twice, no row has the
-- next index or a later one, and the schedule of periodic snapshots is in order (`IsScheduled`).
pub reachable-IsSound :
    (settings : Settings) (stop_event : Option Bool) (now : ℕ) (ticks : TickTable) {w : World}
    → 0 < settings.every_seconds
    → ((i : ℕ) → is_pending i ticks ≡ false)
    → Reach (start settings stop_event now ticks) w
    → IsSound w
reachable-IsSound settings stop_event now ticks positive none_pending r =
    Reach-IsSound r (start-IsSound settings stop_event now ticks positive none_pending)
