-- ===== src/Snapshot/Scheduler/Pipeline.antt =====
-- Ticks from the scheduler's loop to the worker: the tick methods of `SnapshotScheduler`.
-- `World` joins the scheduler to the run's tick rows and to whether the tick worker still runs.
-- What measuring a tick does outside these is the parameter `Measured` of a step: whether
-- `collect_snapshots`, `process_snapshot_coverage` or `process_snapshot_crashes` raised, and whether
-- a signal handler set the shared stop event meanwhile. Telemetry rows and log lines are left out.
pub mod Tracking
pub mod Steps
pub mod Same
pub mod Reachable
pub mod Drain
pub mod Finish
pub mod Replayed
pub mod Jobs
pub mod Ending
pub mod Verdicts
mod Tests
use fuzzmeter.Prelude.{
  ℕ, zero, suc, ◌+◌, ◌-◌, ◌%◌, Bool, true, false, not, ◌&&◌, ◌||◌, Option, none, some, List, [],
  ◌∷◌, ◌++◌, max, ltb, nat_beq, if◌then◌else◌, length,
}
use fuzzmeter.Db.Ticks.{
  Failure, TickError, raised, not_processed, TickTable, insert_tick, mark_tick_completed,
  mark_tick_failed, mark_tick_aborted, get_next_tick_idx,
}
use fuzzmeter.Snapshot.Scheduler.State.{
  TrialInstance, SnapshotData, Settings, Scheduler, init, set_fatal_error, raise_if_failed,
  shutting_down, campaign_trial_snapshots,
}

pub record World : Type 0 where
  pub scheduler : Scheduler
  pub ticks : TickTable
  pub worker : Bool

pub record Measured : Type 0 where
  pub error : Option Failure
  pub interrupted : Bool

-- `_tick_jobs`
pub tick_jobs : Scheduler → ℕ
tick_jobs s =
    let total = s.settings.total_trials in
    if not (nat_beq total 0) && nat_beq (length s.campaign_trials) total
    then max s.settings.jobs (s.settings.parallel_jobs - length s.active)
    else s.settings.jobs

-- `_allocate_tick_idx`: the database is asked once.
pub next_free : World → ℕ
next_free w = elim w.scheduler.next_tick_idx [ none ↦ get_next_tick_idx w.ticks | some n ↦ n ]

-- `_schedule_tick` behind `_allocate_tick_idx` and `insert_tick`.
pub schedule_tick : ℕ → Bool → List TrialInstance → List TrialInstance → World → World
unfolding next_free
schedule_tick ts render_heavy trials campaign_trials w =
    let s = w.scheduler in
    let tick_idx = next_free w in
    record w {
      scheduler = record s {
        next_tick_idx = some (tick_idx + 1);
        tick_queue =
            s.tick_queue
            ++ some (record {
              tick_idx = tick_idx;
              end_ts = ts;
              render_heavy = render_heavy;
              trials = trials;
              campaign_trials = campaign_trials;
            })
              ∷ [];
        scheduled_ticks = s.scheduled_ticks + 1;
      };
      ticks = insert_tick tick_idx ts w.ticks;
    }

-- `_schedule_periodic_tick`, with the index that the loop allocates for it.
pub schedule_periodic_tick : ℕ → List TrialInstance → World → World
unfolding schedule_tick
schedule_periodic_tick ts trials w =
    schedule_tick ts false trials (campaign_trial_snapshots w.scheduler) w

-- The last tick looks at every trial of the campaign; there is none without trials.
pub final_of : ℕ → List TrialInstance → World → Option Failure × World
unfolding schedule_tick
final_of now [] w = (none, w)
final_of now (trial ∷ trials) w = (none, schedule_tick now true (trial ∷ trials) (trial ∷ trials) w)

-- `schedule_final_tick` at the time `now`: the error that it raises, if it does.
pub schedule_final_tick : ℕ → World → Option Failure × World
unfolding final_of
schedule_final_tick now w = elim (raise_if_failed w.scheduler) [
  | some error ↦ (some error, w)
  | none ↦ final_of now (campaign_trial_snapshots w.scheduler) w
]

-- `_abort_pending_ticks` on the queue: it takes the ticks up to and with the next end mark.
pub abort_pending :
    Failure → List (Option SnapshotData) → TickTable → List (Option SnapshotData) × TickTable
abort_pending cause [] ticks = ([], ticks)
abort_pending cause (none ∷ queue) ticks = (queue, ticks)
abort_pending cause (some d ∷ queue) ticks =
    abort_pending cause queue (mark_tick_aborted d.tick_idx (not_processed cause) ticks)

pub abort_pending_ticks : Failure → World → World
unfolding abort_pending
abort_pending_ticks cause w =
    let (queue, ticks) = abort_pending cause w.scheduler.tick_queue w.ticks in
    record w { scheduler = record w.scheduler { tick_queue = queue }; ticks = ticks }

-- The shared stop event, set by the signal handler. Where none is shared there is nothing to set.
pub interrupt : Bool → Scheduler → Scheduler
interrupt happens s =
    if happens
    then record s { stop_event = elim s.stop_event [ none ↦ none | some is_set ↦ some true ] }
    else s

-- `_record_tick_error`
pub record_tick_error : SnapshotData → Failure → World → World
record_tick_error d exc w = record w {
  ticks =
      if shutting_down w.scheduler
      then mark_tick_aborted d.tick_idx (raised exc) w.ticks
      else mark_tick_failed d.tick_idx (raised exc) w.ticks;
}

-- The `except` of the worker's loop: outside a shutdown the error is fatal and the worker ends.
pub tick_raised : SnapshotData → Failure → World → World
unfolding record_tick_error abort_pending_ticks
tick_raised d exc w =
    let w' = record_tick_error d exc w in
    if shutting_down w.scheduler
    then w'
    else record (abort_pending_ticks exc
        (record w' { scheduler = set_fatal_error exc w'.scheduler })) { worker = false }

-- The end of `_process_tick`.
pub tick_completed : SnapshotData → World → World
tick_completed d w = record w {
  scheduler = record w.scheduler { processed_ticks = w.scheduler.processed_ticks + 1 };
  ticks = mark_tick_completed d.tick_idx w.ticks;
}

-- What the worker makes of a tick's measurement: the error that it raised, if it did.
pub after_measuring : SnapshotData → Option Failure → World → World
unfolding tick_raised tick_completed
after_measuring d none w = tick_completed d w
after_measuring d (some exc) w = tick_raised d exc w

-- One round of `_tick_worker_loop` on the head of the queue, which is taken off.
pub take : Measured → Option SnapshotData → World → World
unfolding interrupt after_measuring
take m none w = record w { worker = false }
take m (some d) w =
    after_measuring d m.error (record w { scheduler = interrupt m.interrupted w.scheduler })

-- The worker at the queue: one that has ended takes nothing, and one with no item waits.
pub serve : Measured → List (Option SnapshotData) → Bool → World → World
unfolding take
serve m [] alive w = w
serve m (item ∷ queue) true w =
    take m item (record w { scheduler = record w.scheduler { tick_queue = queue } })
serve m (item ∷ queue) false w = w

pub worker_step : Measured → World → World
unfolding serve
worker_step m w = serve m w.scheduler.tick_queue w.worker w

-- The body of `run_loop`'s `for`: a tick for each due time stamp, in order.
pub schedule_due : List (ℕ × List TrialInstance) → World → World
unfolding schedule_periodic_tick
schedule_due [] w = w
schedule_due ((ts, trials) ∷ due) w = schedule_due due (schedule_periodic_tick ts trials w)

-- The end of `run_loop`: the mark that ends the worker.
pub put_end : World → World
put_end w = record w {
  scheduler = record w.scheduler { tick_queue = w.scheduler.tick_queue ++ none ∷ [] };
}

-- Rounds of `_tick_worker_loop` with nothing new put into the queue; `outcomes k` is what measuring
-- does in round k.
pub worker_loop : (ℕ → Measured) → ℕ → World → World
unfolding worker_step
worker_loop outcomes zero w = w
worker_loop outcomes (suc n) w = worker_loop (λ k. outcomes (suc k)) n (worker_step (outcomes 0) w)

-- The `finally` of `run_loop`: the end mark, the wait for the worker, which takes a round at most
-- for each item, and the abort of what a fatal error has left.
pub finish : (ℕ → Measured) → World → World
unfolding put_end worker_loop abort_pending_ticks
finish outcomes w =
    let joined = worker_loop outcomes (length (put_end w).scheduler.tick_queue) (put_end w) in
    elim joined.scheduler.fatal_error [
      | none ↦ joined
      | some cause ↦ abort_pending_ticks cause joined
    ]

-- A world before its scheduler has done anything, with the rows that the run has by then.
pub start : Settings → Option Bool → ℕ → TickTable → World
start settings stop_event now ticks = record {
  scheduler = init settings stop_event now;
  ticks = ticks;
  worker = true;
}
