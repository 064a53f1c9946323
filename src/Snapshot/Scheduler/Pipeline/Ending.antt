-- ===== src/Snapshot/Scheduler/Pipeline/Ending.antt =====
-- A run from its beginning to its end: the steps before the end mark, and then the end of `run_loop`.
use fuzzmeter.Prelude.{
  ℕ, ◌<◌, ◌≡◌, refl, ap, ◌∙◌, inl, inr, Bool, true, false, Option, none, some, List, [], ◌∷◌, ◌++◌,
  Bool-cases, Option-cases,
}
use fuzzmeter.Db.Ticks.{Failure, TickTable}
use fuzzmeter.Db.Ticks.Lookup.{is_pending}
use fuzzmeter.Snapshot.Scheduler.State.{
  TrialInstance, SnapshotData, Settings, Scheduler, init, register, unregister, request_stop,
  set_fatal_error, raise_if_failed, shutting_down, campaign_trial_snapshots,
}
use fuzzmeter.Snapshot.Scheduler.Periodic.Laws.{called}
use fuzzmeter.Snapshot.Scheduler.Pipeline.{
  World, Measured, schedule_tick, schedule_periodic_tick, final_of, schedule_final_tick,
  abort_pending, abort_pending_ticks, interrupt, after_measuring, take, serve, worker_step,
  schedule_due, finish, start,
}
use fuzzmeter.Snapshot.Scheduler.Pipeline.Tracking.{Queue}
use fuzzmeter.Snapshot.Scheduler.Pipeline.Steps.{queue-interrupt}
use fuzzmeter.Snapshot.Scheduler.Pipeline.Drain.{has_end, CanFinish}
use fuzzmeter.Snapshot.Scheduler.Pipeline.Finish.{finish_clears}
use fuzzmeter.Snapshot.Scheduler.Pipeline.Reachable.{
  Step, registers, unregisters, polls, loop_fails, ends, aborts, final, stops, works, interrupts,
  Reach, here, next, reachable-IsSound,
}

-- `run_loop` has not come to its end.
record IsOpen (w : World) : Type 0 where
  open_queue : has_end w.scheduler.tick_queue ≡ false
  can : CanFinish w

IsOpen-same :
    (w w' : World)
    → w'.scheduler.tick_queue ≡ w.scheduler.tick_queue
    → w'.worker ≡ w.worker
    → w'.scheduler.fatal_error ≡ w.scheduler.fatal_error
    → IsOpen w
    → IsOpen w'
IsOpen-same w w' queue worker fatal h = record {
  open_queue = rw queue h.open_queue;
  can = rw (worker, fatal) h.can;
}

has_end-push : (d : SnapshotData) (queue : Queue) → has_end (queue ++ some d ∷ []) ≡ has_end queue
has_end-push d [] = refl
has_end-push d (none ∷ queue) = refl
has_end-push d (some e ∷ queue) = has_end-push d queue

schedule_tick-IsOpen :
    (ts : ℕ) (heavy : Bool) (trials campaign : List TrialInstance) (w : World)
    → IsOpen w
    → IsOpen (schedule_tick ts heavy trials campaign w)
unfolding schedule_tick
schedule_tick-IsOpen ts heavy trials campaign w h = record {
  open_queue = has_end-push _ w.scheduler.tick_queue ∙ h.open_queue;
  can = h.can;
}

schedule_due-IsOpen :
    (due : List (ℕ × List TrialInstance)) (w : World) → IsOpen w → IsOpen (schedule_due due w)
unfolding schedule_due schedule_periodic_tick
schedule_due-IsOpen [] w h = h
schedule_due-IsOpen ((ts, trials) ∷ due) w h =
    schedule_due-IsOpen due (schedule_periodic_tick ts trials w)
      (schedule_tick-IsOpen ts false trials (campaign_trial_snapshots w.scheduler) w h)

final_of-IsOpen :
    (now : ℕ) (trials : List TrialInstance) (w : World)
    → IsOpen w
    → IsOpen (final_of now trials w).1
unfolding final_of
final_of-IsOpen now [] w h = h
final_of-IsOpen now (trial ∷ trials) w h =
    schedule_tick-IsOpen now true (trial ∷ trials) (trial ∷ trials) w h

schedule_final_tick-IsOpen : (now : ℕ) (w : World) → IsOpen w → IsOpen (schedule_final_tick now w).1
unfolding schedule_final_tick
schedule_final_tick-IsOpen now w h = elim (Option-cases (raise_if_failed w.scheduler)) [
  | inl fine ↦
      rw (fine, schedule_final_tick)
        (final_of-IsOpen now (campaign_trial_snapshots w.scheduler) w h)
  | inr (error, failed) ↦ rw (failed, schedule_final_tick) h
]

-- An error is kept or set.
fatal-set :
    (exc : Failure) (s : Scheduler)
    → (cause : Failure) × ((set_fatal_error exc s).fatal_error ≡ some cause)
unfolding set_fatal_error
fatal-set exc s = elim (Option-cases s.fatal_error) [
  | inl fine ↦ (exc, rw fine)
  | inr (first, failed) ↦ (first, rw failed)
]

abort_pending-open :
    (cause : Failure) (queue : Queue) (ticks : TickTable)
    → has_end queue ≡ false
    → (abort_pending cause queue ticks).0 ≡ []
unfolding abort_pending
abort_pending-open cause [] ticks h = refl
abort_pending-open cause (none ∷ queue) ticks h = cc
abort_pending-open cause (some d ∷ queue) ticks h = abort_pending-open cause queue _ h

abort_pending_ticks-IsOpen :
    (cause : Failure) (w : World) → IsOpen w → IsOpen (abort_pending_ticks cause w)
unfolding abort_pending_ticks
abort_pending_ticks-IsOpen cause w h = record {
  open_queue = rw (abort_pending-open cause w.scheduler.tick_queue w.ticks h.open_queue);
  can = h.can;
}

measured-IsOpen :
    (d : SnapshotData) (error : Option Failure) (w : World)
    → has_end w.scheduler.tick_queue ≡ false
    → w.worker ≡ true
    → IsOpen (after_measuring d error w)
unfolding after_measuring
measured-IsOpen d none w h alive = record { open_queue = h; can = inl alive }
measured-IsOpen d (some exc) w h alive = elim (Bool-cases (shutting_down w.scheduler)) [
  | inl down ↦ rw down (record { open_queue = h; can = inl alive })
  | inr up ↦ rw up (record {
    open_queue = unfold set_fatal_error in rw (abort_pending-open exc w.scheduler.tick_queue _ h);
    can = inr (refl, fatal-set exc w.scheduler);
  })
]

serve-IsOpen :
    (m : Measured) (queue : Queue) (alive : Bool) (w : World)
    → w.scheduler.tick_queue ≡ queue
    → w.worker ≡ alive
    → IsOpen w
    → IsOpen (serve m queue alive w)
unfolding serve take
serve-IsOpen m [] alive w e a h = h
serve-IsOpen m (item ∷ queue) false w e a h = h
serve-IsOpen m (none ∷ queue) true w e a h = absurd (no_mark (rw e at h.open_queue))
  where
    no_mark : true ≡ false → ⊥
    no_mark x = cc
serve-IsOpen m (some d ∷ queue) true w e a h =
    measured-IsOpen d m.error _
      (ap has_end (queue-interrupt m.interrupted _) ∙ rw e at h.open_queue) a

abbrev pub is_end : {w v : World} → Step w v → Bool
is_end ends = true
is_end _ = false

-- What the threads do before `run_loop` puts the end mark.
pub data Runs (w : World) : World → Type 0 where
  begins : Runs w w
  goes_on : {u v : World} → Runs w u → (st : Step u v) → is_end st ≡ false → Runs w v

Runs-Reach : {w v : World} → Runs w v → Reach w v
Runs-Reach begins = here
Runs-Reach (goes_on r st e) = next (Runs-Reach r) st

Step-IsOpen :
    {w v : World} (st : Step w v)
    → is_end st ≡ false
    → 0 < w.scheduler.settings.every_seconds
    → IsOpen w
    → IsOpen v
Step-IsOpen {w} (registers trial) e positive h =
    IsOpen-same w _ (unfold register in refl) refl (unfold register in refl) h
Step-IsOpen {w} (unregisters key) e positive h =
    IsOpen-same w _ (unfold unregister in refl) refl (unfold unregister in refl) h
Step-IsOpen {w} (polls now due next_due s' call) e positive h =
    let c = called w.scheduler now positive call in
    schedule_due-IsOpen due (record w { scheduler = s' })
      (IsOpen-same w (record w { scheduler = s' }) (rw c.state_eq) refl (rw c.state_eq) h)
Step-IsOpen {w} (loop_fails exc) e positive h = record {
  open_queue = unfold set_fatal_error in h.open_queue;
  can = elim (Bool-cases w.worker) [
    | inl alive ↦ inl alive
    | inr ended ↦ inr (ended, fatal-set exc w.scheduler)
  ];
}
Step-IsOpen {w} ends e positive h = cc
Step-IsOpen {w} (aborts cause ended fatal) e positive h = abort_pending_ticks-IsOpen cause w h
Step-IsOpen {w} (final now) e positive h = schedule_final_tick-IsOpen now w h
Step-IsOpen {w} stops e positive h =
    IsOpen-same w _ (unfold request_stop in refl) refl (unfold request_stop in refl) h
Step-IsOpen {w} (works m) e positive h =
    unfold worker_step in serve-IsOpen m w.scheduler.tick_queue w.worker w refl refl h
Step-IsOpen {w} interrupts e positive h =
    IsOpen-same w _ (queue-interrupt true w.scheduler) refl (unfold interrupt in refl) h

module _ (settings : Settings) (stop_event : Option Bool) (now : ℕ) (ticks : TickTable)
    (positive : 0 < settings.every_seconds)
    (none_pending : (i : ℕ) → is_pending i ticks ≡ false) where
  Runs-IsOpen : {w : World} → Runs (start settings stop_event now ticks) w → IsOpen w
  Runs-IsOpen begins = unfold start init in record { open_queue = refl; can = inl refl }
  Runs-IsOpen (goes_on r st e) =
      Step-IsOpen st e
        (reachable-IsSound settings stop_event now ticks positive none_pending
          (Runs-Reach r)).positive
        (Runs-IsOpen r)

  -- From a scheduler that has just been made with a positive time step, over rows of which none
  -- is pending, after any steps of the threads in any order except the end mark, and then the end
  -- of `run_loop`: no row is pending, whatever measuring the last ticks does.
  pub run_clears :
      {w : World} (outcomes : ℕ → Measured)
      → Runs (start settings stop_event now ticks) w
      → (i : ℕ) → is_pending i (finish outcomes w).ticks ≡ false
  run_clears {w} outcomes r =
      let o = Runs-IsOpen r in
      finish_clears outcomes w
        (reachable-IsSound settings stop_event now ticks positive none_pending
          (Runs-Reach r)).in_step
        o.open_queue o.can
