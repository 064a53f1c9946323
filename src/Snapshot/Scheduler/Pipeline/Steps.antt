-- ===== src/Snapshot/Scheduler/Pipeline/Steps.antt =====
-- Each step of the pipeline keeps queue and rows in step.
use fuzzmeter.Prelude.{
  ℕ, ◌≡◌, ◌≢◌, refl, ◌∙◌, Bool, true, false, Option, none, some, List, [], ◌∷◌, arith, Bool-cases,
  Option-cases, inl, inr,
}
use fuzzmeter.Db.Ticks.{
  Failure, TickError, raised, not_processed, Status, pending, completed, failed, aborted, TickTable,
  update_tick, get_next_tick_idx,
}
use fuzzmeter.Db.Ticks.Lookup.{get_latest-update_tick}
use fuzzmeter.Snapshot.Scheduler.State.{
  TrialInstance, SnapshotData, Scheduler, set_fatal_error, shutting_down, campaign_trial_snapshots,
  raise_if_failed,
}
use fuzzmeter.Snapshot.Scheduler.Pipeline.{
  World, Measured, next_free, schedule_tick, schedule_periodic_tick, schedule_final_tick, final_of,
  after_measuring, abort_pending, abort_pending_ticks, interrupt, tick_raised, tick_completed, take,
  serve, worker_step,
}
use fuzzmeter.Snapshot.Scheduler.Pipeline.Tracking.{
  Queue, IsInStep, IsTracked, push-IsInStep, pop-IsInStep, abort_pending-IsInStep,
}

get_next-update_tick :
    (status : Status) (error : Option TickError) (i : ℕ) (ticks : TickTable)
    → get_next_tick_idx (update_tick status error i ticks) ≡ get_next_tick_idx ticks
unfolding get_next_tick_idx
get_next-update_tick status error i ticks = rw get_latest-update_tick

get_next-abort_pending :
    (cause : Failure) (queue : Queue) (ticks : TickTable)
    → get_next_tick_idx (abort_pending cause queue ticks).1 ≡ get_next_tick_idx ticks
unfolding abort_pending
get_next-abort_pending cause [] ticks = refl
get_next-abort_pending cause (none ∷ queue) ticks = refl
get_next-abort_pending cause (some d ∷ queue) ticks =
    get_next-abort_pending cause queue _
    ∙ get_next-update_tick aborted (some (not_processed cause)) d.tick_idx ticks

abbrev pub free_idx : Option ℕ → TickTable → ℕ
free_idx none ticks = get_next_tick_idx ticks
free_idx (some n) ticks = n

free_idx-eq :
    (o : Option ℕ) (ticks ticks' : TickTable)
    → get_next_tick_idx ticks' ≡ get_next_tick_idx ticks
    → free_idx o ticks' ≡ free_idx o ticks
free_idx-eq none ticks ticks' e = e
free_idx-eq (some n) ticks ticks' e = refl

-- A world is tracked by its queue, its rows and its next index.
abbrev pub Tracks : Scheduler → TickTable → Type 0
Tracks s ticks = IsInStep s.tick_queue ticks (free_idx s.next_tick_idx ticks)

next_free-eq : (w : World) → next_free w ≡ free_idx w.scheduler.next_tick_idx w.ticks
unfolding next_free
next_free-eq w = ground arith

pub tracks : (w : World) → IsTracked w → Tracks w.scheduler w.ticks
tracks w h = rw (next_free-eq w) at h

pub tracked : (w : World) → Tracks w.scheduler w.ticks → IsTracked w
tracked w h = rw (next_free-eq w) h

schedule_tick-IsTracked :
    (ts : ℕ) (heavy : Bool) (trials campaign : List TrialInstance) (w : World)
    → IsTracked w
    → IsTracked (schedule_tick ts heavy trials campaign w)
unfolding schedule_tick
schedule_tick-IsTracked ts heavy trials campaign w h =
    tracked (schedule_tick ts heavy trials campaign w) (
      push-IsInStep
        (record {
          tick_idx = next_free w;
          end_ts = ts;
          render_heavy = heavy;
          trials = trials;
          campaign_trials = campaign;
        })
        ts w.scheduler.tick_queue w.ticks h)

pub schedule_periodic_tick-IsTracked :
    (ts : ℕ) (trials : List TrialInstance) (w : World)
    → IsTracked w
    → IsTracked (schedule_periodic_tick ts trials w)
unfolding schedule_periodic_tick
schedule_periodic_tick-IsTracked ts trials w h =
    schedule_tick-IsTracked ts false trials (campaign_trial_snapshots w.scheduler) w h

pub schedule_final_tick-IsTracked :
    (now : ℕ) (w : World) → IsTracked w → IsTracked (schedule_final_tick now w).1
unfolding schedule_final_tick
schedule_final_tick-IsTracked now w h = elim (Option-cases (raise_if_failed w.scheduler)) [
  | inl fine ↦ rw (fine, schedule_final_tick) (queue_final (campaign_trial_snapshots w.scheduler))
  | inr (error, failing) ↦ rw (failing, schedule_final_tick) h
]
  where
    queue_final : (campaign : List TrialInstance) → IsTracked (final_of now campaign w).1
    queue_final [] = h
    queue_final (trial ∷ trials) =
        schedule_tick-IsTracked now true (trial ∷ trials) (trial ∷ trials) w h

Tracks-update :
    (status : Status) (error : Option TickError) (d : SnapshotData) (queue : Queue) (o : Option ℕ)
    (ticks : TickTable)
    → status ≢ pending
    → IsInStep (some d ∷ queue) ticks (free_idx o ticks)
    → IsInStep queue
        (update_tick status error d.tick_idx ticks)
        (free_idx o (update_tick status error d.tick_idx ticks))
Tracks-update status error d queue o ticks done h =
    rw (free_idx-eq o ticks _ (get_next-update_tick status error d.tick_idx ticks))
      (pop-IsInStep status error d queue ticks (free_idx o ticks) done h)

Tracks-abort :
    (cause : Failure) (queue : Queue) (o : Option ℕ) (ticks : TickTable)
    → IsInStep queue ticks (free_idx o ticks)
    → IsInStep
        (abort_pending cause queue ticks).0
        (abort_pending cause queue ticks).1
        (free_idx o (abort_pending cause queue ticks).1)
Tracks-abort cause queue o ticks h =
    rw (free_idx-eq o ticks _ (get_next-abort_pending cause queue ticks))
      (abort_pending-IsInStep cause queue ticks (free_idx o ticks) h)

pub queue-interrupt : (b : Bool) (s : Scheduler) → (interrupt b s).tick_queue ≡ s.tick_queue
unfolding interrupt
queue-interrupt true s = refl
queue-interrupt false s = refl

next_idx-interrupt : (b : Bool) (s : Scheduler) → (interrupt b s).next_tick_idx ≡ s.next_tick_idx
unfolding interrupt
next_idx-interrupt true s = refl
next_idx-interrupt false s = refl

-- The tick leaves the queue with its outcome.
measured-Tracks :
    (d : SnapshotData) (error : Option Failure) (w : World)
    → IsInStep
        (some d ∷ w.scheduler.tick_queue)
        w.ticks
        (free_idx w.scheduler.next_tick_idx w.ticks)
    → let w' = after_measuring d error w in Tracks w'.scheduler w'.ticks
unfolding after_measuring tick_completed tick_raised set_fatal_error
measured-Tracks d none w h =
    Tracks-update completed none d w.scheduler.tick_queue w.scheduler.next_tick_idx w.ticks
      (λ e. cc) h
measured-Tracks d (some exc) w h = elim (Bool-cases (shutting_down w.scheduler)) [
  | inl down ↦ rw down (
      Tracks-update aborted (some (raised exc)) d w.scheduler.tick_queue w.scheduler.next_tick_idx
        w.ticks (λ e. cc) h)
  | inr up ↦ rw up (
      Tracks-abort exc w.scheduler.tick_queue w.scheduler.next_tick_idx
        (update_tick failed (some (raised exc)) d.tick_idx w.ticks)
        (Tracks-update failed (some (raised exc)) d w.scheduler.tick_queue w.scheduler.next_tick_idx
          w.ticks (λ e. cc) h))
]

-- One round of the worker on a tick, whatever its measurement did.
take-Tracks :
    (m : Measured) (item : Option SnapshotData) (w : World)
    → IsInStep (item ∷ w.scheduler.tick_queue) w.ticks (free_idx w.scheduler.next_tick_idx w.ticks)
    → let w' = take m item w in Tracks w'.scheduler w'.ticks
unfolding take
take-Tracks m none w h = record { tracked = h.tracked; once = h.once; fresh = h.fresh }
take-Tracks m (some d) w h =
    measured-Tracks d m.error (record w { scheduler = interrupt m.interrupted w.scheduler })
      (rw (queue-interrupt m.interrupted w.scheduler, next_idx-interrupt m.interrupted w.scheduler)
        h)

serve-Tracks :
    (m : Measured) (queue : Queue) (alive : Bool) (w : World)
    → IsInStep queue w.ticks (free_idx w.scheduler.next_tick_idx w.ticks)
    → Tracks w.scheduler w.ticks
    → let w' = serve m queue alive w in Tracks w'.scheduler w'.ticks
unfolding serve
serve-Tracks m [] alive w h t = t
serve-Tracks m (item ∷ queue) true w h t =
    take-Tracks m item (record w { scheduler = record w.scheduler { tick_queue = queue } }) h
serve-Tracks m (item ∷ queue) false w h t = t

pub worker_step-IsTracked : (m : Measured) (w : World) → IsTracked w → IsTracked (worker_step m w)
worker_step-IsTracked m w h = tracked (worker_step m w) (
    unfold worker_step in
    serve-Tracks m w.scheduler.tick_queue w.worker w (tracks w h) (tracks w h))

pub set_fatal_error-IsTracked :
    (exc : Failure) (w : World)
    → IsTracked w
    → IsTracked (record w { scheduler = set_fatal_error exc w.scheduler })
set_fatal_error-IsTracked exc w h =
    tracked (record w { scheduler = set_fatal_error exc w.scheduler })
      (unfold set_fatal_error in tracks w h)

pub abort_pending_ticks-IsTracked :
    (cause : Failure) (w : World) → IsTracked w → IsTracked (abort_pending_ticks cause w)
abort_pending_ticks-IsTracked cause w h = tracked (abort_pending_ticks cause w) (
    unfold abort_pending_ticks in
    Tracks-abort cause w.scheduler.tick_queue w.scheduler.next_tick_idx w.ticks (tracks w h))
