-- ===== src/Snapshot/Scheduler/Pipeline/Same.antt =====
-- The steps that leave the trials alone, and those that leave the queue alone.
use fuzzmeter.Prelude.{ℕ, ◌≡◌, refl, Bool, true, none, some, List, [], ◌∷◌, ◌++◌, arith}
use fuzzmeter.Snapshot.Scheduler.State.{TrialInstance, Scheduler, set_fatal_error}
use fuzzmeter.Snapshot.Scheduler.State.Invariant.{IsScheduled}
use fuzzmeter.Snapshot.Scheduler.Pipeline.{
  World, Measured, schedule_periodic_tick, schedule_final_tick, interrupt, serve, worker_step,
  schedule_due, put_end,
}
use fuzzmeter.Snapshot.Scheduler.Pipeline.Tracking.{Queue, has_idx, IsOnce, IsTracked}
use fuzzmeter.Snapshot.Scheduler.Pipeline.Steps.{schedule_periodic_tick-IsTracked, tracked, tracks}

has_idx-put_end : (i : ℕ) (queue : Queue) → has_idx i (queue ++ none ∷ []) ≡ has_idx i queue
has_idx-put_end i [] = refl
has_idx-put_end i (none ∷ queue) = has_idx-put_end i queue
has_idx-put_end i (some d ∷ queue) = ground (arith, has_idx-put_end i queue)

IsOnce-put_end : (queue : Queue) → IsOnce queue → IsOnce (queue ++ none ∷ [])
IsOnce-put_end [] o = tt
IsOnce-put_end (none ∷ queue) o = IsOnce-put_end queue o
IsOnce-put_end (some d ∷ queue) o =
    ground (arith, IsOnce-put_end queue o.1, has_idx-put_end d.tick_idx queue)

pub put_end-IsTracked : (w : World) → IsTracked w → IsTracked (put_end w)
put_end-IsTracked w h = tracked (put_end w) (
    unfold put_end in
    let t = tracks w h in
    record {
      tracked = λ i. rw has_idx-put_end (t.tracked i);
      once = IsOnce-put_end w.scheduler.tick_queue t.once;
      fresh = t.fresh;
    })

pub schedule_due-IsTracked :
    (due : List (ℕ × List TrialInstance)) (w : World) → IsTracked w → IsTracked (schedule_due due w)
unfolding schedule_due
schedule_due-IsTracked [] w h = h
schedule_due-IsTracked ((ts, trials) ∷ due) w h =
    schedule_due-IsTracked due (schedule_periodic_tick ts trials w)
      (schedule_periodic_tick-IsTracked ts trials w h)

-- The trial dictionaries and the settings are the same.
pub record SameTrials (s s' : Scheduler) : Type 0 where
  pub settings : s'.settings ≡ s.settings
  pub active : s'.active ≡ s.active
  pub campaign : s'.campaign_trials ≡ s.campaign_trials
  pub next_ts : s'.next_periodic_ts ≡ s.next_periodic_ts

pub SameTrials-refl : (s : Scheduler) → SameTrials s s
SameTrials-refl s = record { settings = refl; active = refl; campaign = refl; next_ts = refl }

pub SameTrials-due :
    (due : List (ℕ × List TrialInstance)) (w : World)
    → SameTrials w.scheduler (schedule_due due w).scheduler
unfolding schedule_due
SameTrials-due [] w = SameTrials-refl w.scheduler
SameTrials-due ((ts, trials) ∷ due) w =
    let same = SameTrials-due due (schedule_periodic_tick ts trials w) in
    unfold schedule_periodic_tick in
    record {
      settings = same.settings;
      active = same.active;
      campaign = same.campaign;
      next_ts = same.next_ts;
    }

serve-SameTrials :
    (m : Measured) (queue : Queue) (alive : Bool) (w : World)
    → SameTrials w.scheduler (serve m queue alive w).scheduler
unfolding serve set_fatal_error
serve-SameTrials m queue alive w = record {
  settings = ground arith;
  active = ground arith;
  campaign = ground arith;
  next_ts = ground arith;
}

pub SameTrials-work :
    (m : Measured) (w : World) → SameTrials w.scheduler (worker_step m w).scheduler
unfolding worker_step
SameTrials-work m w = serve-SameTrials m w.scheduler.tick_queue w.worker w

pub SameTrials-final :
    (now : ℕ) (w : World) → SameTrials w.scheduler (schedule_final_tick now w).1.scheduler
unfolding schedule_final_tick
SameTrials-final now w = record {
  settings = ground arith;
  active = ground arith;
  campaign = ground arith;
  next_ts = ground arith;
}

pub IsScheduled-same : {s s' : Scheduler} → SameTrials s s' → IsScheduled s → IsScheduled s'
IsScheduled-same e h = record {
  distinct = rw e.next_ts h.distinct;
  keyed = rw (e.active, e.campaign) h.keyed;
  entry = rw (e.next_ts, e.active, e.settings) h.entry;
}

-- The tick queue and the next index are the same.
pub record SameQueue (s s' : Scheduler) : Type 0 where
  pub queue : s'.tick_queue ≡ s.tick_queue
  pub next_idx : s'.next_tick_idx ≡ s.next_tick_idx

pub IsTracked-same :
    (w : World) (s' : Scheduler)
    → SameQueue w.scheduler s'
    → IsTracked w
    → IsTracked (record w { scheduler = s' })
IsTracked-same w s' e h =
    tracked (record w { scheduler = s' }) (rw (e.queue, e.next_idx) (tracks w h))

pub SameQueue-interrupt : (s : Scheduler) → SameQueue s (interrupt true s)
unfolding interrupt
SameQueue-interrupt s = record { queue = refl; next_idx = refl }

pub SameTrials-interrupt : (s : Scheduler) → SameTrials s (interrupt true s)
unfolding interrupt
SameTrials-interrupt s = record { settings = refl; active = refl; campaign = refl; next_ts = refl }
