-- ===== src/Snapshot/Scheduler/Replay/Tests.antt =====
-- Runs of the replay's schedule, and the theorems on it at concrete inputs.
use fuzzmeter.Prelude.{
  ℕ, ◌≡◌, ◌↔◌, inl, refl, true, some, List, [], ◌∷◌, arith, nat_beq, Any, All, any,
}
use fuzzmeter.Prelude.Sorting.{sorted, IsIncreasing}
use fuzzmeter.Snapshot.Scheduler.State.Samples.{trial_a, trial_b}
use fuzzmeter.Snapshot.Scheduler.Replay.{
  ReplayTrial, add_ts, add_steps, add_trial, add_trials, build_tick_schedule, selected_trials,
}
use fuzzmeter.Snapshot.Scheduler.Replay.Adding.{listed}
use fuzzmeter.Snapshot.Scheduler.Replay.Ticks.{IsTick, build_tick_schedule_lem}
use fuzzmeter.Snapshot.Scheduler.Replay.Selection.{HasLength, ends_measured}

-- The second trial begins later, and neither ends on a step.
abbrev replayed : List ReplayTrial
replayed = (trial_a, 1250) ∷ (record trial_b { start_ts = 1100 }, 1230) ∷ []

schedule_100 : build_tick_schedule 100 replayed ≡ some (1100 ∷ 1200 ∷ 1230 ∷ 1250 ∷ [])
unfolding build_tick_schedule add_trials add_trial add_steps add_ts sorted
schedule_100 = refl

-- With no step only the ends are listed.
schedule_0 : build_tick_schedule 0 replayed ≡ some (1230 ∷ 1250 ∷ [])
unfolding build_tick_schedule add_trials add_trial add_steps add_ts sorted
schedule_0 = refl

-- At its end a trial is measured, and the one that ended before is not.
selected_1250 : selected_trials 1250 replayed ≡ (trial_a, 1250) ∷ []
unfolding selected_trials
selected_1250 = refl

build_tick_schedule_lem_example :
    (schedule : List ℕ) × (build_tick_schedule 100 replayed ≡ some schedule)
    × IsIncreasing (λ ts. ts) schedule
    × ((ts : ℕ) → (listed ts schedule ≡ true) ↔ Any (IsTick 100 ts) replayed)
build_tick_schedule_lem_example = build_tick_schedule_lem 100 replayed

replayed-HasLength : All HasLength replayed
replayed-HasLength = (omega arith, (omega arith, tt))

ends_measured_example :
    (listed 1250 (1100 ∷ 1200 ∷ 1230 ∷ 1250 ∷ []) ≡ true)
    × (any (λ t. nat_beq t.0.db_id 1) (selected_trials 1250 replayed) ≡ true)
ends_measured_example =
    ends_measured 100 replayed schedule_100 replayed-HasLength (λ t. nat_beq t.0.db_id 1)
      (trial_a, 1250) (inl refl) refl
