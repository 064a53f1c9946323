-- ===== src/Snapshot/Scheduler/Replay.antt =====
-- `ReplaySnapshotScheduler`: the schedule of a replay, and which trials each tick looks at.
pub mod Adding
pub mod Ticks
pub mod Selection
mod Tests
use mathlib.Core.Option
use fuzzmeter.Prelude.{
  ℕ, zero, suc, ◌+◌, ◌-◌, Bool, true, false, ◌&&◌, Option, none, some, List, [], ◌∷◌, max, ltb, leb,
  if◌then◌else◌, filter,
}
use fuzzmeter.Prelude.Equality.{nat_eq, string_eq, elem}
use fuzzmeter.Prelude.Sorting.{sorted}
use fuzzmeter.Dict.{values}
use fuzzmeter.Snapshot.Scheduler.State.{TrialInstance, Scheduler}

-- A replay trial with its `end_ts`.
abbrev pub ReplayTrial : Type 0
ReplayTrial = TrialInstance × ℕ

-- `isinstance(trial, ReplayTrialInstance)` keeps the trials with a fixed end.
replay_only : List TrialInstance → List ReplayTrial
replay_only [] = []
replay_only (trial ∷ trials) = elim trial.replay_end_ts [
  | none ↦ replay_only trials
  | some end_ts ↦ (trial, end_ts) ∷ replay_only trials
]

-- `_replay_trials`
pub replay_trials : Scheduler → List ReplayTrial
unfolding replay_only
replay_trials s = replay_only (values s.active)

-- `tick_ts.add(ts)` on a set of time stamps.
pub add_ts : ℕ → List ℕ → List ℕ
add_ts ts tick_ts = if elem ts tick_ts then tick_ts else ts ∷ tick_ts

-- The inner `while`. none where the rounds run out.
pub add_steps : (rounds every end next : ℕ) → List ℕ → Option (List ℕ)
add_steps zero every end next tick_ts = none
add_steps (suc rounds) every end next tick_ts = elim (ltb next end) [
  | true ↦ add_steps rounds every end (next + every) (add_ts next tick_ts)
  | false ↦ some tick_ts
]

-- The loop stands under `if self.every_seconds > 0`.
pub add_trial : ℕ → ReplayTrial → List ℕ → Option (List ℕ)
add_trial every (trial, end_ts) tick_ts =
    let start = trial.start_ts in
    let end = max end_ts start in
    elim (ltb 0 every) [
      | true ↦
          Option.map (add_ts end) (add_steps (suc end - start) every end (start + every) tick_ts)
      | false ↦ some (add_ts end tick_ts)
    ]

pub add_trials : ℕ → List ReplayTrial → List ℕ → Option (List ℕ)
add_trials every [] tick_ts = some tick_ts
add_trials every (trial ∷ trials) tick_ts = elim (add_trial every trial tick_ts) [
  | none ↦ none
  | some more ↦ add_trials every trials more
]

-- `_build_tick_schedule`
pub build_tick_schedule : ℕ → List ReplayTrial → Option (List ℕ)
build_tick_schedule every trials = Option.map (sorted (λ ts. ts)) (add_trials every trials [])

-- The trials that `run_loop` hands to a tick: those whose data covers the time stamp, and those
-- that have begun.
pub selected_trials : ℕ → List ReplayTrial → List ReplayTrial
selected_trials ts = filter (λ t. leb t.0.start_ts ts && leb ts t.1)

pub campaign_trials : ℕ → List ReplayTrial → List ReplayTrial
campaign_trials ts = filter (λ t. leb t.0.start_ts ts)
