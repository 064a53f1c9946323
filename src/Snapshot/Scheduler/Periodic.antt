-- ===== src/Snapshot/Scheduler/Periodic.antt =====
-- `_due_periodic_snapshots`: which periodic snapshots have come due, and when the next one will.
pub mod Due
pub mod Visit
pub mod Schedule
pub mod Minimum
pub mod Laws
pub mod Calls
pub mod Split
mod Tests
use fuzzmeter.Prelude.{
  ℕ, zero, suc, ◌+◌, ◌-◌, ◌&&◌, ◌<◌, Bool, true, false, Option, none, some, String, List, [], ◌∷◌,
  ◌++◌, ltb, leb, if◌then◌else◌,
}
use fuzzmeter.Prelude.Equality.{nat_eq, string_eq}
use fuzzmeter.Prelude.Sorting.{sorted}
use fuzzmeter.Dict.{Dict, get, put, pop, values}
use fuzzmeter.Snapshot.Scheduler.State.{TrialInstance, Settings, Scheduler}

-- The trials of each due time stamp.
abbrev pub DueByTs : Type 0
DueByTs = Dict ℕ (List TrialInstance)

-- `due_by_ts.setdefault(ts, []).append(trial)`
pub append_due : ℕ → TrialInstance → DueByTs → DueByTs
append_due ts trial [] = (ts, trial ∷ []) ∷ []
append_due ts trial ((j, trials) ∷ due) = elim (nat_eq.beq j ts) [
  | true ↦ (j, trials ++ trial ∷ []) ∷ due
  | false ↦ (j, trials) ∷ append_due ts trial due
]

-- The inner `while`: the due time stamps of one trial. none where the rounds run out.
pub collect_due : (rounds every now end : ℕ) → TrialInstance → ℕ → DueByTs → Option (ℕ × DueByTs)
collect_due zero every now end trial next due = none
collect_due (suc rounds) every now end trial next due = elim (leb next now && ltb next end) [
  | true ↦ collect_due rounds every now end trial (next + every) (append_due next trial due)
  | false ↦ some (next, due)
]

-- A round adds a second at least, so these are enough.
abbrev pub due_rounds : ℕ → ℕ → ℕ
due_rounds now next = suc (suc now - next)

-- A trial is looked at again before its campaign ends, and not after.
abbrev pub reschedule : String → ℕ → ℕ → Dict String ℕ → Dict String ℕ
reschedule trial_key next_ts end next =
    if ltb next_ts end then put trial_key next_ts next else pop trial_key next

-- The `for` over the items of `_next_periodic_ts`, as they were when it began.
pub visit :
    Scheduler → ℕ → List (String × ℕ) → Dict String ℕ → DueByTs → Option (Dict String ℕ × DueByTs)
visit s now [] next due = some (next, due)
visit s now ((trial_key, scheduled_ts) ∷ items) next due = elim (get trial_key s.active) [
  | none ↦ visit s now items (pop trial_key next) due
  | some trial ↦
      elim (collect_due (due_rounds now scheduled_ts) s.settings.every_seconds now
        (trial.start_ts + s.settings.campaign_seconds) trial scheduled_ts due) [
          | none ↦ none
          | some (next_ts, due') ↦
              visit s now items
                (reschedule trial_key next_ts (trial.start_ts + s.settings.campaign_seconds) next)
                due'
        ]
]

-- `min(values)`, none for no value.
pub minimum : List ℕ → Option ℕ
minimum [] = none
minimum (x ∷ xs) = elim (minimum xs) [ none ↦ some x | some m ↦ some (if ltb m x then m else x) ]

-- The due snapshots in the order of time, the next due time stamp, and the new state.
pub due_periodic_snapshots : ℕ → Scheduler → Option (DueByTs × Option ℕ × Scheduler)
unfolding visit
due_periodic_snapshots now s = elim (visit s now s.next_periodic_ts s.next_periodic_ts []) [
  | none ↦ none
  | some (next, due) ↦
      some (sorted (λ g. g.0) due, minimum (values next), record s { next_periodic_ts = next })
]
