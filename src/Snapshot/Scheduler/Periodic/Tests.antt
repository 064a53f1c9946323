-- ===== src/Snapshot/Scheduler/Periodic/Tests.antt =====
-- Runs of `due_periodic_snapshots`, and the theorems on it at concrete inputs.
use fuzzmeter.Prelude.{
  ℕ, ◌≡◌, ◌<◌, ◌≤◌, ◌↔◌, ◌⊎◌, refl, Bool, true, Option, none, some, String, List, [], ◌∷◌, arith,
  nat_beq,
}
use fuzzmeter.Prelude.Sorting.{sorted, IsIncreasing}
use fuzzmeter.Prelude.Equality.{string_eq}
use fuzzmeter.Dict.{Dict, get}
use fuzzmeter.Snapshot.Scheduler.State.{TrialInstance, Scheduler, init, register}
use fuzzmeter.Snapshot.Scheduler.State.Invariant.{
  IsScheduled, init-IsScheduled, register-IsScheduled,
}
use fuzzmeter.Snapshot.Scheduler.State.Samples.{five_minutes, trial_a, trial_b, two_trials}
use fuzzmeter.Snapshot.Scheduler.Periodic.{
  DueByTs, due_periodic_snapshots, visit, collect_due, append_due, minimum,
}
use fuzzmeter.Snapshot.Scheduler.Periodic.Due.{is_due}
use fuzzmeter.Snapshot.Scheduler.Periodic.Laws.{
  DueAt, due_periodic_snapshots_total, due-IsIncreasing, due_iff,
}
use fuzzmeter.Snapshot.Scheduler.Periodic.Calls.{next_due_bounds}
use fuzzmeter.Snapshot.Scheduler.Periodic.Split.{due-split}

two_trials-IsScheduled : IsScheduled two_trials
two_trials-IsScheduled =
    register-IsScheduled trial_b _
      (register-IsScheduled trial_a _ (init-IsScheduled five_minutes none 990))

abbrev both : List TrialInstance
both = trial_a ∷ trial_b ∷ []

-- Polled in time, and late.
abbrev polled : Dict String ℕ → Scheduler
polled next = record two_trials { next_periodic_ts = next }

abbrev waiting : Scheduler
waiting = polled (("a", 1200) ∷ ("b", 1200) ∷ [])

poll_1150 : due_periodic_snapshots 1150 two_trials ≡ some ((1100, both) ∷ [], some 1200, waiting)
unfolding due_periodic_snapshots visit collect_due append_due minimum register init sorted
poll_1150 = refl

poll_again : due_periodic_snapshots 1250 waiting ≡ some ((1200, both) ∷ [], none, polled [])
unfolding due_periodic_snapshots visit collect_due append_due minimum register init sorted
poll_again = refl

poll_1250 :
    due_periodic_snapshots 1250 two_trials
    ≡ some ((1100, both) ∷ (1200, both) ∷ [], none, polled [])
unfolding due_periodic_snapshots visit collect_due append_due minimum register init sorted
poll_1250 = refl

every_100 : 0 < two_trials.settings.every_seconds
unfolding register init
every_100 = omega arith

abbrev is_a : TrialInstance → Bool
is_a trial = nat_beq trial.db_id 1

due_periodic_snapshots_total_example :
    (due : DueByTs) × (next_due : Option ℕ) × (s' : Scheduler) × (due_periodic_snapshots 1250
        two_trials
      ≡ some (due, next_due, s'))
due_periodic_snapshots_total_example = due_periodic_snapshots_total two_trials 1250 every_100

due-IsIncreasing_example :
    IsIncreasing (λ (g : ℕ × List TrialInstance). g.0) ((1100, both) ∷ (1200, both) ∷ [])
due-IsIncreasing_example = due-IsIncreasing two_trials 1250 every_100 poll_1250

due_iff_example :
    (is_due is_a 1200 ((1100, both) ∷ (1200, both) ∷ []) ≡ true) ↔ DueAt two_trials 1250 is_a 1200
due_iff_example = due_iff two_trials 1250 every_100 poll_1250 two_trials-IsScheduled is_a 1200

abbrev next_1200 : Option ℕ
next_1200 = some 1200

next_due_bounds_example :
    (next_1200 ≡ none → (key : String) → get key waiting.next_periodic_ts ≡ none)
    × ((m : ℕ)
        → next_1200 ≡ some m
        → (1150 < m)
          × ((key : String) (t' : ℕ) → get key waiting.next_periodic_ts ≡ some t' → m ≤ t'))
next_due_bounds_example = next_due_bounds two_trials 1150 every_100 poll_1150 two_trials-IsScheduled

due-split_example :
    ((is_due is_a 1200 ((1100, both) ∷ (1200, both) ∷ []) ≡ true) ↔ (
      (is_due is_a 1200 ((1100, both) ∷ []) ≡ true)
      ⊎ (is_due is_a 1200 ((1200, both) ∷ []) ≡ true)))
    × ((q : TrialInstance → Bool)
        → is_due is_a 1200 ((1100, both) ∷ []) ≡ true
        → ¬ (is_due q 1200 ((1200, both) ∷ []) ≡ true))
due-split_example =
    due-split two_trials 1150 1250 every_100 poll_1150 poll_again poll_1250 (omega arith)
      two_trials-IsScheduled is_a 1200
