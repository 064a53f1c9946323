-- ===== src/Snapshot/Scheduler/Periodic/Split.antt =====
-- Successive calls of `_due_periodic_snapshots` against one later call.
use fuzzmeter.Prelude.{ℕ, ◌≤◌, ◌<◌, ◌≡◌, ◌↔◌, ◌⊎◌, inl, inr, Bool, true, Option, some, arith}
use fuzzmeter.Snapshot.Scheduler.State.{TrialInstance, Scheduler}
use fuzzmeter.Snapshot.Scheduler.State.Invariant.{IsScheduled}
use fuzzmeter.Snapshot.Scheduler.Periodic.{DueByTs, due_periodic_snapshots}
use fuzzmeter.Snapshot.Scheduler.Periodic.Due.{is_due}
use fuzzmeter.Snapshot.Scheduler.Periodic.Laws.{DueAt, due_iff}
use fuzzmeter.Snapshot.Scheduler.Periodic.Calls.{
  settings_same, due-IsScheduled, DueAt-split, DueAt-first, DueAt-second,
}

-- A call at `now` and one at `now₂`, with nothing registered between, and the one call at `now₂`.
module _ (s : Scheduler) (now now₂ : ℕ) (positive : 0 < s.settings.every_seconds)
    {due₁ due₂ due : DueByTs} {n₁ n₂ n : Option ℕ} {s₁ s₂ s' : Scheduler}
    (first : due_periodic_snapshots now s ≡ some (due₁, n₁, s₁))
    (second : due_periodic_snapshots now₂ s₁ ≡ some (due₂, n₂, s₂))
    (whole : due_periodic_snapshots now₂ s ≡ some (due, n, s')) (later : now ≤ now₂)
    (h : IsScheduled s) where
  positive₁ : 0 < s₁.settings.every_seconds
  positive₁ = rw (settings_same s now positive first h) positive

  second_iff : (p : TrialInstance → Bool) (ts : ℕ) → (is_due p ts due₂ ≡ true) ↔ DueAt s₁ now₂ p ts
  second_iff = due_iff s₁ now₂ positive₁ second (due-IsScheduled s now positive first h)

  -- With a positive time step and a schedule in order, a call at `now`, the next at `now₂ ≥ now`
  -- on the state that the first leaves, and in their place one call at `now₂`: the two calls
  -- together find exactly what the one call finds, and no time stamp comes in both of them.
  pub due-split :
      (p : TrialInstance → Bool) (ts : ℕ)
      → ((is_due p ts due ≡ true) ↔ ((is_due p ts due₁ ≡ true) ⊎ (is_due p ts due₂ ≡ true)))
        × ((q : TrialInstance → Bool) → is_due p ts due₁ ≡ true → ¬ (is_due q ts due₂ ≡ true))
  due-split p ts = ((forth, back), apart)
    where
      forth : is_due p ts due ≡ true → (is_due p ts due₁ ≡ true) ⊎ (is_due p ts due₂ ≡ true)
      forth e =
          elim (DueAt-split s now positive first h now₂ later p ts
            ((due_iff s now₂ positive whole h p ts).0 e)) [
              | inl early ↦ inl ((due_iff s now positive first h p ts).1 early)
              | inr late ↦ inr ((second_iff p ts).1 late)
            ]

      back : (is_due p ts due₁ ≡ true) ⊎ (is_due p ts due₂ ≡ true) → is_due p ts due ≡ true
      back (inl e) = (due_iff s now₂ positive whole h p ts).1 (
          DueAt-first s now positive first h now₂ later p ts
            ((due_iff s now positive first h p ts).0 e))
      back (inr e) =
          (due_iff s now₂ positive whole h p ts).1
            (DueAt-second s now positive first h now₂ later p ts ((second_iff p ts).0 e)).0

      apart : (q : TrialInstance → Bool) → is_due p ts due₁ ≡ true → ¬ (is_due q ts due₂ ≡ true)
      apart q e e' =
          let (key, t, trial, listed, live, chosen, (k, at, a, b)) =
            (due_iff s now positive first h p ts).0 e in
          let late =
            (DueAt-second s now positive first h now₂ later q ts ((second_iff q ts).0 e')).1 in
          omega arith
