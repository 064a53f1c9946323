-- ===== src/Snapshot/Scheduler/Replay/Selection.antt =====
-- Which trials the ticks of a replay look at.
use mathlib.Core.Path.{subst}
use fuzzmeter.Prelude.{
  ℕ, ◌≤◌, ◌≡◌, inl, inr, Bool, true, ◌&&◌, some, List, [], ◌∷◌, arith, leb, Any, All, any,
  any-filter,
}
use fuzzmeter.Snapshot.Scheduler.Replay.{ReplayTrial, build_tick_schedule, selected_trials}
use fuzzmeter.Snapshot.Scheduler.Replay.Adding.{listed}
use fuzzmeter.Snapshot.Scheduler.Replay.Ticks.{IsTick, build_tick_schedule_lem}

-- The data of a trial does not end before it starts.
abbrev pub HasLength : ReplayTrial → Type 0
HasLength (trial, end_ts) = trial.start_ts ≤ end_ts

tick_covered :
    (every ts : ℕ) (trial : ReplayTrial)
    → HasLength trial
    → IsTick every ts trial
    → (leb trial.0.start_ts ts && leb ts trial.1) ≡ true
tick_covered every ts (trial, end_ts) h (inl (positive, (k, at, b))) = ground arith
tick_covered every ts (trial, end_ts) h (inr e) = ground arith

covered_selected :
    (every ts : ℕ) (trials : List ReplayTrial)
    → All HasLength trials
    → Any (IsTick every ts) trials
    → any (λ t. leb t.0.start_ts ts && leb ts t.1 && true) trials ≡ true
covered_selected every ts [] h a = absurd a
covered_selected every ts (trial ∷ trials) h (inl tick) =
    ground (arith, tick_covered every ts trial h.0 tick)
covered_selected every ts (trial ∷ trials) h (inr a) =
    ground (arith, covered_selected every ts trials h.1 a)

any_selected :
    (p : ReplayTrial → Bool) (trial : ReplayTrial) (trials : List ReplayTrial)
    → HasLength trial
    → p trial ≡ true
    → Any (λ t. t ≡ trial) trials
    → any p (selected_trials trial.1 trials) ≡ true
unfolding selected_trials
any_selected p trial trials h chosen a =
    rw (any-filter p (λ t. leb t.0.start_ts trial.1 && leb trial.1 t.1) trials) (among trials a)
  where
    among :
        (ts : List ReplayTrial)
        → Any (λ t. t ≡ trial) ts
        → any (λ t. (leb t.0.start_ts trial.1 && leb trial.1 t.1) && p t) ts ≡ true
    among [] a = absurd a
    among (t ∷ ts) (inl e) = rw e (ground arith)
    among (t ∷ ts) (inr a) = ground (arith, among ts a)

module _ (every : ℕ) (trials : List ReplayTrial) {schedule : List ℕ}
    (built : build_tick_schedule every trials ≡ some schedule)
    (lengths : All HasLength trials) where
  member :
      (ts : ℕ)
      → (listed ts schedule ≡ true → Any (IsTick every ts) trials)
        × (Any (IsTick every ts) trials → listed ts schedule ≡ true)
  member ts =
      let (schedule', runs, increasing, members) = build_tick_schedule_lem every trials in
      let same : schedule' ≡ schedule = ground arith in
      subst
        (λ (s : List ℕ).
          (listed ts s ≡ true → Any (IsTick every ts) trials)
          × (Any (IsTick every ts) trials → listed ts s ≡ true))
        same (members ts)

  -- No tick of a schedule looks at no trial, if no trial's data ends before it starts.
  pub no_empty_tick :
      (ts : ℕ) → listed ts schedule ≡ true → any (λ t. true) (selected_trials ts trials) ≡ true
  unfolding selected_trials
  no_empty_tick ts e =
      rw (any-filter (λ t. true) (λ t. leb t.0.start_ts ts && leb ts t.1) trials)
        (covered_selected every ts trials lengths ((member ts).0 e))

  -- If no trial's data ends before it starts, the end of each trial's data is a tick of the
  -- schedule, and that tick selects a trial that passes whatever test `p` the trial passes.
  pub ends_measured :
      (p : ReplayTrial → Bool) (trial : ReplayTrial)
      → Any (λ t. t ≡ trial) trials
      → p trial ≡ true
      → (listed trial.1 schedule ≡ true) × (any p (selected_trials trial.1 trials) ≡ true)
  ends_measured p trial a chosen = (
    (member trial.1).1 (end_ticks trials a lengths),
    any_selected p trial trials (long trials a lengths) chosen a,
  )
    where
      long : (ts : List ReplayTrial) → Any (λ t. t ≡ trial) ts → All HasLength ts → HasLength trial
      long [] a h = absurd a
      long (t ∷ ts) (inl e) h = subst HasLength e h.0
      long (t ∷ ts) (inr a) h = long ts a h.1

      end_ticks :
          (ts : List ReplayTrial)
          → Any (λ t. t ≡ trial) ts
          → All HasLength ts
          → Any (IsTick every trial.1) ts
      end_ticks [] a h = absurd a
      end_ticks (t ∷ ts) (inl e) h = inl (inr (rw e (ground (arith, subst HasLength e h.0))))
      end_ticks (t ∷ ts) (inr a) h = inr (end_ticks ts a h.1)
