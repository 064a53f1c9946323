-- ===== src/Snapshot/Scheduler/Replay/Ticks.antt =====
-- Which time stamps `_build_tick_schedule` lists.
use fuzzmeter.Prelude.{
  ℕ, suc, ◌+◌, ◌-◌, ◌<◌, ◌≡◌, refl, ◌↔◌, ◌⊎◌, inl, inr, Bool, true, false, some, List, [], ◌∷◌,
  arith, max, ltb, Bool-cases, Any,
}
use fuzzmeter.Prelude.Equality.{nat_eq}
use fuzzmeter.Prelude.Sorting.{sorted, IsIncreasing, any-sorted, sorted-IsIncreasing}
use fuzzmeter.Snapshot.Scheduler.Replay.{
  ReplayTrial, add_ts, add_trial, add_trials, build_tick_schedule,
}
use fuzzmeter.Snapshot.Scheduler.Replay.Adding.{
  StepBefore, listed, Adds, add_steps-Adds, add_end-Adds,
}

-- The end of a trial's data, not before its start.
abbrev pub replay_end : ReplayTrial → ℕ
replay_end (trial, end_ts) = max end_ts trial.start_ts

-- `ts` is a whole number of steps, not 0, after the start and before the end, or is the end.
abbrev pub IsTick : ℕ → ℕ → ReplayTrial → Type 0
IsTick every ts trial =
    ((0 < every) × StepBefore every (replay_end trial) (trial.0.start_ts + every) ts)
    ⊎ (ts ≡ replay_end trial)

add_trial-Adds :
    (every : ℕ) (trial : ReplayTrial) (before : List ℕ)
    → (after : List ℕ) × (add_trial every trial before ≡ some after)
      × Adds before after (λ ts. IsTick every ts trial)
unfolding add_trial
add_trial-Adds every (trial, end_ts) before = elim (Bool-cases (ltb 0 every)) [
  | inl positive ↦
      let (after, runs, adds) =
        add_steps-Adds (suc end - trial.start_ts) every end (trial.start_ts + every) before
          (ground arith) (ground arith) in
      (
        add_ts end after,
        rw (positive, add_trial) (rw runs),
        add_end-Adds end before after _ _ adds (λ ts. (stepping ts positive, unstep ts)),
      )
  | inr still ↦ (
    add_ts end before,
    rw (still, add_trial),
    add_end-Adds end before before (λ ts. ⊥) _ none_added (λ ts. (ending ts, end_only ts still)),
  )
]
  where
    end : ℕ
    end = max end_ts trial.start_ts

    Steps : ℕ → Type 0
    Steps ts = StepBefore every end (trial.start_ts + every) ts

    stepping :
        (ts : ℕ) → ltb 0 every ≡ true → Steps ts ⊎ (ts ≡ end) → IsTick every ts (trial, end_ts)
    stepping ts positive (inl w) = inl (ground arith, w)
    stepping ts positive (inr e) = inr e

    unstep : (ts : ℕ) → IsTick every ts (trial, end_ts) → Steps ts ⊎ (ts ≡ end)
    unstep ts (inl (positive, w)) = inl w
    unstep ts (inr e) = inr e

    none_added : Adds before before (λ ts. ⊥)
    none_added = record { member = λ ts. (inl, λ h. old ts h); distinct = λ d. d }
      where
        old : (ts : ℕ) → (listed ts before ≡ true) ⊎ ⊥ → listed ts before ≡ true
        old ts (inl h) = h
        old ts (inr h) = absurd h

    ending : (ts : ℕ) → ⊥ ⊎ (ts ≡ end) → IsTick every ts (trial, end_ts)
    ending ts (inl h) = absurd h
    ending ts (inr e) = inr e

    end_only : (ts : ℕ) → ltb 0 every ≡ false → IsTick every ts (trial, end_ts) → ⊥ ⊎ (ts ≡ end)
    end_only ts still (inl (positive, w)) = absurd (ground arith)
    end_only ts still (inr e) = inr e

add_trials-Adds :
    (every : ℕ) (trials : List ReplayTrial) (before : List ℕ)
    → (after : List ℕ) × (add_trials every trials before ≡ some after)
      × Adds before after (λ ts. Any (IsTick every ts) trials)
unfolding add_trials
add_trials-Adds every [] before =
    (before, refl, record { member = λ ts. (inl, λ h. old ts h); distinct = λ d. d })
  where
    old : (ts : ℕ) → (listed ts before ≡ true) ⊎ ⊥ → listed ts before ≡ true
    old ts (inl h) = h
    old ts (inr h) = absurd h
add_trials-Adds every (trial ∷ trials) before =
    let (middle, runs₁, adds₁) = add_trial-Adds every trial before in
    let (after, runs₂, adds₂) = add_trials-Adds every trials middle in
    (
      after,
      rw (runs₁, add_trials) runs₂,
      record {
        member = λ ts. (forth ts adds₁ adds₂, back ts adds₁ adds₂);
        distinct = λ d. adds₂.distinct (adds₁.distinct d);
      },
    )
  where
    Both : ℕ → Type 0
    Both ts = IsTick every ts trial ⊎ Any (IsTick every ts) trials

    forth :
        {middle after : List ℕ} (ts : ℕ)
        → Adds before middle (λ ts. IsTick every ts trial)
        → Adds middle after (λ ts. Any (IsTick every ts) trials)
        → listed ts after ≡ true
        → (listed ts before ≡ true) ⊎ Both ts
    forth ts a b e = elim ((b.member ts).0 e) [
      | inl m ↦ elim ((a.member ts).0 m) [ inl old ↦ inl old | inr h ↦ inr (inl h) ]
      | inr h ↦ inr (inr h)
    ]

    back :
        {middle after : List ℕ} (ts : ℕ)
        → Adds before middle (λ ts. IsTick every ts trial)
        → Adds middle after (λ ts. Any (IsTick every ts) trials)
        → (listed ts before ≡ true) ⊎ Both ts
        → listed ts after ≡ true
    back ts a b (inl old) = (b.member ts).1 (inl ((a.member ts).1 (inl old)))
    back ts a b (inr (inl h)) = (b.member ts).1 (inl ((a.member ts).1 (inr h)))
    back ts a b (inr (inr h)) = (b.member ts).1 (inr h)

-- The schedule exists, its time stamps are strictly increasing, and it lists exactly the ends of
-- the trials' data and, for a positive step, the whole steps after each start that come before
-- the end. An end before the start counts as the start.
pub build_tick_schedule_lem :
    (every : ℕ) (trials : List ReplayTrial)
    → (schedule : List ℕ) × (build_tick_schedule every trials ≡ some schedule)
      × IsIncreasing (λ ts. ts) schedule
      × ((ts : ℕ) → (listed ts schedule ≡ true) ↔ Any (IsTick every ts) trials)
unfolding build_tick_schedule
build_tick_schedule_lem every trials =
    let (tick_ts, runs, adds) = add_trials-Adds every trials [] in
    (
      sorted (λ ts. ts) tick_ts,
      rw runs,
      sorted-IsIncreasing (λ ts. ts) tick_ts (adds.distinct tt),
      λ ts. rw any-sorted (from_nothing ts (adds.member ts)),
    )
  where
    from_nothing :
        {b : Bool} (ts : ℕ)
        → (b ≡ true) ↔ ((false ≡ true) ⊎ Any (IsTick every ts) trials)
        → (b ≡ true) ↔ Any (IsTick every ts) trials
    from_nothing ts (forth, back) =
        (λ e. elim (forth e) [ inl h ↦ cc | inr a ↦ a ], λ a. back (inr a))
