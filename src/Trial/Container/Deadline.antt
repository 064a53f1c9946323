-- ===== src/Trial/Container/Deadline.antt =====
-- The wait for the deadline.
use mathlib.Core.Path.{subst}
use fuzzmeter.Prelude.{
  ℕ, zero, suc, ◌+◌, ◌≤◌, ◌≡◌, refl, sym, ◌∙◌, ◌⊎◌, inl, inr, true, false, ◌&&◌, Option, none, some,
  arith, ltb, Bool-cases, Option-cases,
}
use fuzzmeter.Trial.Container.{
  Raised, Round, MonitorCalls, wait_round, is_up, test_raises, end_of_wait, after_wait, deadline_of,
  monitor_until_deadline,
}

-- A round takes half a second at least.
abbrev pub Advances : MonitorCalls → Type 0
Advances calls =
    (calls.now ≤ (calls.rounds 0).now)
    × ((i : ℕ) → suc (calls.rounds i).now ≤ (calls.rounds (suc i)).now)

wait-ends :
    (fuel deadline : ℕ) (rounds : ℕ → Round) (i : ℕ)
    → ((j : ℕ) → suc (rounds j).now ≤ (rounds (suc j)).now)
    → deadline ≤ fuel + (rounds i).now
    → (k : ℕ) × (wait_round (suc fuel) deadline rounds i ≡ some k)
unfolding wait_round
wait-ends zero deadline rounds i adv enough = (i, ground arith)
wait-ends (suc fuel) deadline rounds i adv enough =
    let (k, ends) = wait-ends fuel deadline rounds (suc i) adv (omega (arith, adv i)) in
    elim (Bool-cases (ltb (rounds i).now deadline && is_up (rounds i).is_running)) [
      | inr stands ↦ (i, ground arith)
      | inl goes ↦ elim (Bool-cases (rounds i).stop_set) [
        | inl stops ↦ (i, ground arith)
        | inr on ↦ (k, ground (arith, ends))
      ]
    ]

-- Why the loop ended in a round.
wait-reason :
    (fuel deadline : ℕ) (rounds : ℕ → Round) (i k : ℕ)
    → wait_round fuel deadline rounds i ≡ some k
    → (deadline ≤ (rounds k).now)
      ⊎ ((is_up (rounds k).is_running ≡ false) ⊎ ((rounds k).stop_set ≡ true))
unfolding wait_round
wait-reason zero deadline rounds i k ends = cc
wait-reason (suc fuel) deadline rounds i k ends =
    elim (Bool-cases (ltb (rounds i).now deadline && is_up (rounds i).is_running)) [
      | inr stands ↦
          let here : i ≡ k = ground arith in
          subst
            (λ j.
              (deadline ≤ (rounds j).now)
              ⊎ ((is_up (rounds j).is_running ≡ false) ⊎ ((rounds j).stop_set ≡ true)))
            here
            (elim (Bool-cases (is_up (rounds i).is_running)) [
              | inl up ↦ inl (ground arith)
              | inr down ↦ inr (inl down)
            ])
      | inl goes ↦ elim (Bool-cases (rounds i).stop_set) [
        | inl stops ↦
            let here : i ≡ k = ground arith in
            inr (inr (subst (λ j. (rounds j).stop_set ≡ true) here stops))
        | inr on ↦ wait-reason fuel deadline rounds (suc i) k (ground arith)
      ]
    ]

-- The wait ends, whatever the calls answer.
pub monitor-ends :
    (trial_timeout : ℕ) (calls : MonitorCalls)
    → Advances calls
    → (verdict : Option Raised) × (monitor_until_deadline trial_timeout calls ≡ some verdict)
unfolding monitor_until_deadline
monitor-ends trial_timeout calls adv =
    let (k, ends) =
      wait-ends (trial_timeout + trial_timeout) (deadline_of trial_timeout calls) calls.rounds 0
        adv.1 (omega (arith, adv.0)) in
    (
      end_of_wait (deadline_of trial_timeout calls) (calls.rounds k) (calls.after k),
      rw (ends, monitor_until_deadline) refl,
    )

-- A wait that returns has read its last round.
pub monitor-returned :
    (trial_timeout : ℕ) (calls : MonitorCalls)
    → monitor_until_deadline trial_timeout calls ≡ some none
    → (i : ℕ) × (after_wait (deadline_of trial_timeout calls) (calls.after i) ≡ none)
unfolding monitor_until_deadline
monitor-returned trial_timeout calls h =
    elim (Option-cases (
      wait_round (suc (trial_timeout + trial_timeout)) (deadline_of trial_timeout calls)
        calls.rounds 0)) [
          | inl dry ↦ absurd (ground arith)
          | inr (i, last) ↦ (i, returned i (ground (arith, last)))
        ]
  where
    returned :
        (i : ℕ)
        → end_of_wait (deadline_of trial_timeout calls) (calls.rounds i) (calls.after i) ≡ none
        → after_wait (deadline_of trial_timeout calls) (calls.after i) ≡ none
    returned i q =
        elim (Option-cases (test_raises (deadline_of trial_timeout calls) (calls.rounds i))) [
          | inl quiet ↦ sym (rw (quiet, end_of_wait) refl) ∙ q
          | inr (error, loud) ↦ absurd (raised_none error (sym (rw (loud, end_of_wait) refl) ∙ q))
        ]
      where
        raised_none : (error : Raised) → some error ≡ none → ⊥
        raised_none error x = cc
