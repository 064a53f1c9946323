-- ===== src/Snapshot/Scheduler/Periodic/Visit.antt =====
-- The loop of `_due_periodic_snapshots` over the trials.
use mathlib.Core.Path.{subst}
use fuzzmeter.Prelude.{
  ℕ, ◌+◌, ◌≤◌, ◌<◌, ◌≡◌, refl, ◌⊎◌, inl, inr, Bool, true, Option, none, some, String, List, [], ◌∷◌,
  arith, Option-cases, Any,
}
use fuzzmeter.Prelude.Equality.{string_eq}
use fuzzmeter.Prelude.Sorting.{IsDistinct}
use fuzzmeter.Dict.{Dict, get, pop}
use fuzzmeter.Snapshot.Scheduler.State.{TrialInstance, Scheduler}
use fuzzmeter.Snapshot.Scheduler.Periodic.{DueByTs, collect_due, due_rounds, reschedule, visit}
use fuzzmeter.Snapshot.Scheduler.Periodic.Due.{
  is_due, Window, Advanced, collect_due_total, collect_due-IsDistinct, is_due-collect_due,
  collect_due-is_due,
}

-- What is scheduled for a trial after the call: none once the campaign leaves no time stamp.
abbrev pub Outcome : (every now end t : ℕ) → Option ℕ → Type 0
Outcome every now end t none = (t' : ℕ) × Advanced every now end t t' × (end ≤ t')
Outcome every now end t (some t') = Advanced every now end t t' × (t' < end)

-- The campaign's end for a trial.
abbrev pub campaign_end : Scheduler → TrialInstance → ℕ
campaign_end s trial = trial.start_ts + s.settings.campaign_seconds

-- An item of the schedule makes a trial that passes `p` due at `ts`.
abbrev pub MakesDue : Scheduler → ℕ → (TrialInstance → Bool) → ℕ → String × ℕ → Type 0
MakesDue s now p ts (key, t) =
    (trial : TrialInstance) × (get key s.active ≡ some trial)
    × (p trial ≡ true)
    × Window s.settings.every_seconds now (campaign_end s trial) t ts

module _ (s : Scheduler) (now : ℕ) (positive : 0 < s.settings.every_seconds) where
  abbrev pub every : ℕ
  every = s.settings.every_seconds

  -- A step on a trial that is no longer active, and on one that is.
  pub visit_gone :
      (key : String) (t : ℕ) (items : List (String × ℕ)) (next : Dict String ℕ) (due : DueByTs)
      → get key s.active ≡ none
      → visit s now ((key, t) ∷ items) next due ≡ visit s now items (pop key next) due
  unfolding visit
  visit_gone key t items next due e = rw (e, visit)

  -- The call of the inner loop for one trial, with its results.
  pub record Collected (trial : TrialInstance) (t : ℕ) (due : DueByTs) : Type 0 where
    pub t' : ℕ
    pub due' : DueByTs
    pub runs :
        collect_due (due_rounds now t) every now (campaign_end s trial) trial t due
        ≡ some (t', due')

  pub collected : (trial : TrialInstance) (t : ℕ) (due : DueByTs) → Collected trial t due
  collected trial t due =
      let (t', due', e) = collect_due_total every now (campaign_end s trial) trial positive t due in
      record { t' = t'; due' = due'; runs = e }

  pub visit_live :
      (key : String) (t : ℕ) (items : List (String × ℕ)) (next : Dict String ℕ) (due : DueByTs)
      (trial : TrialInstance) (c : Collected trial t due)
      → get key s.active ≡ some trial
      → visit s now ((key, t) ∷ items) next due
        ≡ visit s now items (reschedule key c.t' (campaign_end s trial) next) c.due'
  unfolding visit
  visit_live key t items next due trial c e = rw (e, visit) (rw c.runs)

  pub visit_total :
      (items : List (String × ℕ)) (next : Dict String ℕ) (due : DueByTs)
      → (next' : Dict String ℕ) × (due' : DueByTs) × (visit s now items next due
          ≡ some (next', due'))
  visit_total [] next due = unfold visit in (next, due, refl)
  visit_total ((key, t) ∷ items) next due = elim (Option-cases (get key s.active)) [
    | inl gone ↦ rw (visit_gone key t items next due gone) (visit_total items (pop key next) due)
    | inr (trial, live) ↦
        let c = collected trial t due in
        rw (visit_live key t items next due trial c live)
          (visit_total items (reschedule key c.t' (campaign_end s trial) next) c.due')
  ]

  pub visit-IsDistinct :
      (items : List (String × ℕ)) (next : Dict String ℕ) (due : DueByTs) {next' : Dict String ℕ}
      {due' : DueByTs}
      → visit s now items next due ≡ some (next', due')
      → IsDistinct (λ g. g.0) due
      → IsDistinct (λ g. g.0) due'
  visit-IsDistinct [] next due e d = unfold visit in ground arith
  visit-IsDistinct ((key, t) ∷ items) next due e d = elim (Option-cases (get key s.active)) [
    | inl gone ↦
        visit-IsDistinct items (pop key next) due (rw (visit_gone key t items next due gone) at e) d
    | inr (trial, live) ↦
        let c = collected trial t due in
        visit-IsDistinct items (reschedule key c.t' (campaign_end s trial) next) c.due'
          (rw (visit_live key t items next due trial c live) at e)
          (collect_due-IsDistinct every now (campaign_end s trial) trial positive (due_rounds now t)
            t due c.runs d)
  ]

  module _ (p : TrialInstance → Bool) (ts : ℕ) where
    pub visit-is_due :
        (items : List (String × ℕ)) (next : Dict String ℕ) (due : DueByTs) {next' : Dict String ℕ}
        {due' : DueByTs}
        → visit s now items next due ≡ some (next', due')
        → (is_due p ts due ≡ true) ⊎ Any (MakesDue s now p ts) items
        → is_due p ts due' ≡ true
    visit-is_due [] next due e (inl old) = unfold visit in ground arith
    visit-is_due [] next due e (inr h) = absurd h
    visit-is_due ((key, t) ∷ items) next due {next'} {due'} e d =
        elim (Option-cases (get key s.active)) [
          | inl gone ↦
              visit-is_due items (pop key next) due (rw (visit_gone key t items next due gone) at e)
                (skip gone d)
          | inr (trial, live) ↦
              let c = collected trial t due in
              visit-is_due items (reschedule key c.t' (campaign_end s trial) next) c.due'
                (rw (visit_live key t items next due trial c live) at e) (pass trial live c d)
        ]
      where
        skip :
            get key s.active ≡ none
            → (is_due p ts due ≡ true)
              ⊎ (MakesDue s now p ts (key, t) ⊎ Any (MakesDue s now p ts) items)
            → (is_due p ts due ≡ true) ⊎ Any (MakesDue s now p ts) items
        skip gone (inl old) = inl old
        skip gone (inr (inl (trial, live, chosen, w))) = cc
        skip gone (inr (inr h)) = inr h

        pass :
            (trial : TrialInstance)
            → get key s.active ≡ some trial
            → (c : Collected trial t due)
            → (is_due p ts due ≡ true)
              ⊎ (MakesDue s now p ts (key, t) ⊎ Any (MakesDue s now p ts) items)
            → (is_due p ts c.due' ≡ true) ⊎ Any (MakesDue s now p ts) items
        pass trial live c (inl old) = inl (
            collect_due-is_due every now (campaign_end s trial) trial positive p ts
              (due_rounds now t) t due c.runs (inl old))
        pass trial live c (inr (inl (other, found, chosen, w))) =
            let same : other ≡ trial = ground arith in
            inl (
              collect_due-is_due every now (campaign_end s trial) trial positive p ts
                (due_rounds now t) t due c.runs
                (inr (
                  subst (λ x. (p x ≡ true) × Window every now (campaign_end s x) t ts) same
                    (chosen, w))))
        pass trial live c (inr (inr h)) = inr h

    pub is_due-visit :
        (items : List (String × ℕ)) (next : Dict String ℕ) (due : DueByTs) {next' : Dict String ℕ}
        {due' : DueByTs}
        → visit s now items next due ≡ some (next', due')
        → is_due p ts due' ≡ true
        → (is_due p ts due ≡ true) ⊎ Any (MakesDue s now p ts) items
    is_due-visit [] next due e d = unfold visit in inl (ground arith)
    is_due-visit ((key, t) ∷ items) next due {next'} {due'} e d =
        elim (Option-cases (get key s.active)) [
          | inl gone ↦ widen (
              is_due-visit items (pop key next) due (rw (visit_gone key t items next due gone) at e)
                d)
          | inr (trial, live) ↦
              let c = collected trial t due in
              widen_live trial live c (
                is_due-visit items (reschedule key c.t' (campaign_end s trial) next) c.due'
                  (rw (visit_live key t items next due trial c live) at e) d)
        ]
      where
        widen :
            (is_due p ts due ≡ true) ⊎ Any (MakesDue s now p ts) items
            → (is_due p ts due ≡ true)
              ⊎ (MakesDue s now p ts (key, t) ⊎ Any (MakesDue s now p ts) items)
        widen (inl old) = inl old
        widen (inr h) = inr (inr h)

        widen_live :
            (trial : TrialInstance)
            → get key s.active ≡ some trial
            → (c : Collected trial t due)
            → (is_due p ts c.due' ≡ true) ⊎ Any (MakesDue s now p ts) items
            → (is_due p ts due ≡ true)
              ⊎ (MakesDue s now p ts (key, t) ⊎ Any (MakesDue s now p ts) items)
        widen_live trial live c (inr h) = inr (inr h)
        widen_live trial live c (inl new) =
            elim (is_due-collect_due every now (campaign_end s trial) trial positive p ts
              (due_rounds now t) t due c.runs new) [
                | inl old ↦ inl old
                | inr (chosen, w) ↦ inr (inl (trial, live, chosen, w))
              ]
