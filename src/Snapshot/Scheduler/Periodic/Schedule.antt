-- ===== src/Snapshot/Scheduler/Periodic/Schedule.antt =====
-- What the loop of `_due_periodic_snapshots` leaves scheduled for each trial.
use mathlib.Core.Path.{subst}
use fuzzmeter.Prelude.{
  ℕ, ◌<◌, ◌≡◌, refl, ◌∙◌, inl, inr, Bool, true, false, none, some, String, List, [], ◌∷◌, arith,
  ltb, Bool-cases, Option-cases, if◌then◌else◌,
}
use fuzzmeter.Prelude.Equality.{◌==◌, string_eq, beq_refl}
use fuzzmeter.Dict.{Dict, get, pop, contains, IsDict, get-put, get-pop, put-IsDict, pop-IsDict}
use fuzzmeter.Snapshot.Scheduler.State.{TrialInstance, Scheduler}
use fuzzmeter.Snapshot.Scheduler.Periodic.{DueByTs, due_rounds, reschedule, visit}
use fuzzmeter.Snapshot.Scheduler.Periodic.Due.{Advanced, collect_due-Advanced}
use fuzzmeter.Snapshot.Scheduler.Periodic.Visit.{
  Outcome, campaign_end, Collected, collected, visit_gone, visit_live,
}

get-reschedule :
    (key j : String) (t end : ℕ) (next : Dict String ℕ)
    → get j (reschedule key t end next)
      ≡ (if key == j then (if ltb t end then some t else none) else get j next)
get-reschedule key j t end next = ground (arith, get-put key j t next, get-pop key j next)

reschedule-IsDict :
    (key : String) (t end : ℕ) (next : Dict String ℕ)
    → IsDict next
    → IsDict (reschedule key t end next)
reschedule-IsDict key t end next h = ground (arith, put-IsDict key t next h, pop-IsDict key next h)

module _ (s : Scheduler) (now : ℕ) (positive : 0 < s.settings.every_seconds) where
  get-visit_other :
      (j : String) (items : List (String × ℕ)) (next : Dict String ℕ) (due : DueByTs)
      {next' : Dict String ℕ} {due' : DueByTs}
      → visit s now items next due ≡ some (next', due')
      → contains j items ≡ false
      → get j next' ≡ get j next
  get-visit_other j [] next due e h = unfold visit in ground arith
  get-visit_other j ((key, t) ∷ items) next due {next'} {due'} e h =
      elim (Option-cases (get key s.active)) [
        | inl gone ↦
            get-visit_other j items (pop key next) due
              (rw (visit_gone s now positive key t items next due gone) at e) (ground arith)
            ∙ ground (arith, get-pop key j next, string_eq.beq_iff key j, string_eq.beq_iff j key)
        | inr (trial, live) ↦
            let c = collected s now positive trial t due in
            get-visit_other j items (reschedule key c.t' (campaign_end s trial) next) c.due'
              (rw (visit_live s now positive key t items next due trial c live) at e) (ground arith)
            ∙ ground (
              arith,
              get-reschedule key j c.t' (campaign_end s trial) next,
              string_eq.beq_iff key j,
              string_eq.beq_iff j key,
            )
      ]

  pub visit-IsDict :
      (items : List (String × ℕ)) (next : Dict String ℕ) (due : DueByTs) {next' : Dict String ℕ}
      {due' : DueByTs}
      → visit s now items next due ≡ some (next', due')
      → IsDict next
      → IsDict next'
  visit-IsDict [] next due e d = unfold visit in ground arith
  visit-IsDict ((key, t) ∷ items) next due e d = elim (Option-cases (get key s.active)) [
    | inl gone ↦
        visit-IsDict items (pop key next) due
          (rw (visit_gone s now positive key t items next due gone) at e) (pop-IsDict key next d)
    | inr (trial, live) ↦
        let c = collected s now positive trial t due in
        visit-IsDict items (reschedule key c.t' (campaign_end s trial) next) c.due'
          (rw (visit_live s now positive key t items next due trial c live) at e)
          (reschedule-IsDict key c.t' (campaign_end s trial) next d)
  ]

  -- The entry of the trial that is visited first.
  first_outcome :
      (key : String) (next : Dict String ℕ) (trial : TrialInstance) (t : ℕ) (due : DueByTs)
      (c : Collected s now positive trial t due)
      → Outcome s.settings.every_seconds now
          (campaign_end s trial)
          t
          (get key (reschedule key c.t' (campaign_end s trial) next))
  first_outcome key next trial t due c =
      rw (get-reschedule key key c.t' (campaign_end s trial) next, beq_refl key) (split _ refl)
    where
      advanced : Advanced s.settings.every_seconds now (campaign_end s trial) t c.t'
      advanced =
          collect_due-Advanced s.settings.every_seconds now (campaign_end s trial) trial positive
            (due_rounds now t) t due c.runs

      split :
          (b : Bool)
          → ltb c.t' (campaign_end s trial) ≡ b
          → Outcome s.settings.every_seconds now
              (campaign_end s trial)
              t
              (if b then some c.t' else none)
      split true e = (advanced, ground arith)
      split false e = (c.t', advanced, ground arith)

  -- The trial of the first item, which no later item names again.
  get-visit_first :
      (key : String) (t : ℕ) (items : List (String × ℕ)) (next : Dict String ℕ) (due : DueByTs)
      {next' : Dict String ℕ} {due' : DueByTs} (trial : TrialInstance)
      → visit s now ((key, t) ∷ items) next due ≡ some (next', due')
      → contains key items ≡ false
      → get key s.active ≡ some trial
      → Outcome s.settings.every_seconds now (campaign_end s trial) t (get key next')
  get-visit_first key t items next due trial e once live =
      let c = collected s now positive trial t due in
      rw
        (get-visit_other key items (reschedule key c.t' (campaign_end s trial) next) c.due'
          (rw (visit_live s now positive key t items next due trial c live) at e) once)
        (first_outcome key next trial t due c)

  -- What a later item has to do with an earlier one: nothing.
  get-visit_rest :
      (key : String) (t : ℕ) (items : List (String × ℕ)) (next : Dict String ℕ) (due : DueByTs)
      {next' : Dict String ℕ} {due' : DueByTs}
      → visit s now ((key, t) ∷ items) next due ≡ some (next', due')
      → (next₁ : Dict String ℕ) × (due₁ : DueByTs) × (visit s now items next₁ due₁
          ≡ some (next', due'))
  get-visit_rest key t items next due e = elim (Option-cases (get key s.active)) [
    | inl gone ↦ (pop key next, due, rw (visit_gone s now positive key t items next due gone) at e)
    | inr (trial, live) ↦
        let c = collected s now positive trial t due in
        (
          reschedule key c.t' (campaign_end s trial) next,
          c.due',
          rw (visit_live s now positive key t items next due trial c live) at e,
        )
  ]

  pub get-visit_live :
      (j : String) (items : List (String × ℕ)) (next : Dict String ℕ) (due : DueByTs)
      {next' : Dict String ℕ} {due' : DueByTs} (t : ℕ) (trial : TrialInstance)
      → visit s now items next due ≡ some (next', due')
      → IsDict items
      → get j items ≡ some t
      → get j s.active ≡ some trial
      → Outcome s.settings.every_seconds now (campaign_end s trial) t (get j next')
  get-visit_live j [] next due t trial e d found live = cc
  get-visit_live j ((key, t₀) ∷ items) next due {next'} {due'} t trial e d found live =
      elim (Bool-cases (key == j)) [
        | inl same ↦
            let eq : key ≡ j = (string_eq.beq_iff key j).0 same in
            let eq_t : t₀ ≡ t = ground arith in
            subst (λ u. Outcome s.settings.every_seconds now (campaign_end s trial) u (get j next'))
              eq_t
              (subst
                (λ x.
                  get x s.active ≡ some trial
                  → Outcome s.settings.every_seconds now (campaign_end s trial) t₀ (get x next'))
                eq (get-visit_first key t₀ items next due trial e d.0) live)
        | inr other ↦
            let (next₁, due₁, e₁) = get-visit_rest key t₀ items next due e in
            get-visit_live j items next₁ due₁ t trial e₁ d.1 (rw other at found) live
      ]

  pub get-visit_unlisted :
      (j : String) (items : List (String × ℕ)) (next : Dict String ℕ) (due : DueByTs)
      {next' : Dict String ℕ} {due' : DueByTs}
      → visit s now items next due ≡ some (next', due')
      → get j items ≡ none
      → get j next ≡ none
      → get j next' ≡ none
  get-visit_unlisted j [] next due e a b = unfold visit in ground arith
  get-visit_unlisted j ((key, t) ∷ items) next due e a b = elim (Option-cases (get key s.active)) [
    | inl gone ↦
        get-visit_unlisted j items (pop key next) due
          (rw (visit_gone s now positive key t items next due gone) at e) (ground arith)
          (ground (arith, get-pop key j next))
    | inr (trial, live) ↦
        let c = collected s now positive trial t due in
        get-visit_unlisted j items (reschedule key c.t' (campaign_end s trial) next) c.due'
          (rw (visit_live s now positive key t items next due trial c live) at e) (ground arith)
          (ground (arith, get-reschedule key j c.t' (campaign_end s trial) next))
  ]
