-- ===== src/Snapshot/Scheduler/Periodic/Calls.antt =====
-- The schedule after a call of `_due_periodic_snapshots`, and successive calls.
use mathlib.Core.Path.{subst}
use native.Mathlib.Decide.{dec_le}
use fuzzmeter.Prelude.{
  ap, ◌-◌, ℕ, suc, ◌+◌, ◌*◌, ◌≤◌, ◌<◌, ◌≡◌, refl, ◌⊎◌, inl, inr, Bool, Option, none, some, String,
  [], arith, Option-cases,
}
use fuzzmeter.Prelude.Equality.{string_eq}
use fuzzmeter.Dict.{get, values}
use fuzzmeter.Snapshot.Scheduler.State.{TrialInstance, Scheduler}
use fuzzmeter.Snapshot.Scheduler.State.Invariant.{IsNext, IsScheduled}
use fuzzmeter.Snapshot.Scheduler.Periodic.{DueByTs, minimum, due_periodic_snapshots}
use fuzzmeter.Snapshot.Scheduler.Periodic.Due.{Window, Advanced}
use fuzzmeter.Snapshot.Scheduler.Periodic.Visit.{Outcome, campaign_end}
use fuzzmeter.Snapshot.Scheduler.Periodic.Schedule.{
  visit-IsDict, get-visit_live, get-visit_unlisted,
}
use fuzzmeter.Snapshot.Scheduler.Periodic.Minimum.{
  get-minimum-none, get-minimum_le, minimum_attained,
}
use fuzzmeter.Snapshot.Scheduler.Periodic.Laws.{DueAt, Called, called}

-- A time stamp that comes after `now` is still ahead after the call.
Window-later :
    (every now now₂ end t t' ts : ℕ)
    → Advanced every now end t t'
    → now < ts
    → Window every now₂ end t ts
    → Window every now₂ end t' ts
Window-later every now now₂ end t t' ts (n, step, lo, hi) late (k, at, a, b) = elim (dec_le n k) [
  | yes past ↦ (k - n, shifted past, a, b)
  | no behind ↦ absurd (missed (omega arith) lo)
]
  where
    shifted : n ≤ k → ts ≡ t' + (k - n) * every
    shifted past =
        let whole : k ≡ n + (k - n) = omega arith in omega (arith, ap (λ (x : ℕ). x * every) whole)

    missed : suc k ≤ n → (n ≡ 0) ⊎ (t' ≤ now + every) → ⊥
    missed few (inl zero_steps) = omega arith
    missed few (inr near) = let scaled : suc k * every ≤ n * every = grind arith in omega arith

module _ (s : Scheduler) (now : ℕ) (positive : 0 < s.settings.every_seconds) {due : DueByTs}
    {next_due : Option ℕ} {s' : Scheduler}
    (call : due_periodic_snapshots now s ≡ some (due, next_due, s')) (h : IsScheduled s) where
  c : Called s now due next_due s'
  c = called s now positive call

  active_same : s'.active ≡ s.active
  active_same = rw c.state_eq

  pub settings_same : s'.settings ≡ s.settings
  settings_same = rw c.state_eq

  next_same : s'.next_periodic_ts ≡ c.next
  next_same = rw c.state_eq

  -- Of a trial that was scheduled.
  outcome :
      (key : String) (t : ℕ) (trial : TrialInstance)
      → get key s.next_periodic_ts ≡ some t
      → get key s.active ≡ some trial
      → Outcome s.settings.every_seconds now (campaign_end s trial) t (get key c.next)
  outcome key t trial listed live =
      get-visit_live s now positive key s.next_periodic_ts s.next_periodic_ts [] t trial c.runs
        h.distinct listed live

  unlisted : (key : String) → get key s.next_periodic_ts ≡ none → get key c.next ≡ none
  unlisted key e =
      get-visit_unlisted s now positive key s.next_periodic_ts s.next_periodic_ts [] c.runs e e

  -- What an entry after the call says of the entry before it.
  record Moved (key : String) (t' : ℕ) : Type 0 where
    t : ℕ
    trial : TrialInstance
    listed : get key s.next_periodic_ts ≡ some t
    live : get key s.active ≡ some trial
    advanced : Advanced s.settings.every_seconds now (campaign_end s trial) t t'
    inside : t' < campaign_end s trial
    was_next : IsNext s.settings (some trial) t

  moved : (key : String) (t' : ℕ) → get key c.next ≡ some t' → Moved key t'
  moved key t' e = elim (Option-cases (get key s.next_periodic_ts)) [
    | inl absent ↦ absurd (clash (unlisted key absent) e)
    | inr (t, listed) ↦ elim (Option-cases (get key s.active)) [
      | inl gone ↦ absurd (subst (λ a. IsNext s.settings a t) gone (h.entry key t listed))
      | inr (trial, live) ↦
          let o : Outcome s.settings.every_seconds now (campaign_end s trial) t (some t') =
            rw e at (outcome key t trial listed live) in
          record {
            t = t;
            trial = trial;
            listed = listed;
            live = live;
            advanced = o.0;
            inside = o.1;
            was_next = subst (λ a. IsNext s.settings a t) live (h.entry key t listed);
          }
    ]
  ]
    where
      clash : get key c.next ≡ none → get key c.next ≡ some t' → ⊥
      clash a b = cc

  still_next :
      (key : String) (t' : ℕ) → get key c.next ≡ some t' → IsNext s.settings (get key s.active) t'
  still_next key t' e =
      let m = moved key t' e in
      let (k, at, before) = m.was_next in
      let (n, step, lo, hi) = m.advanced in rw m.live (k + n, omega arith, m.inside)

  -- With a positive time step the call keeps a schedule in order: no key twice, each active trial
  -- under its own key and known to the campaign, and only active trials scheduled, each a whole
  -- number of steps after its start and before its campaign's end.
  pub due-IsScheduled : IsScheduled s'
  due-IsScheduled = rw c.state_eq (record {
    distinct =
        visit-IsDict s now positive s.next_periodic_ts s.next_periodic_ts [] c.runs h.distinct;
    keyed = h.keyed;
    entry = still_next;
  })

  -- Whatever is still scheduled lies in the future.
  pub next-lt : (key : String) (t' : ℕ) → get key s'.next_periodic_ts ≡ some t' → now < t'
  next-lt key t' e =
      let m = moved key t' (rw next_same at e) in
      let (n, step, lo, hi) = m.advanced in let inside = m.inside in ground arith

  -- With a positive time step and a schedule in order, the time stamp for the next wait is none
  -- only if nothing is scheduled after the call, and else lies in the future and not after
  -- anything that is scheduled.
  pub next_due_bounds :
      (next_due ≡ none → (key : String) → get key s'.next_periodic_ts ≡ none)
      × ((m : ℕ)
          → next_due ≡ some m
          → (now < m) × ((key : String) (t' : ℕ) → get key s'.next_periodic_ts ≡ some t' → m ≤ t'))
  next_due_bounds = (idle, waiting)
    where
      idle : next_due ≡ none → (key : String) → get key s'.next_periodic_ts ≡ none
      idle e key = rw next_same (get-minimum-none key c.next (rw c.next_due_eq at e))

      waiting :
          (m : ℕ)
          → next_due ≡ some m
          → (now < m) × ((key : String) (t' : ℕ) → get key s'.next_periodic_ts ≡ some t' → m ≤ t')
      waiting m e =
          let found : minimum (values c.next) ≡ some m = rw c.next_due_eq at e in
          let (key, at) =
            minimum_attained c.next
              (visit-IsDict s now positive s.next_periodic_ts s.next_periodic_ts [] c.runs
                h.distinct)
              m found in
          (
            next-lt key m (rw next_same at),
            λ j t' listed. get-minimum_le j c.next m t' found (rw next_same at listed),
          )

  -- Before and after: the trials that are due later.
  module _ (now₂ : ℕ) (later : now ≤ now₂) (p : TrialInstance → Bool) (ts : ℕ) where
    pub DueAt-split : DueAt s now₂ p ts → DueAt s now p ts ⊎ DueAt s' now₂ p ts
    DueAt-split (key, t, trial, listed, live, chosen, w) = elim (dec_le ts now) [
      | yes early ↦ inl (key, t, trial, listed, live, chosen, (w.0, w.1, early, w.3))
      | no late ↦
          inr (remaining (get key c.next) refl (outcome key t trial listed live) (omega arith))
    ]
      where
        remaining :
            (o : Option ℕ)
            → get key c.next ≡ o
            → Outcome s.settings.every_seconds now (campaign_end s trial) t o
            → now < ts
            → DueAt s' now₂ p ts
        remaining none e (t', adv, over) late =
            let (k, at, a, b) = Window-later _ now now₂ _ t t' ts adv late w in absurd (omega arith)
        remaining (some t') e (adv, inside) late =
            rw c.state_eq
              (key, t', trial, e, live, chosen, Window-later _ now now₂ _ t t' ts adv late w)

    pub DueAt-first : DueAt s now p ts → DueAt s now₂ p ts
    DueAt-first (key, t, trial, listed, live, chosen, (k, at, a, b)) =
        (key, t, trial, listed, live, chosen, (k, at, omega arith, b))

    pub DueAt-second : DueAt s' now₂ p ts → DueAt s now₂ p ts × (now < ts)
    DueAt-second d =
        let (key, t', trial, next_at, live, chosen, (k, at, a, b)) =
          subst (λ x. DueAt x now₂ p ts) c.state_eq d in
        let m = moved key t' next_at in
        let (n, step, lo, hi) = m.advanced in
        let future : now < t' = next-lt key t' (rw next_same next_at) in
        ((key, m.t, trial, m.listed, live, chosen, (n + k, omega arith, a, b)), omega arith)
