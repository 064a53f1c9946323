-- ===== src/Snapshot/Scheduler/Periodic/Laws.antt =====
-- What one call of `_due_periodic_snapshots` does, and what two calls do together.
use mathlib.Core.Path.{subst}
use fuzzmeter.Prelude.{
  ℕ, ◌<◌, ◌≡◌, ◌↔◌, inl, inr, sym, Bool, true, false, ◌&&◌, Option, some, String, [], ◌∷◌, arith,
  nat_beq, Bool-cases, Any, any,
}
use fuzzmeter.Prelude.Equality.{◌==◌, string_eq, beq_refl}
use fuzzmeter.Prelude.Sorting.{sorted, IsIncreasing, any-sorted, sorted-IsIncreasing}
use fuzzmeter.Dict.{Dict, get, values, IsDict, get_of_absent}
use fuzzmeter.Snapshot.Scheduler.State.{TrialInstance, Scheduler}
use fuzzmeter.Snapshot.Scheduler.State.Invariant.{IsScheduled}
use fuzzmeter.Snapshot.Scheduler.Periodic.{DueByTs, visit, minimum, due_periodic_snapshots}
use fuzzmeter.Snapshot.Scheduler.Periodic.Due.{is_due, Window}
use fuzzmeter.Snapshot.Scheduler.Periodic.Visit.{
  campaign_end, MakesDue, visit_total, visit-IsDistinct, visit-is_due, is_due-visit,
}

-- Some scheduled and active trial that passes `p` has `ts` among its time stamps up to `now`.
abbrev pub DueAt : Scheduler → ℕ → (TrialInstance → Bool) → ℕ → Type 0
DueAt s now p ts =
    (key : String) × (t : ℕ) × (trial : TrialInstance) × (get key s.next_periodic_ts ≡ some t)
    × (get key s.active ≡ some trial)
    × (p trial ≡ true)
    × Window s.settings.every_seconds now (campaign_end s trial) t ts

module _ (s : Scheduler) (now : ℕ) (p : TrialInstance → Bool) (ts : ℕ) where
  find_item :
      (items : Dict String ℕ)
      → IsDict items
      → Any (MakesDue s now p ts) items
      → (key : String) × (t : ℕ) × (trial : TrialInstance) × (get key items ≡ some t)
        × (get key s.active ≡ some trial)
        × (p trial ≡ true)
        × Window s.settings.every_seconds now (campaign_end s trial) t ts
  find_item [] d a = absurd a
  find_item ((key, t) ∷ items) d (inl (trial, live, chosen, w)) =
      (key, t, trial, rw (beq_refl key), live, chosen, w)
  find_item ((key, t) ∷ items) d (inr a) =
      let (j, u, trial, listed, live, chosen, w) = find_item items d.1 a in
      (j, u, trial, rw (apart j u listed) listed, live, chosen, w)
    where
      -- The first key is not listed again.
      apart : (j : String) (u : ℕ) → get j items ≡ some u → (key == j) ≡ false
      apart j u listed = elim (Bool-cases (key == j)) [
        | inl same ↦
            let eq : j ≡ key = sym ((string_eq.beq_iff key j).0 same) in
            absurd (get_of_absent key u items d.0 (rw eq at listed))
        | inr other ↦ other
      ]

  item_found :
      (key : String) (t : ℕ) (trial : TrialInstance) (items : Dict String ℕ)
      → get key items ≡ some t
      → get key s.active ≡ some trial
      → p trial ≡ true
      → Window s.settings.every_seconds now (campaign_end s trial) t ts
      → Any (MakesDue s now p ts) items
  item_found key t trial [] listed live chosen w = cc
  item_found key t trial ((j, u) ∷ items) listed live chosen w = elim (Bool-cases (j == key)) [
    | inl same ↦
        let eq_j : key ≡ j = sym ((string_eq.beq_iff j key).0 same) in
        let eq_u : t ≡ u = ground arith in
        inl (
          trial,
          rw (← eq_j) live,
          chosen,
          subst (λ v. Window s.settings.every_seconds now (campaign_end s trial) v ts) eq_u w,
        )
    | inr other ↦ inr (item_found key t trial items (rw other at listed) live chosen w)
  ]

-- The outcome of the call: its loop's results, and what is made of them.
pub record Called (s : Scheduler) (now : ℕ) (due : DueByTs) (next_due : Option ℕ) (s' : Scheduler)
    : Type 0 where
  pub next : Dict String ℕ
  pub unsorted : DueByTs
  pub runs : visit s now s.next_periodic_ts s.next_periodic_ts [] ≡ some (next, unsorted)
  pub due_eq : due ≡ sorted (λ g. g.0) unsorted
  pub next_due_eq : next_due ≡ minimum (values next)
  pub state_eq : s' ≡ record s { next_periodic_ts = next }

module _ (s : Scheduler) (now : ℕ) (positive : 0 < s.settings.every_seconds) where
  -- With a positive time step the call returns: the rounds that its inner loop is given are
  -- enough.
  pub due_periodic_snapshots_total :
      (due : DueByTs) × (next_due : Option ℕ) × (s' : Scheduler) × (due_periodic_snapshots now s
        ≡ some (due, next_due, s'))
  unfolding due_periodic_snapshots
  due_periodic_snapshots_total =
      let (next, due, e) = visit_total s now positive s.next_periodic_ts s.next_periodic_ts [] in
      (
        sorted (λ g. g.0) due,
        minimum (values next),
        record s { next_periodic_ts = next },
        rw (e, due_periodic_snapshots),
      )

  module _ {due : DueByTs} {next_due : Option ℕ} {s' : Scheduler}
      (call : due_periodic_snapshots now s ≡ some (due, next_due, s')) where
    pub called : Called s now due next_due s'
    unfolding due_periodic_snapshots
    called =
        let (next, unsorted, e) =
          visit_total s now positive s.next_periodic_ts s.next_periodic_ts [] in
        record {
          next = next;
          unsorted = unsorted;
          runs = e;
          due_eq = ground arith;
          next_due_eq = ground arith;
          state_eq = ground arith;
        }

    -- With a positive time step, the snapshots that the call returns come in the order of time,
    -- each time stamp once.
    pub due-IsIncreasing : IsIncreasing (λ g. g.0) due
    due-IsIncreasing =
        let c = called in
        rw c.due_eq (
          sorted-IsIncreasing (λ g. g.0) c.unsorted
            (visit-IsDistinct s now positive s.next_periodic_ts s.next_periodic_ts [] c.runs tt))

    -- With a positive time step and a schedule in order, a trial that passes `p` is in the
    -- snapshot of `ts` exactly if some scheduled and active trial passes `p` and `ts` is among
    -- its time stamps: a whole number of steps from its scheduled one on, not after `now`, and
    -- before its campaign's end.
    pub due_iff :
        IsScheduled s
        → (p : TrialInstance → Bool) (ts : ℕ) → (is_due p ts due ≡ true) ↔ DueAt s now p ts
    due_iff h p ts = (forth, back)
      where
        c : Called s now due next_due s'
        c = called

        same : is_due p ts due ≡ is_due p ts c.unsorted
        same = rw c.due_eq (any-sorted (λ g. g.0) (λ g. nat_beq g.0 ts && any p g.1) c.unsorted)

        forth : is_due p ts due ≡ true → DueAt s now p ts
        forth e =
            elim (is_due-visit s now positive p ts s.next_periodic_ts s.next_periodic_ts [] c.runs
              (rw same at e)) [
                | inl no_one ↦ cc
                | inr a ↦ find_item s now p ts s.next_periodic_ts h.distinct a
              ]

        back : DueAt s now p ts → is_due p ts due ≡ true
        back (key, t, trial, listed, live, chosen, w) = rw same (
            visit-is_due s now positive p ts s.next_periodic_ts s.next_periodic_ts [] c.runs
              (inr (item_found s now p ts key t trial s.next_periodic_ts listed live chosen w)))
