-- ===== src/Snapshot/Scheduler/State/Invariant.antt =====
-- A schedule in order, under the methods that register and unregister.
use fuzzmeter.Prelude.{
  ℕ, suc, ◌+◌, ◌*◌, ◌<◌, ◌≡◌, Bool, true, Option, none, some, String, arith, Bool-cases, inl, inr,
}
use fuzzmeter.Prelude.Equality.{◌==◌, string_eq}
use fuzzmeter.Dict.{get, pop, IsDict, get-put, get-pop, put-IsDict, pop-IsDict}
use fuzzmeter.Snapshot.Scheduler.State.{
  TrialInstance, Settings, Scheduler, init, register, unregister,
}

-- A trial's next snapshot is a whole number of steps after its start, and in its campaign time.
abbrev pub IsNext : Settings → Option TrialInstance → ℕ → Type 0
IsNext settings none t = ⊥
IsNext settings (some trial) t =
    (k : ℕ) × (t ≡ trial.start_ts + suc k * settings.every_seconds)
    × (t < trial.start_ts + settings.campaign_seconds)

pub record IsScheduled (s : Scheduler) : Type 0 where
  pub distinct : IsDict s.next_periodic_ts
  -- An active trial stands under its own key, and is known to the campaign.
  pub keyed :
      (k : String) (trial : TrialInstance)
      → get k s.active ≡ some trial
      → (trial.config.trial_key ≡ k) × (get k s.campaign_trials ≡ some trial)
  -- Only active trials are scheduled.
  pub entry :
      (k : String) (t : ℕ)
      → get k s.next_periodic_ts ≡ some t
      → IsNext s.settings (get k s.active) t

pub init-IsScheduled :
    (settings : Settings) (stop_event : Option Bool) (now : ℕ)
    → IsScheduled (init settings stop_event now)
unfolding init
init-IsScheduled settings stop_event now = record {
  distinct = tt;
  keyed = λ k trial e. cc;
  entry = λ k t e. cc;
}

-- Registering a trial keeps a schedule in order (`IsScheduled`), also where the key is in use.
pub register-IsScheduled :
    (trial : TrialInstance) (s : Scheduler) → IsScheduled s → IsScheduled (register trial s)
unfolding register
register-IsScheduled trial s h = record {
  distinct = ground (
    arith,
    put-IsDict key next s.next_periodic_ts h.distinct,
    pop-IsDict key s.next_periodic_ts h.distinct,
  );
  keyed = λ k other e. ground (
    arith,
    get-put key k trial s.active,
    get-put key k trial s.campaign_trials,
    string_eq.beq_iff key k,
    h.keyed k other,
  );
  entry = λ k t e. elim (Bool-cases (key == k)) [
    | inl same ↦ rw (get-put key k trial s.active, same) (new k t same e)
    | inr other ↦
        rw (get-put key k trial s.active, other)
          (h.entry k t (
            ground
              (arith, get-put key k next s.next_periodic_ts, get-pop key k s.next_periodic_ts)))
  ];
}
  where
    key : String
    key = trial.config.trial_key

    next : ℕ
    next = trial.start_ts + s.settings.every_seconds

    new :
        (k : String) (t : ℕ)
        → (key == k) ≡ true
        → get k (register trial s).next_periodic_ts ≡ some t
        → IsNext s.settings (some trial) t
    new k t same e = (0, first, inside)
      where
        first : t ≡ trial.start_ts + 1 * s.settings.every_seconds
        first =
            ground (arith, get-put key k next s.next_periodic_ts, get-pop key k s.next_periodic_ts)

        inside : t < trial.start_ts + s.settings.campaign_seconds
        inside =
            ground (arith, get-put key k next s.next_periodic_ts, get-pop key k s.next_periodic_ts)

pub unregister-IsScheduled :
    (trial_id : String) (s : Scheduler) → IsScheduled s → IsScheduled (unregister trial_id s)
unfolding unregister
unregister-IsScheduled trial_id s h = record {
  distinct = pop-IsDict trial_id s.next_periodic_ts h.distinct;
  keyed = λ k trial e. h.keyed k trial (ground (arith, get-pop trial_id k s.active));
  entry = λ k t e. elim (Bool-cases (trial_id == k)) [
    | inl same ↦ absurd (no_entry k t same e)
    | inr other ↦
        rw (get-pop trial_id k s.active, other)
          (h.entry k t (ground (arith, get-pop trial_id k s.next_periodic_ts)))
  ];
}
  where
    no_entry :
        (k : String) (t : ℕ)
        → (trial_id == k) ≡ true
        → get k (pop trial_id s.next_periodic_ts) ≡ some t
        → ⊥
    no_entry k t same e = ground (arith, get-pop trial_id k s.next_periodic_ts)
