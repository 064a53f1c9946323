-- ===== src/Snapshot/Scheduler/State/Tests.antt =====
-- Runs of the methods that register, and the theorems on them at concrete inputs.
use fuzzmeter.Prelude.{◌≡◌, refl, none, some, [], ◌∷◌}
use fuzzmeter.Prelude.Equality.{string_eq}
use fuzzmeter.Db.Ticks.{Failure}
use fuzzmeter.Snapshot.Scheduler.State.{init, register, set_fatal_error, raise_if_failed}
use fuzzmeter.Snapshot.Scheduler.State.Samples.{five_minutes, trial_a, two_trials}

registered : two_trials.next_periodic_ts ≡ ("a", 1100) ∷ ("b", 1100) ∷ []
unfolding register init
registered = refl

-- A campaign of one step has no periodic snapshot.
short_campaign :
    (register trial_a
      (init (record five_minutes { every_seconds = 300 }) none 990)).next_periodic_ts
    ≡ []
unfolding register init
short_campaign = refl

first_error_stays :
    (e f : Failure) → raise_if_failed (set_fatal_error f (set_fatal_error e two_trials)) ≡ some e
unfolding set_fatal_error raise_if_failed register init
first_error_stays e f = refl
