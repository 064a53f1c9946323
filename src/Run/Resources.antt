-- ===== src/Run/Resources.antt =====
-- `_live_resource_plan` and `_wait_for_futures` of src/fuzzmeter/run/runner.py.
pub mod Plan
pub mod Futures
mod Tests
use fuzzmeter.Prelude.{
  ℕ, zero, suc, ◌-◌, ◌/◌, Bool, true, false, not, Option, none, some, List, [], ◌∷◌, ◌++◌, leb,
  nat_beq, if◌then◌else◌, filter, map,
}

-- Trial workers and snapshot workers; none is the ValueError. A number of snapshot jobs that is
-- None or 0 leaves the choice to the function.
unfoldable pub live_resource_plan : ℕ → Option ℕ → Option (ℕ × ℕ)
live_resource_plan total_jobs (some (suc n)) =
    if nat_beq total_jobs 1
    then some (1, 0)
    else if leb total_jobs (suc n)
    then none
    else some (total_jobs - suc n, suc n)
live_resource_plan total_jobs _ =
    if nat_beq total_jobs 1
    then some (1, 0)
    else if nat_beq total_jobs 2
    then some (1, 1)
    else some (total_jobs - total_jobs / 3, total_jobs / 3)

-- What a future holds when it has completed.
pub data Outcome (A E : Type 0) : Type 0 where
  result : A → Outcome A E
  failure : E → Outcome A E

-- The return value, or the exception with the futures on which `cancel` was called before it was
-- raised. Futures go by their place in the list.
pub data Waited (A E : Type 0) : Type 0 where
  returned : List A → Waited A E
  raised : E → List ℕ → Waited A E

module _ {A E : Type 0} where
  -- `done` is what `as_completed` yields, in that order.
  wait_loop : List ℕ → List (ℕ × Outcome A E) → List A → Waited A E
  wait_loop futures [] results = returned results
  wait_loop futures ((i, result a) ∷ done) results = wait_loop futures done (results ++ a ∷ [])
  wait_loop futures ((i, failure e) ∷ done) results =
      raised e (filter (λ pending. not (nat_beq pending i)) futures)

  pub wait_for_futures : List ℕ → List (ℕ × Outcome A E) → Waited A E
  unfolding wait_loop
  wait_for_futures futures done = wait_loop futures done []
