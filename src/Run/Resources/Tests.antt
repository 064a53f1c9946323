-- ===== src/Run/Resources/Tests.antt =====
-- Plans and waits at concrete inputs.
use fuzzmeter.Prelude.{
  ℕ, ◌≡◌, ◌≢◌, ◌+◌, ◌≤◌, ◌<◌, ◌↔◌, refl, Option, none, some, List, [], ◌∷◌, arith,
}
use fuzzmeter.Run.Resources.{live_resource_plan}
use fuzzmeter.Run.Resources.Plan.{plan_splits, plan-none_iff}

plan_8 : live_resource_plan 8 none ≡ some (6, 2)
unfolding live_resource_plan
plan_8 = refl

plan_splits_example : (6 + 2 ≡ 8) × (1 ≤ 6) × ((1 ≤ 2) ↔ (1 < 8))
plan_splits_example = plan_splits 8 none (omega arith) plan_8

abbrev eight : Option ℕ
eight = some 8

plan-none_iff_example :
    (live_resource_plan 8 (some 8) ≡ none)
    ↔ ((n : ℕ) × (eight ≡ some n) × (1 ≤ n) × (8 ≤ n) × ◌≢◌ {A = ℕ} 8 1)
plan-none_iff_example = plan-none_iff 8 (some 8)

abbrev two_done : List (ℕ × ℕ)
two_done = (2, 20) ∷ (0, 7) ∷ []
