-- ===== src/Reporting/BugAnalysis/Collected/Tests.antt =====
-- Two fuzzers with a bug in common.
use fuzzmeter.Prelude.{◌≡◌, refl, true, false, none, some, List, [], ◌∷◌}
use fuzzmeter.Prelude.Sorting.{sorted}
use fuzzmeter.Reporting.BugAnalysis.Collected.{
  FuzzerEntry, trial_bug_sets, add_entries, add_trials, add_bugs, add_bug,
}

abbrev target : List FuzzerEntry
target =
    record {
      fuzzer = "lib";
      trials =
          record { trial_id = some 4; bug_set_missing = false }
          ∷ record { trial_id = some 3; bug_set_missing = true }
          ∷ [];
      bugs = record { bug_key = "x"; trial_ids = 3 ∷ 4 ∷ 9 ∷ [] } ∷ [];
    }
    ∷ record {
      fuzzer = "afl";
      trials = record { trial_id = some 1; bug_set_missing = false } ∷ [];
      bugs = record { bug_key = "x"; trial_ids = 1 ∷ 1 ∷ [] } ∷ [];
    }
    ∷ []

sets_by_id : trial_bug_sets target ≡ (
  "afl" ∷ "lib" ∷ [],
  ("afl", some ("x" ∷ []) ∷ []) ∷ ("lib", none ∷ some ("x" ∷ []) ∷ []) ∷ [],
)
unfolding trial_bug_sets add_entries add_trials add_bugs add_bug sorted
sets_by_id = refl
