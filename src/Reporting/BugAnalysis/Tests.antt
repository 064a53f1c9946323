-- ===== src/Reporting/BugAnalysis/Tests.antt =====
-- Three fuzzers with two bugs in common.
use fuzzmeter.Prelude.{◌≡◌, refl, none, some, String, List, [], ◌∷◌, map}
use fuzzmeter.Prelude.Equality.{string_eq}
use fuzzmeter.Prelude.Sets.{IsUnique, union, difference_size}
use fuzzmeter.Reporting.SetComparison.{TrialSets}
use fuzzmeter.Reporting.SetComparison.Index.{trials_of}
use fuzzmeter.Reporting.SetComparison.Sizes.{other_sets}
use fuzzmeter.Reporting.BugAnalysis.{trial_counts}
use fuzzmeter.Reporting.BugAnalysis.Others.{trial_counts_lem}

abbrev three : List String
three = "afl" ∷ "lib" ∷ "hongg" ∷ []

abbrev bug_sets : TrialSets
bug_sets =
    ("afl", some ("a" ∷ "b" ∷ []) ∷ none ∷ some ("c" ∷ []) ∷ [])
    ∷ ("lib", some ("b" ∷ "d" ∷ []) ∷ [])
    ∷ ("hongg", some ("c" ∷ []) ∷ [])
    ∷ []

three-IsUnique : IsUnique three
three-IsUnique = (refl, (refl, (refl, tt)))

trial_counts_lem_example :
    trial_counts three bug_sets "afl"
    ≡ map
        (λ vs. difference_size vs (union (other_sets (trials_of bug_sets) "afl" three)))
        (trials_of bug_sets "afl")
trial_counts_lem_example = trial_counts_lem three bug_sets "afl" three-IsUnique refl
