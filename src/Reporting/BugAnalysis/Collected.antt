-- ===== src/Reporting/BugAnalysis/Collected.antt =====
-- `trial_bug_sets` of src/fuzzmeter/reporting/analyzers/bug_analysis.py, which gives the sets that
-- the comparisons compare.
mod Tests
use fuzzmeter.Prelude.{
  ℕ, Bool, Option, none, some, String, List, [], ◌∷◌, not, map, filter, if◌then◌else◌,
}
use fuzzmeter.Prelude.Equality.{◌==◌, string_eq, nat_eq, elem}
use fuzzmeter.Prelude.Sorting.{sorted}
use fuzzmeter.Dict.{Dict, get, put}
use fuzzmeter.Json.{sorted_union}
use fuzzmeter.Reporting.SetComparison.{TrialSets, get_or}

-- `trial_id` is none where it is no int.
pub record TrialEntry : Type 0 where
  pub trial_id : Option ℕ
  pub bug_set_missing : Bool

pub record BugEntry : Type 0 where
  pub bug_key : String
  pub trial_ids : List ℕ

-- A fuzzer of a target; a missing name is the empty text.
pub record FuzzerEntry : Type 0 where
  pub fuzzer : String
  pub trials : List TrialEntry
  pub bugs : List BugEntry

-- The sets of one fuzzer's trials by id; none is a missing set.
abbrev pub ById : Type 0
ById = Dict ℕ (Option (List String))

pub add_trials : List TrialEntry → ById → ById
add_trials [] d = d
add_trials (t ∷ ts) d = elim t.trial_id [
  | none ↦ add_trials ts d
  | some id ↦ add_trials ts (put id (if t.bug_set_missing then none else some []) d)
]

-- `trial_set.add(bug_key)` for each trial of the bug that has a set.
pub add_bug : String → List ℕ → ById → ById
add_bug bug_key [] d = d
add_bug bug_key (id ∷ ids) d = elim (get id d) [
  | none ↦ add_bug bug_key ids d
  | some missing_or_set ↦ elim missing_or_set [
    | none ↦ add_bug bug_key ids d
    | some vs ↦ add_bug bug_key ids (put id (some (if elem bug_key vs then vs else bug_key ∷ vs)) d)
  ]
]

pub add_bugs : List BugEntry → ById → ById
unfolding add_bug
add_bugs [] d = d
add_bugs (bug ∷ bugs) d =
    if bug.bug_key == ""
    then add_bugs bugs d
    else add_bugs bugs (add_bug bug.bug_key bug.trial_ids d)

-- The loop over the entries.
pub add_entries : List FuzzerEntry → Dict String ById → Dict String ById
unfolding add_trials add_bugs
add_entries [] by_fuzzer = by_fuzzer
add_entries (entry ∷ entries) by_fuzzer =
    if entry.fuzzer == ""
    then add_entries entries by_fuzzer
    else add_entries entries (
        put entry.fuzzer
          (add_bugs entry.bugs (add_trials entry.trials (get_or [] entry.fuzzer by_fuzzer)))
          by_fuzzer)

abbrev pub fuzzer_names : List FuzzerEntry → List String
fuzzer_names entries =
    sorted_union (filter (λ s. not (s == "")) (map (λ entry. entry.fuzzer) entries)) []

pub trial_bug_sets : List FuzzerEntry → List String × TrialSets
unfolding add_entries
trial_bug_sets entries =
    let fuzzers = fuzzer_names entries in
    let by_fuzzer = add_entries entries (map (λ fuzzer. (fuzzer, [])) fuzzers) in
    (
      fuzzers,
      map
          (λ fuzzer.
            (fuzzer, map (λ item. item.1) (sorted (λ item. item.0) (get_or [] fuzzer by_fuzzer))))
          fuzzers,
    )
