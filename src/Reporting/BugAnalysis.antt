-- ===== src/Reporting/BugAnalysis.antt =====
-- `attach_exclusive_bug_stats` of src/fuzzmeter/reporting/analyzers/bug_analysis.py, over the
-- comparison of the same sets. The labels are distinct, so a label stands for its index. The median
-- of an entry, a fraction, is left out.
pub mod Others
pub mod Collected
mod Tests
use fuzzmeter.Prelude.{ℕ, Option, none, some, String, List, [], ◌∷◌, length, map}
use fuzzmeter.Prelude.Equality.{string_eq}
use fuzzmeter.Prelude.Sets.{union, difference_size}
use fuzzmeter.Dict.{Dict, put}
use fuzzmeter.Reporting.SetComparison.{TrialSets, Bound, unknown, get_or, usable, trial_sets_of}
use fuzzmeter.Reporting.SetComparison.Cells.{entry}
use fuzzmeter.Reporting.SetComparison.Comparison.{Comparison, smallest, largest}

-- `a | b`
abbrev pub both : List String → List String → List String
both a b = union (a ∷ b ∷ [])

-- `unions[fuzzer]`
abbrev pub fuzzer_union : TrialSets → String → List String
fuzzer_union sets fuzzer = union (usable (trial_sets_of sets fuzzer))

-- The loop that fills `prefixes`, and the union of all.
pub prefixes_of : TrialSets → List String → List String → List (List String) × List String
prefixes_of sets [] all = ([], all)
prefixes_of sets (fuzzer ∷ fuzzers) all =
    let (prefixes, last) = prefixes_of sets fuzzers (both all (fuzzer_union sets fuzzer)) in
    (all ∷ prefixes, last)

-- The loop from the last fuzzer to the first: `other_unions`, and `suffix`.
pub others_from :
    TrialSets → List String → List (List String) → Dict String (List String) × List String
others_from sets (fuzzer ∷ fuzzers) (prefix ∷ prefixes) =
    let (others, suffix) = others_from sets fuzzers prefixes in
    (put fuzzer (both prefix suffix) others, both suffix (fuzzer_union sets fuzzer))
others_from sets _ _ = ([], [])

-- `other_unions.get(fuzzer, all_bug_union)`
pub other_bug_union : List String → TrialSets → String → List String
unfolding prefixes_of others_from
other_bug_union fuzzers sets fuzzer =
    let (prefixes, all) = prefixes_of sets fuzzers [] in
    get_or all fuzzer (others_from sets fuzzers prefixes).0

pub trial_counts : List String → TrialSets → String → List ℕ
unfolding other_bug_union
trial_counts fuzzers sets fuzzer =
    map (λ vs. difference_size vs (other_bug_union fuzzers sets fuzzer))
      (usable (trial_sets_of sets fuzzer))

pub record ExclusiveBugs : Type 0 where
  pub exclusive_any : Option ℕ × Bound
  pub exclusive_all : Option ℕ × Bound
  pub min : Option ℕ
  pub max : Option ℕ
  pub sample_size : ℕ
  pub usable_sample_size : ℕ

-- The value and the bound at the index of a fuzzer, none and unknown without one.
abbrev pub value_at : String → List String → List (Option ℕ × Bound) → Option ℕ × Bound
value_at fuzzer labels cells = elim (entry fuzzer labels cells) [
  | none ↦ (none, unknown)
  | some cell ↦ cell
]

abbrev pub least : List ℕ → Option ℕ
least [] = none
least (n ∷ ns) = some (smallest n ns)

abbrev pub greatest : List ℕ → Option ℕ
greatest [] = none
greatest (n ∷ ns) = some (largest n ns)

-- `entry['exclusive_bugs']` of one entry.
pub exclusive_bugs : List String → TrialSets → Comparison → String → ExclusiveBugs
unfolding trial_counts
exclusive_bugs fuzzers sets comparison fuzzer =
    let counts = trial_counts fuzzers sets fuzzer in
    record {
      exclusive_any = value_at fuzzer comparison.fuzzers comparison.counts.exclusive_any;
      exclusive_all = value_at fuzzer comparison.fuzzers comparison.counts.exclusive_all;
      min = least counts;
      max = greatest counts;
      sample_size = length (trial_sets_of sets fuzzer);
      usable_sample_size = length counts;
    }

-- `attach_exclusive_bug_stats`: the statistics of each entry, by its fuzzer.
pub attach_exclusive_bug_stats :
    List String → List String → TrialSets → Comparison → List (String × ExclusiveBugs)
unfolding exclusive_bugs
attach_exclusive_bug_stats entries fuzzers sets comparison =
    map (λ fuzzer. (fuzzer, exclusive_bugs fuzzers sets comparison fuzzer)) entries
