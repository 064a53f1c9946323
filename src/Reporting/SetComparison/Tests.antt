-- ===== src/Reporting/SetComparison/Tests.antt =====
-- Two fuzzers, of which one has lost a set.
use mathlib.Core.Path.{subst}
use fuzzmeter.Prelude.{
  sym, inl, inr, Bool-cases, ◌≡◌, refl, true, none, some, String, List, [], ◌∷◌, arith,
  if◌then◌else◌,
}
use fuzzmeter.Prelude.Equality.{◌==◌, string_eq, elem}
use fuzzmeter.Prelude.Sets.{IsUnique, union, difference_size, intersection}
use fuzzmeter.Reporting.SetComparison.{
  TrialSets, exact, lower, upper, indeterminate, trial_sets_of, trial_set_index, index_labels,
  index_label, count_trials, count_values, record_owners, owner_totals, visit_owners, visit_rows,
  visit_cols, visit_exclusive, any_cell, all_cell, trial_set_counts,
}
use fuzzmeter.Reporting.SetComparison.Index.{trials_of, AreSets, AreSets-entries}
use fuzzmeter.Reporting.SetComparison.Sizes.{other_sets}
use fuzzmeter.Reporting.SetComparison.Cells.{
  entry, cell_at, lacks, others_lack, any_spec, all_spec, pairwise_cells, exclusive_cells,
}
use fuzzmeter.Reporting.SetComparison.Bounds.{Completes, Cell, pairwise_bounds, exclusive_bounds}

abbrev two_labels : List String
two_labels = "afl" ∷ "lib" ∷ []

abbrev two_sets : TrialSets
two_sets =
    ("afl", some ("x" ∷ "y" ∷ []) ∷ some ("x" ∷ "z" ∷ []) ∷ [])
    ∷ ("lib", some ("y" ∷ []) ∷ none ∷ [])
    ∷ []

two_labels-IsUnique : IsUnique two_labels
two_labels-IsUnique = (refl, (refl, tt))

two_sets-AreSets : AreSets two_sets
two_sets-AreSets =
    AreSets-entries two_sets
      (((refl, (refl, tt)), ((refl, (refl, tt)), tt)), (((refl, tt), tt), tt))

-- What the lost set may have held.
abbrev whole : String → List (List String)
whole l =
    if l == "afl"
    then ("x" ∷ "y" ∷ []) ∷ ("x" ∷ "z" ∷ []) ∷ []
    else ("y" ∷ []) ∷ ("x" ∷ "w" ∷ []) ∷ []

completes : (l : String) → elem l two_labels ≡ true → Completes (trial_sets_of two_sets l) (whole l)
completes l known = elim (Bool-cases (l == "afl")) [
  | inl afl ↦
      subst (λ k. Completes (trial_sets_of two_sets k) (whole k))
        (sym ((string_eq.beq_iff l "afl").0 afl)) (refl, (refl, tt))
  | inr not_afl ↦
      let lib : (l == "lib") ≡ true = ground arith in
      subst (λ k. Completes (trial_sets_of two_sets k) (whole k))
        (sym ((string_eq.beq_iff l "lib").0 lib)) (refl, tt)
]

pairwise_run :
    (trial_set_counts two_labels (trial_set_index two_labels two_sets) []).pairwise_any
    ≡ ((some 0, exact) ∷ (some 2, upper) ∷ [])
      ∷ ((some 0, lower) ∷ (some 0, indeterminate) ∷ [])
      ∷ []
unfolding trial_set_counts owner_totals visit_owners visit_rows visit_cols visit_exclusive any_cell
    all_cell trial_set_index index_labels index_label count_trials count_values record_owners
pairwise_run = refl

pairwise_cells_example :
    (cell_at "afl" "lib" two_labels
        (trial_set_counts two_labels (trial_set_index two_labels two_sets) []).pairwise_any
      ≡ some (any_spec two_sets "afl" (lacks two_sets "lib") (trials_of two_sets "lib")))
    × (cell_at "afl" "lib" two_labels
          (trial_set_counts two_labels (trial_set_index two_labels two_sets) []).pairwise_all
        ≡ some (all_spec two_sets [] "afl" (lacks two_sets "lib") (trials_of two_sets "lib")))
pairwise_cells_example =
    pairwise_cells two_labels two_sets [] two_labels-IsUnique two_sets-AreSets "afl" refl "lib" refl

exclusive_cells_example :
    (entry "afl" two_labels
        (trial_set_counts two_labels (trial_set_index two_labels two_sets) []).exclusive_any
      ≡ some (
          any_spec two_sets "afl"
            (others_lack two_sets two_labels "afl")
            (other_sets (trials_of two_sets) "afl" two_labels)))
    × (entry "afl" two_labels
          (trial_set_counts two_labels (trial_set_index two_labels two_sets) []).exclusive_all
        ≡ some (
            all_spec two_sets [] "afl"
              (others_lack two_sets two_labels "afl")
              (other_sets (trials_of two_sets) "afl" two_labels)))
exclusive_cells_example =
    exclusive_cells two_labels two_sets [] two_labels-IsUnique two_sets-AreSets "afl" refl

pairwise_bounds_example :
    Cell
      (cell_at "afl" "lib" two_labels
        (trial_set_counts two_labels (trial_set_index two_labels two_sets) []).pairwise_any)
      (difference_size (union (whole "afl")) (union (whole "lib")))
    × Cell
        (cell_at "afl" "lib" two_labels
          (trial_set_counts two_labels (trial_set_index two_labels two_sets) []).pairwise_all)
        (difference_size (intersection (whole "afl")) (union (whole "lib")))
pairwise_bounds_example =
    pairwise_bounds two_labels two_sets [] two_labels-IsUnique two_sets-AreSets whole completes
      "afl" refl "lib" refl

exclusive_bounds_example :
    Cell
      (entry "afl" two_labels
        (trial_set_counts two_labels (trial_set_index two_labels two_sets) []).exclusive_any)
      (difference_size (union (whole "afl")) (union (other_sets whole "afl" two_labels)))
    × Cell
        (entry "afl" two_labels
          (trial_set_counts two_labels (trial_set_index two_labels two_sets) []).exclusive_all)
        (difference_size (intersection (whole "afl")) (union (other_sets whole "afl" two_labels)))
exclusive_bounds_example =
    exclusive_bounds two_labels two_sets [] two_labels-IsUnique two_sets-AreSets whole completes
      "afl" refl
