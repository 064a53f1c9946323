-- ===== src/Reporting/SetComparison.antt =====
-- `trial_set_index`, `_trial_set_counts` and `trial_set_comparison` of
-- src/fuzzmeter/reporting/set_comparison.py.
-- A Python set is the list of its elements, each once. The count lists, which the source indexes
-- by the position of a label, are functions of labels: the labels are distinct.
pub mod Owners
pub mod Index
pub mod WellFormed
pub mod Loops
pub mod Sizes
pub mod Cells
pub mod Bounds
pub mod Comparison
mod Tests
use fuzzmeter.Prelude.{
  ℕ, zero, suc, ◌+◌, ◌-◌, Bool, true, false, not, ◌&&◌, ◌||◌, Option, none, some, String, List, [],
  ◌∷◌, ◌++◌, max, nat_beq, if◌then◌else◌, length, map, any,
}
use fuzzmeter.Prelude.Equality.{◌==◌, string_eq, elem}
use fuzzmeter.Dict.{Dict, get, put, keys, values, contains}

-- The trial sets of each label; none is a set that is missing.
abbrev pub TrialSets : Type 0
TrialSets = Dict String (List (Option (List String)))

pub record TrialSetIndex : Type 0 where
  pub owners : Dict String (Dict String ℕ)
  pub reps : Dict String ℕ
  pub sample_sizes : List ℕ
  pub usable_sample_sizes : List ℕ
  pub missing_by_label : Dict String ℕ
  pub trials_by_label : Dict String (List (List String))
  pub unions : Dict String (List String)

-- `d.get(k, default)`
abbrev pub get_or {ℓ} : {V : Type ℓ} → V → String → Dict String V → V
get_or default k d = elim (get k d) [ none ↦ default | some v ↦ v ]

-- The sets that are not None.
abbrev pub usable : List (Option (List String)) → List (List String)
usable [] = []
usable (none ∷ sets) = usable sets
usable (some vs ∷ sets) = vs ∷ usable sets

abbrev pub trial_sets_of : TrialSets → String → List (Option (List String))
trial_sets_of sets label = get_or [] label sets

-- `owner_count_by_value.update(values)` on a `Counter`.
pub count_values : List String → Dict String ℕ → Dict String ℕ
count_values [] counter = counter
count_values (v ∷ vs) counter = count_values vs (put v (get_or 0 v counter + 1) counter)

pub count_trials : List (List String) → Dict String ℕ → Dict String ℕ
unfolding count_values
count_trials [] counter = counter
count_trials (vs ∷ trials) counter = count_trials trials (count_values vs counter)

-- `owners.setdefault(value, {})[label] = count` for each item of the counter.
pub record_owners :
    String → Dict String ℕ → Dict String (Dict String ℕ) → Dict String (Dict String ℕ)
record_owners label [] owners = owners
record_owners label ((value, count) ∷ counter) owners =
    record_owners label counter (put value (put label count (get_or [] value owners)) owners)

-- The body of the loop over the labels.
pub index_label : TrialSets → String → TrialSetIndex → TrialSetIndex
unfolding count_trials record_owners
index_label sets label index =
    let trial_sets = trial_sets_of sets label in
    let trials = usable trial_sets in
    let counter = count_trials trials [] in
    record {
      owners = record_owners label counter index.owners;
      reps = put label (length trials) index.reps;
      sample_sizes = index.sample_sizes ++ length trial_sets ∷ [];
      usable_sample_sizes = index.usable_sample_sizes ++ length trials ∷ [];
      missing_by_label = put label (length trial_sets - length trials) index.missing_by_label;
      trials_by_label = put label trials index.trials_by_label;
      unions = put label (keys counter) index.unions;
    }

pub index_labels : TrialSets → List String → TrialSetIndex → TrialSetIndex
unfolding index_label
index_labels sets [] index = index
index_labels sets (label ∷ labels) index = index_labels sets labels (index_label sets label index)

-- `{label: set() for label in labels}`
abbrev pub empty_unions : List String → Dict String (List String) → Dict String (List String)
empty_unions [] unions = unions
empty_unions (label ∷ labels) unions = empty_unions labels (put label [] unions)

abbrev pub no_index : List String → TrialSetIndex
no_index labels = record {
  owners = [];
  reps = [];
  sample_sizes = [];
  usable_sample_sizes = [];
  missing_by_label = [];
  trials_by_label = [];
  unions = empty_unions labels [];
}

pub trial_set_index : List String → TrialSets → TrialSetIndex
unfolding index_labels
trial_set_index labels sets = index_labels sets labels (no_index labels)

-- The four count lists.
pub record Counts : Type 0 where
  pub pairwise_any : String → String → ℕ
  pub pairwise_all : String → String → ℕ
  pub exclusive_any : String → ℕ
  pub exclusive_all : String → ℕ

abbrev pub no_counts : Counts
no_counts = record {
  pairwise_any = λ row col. 0;
  pairwise_all = λ row col. 0;
  exclusive_any = λ row. 0;
  exclusive_all = λ row. 0;
}

-- `counts[label] += 1`
abbrev pub bump : String → (String → ℕ) → String → ℕ
bump label counts l = if label == l then suc (counts l) else counts l

abbrev pub bump_pair : String → String → (String → String → ℕ) → String → String → ℕ
bump_pair row col counts r c = if row == r && col == c then suc (counts r c) else counts r c

-- The innermost loop, over the columns.
pub visit_cols : Dict String ℕ → String → Bool → List String → Counts → Counts
visit_cols owner_counts row in_all [] counts = counts
visit_cols owner_counts row in_all (col ∷ cols) counts = visit_cols owner_counts row in_all cols (
    if contains col owner_counts then counts else record counts {
      pairwise_any = bump_pair row col counts.pairwise_any;
      pairwise_all = if in_all then bump_pair row col counts.pairwise_all else counts.pairwise_all;
    })

-- `row_count == index.reps[row_label]`
abbrev pub is_rep : Dict String ℕ → String → ℕ → Bool
is_rep reps row count = nat_beq count (get_or 0 row reps)

pub visit_rows : Dict String ℕ → List String → Dict String ℕ → Dict String ℕ → Counts → Counts
unfolding visit_cols
visit_rows reps labels owner_counts [] counts = counts
visit_rows reps labels owner_counts ((row, count) ∷ items) counts =
    visit_rows reps labels owner_counts items
      (visit_cols owner_counts row (is_rep reps row count) labels counts)

-- A value with one owner.
pub visit_exclusive : Dict String ℕ → Dict String ℕ → Counts → Counts
visit_exclusive reps ((row, count) ∷ []) counts = record counts {
  exclusive_any = bump row counts.exclusive_any;
  exclusive_all =
      if is_rep reps row count then bump row counts.exclusive_all else counts.exclusive_all;
}
visit_exclusive reps _ counts = counts

-- The loop over `index.owners.values()`.
pub visit_owners : Dict String ℕ → List String → List (Dict String ℕ) → Counts → Counts
unfolding visit_rows visit_exclusive
visit_owners reps labels [] counts = counts
visit_owners reps labels (owner_counts ∷ owners) counts =
    visit_owners reps labels owners
      (visit_rows reps labels owner_counts owner_counts (visit_exclusive reps owner_counts counts))

pub data Bound : Type 0 where
  exact lower upper indeterminate unknown : Bound

-- The bound of a count over the union, by whether the row's and the others' sets are missing.
abbrev pub any_bound : Bool → Bool → Bound
any_bound true true = indeterminate
any_bound true false = lower
any_bound false true = upper
any_bound false false = exact

abbrev pub all_bound : Bool → Bound
all_bound true = upper
all_bound false = exact

abbrev pub is_missing : TrialSetIndex → String → Bool
is_missing index label = not (nat_beq (get_or 0 label index.missing_by_label) 0)

abbrev pub has_no_rep : TrialSetIndex → String → Bool
has_no_rep index label = nat_beq (get_or 0 label index.reps) 0

-- No count over all of the row's sets can be given.
abbrev pub all_unknown : TrialSetIndex → List String → String → Bool
all_unknown index strict_unknown row =
    has_no_rep index row || is_missing index row || elem row strict_unknown

-- A cell of the two matrices and its bound; `other_missing` is whether a set of the column, or for
-- the exclusive lists of any other label, is missing.
pub any_cell : TrialSetIndex → String → Bool → ℕ → Option ℕ × Bound
any_cell index row other_missing count =
    if has_no_rep index row
    then (none, unknown)
    else (some count, any_bound (is_missing index row) other_missing)

pub all_cell : TrialSetIndex → List String → String → Bool → ℕ → Option ℕ × Bound
all_cell index strict_unknown row other_missing count =
    if all_unknown index strict_unknown row
    then (none, unknown)
    else (some count, all_bound other_missing)

-- `any(index.missing_by_label[label] for label in labels if label != row_label)`
abbrev pub other_missing : TrialSetIndex → List String → String → Bool
other_missing index labels row = any (λ l. not (l == row) && is_missing index l) labels

-- The values of `_trial_set_counts`, each with its bound.
pub record TrialSetCounts : Type 0 where
  pub pairwise_any : List (List (Option ℕ × Bound))
  pub pairwise_all : List (List (Option ℕ × Bound))
  pub exclusive_any : List (Option ℕ × Bound)
  pub exclusive_all : List (Option ℕ × Bound)

-- The counts over all owners.
pub owner_totals : List String → TrialSetIndex → Counts
unfolding visit_owners
owner_totals labels index = visit_owners index.reps labels (values index.owners) no_counts

pub trial_set_counts : List String → TrialSetIndex → List String → TrialSetCounts
unfolding owner_totals any_cell all_cell
trial_set_counts labels index strict_unknown =
    let counts = owner_totals labels index in
    record {
      pairwise_any =
          map
            (λ row.
              map (λ col. any_cell index row (is_missing index col) (counts.pairwise_any row col))
                labels)
            labels;
      pairwise_all =
          map
            (λ row.
              map
                (λ col.
                  all_cell index strict_unknown row (is_missing index col)
                    (counts.pairwise_all row col))
                labels)
            labels;
      exclusive_any =
          map
            (λ row. any_cell index row (other_missing index labels row) (counts.exclusive_any row))
            labels;
      exclusive_all =
          map
            (λ row.
              all_cell index strict_unknown row (other_missing index labels row)
                (counts.exclusive_all row))
            labels;
    }
