-- ===== src/Reporting/SetComparison/Cells.antt =====
-- The cells of `_trial_set_counts`.
use fuzzmeter.Prelude.{
  ℕ, ◌≡◌, refl, ap, ◌∙◌, Bool, true, not, ◌&&◌, ◌||◌, Option, none, some, String, List, [], ◌∷◌,
  arith, Bool-cases, inl, inr, if◌then◌else◌, nat_beq, any, length, map,
}
use fuzzmeter.Prelude.Equality.{◌==◌, string_eq, elem}
use fuzzmeter.Prelude.Sets.{IsUnique, union, difference_size, intersection, any_cong, All-elem}
use fuzzmeter.Reporting.SetComparison.{
  TrialSets, Bound, unknown, any_bound, all_bound, no_index, trial_set_index, is_missing,
  has_no_rep, other_missing, any_cell, all_cell, trial_set_counts,
}
use fuzzmeter.Reporting.SetComparison.Index.{
  trials_of, AreSets, missing, reps-index_labels, missing-index_labels,
}
use fuzzmeter.Reporting.SetComparison.Sizes.{
  other_sets, pairwise_any_size, pairwise_all_size, exclusive_any_size, exclusive_all_size,
}

-- The entry of a label in a list that goes with the labels.
abbrev pub entry : {A : Type 0} → String → List String → List A → Option A
entry l [] xs = none
entry l (k ∷ labels) [] = none
entry l (k ∷ labels) (x ∷ xs) = if k == l then some x else entry l labels xs

-- The entry of a row and a column.
abbrev pub cell_at : {A : Type 0} → String → String → List String → List (List A) → Option A
cell_at row col labels rows = elim (entry row labels rows) [
  | none ↦ none
  | some cells ↦ entry col labels cells
]

pub entry-map :
    {A : Type 0} (f : String → A) (l : String) (labels : List String)
    → elem l labels ≡ true
    → entry l labels (map f labels) ≡ some (f l)
entry-map f l [] known = cc
entry-map f l (k ∷ labels) known = elim (Bool-cases (k == l)) [
  | inl same ↦ rw same (ap (λ x. some (f x)) ((string_eq.beq_iff k l).0 same))
  | inr other ↦
      rw other (entry-map f l labels (ground (arith, string_eq.beq_iff k l, string_eq.beq_iff l k)))
]

cell_at-map :
    {A : Type 0} (f : String → String → A) (row col : String) (labels : List String)
    → elem row labels ≡ true
    → elem col labels ≡ true
    → cell_at row col labels (map (λ r. map (f r) labels) labels) ≡ some (f row col)
cell_at-map {A} f row col labels known known_col =
    ap
      (λ (o : Option (List A)). elim o as (λ x. Option A) [
        | none ↦ none
        | some cells ↦ entry col labels cells
      ])
      (entry-map (λ r. map (f r) labels) row labels known)
    ∙ entry-map (f row) col labels known_col

-- Some set of the label is missing.
abbrev pub lacks : TrialSets → String → Bool
lacks sets l = not (nat_beq (missing sets l) 0)

abbrev pub others_lack : TrialSets → List String → String → Bool
others_lack sets labels row = any (λ l. not (l == row) && lacks sets l) labels

-- A count over the union, given the sets: none where the row has no set.
abbrev pub any_spec : TrialSets → String → Bool → List (List String) → Option ℕ × Bound
any_spec sets row lacking others =
    if nat_beq (length (trials_of sets row)) 0 then (none, unknown) else (
      some (difference_size (union (trials_of sets row)) (union others)),
      any_bound (lacks sets row) lacking,
    )

-- A count over the intersection: none also where a set of the row is missing, or where the caller
-- takes the row's for unknown.
abbrev pub all_spec :
    TrialSets → List String → String → Bool → List (List String) → Option ℕ × Bound
all_spec sets strict_unknown row lacking others =
    if nat_beq (length (trials_of sets row)) 0 || lacks sets row || elem row strict_unknown
    then (none, unknown)
    else (
      some (difference_size (intersection (trials_of sets row)) (union others)),
      all_bound lacking,
    )

module _ (labels : List String) (sets : TrialSets) (strict_unknown : List String)
    (unique : IsUnique labels) (u : AreSets sets) (row : String)
    (known : elem row labels ≡ true) where
  missing_here :
      (l : String)
      → elem l labels ≡ true
      → is_missing (trial_set_index labels sets) l ≡ lacks sets l
  unfolding trial_set_index
  missing_here l i =
      ap (λ n. not (nat_beq n 0)) (missing-index_labels sets labels (no_index labels) l ∙ rw i refl)

  no_rep_here :
      has_no_rep (trial_set_index labels sets) row ≡ nat_beq (length (trials_of sets row)) 0
  unfolding trial_set_index
  no_rep_here =
      ap (λ n. nat_beq n 0) (reps-index_labels sets labels (no_index labels) row ∙ rw known refl)

  others_here : other_missing (trial_set_index labels sets) labels row ≡ others_lack sets labels row
  others_here =
      any_cong _ _ labels
        (All-elem _ labels (λ l i. ap (λ b. not (l == row) && b) (missing_here l i)))

  any_cell_same :
      (n : ℕ) (b lacking : Bool) (others : List (List String))
      → b ≡ lacking
      → n ≡ difference_size (union (trials_of sets row)) (union others)
      → any_cell (trial_set_index labels sets) row b n ≡ any_spec sets row lacking others
  unfolding any_cell
  any_cell_same n b lacking others e size = ground (arith, no_rep_here, missing_here row known)

  all_cell_same :
      (n : ℕ) (b lacking : Bool) (others : List (List String))
      → b ≡ lacking
      → n ≡ difference_size (intersection (trials_of sets row)) (union others)
      → all_cell (trial_set_index labels sets) strict_unknown row b n
        ≡ all_spec sets strict_unknown row lacking others
  unfolding all_cell
  all_cell_same n b lacking others e size = ground (arith, no_rep_here, missing_here row known)

  -- With distinct labels and sets of distinct values, the exclusive cells of a label: without a
  -- usable set both are none and unknown, and the one over all sets also where a set of it is
  -- missing or it is strictly unknown; otherwise each is the number of values in the union, or in
  -- the intersection, of its usable sets that are in no usable set of any other label, with its
  -- bound.
  pub exclusive_cells :
      (entry row labels
          (trial_set_counts labels (trial_set_index labels sets) strict_unknown).exclusive_any
        ≡ some (
            any_spec sets row
              (others_lack sets labels row)
              (other_sets (trials_of sets) row labels)))
      × (entry row labels
            (trial_set_counts labels (trial_set_index labels sets) strict_unknown).exclusive_all
          ≡ some (
              all_spec sets strict_unknown row
                (others_lack sets labels row)
                (other_sets (trials_of sets) row labels)))
  unfolding trial_set_counts
  exclusive_cells = (
    entry-map _ row labels known
        ∙ ap some
            (any_cell_same _ _ _ _ others_here (exclusive_any_size labels sets unique u row known)),
    entry-map _ row labels known
        ∙ ap some
            (all_cell_same _ _ _ _ others_here (exclusive_all_size labels sets unique u row known)),
  )

  module _ (col : String) (known_col : elem col labels ≡ true) where
    -- With distinct labels and sets of distinct values, the cells of a row and a column: without
    -- a usable set of the row both are none and unknown, and the one over all of the row's sets
    -- also where a set of the row is missing or the row is strictly unknown; otherwise each is
    -- the number of values in the union, or in the intersection, of the row's usable sets that
    -- are in no usable set of the column, with its bound.
    pub pairwise_cells :
        (cell_at row col labels
            (trial_set_counts labels (trial_set_index labels sets) strict_unknown).pairwise_any
          ≡ some (any_spec sets row (lacks sets col) (trials_of sets col)))
        × (cell_at row col labels
              (trial_set_counts labels (trial_set_index labels sets) strict_unknown).pairwise_all
            ≡ some (all_spec sets strict_unknown row (lacks sets col) (trials_of sets col)))
    unfolding trial_set_counts
    pairwise_cells = (
      cell_at-map _ row col labels known known_col
          ∙ ap some (
              any_cell_same _ _ _ _ (missing_here col known_col)
                (pairwise_any_size labels sets unique u row col known known_col)),
      cell_at-map _ row col labels known known_col
          ∙ ap some (
              all_cell_same _ _ _ _ (missing_here col known_col)
                (pairwise_all_size labels sets unique u row col known known_col)),
    )
