-- ===== src/Reporting/SetComparison/Comparison.antt =====
-- `trial_set_comparison` around the counts, and `_trial_set_comparison_note`.
pub mod Largest
use fuzzmeter.Prelude.{
  ℕ, ◌+◌, Bool, true, false, not, ◌&&◌, ◌||◌, Option, none, some, String, List, [], ◌∷◌, ◌++◌, max,
  min, nat_beq, if◌then◌else◌, length, map, any, filter,
}
use fuzzmeter.Prelude.Equality.{◌==◌, string_eq}
use fuzzmeter.Dict.{Dict, values}
use fuzzmeter.Reporting.SetComparison.{
  TrialSets, TrialSetIndex, Bound, get_or, has_no_rep, trial_set_index, TrialSetCounts,
  trial_set_counts,
}

-- The sentences of the note; the sizes go with the labels.
pub data NotePart : Type 0 where
  given : String → NotePart
  sets_missing : NotePart
  uneven : List (String × ℕ) → NotePart

abbrev pub smallest : ℕ → List ℕ → ℕ
smallest n [] = n
smallest n (m ∷ ms) = min n (smallest m ms)

abbrev pub largest : ℕ → List ℕ → ℕ
largest n [] = n
largest n (m ∷ ms) = max n (largest m ms)

-- `usable and min(usable) != max(usable)`
abbrev pub is_uneven : List ℕ → Bool
is_uneven [] = false
is_uneven (n ∷ ns) = not (nat_beq (smallest n ns) (largest n ns))

abbrev pub zip : List String → List ℕ → List (String × ℕ)
zip [] ns = []
zip (l ∷ labels) [] = []
zip (l ∷ labels) (n ∷ ns) = (l, n) ∷ zip labels ns

-- `_trial_set_comparison_note`
pub comparison_note : List String → List ℕ → Dict String ℕ → List NotePart
comparison_note labels usable_sample_sizes missing_by_label =
    (if any (λ n. not (nat_beq n 0)) (values missing_by_label) then sets_missing ∷ [] else [])
    ++ (if is_uneven (filter (λ n. not (nat_beq n 0)) usable_sample_sizes)
        then uneven (zip labels usable_sample_sizes) ∷ []
        else [])

pub record Comparison : Type 0 where
  pub fuzzers : List String
  pub counts : TrialSetCounts
  pub covered_counts : List (Option ℕ)
  pub sample_sizes : List ℕ
  pub usable_sample_sizes : List ℕ
  pub has_data : Bool
  pub note : List NotePart
  pub max_value : ℕ

-- The values of a matrix that are not None.
abbrev pub row_numbers : List (Option ℕ × Bound) → List ℕ
row_numbers [] = []
row_numbers ((none, b) ∷ cells) = row_numbers cells
row_numbers ((some n, b) ∷ cells) = n ∷ row_numbers cells

abbrev pub numbers : List (List (Option ℕ × Bound)) → List ℕ
numbers [] = []
numbers (row ∷ rows) = row_numbers row ++ numbers rows

abbrev pub given_note : Option String → List NotePart
given_note none = []
given_note (some text) = if text == "" then [] else given text ∷ []

-- `trial_set_comparison`; an index may be handed in, else it is built.
pub trial_set_comparison :
    List String → TrialSets → Option String → List String → Option TrialSetIndex → Comparison
unfolding comparison_note
trial_set_comparison labels sets note strict_unknown handed =
    let index : TrialSetIndex = elim handed [ none ↦ trial_set_index labels sets | some i ↦ i ] in
    let counts = trial_set_counts labels index strict_unknown in
    record {
      fuzzers = labels;
      counts = counts;
      covered_counts =
          map (λ l. if has_no_rep index l then none else some (length (get_or [] l index.unions)))
            labels;
      sample_sizes = index.sample_sizes;
      usable_sample_sizes = index.usable_sample_sizes;
      has_data = elim index.owners [ [] ↦ false | _ ∷ _ ↦ true ];
      note =
          given_note note
          ++ comparison_note labels index.usable_sample_sizes index.missing_by_label;
      max_value = largest 0 (numbers counts.pairwise_any ++ numbers counts.pairwise_all);
    }
