-- ===== src/Reporting/SetComparison/Loops.antt =====
-- What the loops of `_trial_set_counts` count.
use fuzzmeter.Prelude.{
  ℕ, ◌+◌, ◌≡◌, refl, ap, ◌∙◌, sym, Bool, true, false, not, ◌&&◌, none, some, String, List, [], ◌∷◌,
  arith, Bool-cases, Option-cases, inl, inr, if◌then◌else◌, All,
}
use fuzzmeter.Prelude.Equality.{◌==◌, string_eq, elem}
use fuzzmeter.Prelude.Sets.{IsUnique, count}
use fuzzmeter.Dict.{Dict, get, contains, IsDict, get_of_absent}
use fuzzmeter.Reporting.SetComparison.{
  Counts, bump_pair, visit_cols, is_rep, visit_rows, visit_exclusive, visit_owners,
}
use fuzzmeter.Reporting.SetComparison.WellFormed.{IsOwnerCounts}

abbrev pub one : Bool → ℕ
one true = 1
one false = 0

-- The row owns the value with all its sets.
abbrev pub is_full : Dict String ℕ → String → Dict String ℕ → Bool
is_full reps row oc = elim (get row oc) [ none ↦ false | some n ↦ is_rep reps row n ]

-- The row alone owns the value.
abbrev pub is_only : String → Dict String ℕ → Bool
is_only r ((row, n) ∷ []) = row == r
is_only r _ = false

module _ (oc : Dict String ℕ) (row : String) (in_all : Bool) (r c : String) where
  any-visit_cols :
      (cols : List String) (counts : Counts)
      → IsUnique cols
      → (visit_cols oc row in_all cols counts).pairwise_any r c
        ≡ counts.pairwise_any r c + one (row == r && elem c cols && not (contains c oc))
  unfolding visit_cols
  any-visit_cols [] counts u = ground arith
  any-visit_cols (col ∷ cols) counts u = elim (Bool-cases (col == c)) [
    | inl same ↦
        let eq : col ≡ c = (string_eq.beq_iff col c).0 same in
        let eqn = ap (λ x. contains x oc) eq in
        let new = ap (λ x. elem x cols) (sym eq) ∙ u.0 in
        any-visit_cols cols _ u.1 ∙ ground (arith, string_eq.beq_iff c col)
    | inr other ↦
        any-visit_cols cols _ u.1 ∙ ground (arith, string_eq.beq_iff c col, string_eq.beq_iff col c)
  ]

  all-visit_cols :
      (cols : List String) (counts : Counts)
      → IsUnique cols
      → (visit_cols oc row in_all cols counts).pairwise_all r c
        ≡ counts.pairwise_all r c + one (in_all && row == r && elem c cols && not (contains c oc))
  unfolding visit_cols
  all-visit_cols [] counts u = ground arith
  all-visit_cols (col ∷ cols) counts u = elim (Bool-cases (col == c)) [
    | inl same ↦
        let eq : col ≡ c = (string_eq.beq_iff col c).0 same in
        let eqn = ap (λ x. contains x oc) eq in
        let new = ap (λ x. elem x cols) (sym eq) ∙ u.0 in
        all-visit_cols cols _ u.1 ∙ ground (arith, string_eq.beq_iff c col)
    | inr other ↦
        all-visit_cols cols _ u.1 ∙ ground (arith, string_eq.beq_iff c col, string_eq.beq_iff col c)
  ]

  exclusive-visit_cols :
      (cols : List String) (counts : Counts)
      → ((visit_cols oc row in_all cols counts).exclusive_any r ≡ counts.exclusive_any r)
        × ((visit_cols oc row in_all cols counts).exclusive_all r ≡ counts.exclusive_all r)
  unfolding visit_cols
  exclusive-visit_cols [] counts = (refl, refl)
  exclusive-visit_cols (col ∷ cols) counts =
      let (any_same, all_same) = exclusive-visit_cols cols (
        if contains col oc then counts else record counts {
          pairwise_any = bump_pair row col counts.pairwise_any;
          pairwise_all =
              if in_all then bump_pair row col counts.pairwise_all else counts.pairwise_all;
        }) in
      (any_same ∙ ground arith, all_same ∙ ground arith)

module _ (reps : Dict String ℕ) (labels : List String) (unique : IsUnique labels) where
  module _ (oc : Dict String ℕ) (r c : String) where
    any-visit_rows :
        (items : Dict String ℕ) (counts : Counts)
        → IsDict items
        → (visit_rows reps labels oc items counts).pairwise_any r c
          ≡ counts.pairwise_any r c + one (contains r items && elem c labels && not (contains c oc))
    unfolding visit_rows
    any-visit_rows [] counts d = ground arith
    any-visit_rows ((row, n) ∷ items) counts d =
        any-visit_rows items _ d.1
        ∙ (let here = any-visit_cols oc row (is_rep reps row n) r c labels counts unique in
            elim (Bool-cases (row == r)) [
              | inl same ↦
                  let eq =
                    ap (λ x. contains x items) (sym ((string_eq.beq_iff row r).0 same)) ∙ d.0 in
                  ground (arith, string_eq.beq_iff r row, string_eq.beq_iff row r)
              | inr other ↦ ground (arith, string_eq.beq_iff r row, string_eq.beq_iff row r)
            ])

    all-visit_rows :
        (items : Dict String ℕ) (counts : Counts)
        → IsDict items
        → (visit_rows reps labels oc items counts).pairwise_all r c
          ≡ counts.pairwise_all r c
            + one (is_full reps r items && elem c labels && not (contains c oc))
    unfolding visit_rows
    all-visit_rows [] counts d = ground arith
    all-visit_rows ((row, n) ∷ items) counts d =
        all-visit_rows items _ d.1
        ∙ (let here = all-visit_cols oc row (is_rep reps row n) r c labels counts unique in
            elim (Bool-cases (row == r)) [
              | inl same ↦
                  let eq : row ≡ r = (string_eq.beq_iff row r).0 same in
                  let rep = ap (λ x. is_rep reps x n) eq in
                  let none_left = absent row items d.0 r eq in ground arith
              | inr other ↦ ground (arith, string_eq.beq_iff row r)
            ])
      where
        absent :
            (k : String) (d : Dict String ℕ)
            → contains k d ≡ false
            → (x : String) → k ≡ x
            → is_full reps x d ≡ false
        absent k d h x q = elim (Option-cases (get x d)) [
          | inl e ↦ rw (e, is_full) refl
          | inr (m, e) ↦ absurd (get_of_absent x m d (ap (λ y. contains y d) (sym q) ∙ h) e)
        ]

    exclusive-visit_rows :
        (items : Dict String ℕ) (counts : Counts)
        → ((visit_rows reps labels oc items counts).exclusive_any r ≡ counts.exclusive_any r)
          × ((visit_rows reps labels oc items counts).exclusive_all r ≡ counts.exclusive_all r)
    unfolding visit_rows
    exclusive-visit_rows [] counts = (refl, refl)
    exclusive-visit_rows ((row, n) ∷ items) counts =
        let (any_here, all_here) =
          exclusive-visit_cols oc row (is_rep reps row n) r c labels counts in
        let (any_rest, all_rest) =
          exclusive-visit_rows items (visit_cols oc row (is_rep reps row n) labels counts) in
        (any_rest ∙ any_here, all_rest ∙ all_here)

  visit_exclusive-counts :
      (oc : Dict String ℕ) (r c : String) (counts : Counts)
      → ((visit_exclusive reps oc counts).exclusive_any r
          ≡ counts.exclusive_any r + one (is_only r oc))
        × ((visit_exclusive reps oc counts).exclusive_all r
            ≡ counts.exclusive_all r + one (is_only r oc && is_full reps r oc))
        × ((visit_exclusive reps oc counts).pairwise_any r c ≡ counts.pairwise_any r c)
        × ((visit_exclusive reps oc counts).pairwise_all r c ≡ counts.pairwise_all r c)
  unfolding visit_exclusive
  visit_exclusive-counts [] r c counts = (ground arith, ground arith, refl, refl)
  visit_exclusive-counts ((row, n) ∷ o ∷ oc) r c counts = (ground arith, ground arith, refl, refl)
  visit_exclusive-counts ((row, n) ∷ []) r c counts = elim (Bool-cases (row == r)) [
    | inl same ↦
        let eq : row ≡ r = (string_eq.beq_iff row r).0 same in
        let rep = ap (λ x. is_rep reps x n) eq in (ground arith, ground arith, refl, refl)
    | inr other ↦ (ground arith, ground arith, refl, refl)
  ]

  module _ (r c : String) where
    abbrev pub any_pair : Dict String ℕ → Bool
    any_pair oc = contains r oc && elem c labels && not (contains c oc)

    abbrev pub all_pair : Dict String ℕ → Bool
    all_pair oc = is_full reps r oc && elem c labels && not (contains c oc)

    abbrev pub only_full : Dict String ℕ → Bool
    only_full oc = is_only r oc && is_full reps r oc

    pub visit_owners-counts :
        (owners : List (Dict String ℕ)) (counts : Counts)
        → All (IsOwnerCounts labels) owners
        → ((visit_owners reps labels owners counts).pairwise_any r c
            ≡ counts.pairwise_any r c + count any_pair owners)
          × ((visit_owners reps labels owners counts).pairwise_all r c
              ≡ counts.pairwise_all r c + count all_pair owners)
          × ((visit_owners reps labels owners counts).exclusive_any r
              ≡ counts.exclusive_any r + count (is_only r) owners)
          × ((visit_owners reps labels owners counts).exclusive_all r
              ≡ counts.exclusive_all r + count only_full owners)
    unfolding visit_owners
    visit_owners-counts [] counts h = (omega arith, omega arith, omega arith, omega arith)
    visit_owners-counts (oc ∷ owners) counts h =
        let before = visit_exclusive reps oc counts in
        let (p, q, x, y) = visit_owners-counts owners (visit_rows reps labels oc oc before) h.1 in
        let (ex_any, ex_all, pair_any, pair_all) = visit_exclusive-counts oc r c counts in
        let (same_any, same_all) = exclusive-visit_rows oc r c oc before in
        let rows_any = any-visit_rows oc r c oc before h.0.distinct in
        let rows_all = all-visit_rows oc r c oc before h.0.distinct in
        (ground arith, ground arith, ground arith, ground arith)
