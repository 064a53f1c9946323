-- ===== src/Reporting/SetComparison/Bounds.antt =====
-- What the bounds say of the trials that a run should have had.
use fuzzmeter.Prelude.{
  ℕ, ◌≤◌, ◌≡◌, refl, ap, ◌∙◌, sym, Bool, true, false, not, ◌||◌, Option, none, some, String, List,
  [], ◌∷◌, ◌++◌, arith, Bool-cases, inl, inr, nat_beq, length,
}
use native.Mathlib.Nat.{le_antisymm}
use mathlib.Core.Path.{subst}
use fuzzmeter.Prelude.Equality.{◌==◌, string_eq, elem}
use fuzzmeter.Prelude.Sets.{
  IsUnique, union, in_some, elem-union, union-IsUnique, difference_size, intersection,
  count-le_subset, count-le_weaker,
}
use fuzzmeter.Reporting.SetComparison.{
  TrialSets, Bound, exact, lower, upper, indeterminate, unknown, any_bound, all_bound, usable,
  trial_sets_of, trial_set_index, trial_set_counts,
}
use fuzzmeter.Reporting.SetComparison.Index.{trials_of, AreSets}
use fuzzmeter.Reporting.SetComparison.Sizes.{other_sets, in_some-append}
use fuzzmeter.Reporting.SetComparison.Cells.{
  entry, cell_at, lacks, others_lack, any_spec, all_spec, pairwise_cells, exclusive_cells,
}

-- What a cell claims of the count `m` that the whole trials would have given.
abbrev pub Claims : Option ℕ × Bound → ℕ → Type 0
Claims (none, unknown) m = Unit
Claims (none, _) m = ⊥
Claims (some n, exact) m = n ≡ m
Claims (some n, lower) m = n ≤ m
Claims (some n, upper) m = m ≤ n
Claims (some n, indeterminate) m = Unit
Claims (some n, unknown) m = ⊥

-- The whole trials of a label: each set that is there, and some set for each that is missing.
abbrev pub Completes : List (Option (List String)) → List (List String) → Type 0
Completes [] [] = Unit
Completes (none ∷ sets) (vs ∷ trials) = Completes sets trials
Completes (some ws ∷ sets) (vs ∷ trials) = (ws ≡ vs) × Completes sets trials
Completes _ _ = ⊥

-- Every element of one collection is an element of the other.
abbrev Within : List (List String) → List (List String) → Type 0
Within xs ys = (v : String) → in_some v xs ≡ true → in_some v ys ≡ true

Completes-Within :
    (sets : List (Option (List String))) (trials : List (List String))
    → Completes sets trials
    → Within (usable sets) trials
Completes-Within [] [] c v i = i
Completes-Within [] (vs ∷ trials) c v i = absurd c
Completes-Within (none ∷ sets) [] c v i = absurd c
Completes-Within (some ws ∷ sets) [] c v i = absurd c
Completes-Within (none ∷ sets) (vs ∷ trials) c v i =
    ground (arith, Completes-Within sets trials c v)
Completes-Within (some ws ∷ sets) (vs ∷ trials) c v i =
    let same = ap (λ x. elem v x) c.0 in ground (arith, Completes-Within sets trials c.1 v)

usable-le : (sets : List (Option (List String))) → length (usable sets) ≤ length sets
usable-le [] = omega arith
usable-le (none ∷ sets) = omega (arith, usable-le sets)
usable-le (some vs ∷ sets) = omega (arith, usable-le sets)

-- With no set missing the trials are the usable sets.
Completes-eq :
    (sets : List (Option (List String))) (trials : List (List String))
    → Completes sets trials
    → length sets ≤ length (usable sets)
    → usable sets ≡ trials
Completes-eq [] [] c h = refl
Completes-eq [] (vs ∷ trials) c h = absurd c
Completes-eq (none ∷ sets) [] c h = absurd c
Completes-eq (some ws ∷ sets) [] c h = absurd c
Completes-eq (none ∷ sets) (vs ∷ trials) c h = absurd (omega (arith, usable-le sets))
Completes-eq (some ws ∷ sets) (vs ∷ trials) c h =
    let rest = Completes-eq sets trials c.1 (omega arith) in let first = c.0 in cc

difference-le :
    (xs xs' ys ys' : List (List String))
    → Within xs xs'
    → Within ys' ys
    → difference_size (union xs) (union ys) ≤ difference_size (union xs') (union ys')
difference-le xs xs' ys ys' w v = grind (
  arith,
  count-le_subset (λ a. not (elem a (union ys))) (union xs) (union xs') (union-IsUnique xs)
      (λ a p i. elem-union a xs' ∙ w a (sym (elem-union a xs) ∙ i)),
  count-le_weaker (λ a. not (elem a (union ys))) (λ a. not (elem a (union ys'))) (union xs')
      (λ a p. ground (arith, elem-union a ys, elem-union a ys', v a)),
)

intersection-le :
    (xs ys ys' : List (List String))
    → Within ys' ys
    → difference_size (intersection xs) (union ys) ≤ difference_size (intersection xs) (union ys')
intersection-le xs ys ys' v =
    count-le_weaker (λ a. not (elem a (union ys))) (λ a. not (elem a (union ys'))) (intersection xs)
      (λ a p. ground (arith, elem-union a ys, elem-union a ys', v a))

-- The row's trials and the others', as they are there and whole.
record Parts (xs xs' ys ys' : List (List String)) (row_lacks others_lack : Bool) : Type 0 where
  row_within : Within xs xs'
  others_within : Within ys ys'
  row_same : row_lacks ≡ false → xs ≡ xs'
  others_same : others_lack ≡ false → Within ys' ys

Within-refl : (xs : List (List String)) → Within xs xs
Within-refl xs v i = i

any-Claims :
    (row_lacks others_lack : Bool) {xs xs' ys ys' : List (List String)}
    → Parts xs xs' ys ys' row_lacks others_lack
    → Claims
        (some (difference_size (union xs) (union ys)), any_bound row_lacks others_lack)
        (difference_size (union xs') (union ys'))
any-Claims true true {xs} {xs'} {ys} {ys'} p = tt
any-Claims true false {xs} {xs'} {ys} {ys'} p =
    difference-le xs xs' ys ys' p.row_within (p.others_same refl)
any-Claims false true {xs} {xs'} {ys} {ys'} p =
    difference-le xs' xs ys' ys (subst (λ zs. Within zs xs) (p.row_same refl) (Within-refl xs))
      p.others_within
any-Claims false false {xs} {xs'} {ys} {ys'} p =
    le_antisymm (difference-le xs xs' ys ys' p.row_within (p.others_same refl)) (
      difference-le xs' xs ys' ys (subst (λ zs. Within zs xs) (p.row_same refl) (Within-refl xs))
        p.others_within)

all-Claims :
    (others_lack : Bool) {xs xs' ys ys' : List (List String)}
    → Parts xs xs' ys ys' false others_lack
    → Claims
        (some (difference_size (intersection xs) (union ys)), all_bound others_lack)
        (difference_size (intersection xs') (union ys'))
all-Claims true {xs} {xs'} {ys} {ys'} p =
    subst
      (λ zs.
        difference_size (intersection zs) (union ys')
        ≤ difference_size (intersection xs) (union ys))
      (p.row_same refl) (intersection-le xs ys' ys p.others_within)
all-Claims false {xs} {xs'} {ys} {ys'} p =
    subst
      (λ zs.
        difference_size (intersection xs) (union ys)
        ≡ difference_size (intersection zs) (union ys'))
      (p.row_same refl)
      (le_antisymm (intersection-le xs ys ys' (p.others_same refl))
        (intersection-le xs ys' ys p.others_within))

Within-append :
    (xs xs' ys ys' : List (List String))
    → Within xs xs'
    → Within ys ys'
    → Within (xs ++ ys) (xs' ++ ys')
Within-append xs xs' ys ys' w z v i =
    ground (arith, in_some-append v xs ys, in_some-append v xs' ys', w v, z v)

module _ (sets : TrialSets) (whole : String → List (List String)) where
  lacks_not :
      (l : String)
      → Completes (trial_sets_of sets l) (whole l)
      → lacks sets l ≡ false
      → trials_of sets l ≡ whole l
  lacks_not l c h = Completes-eq (trial_sets_of sets l) (whole l) c (ground arith)

  others_parts :
      (row : String) (labels : List String)
      → ((l : String) → elem l labels ≡ true → Completes (trial_sets_of sets l) (whole l))
      → Within (other_sets (trials_of sets) row labels) (other_sets whole row labels)
        × (others_lack sets labels row ≡ false
            → Within (other_sets whole row labels) (other_sets (trials_of sets) row labels))
  others_parts row [] c = (Within-refl [], λ h. Within-refl [])
  others_parts row (l ∷ labels) c =
      let rest = others_parts row labels (λ k i. c k (ground arith)) in
      let here = c l (ground (arith, string_eq.beq_iff l l)) in
      elim (Bool-cases (l == row)) [
        | inl same ↦ rw same rest
        | inr other ↦ rw other (
          Within-append (trials_of sets l) (whole l) (other_sets (trials_of sets) row labels)
              (other_sets whole row labels) (Completes-Within (trial_sets_of sets l) (whole l) here)
              rest.0,
          λ h.
              Within-append (whole l) (trials_of sets l) (other_sets whole row labels)
                (other_sets (trials_of sets) row labels)
                (subst (λ zs. Within zs (trials_of sets l)) (lacks_not l here (ground arith))
                  (Within-refl (trials_of sets l)))
                (rest.1 (ground arith)),
        )
      ]

-- The number of values that some set of the row holds and no set of the others, and of those that
-- every set of the row holds: `m` is known as far as the cell says.
abbrev pub Cell : Option (Option ℕ × Bound) → ℕ → Type 0
Cell cell m = (c : Option ℕ × Bound) × (cell ≡ some c) × Claims c m

module _ (labels : List String) (sets : TrialSets) (strict_unknown : List String)
    (unique : IsUnique labels) (u : AreSets sets) (whole : String → List (List String))
    (completes : (l : String) → elem l labels ≡ true → Completes (trial_sets_of sets l) (whole l))
    (row : String) (known : elem row labels ≡ true) where
  row-Parts :
      (ys ys' : List (List String)) (others_lack : Bool)
      → Within ys ys'
      → (others_lack ≡ false → Within ys' ys)
      → Parts (trials_of sets row) (whole row) ys ys' (lacks sets row) others_lack
  row-Parts ys ys' others_lack w same = record {
    row_within = Completes-Within (trial_sets_of sets row) (whole row) (completes row known);
    others_within = w;
    row_same = lacks_not sets whole row (completes row known);
    others_same = same;
  }

  any_spec-Claims :
      (ys ys' : List (List String)) (others_lack : Bool)
      → Parts (trials_of sets row) (whole row) ys ys' (lacks sets row) others_lack
      → Claims (any_spec sets row others_lack ys) (difference_size (union (whole row)) (union ys'))
  any_spec-Claims ys ys' others_lack p =
      elim (Bool-cases (nat_beq (length (trials_of sets row)) 0)) [
        | inl empty ↦ rw empty tt
        | inr some_set ↦ rw some_set (any-Claims (lacks sets row) others_lack p)
      ]

  all_spec-Claims :
      (ys ys' : List (List String)) (others_lack : Bool)
      → Parts (trials_of sets row) (whole row) ys ys' (lacks sets row) others_lack
      → Claims
          (all_spec sets strict_unknown row others_lack ys)
          (difference_size (intersection (whole row)) (union ys'))
  all_spec-Claims ys ys' others_lack p =
      elim (Bool-cases
        (nat_beq (length (trials_of sets row)) 0 || lacks sets row || elem row strict_unknown)) [
          | inl none_known ↦ rw none_known tt
          | inr all_known ↦ rw all_known (
              all-Claims others_lack (
                subst (λ b. Parts (trials_of sets row) (whole row) ys ys' b others_lack)
                  (ground arith) p))
        ]

  -- With distinct labels and sets of distinct values, whatever sets the missing ones were: where
  -- an exclusive cell has a number, its bound holds of the number that all sets together would
  -- have given.
  pub exclusive_bounds :
      Cell
        (entry row labels
          (trial_set_counts labels (trial_set_index labels sets) strict_unknown).exclusive_any)
        (difference_size (union (whole row)) (union (other_sets whole row labels)))
      × Cell
          (entry row labels
            (trial_set_counts labels (trial_set_index labels sets) strict_unknown).exclusive_all)
          (difference_size (intersection (whole row)) (union (other_sets whole row labels)))
  exclusive_bounds =
      let (w, same) = others_parts sets whole row labels completes in
      let p =
        row-Parts (other_sets (trials_of sets) row labels) (other_sets whole row labels)
          (others_lack sets labels row) w same in
      let cells = exclusive_cells labels sets strict_unknown unique u row known in
      ((_, cells.0, any_spec-Claims _ _ _ p), (_, cells.1, all_spec-Claims _ _ _ p))

  module _ (col : String) (known_col : elem col labels ≡ true) where
    -- With distinct labels and sets of distinct values, whatever sets the missing ones were:
    -- where a cell of the two matrices has a number, its bound holds of the number that all sets
    -- together would have given: it is exact, at least the number, at most it, or not said.
    pub pairwise_bounds :
        Cell
          (cell_at row col labels
            (trial_set_counts labels (trial_set_index labels sets) strict_unknown).pairwise_any)
          (difference_size (union (whole row)) (union (whole col)))
        × Cell
            (cell_at row col labels
              (trial_set_counts labels (trial_set_index labels sets) strict_unknown).pairwise_all)
            (difference_size (intersection (whole row)) (union (whole col)))
    pairwise_bounds =
        let c = completes col known_col in
        let p =
          row-Parts (trials_of sets col) (whole col) (lacks sets col)
            (Completes-Within (trial_sets_of sets col) (whole col) c)
            (λ h.
              subst (λ zs. Within zs (trials_of sets col)) (lacks_not sets whole col c h)
                (Within-refl (trials_of sets col))) in
        let cells = pairwise_cells labels sets strict_unknown unique u row known col known_col in
        ((_, cells.0, any_spec-Claims _ _ _ p), (_, cells.1, all_spec-Claims _ _ _ p))
