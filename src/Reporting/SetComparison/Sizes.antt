-- ===== src/Reporting/SetComparison/Sizes.antt =====
-- The counts of the loops as sizes of differences of sets.
use fuzzmeter.Prelude.{
  ℕ, ◌≤◌, ◌≡◌, refl, ap, ◌∙◌, sym, Bool, true, false, not, ◌&&◌, ◌||◌, Option, none, some, String,
  List, [], ◌∷◌, ◌++◌, arith, Bool-cases, Option-cases, inl, inr, if◌then◌else◌, All, nat_beq, any,
  length,
}
use fuzzmeter.Prelude.Equality.{◌==◌, string_eq, elem}
use fuzzmeter.Prelude.Sets.{
  IsUnique, count, count_cong, count_same, union, in_some, in_every, elem-union, union-IsUnique,
  difference_size, intersection, count-filter, any_none, any_cong, any_of_elem, All-elem,
}
use fuzzmeter.Dict.{Dict, get, keys, values, contains, IsDict, contains-get}
use fuzzmeter.Reporting.SetComparison.{
  TrialSets, TrialSetIndex, get_or, no_index, trial_set_index, no_counts, owner_totals,
}
use fuzzmeter.Reporting.SetComparison.Owners.{held, positive}
use fuzzmeter.Reporting.SetComparison.Index.{
  trials_of, AreSets, missing, reps-index_labels, missing-index_labels, owned-index_labels,
}
use fuzzmeter.Reporting.SetComparison.WellFormed.{
  All-get, none-IsOwnerCounts, IsOwnerCounts, trial_set_index-IsOwners, count-values,
}
use fuzzmeter.Reporting.SetComparison.Loops.{
  is_full, is_only, any_pair, all_pair, only_full, visit_owners-counts,
}

pub held_some :
    (v : String) (trials : List (List String)) → nat_beq (held v trials) 0 ≡ not (in_some v trials)
held_some v [] = refl
held_some v (vs ∷ trials) = ground (arith, held_some v trials)

held-le : (v : String) (trials : List (List String)) → held v trials ≤ length trials
held-le v [] = omega arith
held-le v (vs ∷ trials) = ground (arith, held-le v trials)

held_every :
    (v : String) (trials : List (List String))
    → nat_beq (held v trials) (length trials) ≡ in_every v trials
held_every v [] = refl
held_every v (vs ∷ trials) = ground (arith, held_every v trials, held-le v trials)

-- The sets of all labels but one.
abbrev pub other_sets : (String → List (List String)) → String → List String → List (List String)
other_sets trials row [] = []
other_sets trials row (l ∷ labels) =
    (if l == row then [] else trials l) ++ other_sets trials row labels

pub in_some-append :
    (v : String) (xs ys : List (List String))
    → in_some v (xs ++ ys) ≡ (in_some v xs || in_some v ys)
in_some-append v [] ys = refl
in_some-append v (x ∷ xs) ys = ground (arith, in_some-append v xs ys)

pub in_other_sets :
    (sets : TrialSets) (row v : String) (labels : List String)
    → in_some v (other_sets (trials_of sets) row labels)
      ≡ any (λ l. not (l == row) && in_some v (trials_of sets l)) labels
in_other_sets sets row v [] = refl
in_other_sets sets row v (l ∷ labels) = elim (Bool-cases (l == row)) [
  | inl same ↦ rw same (in_other_sets sets row v labels)
  | inr other ↦ rw other (
      in_some-append v (trials_of sets l) (other_sets (trials_of sets) row labels)
      ∙ ap (λ b. in_some v (trials_of sets l) || b) (in_other_sets sets row v labels))
]

-- The only owner is the row exactly if the row is an owner and no other label is.
is_only_lem :
    (labels : List String) (r : String) (oc : Dict String ℕ)
    → IsOwnerCounts labels oc
    → is_only r oc ≡ (contains r oc && not (any (λ l. not (l == r) && contains l oc) labels))
is_only_lem labels r [] h = refl
is_only_lem labels r ((row, n) ∷ []) h = elim (Bool-cases (row == r)) [
  | inl same ↦
      let no_other =
        any_none (λ l. not (l == r) && contains l ((row, n) ∷ [])) labels
          (λ l.
            ground
              (arith, string_eq.beq_iff row r, string_eq.beq_iff l row, string_eq.beq_iff l r)) in
      ground (arith, string_eq.beq_iff row r, string_eq.beq_iff r row)
  | inr other ↦ ground (arith, string_eq.beq_iff row r, string_eq.beq_iff r row)
]
is_only_lem labels r ((k, n) ∷ (j, m) ∷ oc) h = elim (Bool-cases (k == r)) [
  | inl first ↦
      let apart = h.distinct.0 in
      ground (
        arith,
        another j (h.within j (ground (arith, string_eq.beq_iff j j))) (
            ground (
              arith,
              string_eq.beq_iff j j,
              string_eq.beq_iff j r,
              string_eq.beq_iff k r,
              string_eq.beq_iff k j,
            )),
      )
  | inr other ↦ ground (
    arith,
    another k (h.within k (ground (arith, string_eq.beq_iff k k)))
        (ground (arith, string_eq.beq_iff k k)),
  )
]
  where
    another :
        (l : String)
        → elem l labels ≡ true
        → (not (l == r) && contains l ((k, n) ∷ (j, m) ∷ oc)) ≡ true
        → any (λ l. not (l == r) && contains l ((k, n) ∷ (j, m) ∷ oc)) labels ≡ true
    another l known is_other =
        any_of_elem (λ l. not (l == r) && contains l ((k, n) ∷ (j, m) ∷ oc)) l labels known is_other

keys-IsUnique : (d : Dict String (Dict String ℕ)) → IsDict d → IsUnique (keys d)
keys-IsUnique [] h = tt
keys-IsUnique ((k, v) ∷ d) h = (h.0, keys-IsUnique d h.1)

-- A key with entries is a key.
known_key :
    (r v : String) (d : Dict String (Dict String ℕ))
    → contains r (get_or [] v d) ≡ true
    → contains v d ≡ true
known_key r v d h = elim (Option-cases (get v d)) [
  | inl e ↦ absurd (
      nothing (
        ap
          (λ (o : Option (Dict String ℕ)).
            contains r (elim o as (λ x. Dict String ℕ) [ none ↦ [] | some m ↦ m ]))
          (sym e)
        ∙ h))
  | inr (m, e) ↦ contains-get v d ∙ rw e refl
]
  where
    nothing : false ≡ true → ⊥
    nothing q = cc

module _ (labels : List String) (sets : TrialSets) (unique : IsUnique labels)
    (u : AreSets sets) where
  index : TrialSetIndex
  index = trial_set_index labels sets

  -- The owner counts of a value.
  owner_counts : String → Dict String ℕ
  unfolding index
  owner_counts v = get_or [] v index.owners

  reps_index :
      (l : String) → elem l labels ≡ true → get_or 0 l index.reps ≡ length (trials_of sets l)
  unfolding index trial_set_index
  reps_index l known = reps-index_labels sets labels (no_index labels) l ∙ rw known refl

  missing_index :
      (l : String) → elem l labels ≡ true → get_or 0 l index.missing_by_label ≡ missing sets l
  unfolding index trial_set_index
  missing_index l known = missing-index_labels sets labels (no_index labels) l ∙ rw known refl

  owned_index :
      (v l : String)
      → elem l labels ≡ true
      → get l (owner_counts v) ≡ positive (held v (trials_of sets l))
  unfolding index trial_set_index owner_counts
  owned_index v l known =
      owned-index_labels sets labels (no_index labels) v l u ∙ rw known (ground arith)

  contains_owner :
      (v l : String)
      → elem l labels ≡ true
      → contains l (owner_counts v) ≡ in_some v (trials_of sets l)
  contains_owner v l known =
      contains-get l (owner_counts v)
      ∙ ground (arith, owned_index v l known, held_some v (trials_of sets l))

  full_owner :
      (v l : String)
      → elem l labels ≡ true
      → is_full index.reps l (owner_counts v)
        ≡ (in_some v (trials_of sets l) && in_every v (trials_of sets l))
  full_owner v l known = ground (
    arith,
    owned_index v l known,
    reps_index l known,
    held_some v (trials_of sets l),
    held_every v (trials_of sets l),
  )

  -- A test of owner counts that passes only what the row owns counts in the row's union.
  count_owners :
      (p : Dict String ℕ → Bool) (q : String → Bool) (r : String)
      → elem r labels ≡ true
      → ((v : String) → p (owner_counts v) ≡ (in_some v (trials_of sets r) && q v))
      → count p (values index.owners) ≡ count q (union (trials_of sets r))
  unfolding owner_counts
  count_owners p q r known same =
      count-values p index.owners owners_dict
      ∙ count_cong (λ v. p (owner_counts v)) both (keys index.owners)
          (All-elem (λ v. p (owner_counts v) ≡ both v) (keys index.owners) (λ v i. same v))
      ∙ count_same both (keys index.owners) (union trials) (keys-IsUnique index.owners owners_dict)
          (union-IsUnique trials) (λ v passes. listed v passes)
      ∙ count_cong both q (union trials)
          (All-elem (λ v. both v ≡ q v) (union trials) (λ v i. ground (arith, elem-union v trials)))
    where
      trials : List (List String)
      trials = trials_of sets r

      both : String → Bool
      both v = in_some v trials && q v

      owners_dict : IsDict index.owners
      owners_dict = unfold index in (trial_set_index-IsOwners labels sets).distinct

      listed : (v : String) → both v ≡ true → elem v (keys index.owners) ≡ elem v (union trials)
      listed v passes =
          let held_there : in_some v trials ≡ true = ground arith in
          known_key r v index.owners (contains_owner v r known ∙ held_there)
          ∙ sym (elem-union v trials ∙ held_there)

  module _ (row col : String) (known : elem row labels ≡ true)
      (known_col : elem col labels ≡ true) where
    each : All (IsOwnerCounts labels) (values index.owners)
    unfolding index
    each = (trial_set_index-IsOwners labels sets).each

    pub pairwise_any_size :
        (owner_totals labels (trial_set_index labels sets)).pairwise_any row col
        ≡ difference_size (union (trials_of sets row)) (union (trials_of sets col))
    unfolding owner_totals index
    pairwise_any_size =
        (visit_owners-counts index.reps labels unique row col (values index.owners) no_counts
          each).0
        ∙ omega (
          arith,
          count_owners (any_pair index.reps labels unique row col)
              (λ v. not (elem v (union (trials_of sets col)))) row known
              (λ v. ground (
                arith,
                contains_owner v row known,
                contains_owner v col known_col,
                elem-union v (trials_of sets col),
              )),
        )

    pub pairwise_all_size :
        (owner_totals labels (trial_set_index labels sets)).pairwise_all row col
        ≡ difference_size (intersection (trials_of sets row)) (union (trials_of sets col))
    unfolding owner_totals index intersection
    pairwise_all_size =
        (visit_owners-counts index.reps labels unique row col (values index.owners) no_counts
          each).1
        ∙ omega (
          arith,
          count_owners (all_pair index.reps labels unique row col)
              (λ v. in_every v (trials_of sets row) && not (elem v (union (trials_of sets col))))
              row known
              (λ v. ground (
                arith,
                full_owner v row known,
                contains_owner v col known_col,
                elem-union v (trials_of sets col),
              )),
          count-filter (λ v. not (elem v (union (trials_of sets col))))
              (λ v. in_every v (trials_of sets row)) (union (trials_of sets row)),
        )

  module _ (row : String) (known : elem row labels ≡ true) where
    each_owner : All (IsOwnerCounts labels) (values index.owners)
    unfolding index
    each_owner = (trial_set_index-IsOwners labels sets).each

    others : List (List String)
    others = other_sets (trials_of sets) row labels

    -- The test of one owner, at a value.
    only_owner :
        (v : String)
        → is_only row (owner_counts v)
          ≡ (in_some v (trials_of sets row) && not (elem v (union others)))
    unfolding others owner_counts index
    only_owner v =
        is_only_lem labels row (owner_counts v)
          (All-get (IsOwnerCounts labels) v index.owners (none-IsOwnerCounts labels) each_owner)
        ∙ ground (
          arith,
          contains_owner v row known,
          elem-union v (other_sets (trials_of sets) row labels),
          in_other_sets sets row v labels,
          any_cong (λ l. not (l == row) && contains l (owner_counts v))
              (λ l. not (l == row) && in_some v (trials_of sets l)) labels
              (All-elem _ labels (λ l i. ground (arith, contains_owner v l i))),
        )

    pub exclusive_any_size :
        (owner_totals labels (trial_set_index labels sets)).exclusive_any row
        ≡ difference_size
            (union (trials_of sets row))
            (union (other_sets (trials_of sets) row labels))
    unfolding owner_totals index others
    exclusive_any_size =
        (visit_owners-counts index.reps labels unique row row (values index.owners) no_counts
          each_owner).2
        ∙ omega (
          arith,
          count_owners (is_only row) (λ v. not (elem v (union others))) row known only_owner,
        )

    pub exclusive_all_size :
        (owner_totals labels (trial_set_index labels sets)).exclusive_all row
        ≡ difference_size
            (intersection (trials_of sets row))
            (union (other_sets (trials_of sets) row labels))
    unfolding owner_totals index others intersection
    exclusive_all_size =
        (visit_owners-counts index.reps labels unique row row (values index.owners) no_counts
          each_owner).3
        ∙ omega (
          arith,
          count_owners (only_full index.reps labels unique row row)
              (λ v. in_every v (trials_of sets row) && not (elem v (union others))) row known
              (λ v. ground (arith, only_owner v, full_owner v row known)),
          count-filter (λ v. not (elem v (union others))) (λ v. in_every v (trials_of sets row))
              (union (trials_of sets row)),
        )
