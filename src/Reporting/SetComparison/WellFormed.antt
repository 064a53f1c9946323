-- ===== src/Reporting/SetComparison/WellFormed.antt =====
-- The owners of the index are dictionaries whose labels are among the report's.
use fuzzmeter.Prelude.{
  ℕ, ◌≡◌, refl, ap, ◌∙◌, sym, Bool, true, false, String, List, [], ◌∷◌, arith, Bool-cases, inl, inr,
  All,
}
use fuzzmeter.Prelude.Equality.{◌==◌, string_eq, elem, beq_refl}
use fuzzmeter.Prelude.Sets.{count, count_cong}
use fuzzmeter.Dict.{Dict, put, keys, values, contains, IsDict, contains-put, put-IsDict}
use fuzzmeter.Reporting.SetComparison.{
  TrialSets, TrialSetIndex, get_or, usable, trial_sets_of, count_trials, record_owners, index_label,
  index_labels, no_index, trial_set_index,
}

pub record IsOwnerCounts (labels : List String) (owner_counts : Dict String ℕ) : Type 0 where
  pub distinct : IsDict owner_counts
  pub within : (k : String) → contains k owner_counts ≡ true → elem k labels ≡ true

pub record IsOwners (labels : List String) (owners : Dict String (Dict String ℕ)) : Type 0 where
  pub distinct : IsDict owners
  pub each : All (IsOwnerCounts labels) (values owners)

module _ (P : Dict String ℕ → Type 0) where
  All-put :
      (k : String) (v : Dict String ℕ) (d : Dict String (Dict String ℕ))
      → P v
      → All P (values d)
      → All P (values (put k v d))
  All-put k v [] p h = (p, tt)
  All-put k v ((j, w) ∷ d) p h = elim (Bool-cases (j == k)) [
    | inl same ↦ rw same (p, h.1)
    | inr other ↦ rw other (h.0, All-put k v d p h.1)
  ]

  pub All-get :
      (k : String) (d : Dict String (Dict String ℕ)) → P [] → All P (values d) → P (get_or [] k d)
  All-get k [] p h = p
  All-get k ((j, w) ∷ d) p h = elim (Bool-cases (j == k)) [
    | inl same ↦ rw (same, get_or) h.0
    | inr other ↦ rw (other, get_or) (All-get k d p h.1)
  ]

module _ (labels : List String) where
  pub none-IsOwnerCounts : IsOwnerCounts labels []
  none-IsOwnerCounts = record { distinct = tt; within = λ k e. cc }

  put-IsOwnerCounts :
      (label : String) (n : ℕ) (oc : Dict String ℕ)
      → elem label labels ≡ true
      → IsOwnerCounts labels oc
      → IsOwnerCounts labels (put label n oc)
  put-IsOwnerCounts label n oc known h = record {
    distinct = put-IsDict label n oc h.distinct;
    within = within;
  }
    where
      within : (k : String) → contains k (put label n oc) ≡ true → elem k labels ≡ true
      within k e = elim (Bool-cases (label == k)) [
        | inl same ↦ ap (λ x. elem x labels) (sym ((string_eq.beq_iff label k).0 same)) ∙ known
        | inr other ↦ h.within k (ground (arith, contains-put label k n oc))
      ]

  record_owners-IsOwners :
      (label : String) (counter : Dict String ℕ) (owners : Dict String (Dict String ℕ))
      → elem label labels ≡ true
      → IsOwners labels owners
      → IsOwners labels (record_owners label counter owners)
  unfolding record_owners
  record_owners-IsOwners label [] owners known h = h
  record_owners-IsOwners label ((value, n) ∷ counter) owners known h =
      record_owners-IsOwners label counter _ known (record {
        distinct = put-IsDict value _ owners h.distinct;
        each =
            All-put (IsOwnerCounts labels) value _ owners
              (put-IsOwnerCounts label n _ known
                (All-get (IsOwnerCounts labels) value owners none-IsOwnerCounts h.each))
              h.each;
      })

  index_labels-IsOwners :
      (sets : TrialSets) (rest : List String) (index : TrialSetIndex)
      → ((l : String) → elem l rest ≡ true → elem l labels ≡ true)
      → IsOwners labels index.owners
      → IsOwners labels (index_labels sets rest index).owners
  unfolding index_labels index_label
  index_labels-IsOwners sets [] index known h = h
  index_labels-IsOwners sets (label ∷ rest) index known h =
      index_labels-IsOwners sets rest (index_label sets label index) (λ l e. known l (ground arith))
        (record_owners-IsOwners label (count_trials (usable (trial_sets_of sets label)) [])
          index.owners (known label (ground (arith, string_eq.beq_iff label label))) h)

  pub trial_set_index-IsOwners :
      (sets : TrialSets) → IsOwners labels (trial_set_index labels sets).owners
  unfolding trial_set_index
  trial_set_index-IsOwners sets =
      index_labels-IsOwners sets labels (no_index labels) (λ l e. e)
        (record { distinct = tt; each = tt })

-- An entry in front changes nothing for the keys of the others.
same_behind :
    (p : Dict String ℕ → Bool) (k : String) (v : Dict String ℕ)
    (d rest : Dict String (Dict String ℕ))
    → contains k rest ≡ false
    → All (λ x. p (get_or [] x ((k, v) ∷ d)) ≡ p (get_or [] x d)) (keys rest)
same_behind p k v d [] h = tt
same_behind p k v d ((j, w) ∷ rest) h =
    (rw (apart, get_or) refl, same_behind p k v d rest (ground arith))
  where
    apart : (k == j) ≡ false
    apart = ground arith

-- A count over the entries is a count over the keys.
pub count-values :
    (p : Dict String ℕ → Bool) (d : Dict String (Dict String ℕ))
    → IsDict d
    → count p (values d) ≡ count (λ k. p (get_or [] k d)) (keys d)
count-values p [] h = refl
count-values p ((k, v) ∷ d) h =
    let here : p (get_or [] k ((k, v) ∷ d)) ≡ p v = rw (beq_refl k, get_or) refl in
    ground (
      arith,
      count-values p d h.1,
      count_cong (λ x. p (get_or [] x ((k, v) ∷ d))) (λ x. p (get_or [] x d)) (keys d)
          (same_behind p k v d d h.0),
    )
