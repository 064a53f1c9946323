-- ===== src/Reporting/SetComparison/Comparison/Largest.antt =====
-- The largest value and the covered counts of a comparison.
use fuzzmeter.Prelude.{
  ℕ, ◌≤◌, ◌≡◌, refl, ap, ◌∙◌, sym, true, ◌||◌, Option, none, some, String, List, [], ◌∷◌, ◌++◌,
  arith, nat_beq, if◌then◌else◌, length, All, Bool-cases, inl, inr,
}
use fuzzmeter.Prelude.Equality.{◌==◌, string_eq, elem}
use fuzzmeter.Prelude.Sets.{IsUnique, count, count_same, union, elem-union, union-IsUnique}
use fuzzmeter.Dict.{Dict, get, keys, IsDict, get-put, contains-get}
use fuzzmeter.Reporting.SetComparison.{
  TrialSets, TrialSetIndex, Bound, get_or, count_trials, index_label, index_labels, no_index,
  trial_set_index, trial_set_counts,
}
use fuzzmeter.Reporting.SetComparison.Owners.{counter-Holds, count_trials-IsDict}
use fuzzmeter.Reporting.SetComparison.Index.{trials_of, AreSets, reps-index_labels}
use fuzzmeter.Reporting.SetComparison.Sizes.{held_some}
use fuzzmeter.Reporting.SetComparison.Cells.{entry, entry-map}
use fuzzmeter.Reporting.SetComparison.Comparison.{
  largest, row_numbers, numbers, trial_set_comparison,
}

abbrev pub CellBelow : ℕ → Option ℕ × Bound → Type 0
CellBelow m (none, b) = Unit
CellBelow m (some n, b) = n ≤ m

largest-le : (n m : ℕ) (ns : List ℕ) → n ≤ m → n ≤ largest m ns
largest-le n m [] h = h
largest-le n m (k ∷ ns) h = ground arith

All-largest : (n : ℕ) (ns : List ℕ) → All (λ m. m ≤ largest n ns) ns
All-largest n [] = tt
All-largest n (m ∷ ns) = (first m ns, weaken ns (All-largest m ns))
  where
    first : (m : ℕ) (ns : List ℕ) → m ≤ largest n (m ∷ ns)
    first m ns = ground (arith, largest-le m m ns)

    weaken : (ks : List ℕ) → All (λ k. k ≤ largest m ns) ks → All (λ k. k ≤ largest n (m ∷ ns)) ks
    weaken [] h = tt
    weaken (k ∷ ks) h = (ground arith, weaken ks h.1)

All-split :
    (m : ℕ) (xs ys : List ℕ)
    → All (λ n. n ≤ m) (xs ++ ys)
    → All (λ n. n ≤ m) xs × All (λ n. n ≤ m) ys
All-split m [] ys h = (tt, h)
All-split m (x ∷ xs) ys h = let (a, b) = All-split m xs ys h.1 in ((h.0, a), b)

row-CellBelow :
    (m : ℕ) (cells : List (Option ℕ × Bound))
    → All (λ n. n ≤ m) (row_numbers cells)
    → All (CellBelow m) cells
row-CellBelow m [] h = tt
row-CellBelow m ((none, b) ∷ cells) h = (tt, row-CellBelow m cells h)
row-CellBelow m ((some n, b) ∷ cells) h = (h.0, row-CellBelow m cells h.1)

rows-CellBelow :
    (m : ℕ) (rows : List (List (Option ℕ × Bound)))
    → All (λ n. n ≤ m) (numbers rows)
    → All (λ row. All (CellBelow m) row) rows
rows-CellBelow m [] h = tt
rows-CellBelow m (row ∷ rows) h =
    let (here, rest) = All-split m (row_numbers row) (numbers rows) h in
    (row-CellBelow m row here, rows-CellBelow m rows rest)

unions-index_labels :
    (sets : TrialSets) (labels : List String) (index : TrialSetIndex) (l : String)
    → get_or [] l (index_labels sets labels index).unions ≡ (
        if elem l labels
        then keys (count_trials (trials_of sets l) [])
        else get_or [] l index.unions)
unfolding index_labels index_label
unions-index_labels sets [] index l = refl
unions-index_labels sets (label ∷ labels) index l =
    unions-index_labels sets labels (index_label sets label index) l
    ∙ step (get-put label l (keys (count_trials (trials_of sets label) [])) index.unions)
  where
    step :
        {o : Option (List String)}
        → o ≡ (
            if label == l
            then some (keys (count_trials (trials_of sets label) []))
            else get l index.unions)
        → (if elem l labels
            then keys (count_trials (trials_of sets l) [])
            else elim o [ none ↦ [] | some v ↦ v ])
          ≡ (if (l == label) || elem l labels
              then keys (count_trials (trials_of sets l) [])
              else get_or [] l index.unions)
    step e = elim (Bool-cases (label == l)) [
      | inl same ↦
          let eq : label ≡ l = (string_eq.beq_iff label l).0 same in
          let eqn = ap (λ x. keys (count_trials (trials_of sets x) [])) eq in
          ground (arith, string_eq.beq_iff l label)
      | inr other ↦ ground (arith, string_eq.beq_iff l label, string_eq.beq_iff label l)
    ]

length-count : (xs : List String) → length xs ≡ count (λ x. true) xs
length-count [] = refl
length-count (x ∷ xs) = omega (arith, length-count xs)

keys-IsUnique : (d : Dict String ℕ) → IsDict d → IsUnique (keys d)
keys-IsUnique [] h = tt
keys-IsUnique ((k, v) ∷ d) h = (h.0, keys-IsUnique d h.1)

-- The keys of the counter are as many as the union's elements.
union_size :
    (trials : List (List String))
    → All IsUnique trials
    → length (keys (count_trials trials [])) ≡ length (union trials)
union_size trials u =
    length-count (keys (count_trials trials []))
    ∙ count_same (λ v. true) (keys (count_trials trials [])) (union trials)
        (keys-IsUnique (count_trials trials []) (count_trials-IsDict trials [] tt))
        (union-IsUnique trials)
        (λ v p.
          contains-get v (count_trials trials [])
          ∙ ground (arith, counter-Holds trials v u, held_some v trials, elem-union v trials))
    ∙ sym (length-count (union trials))

module _ (labels : List String) (sets : TrialSets) (note : Option String)
    (strict_unknown : List String) where
  -- No number of the two matrices of a comparison whose index it builds exceeds its `max_value`.
  pub trial_set_comparison-CellBelow :
      let c = trial_set_comparison labels sets note strict_unknown none in
      All (λ row. All (CellBelow c.max_value) row) c.counts.pairwise_any
      × All (λ row. All (CellBelow c.max_value) row) c.counts.pairwise_all
  unfolding trial_set_comparison
  trial_set_comparison-CellBelow =
      let t = trial_set_counts labels (trial_set_index labels sets) strict_unknown in
      let (p, q) =
        All-split _ (numbers t.pairwise_any) (numbers t.pairwise_all)
          (All-largest 0 (numbers t.pairwise_any ++ numbers t.pairwise_all)) in
      (rows-CellBelow _ t.pairwise_any p, rows-CellBelow _ t.pairwise_all q)

  -- With sets of distinct values, the covered count of a label is none where it has no usable
  -- set, and otherwise the size of the union of its usable sets.
  pub covered_counts_lem :
      (l : String)
      → AreSets sets
      → elem l labels ≡ true
      → entry l labels (trial_set_comparison labels sets note strict_unknown none).covered_counts
        ≡ some (
            if nat_beq (length (trials_of sets l)) 0
            then none
            else some (length (union (trials_of sets l))))
  unfolding trial_set_comparison trial_set_index
  covered_counts_lem l u known =
      entry-map _ l labels known
      ∙ ground (
        arith,
        reps-index_labels sets labels (no_index labels) l,
        ap length (unions-index_labels sets labels (no_index labels) l),
        union_size (trials_of sets l) (u l),
      )
