-- ===== src/Reporting/SetComparison/Index.antt =====
-- The index of `trial_set_index`, field by field.
use mathlib.Core.Path.{subst}
use fuzzmeter.Prelude.{
  ℕ, ◌-◌, ◌≡◌, refl, ap, ◌∙◌, sym, ◌||◌, Option, none, some, String, List, [], ◌∷◌, arith,
  Bool-cases, inl, inr, if◌then◌else◌, length, All,
}
use fuzzmeter.Prelude.Equality.{◌==◌, string_eq, elem}
use fuzzmeter.Prelude.Sets.{IsUnique}
use fuzzmeter.Dict.{Dict, get, put, get-put}
use fuzzmeter.Reporting.SetComparison.{
  TrialSets, TrialSetIndex, get_or, usable, trial_sets_of, count_trials, index_label, index_labels,
}
use fuzzmeter.Reporting.SetComparison.Owners.{
  held, positive, count_trials-IsDict, counter-Holds, owned, owned-record_owners,
}

-- The sets that a label has.
abbrev pub trials_of : TrialSets → String → List (List String)
trials_of sets label = usable (trial_sets_of sets label)

-- No set lists an element twice.
abbrev pub AreSets : TrialSets → Type 0
AreSets sets = (label : String) → All IsUnique (trials_of sets label)

-- It is enough to look at the entries.
pub AreSets-entries :
    (sets : TrialSets)
    → All (λ (e : String × List (Option (List String))). All IsUnique (usable e.1)) sets
    → AreSets sets
AreSets-entries [] h label = tt
AreSets-entries ((k, v) ∷ sets) h label = elim (Bool-cases (k == label)) [
  | inl same ↦ at_entry (rw same refl) h.0
  | inr other ↦
      let behind : get label ((k, v) ∷ sets) ≡ get label sets = rw other refl in
      subst Good (sym behind) (AreSets-entries sets h.1 label)
]
  where
    Good : Option (List (Option (List String))) → Type 0
    Good o =
        All IsUnique
          (usable (elim o as (λ x. List (Option (List String))) [ none ↦ [] | some w ↦ w ]))

    at_entry :
        get label ((k, v) ∷ sets) ≡ some v
        → All IsUnique (usable v)
        → Good (get label ((k, v) ∷ sets))
    at_entry e a = subst (λ o. Good o) (sym e) a

-- How many sets of a label are missing.
abbrev pub missing : TrialSets → String → ℕ
missing sets label = length (trial_sets_of sets label) - length (trials_of sets label)

get_or-put :
    (k l : String) (n : ℕ) (d : Dict String ℕ)
    → get_or 0 l (put k n d) ≡ (if k == l then n else get_or 0 l d)
get_or-put k l n d = ground (arith, get-put k l n d)

pub reps-index_labels :
    (sets : TrialSets) (labels : List String) (index : TrialSetIndex) (l : String)
    → get_or 0 l (index_labels sets labels index).reps
      ≡ (if elem l labels then length (trials_of sets l) else get_or 0 l index.reps)
unfolding index_labels
reps-index_labels sets [] index l = refl
reps-index_labels sets (label ∷ labels) index l =
    reps-index_labels sets labels (index_label sets label index) l
    ∙ step (get_or-put label l (length (trials_of sets label)) index.reps)
  where
    step :
        {n : ℕ}
        → n ≡ (if label == l then length (trials_of sets label) else get_or 0 l index.reps)
        → (if elem l labels then length (trials_of sets l) else n) ≡ (
            if (l == label) || elem l labels
            then length (trials_of sets l)
            else get_or 0 l index.reps)
    step e = elim (Bool-cases (label == l)) [
      | inl same ↦
          let eq : label ≡ l = (string_eq.beq_iff label l).0 same in
          let eqn = ap (λ x. length (trials_of sets x)) eq in
          ground (arith, string_eq.beq_iff l label)
      | inr other ↦ ground (arith, string_eq.beq_iff l label, string_eq.beq_iff label l)
    ]

pub missing-index_labels :
    (sets : TrialSets) (labels : List String) (index : TrialSetIndex) (l : String)
    → get_or 0 l (index_labels sets labels index).missing_by_label
      ≡ (if elem l labels then missing sets l else get_or 0 l index.missing_by_label)
unfolding index_labels
missing-index_labels sets [] index l = refl
missing-index_labels sets (label ∷ labels) index l =
    missing-index_labels sets labels (index_label sets label index) l
    ∙ step (get_or-put label l (missing sets label) index.missing_by_label)
  where
    step :
        {n : ℕ}
        → n ≡ (if label == l then missing sets label else get_or 0 l index.missing_by_label)
        → (if elem l labels then missing sets l else n) ≡ (
            if (l == label) || elem l labels
            then missing sets l
            else get_or 0 l index.missing_by_label)
    step e = elim (Bool-cases (label == l)) [
      | inl same ↦
          let eq : label ≡ l = (string_eq.beq_iff label l).0 same in
          let eqn = ap (missing sets) eq in ground (arith, string_eq.beq_iff l label)
      | inr other ↦ ground (arith, string_eq.beq_iff l label, string_eq.beq_iff label l)
    ]

abbrev or_else : Option ℕ → Option ℕ → Option ℕ
or_else none o = o
or_else (some n) o = some n

pub owned-index_labels :
    (sets : TrialSets) (labels : List String) (index : TrialSetIndex) (v l : String)
    → AreSets sets
    → owned v l (index_labels sets labels index).owners ≡ (
        if elem l labels
        then or_else (positive (held v (trials_of sets l))) (owned v l index.owners)
        else owned v l index.owners)
unfolding index_labels
owned-index_labels sets [] index v l u = refl
owned-index_labels sets (label ∷ labels) index v l u =
    owned-index_labels sets labels (index_label sets label index) v l u
    ∙ step (get v (count_trials (trials_of sets label) []))
        (counter-Holds (trials_of sets label) v (u label))
        (owned-record_owners label (count_trials (trials_of sets label) []) index.owners v l
          (count_trials-IsDict (trials_of sets label) [] tt))
  where
    step :
        {o : Option ℕ} (c : Option ℕ)
        → c ≡ positive (held v (trials_of sets label))
        → o ≡ (
            if label == l
            then elim c [ some n ↦ some n | none ↦ owned v l index.owners ]
            else owned v l index.owners)
        → (if elem l labels then or_else (positive (held v (trials_of sets l))) o else o) ≡ (
            if (l == label) || elem l labels
            then or_else (positive (held v (trials_of sets l))) (owned v l index.owners)
            else owned v l index.owners)
    step c holds e = elim (Bool-cases (label == l)) [
      | inl same ↦
          let eq : label ≡ l = (string_eq.beq_iff label l).0 same in
          let eqn = ap (λ x. held v (trials_of sets x)) eq in
          ground (arith, string_eq.beq_iff l label)
      | inr other ↦ ground (arith, string_eq.beq_iff l label, string_eq.beq_iff label l)
    ]
