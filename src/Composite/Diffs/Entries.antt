-- ===== src/Composite/Diffs/Entries.antt =====
-- Which entries `_diff_dict` makes.
use fuzzmeter.Prelude.{
  ◌≡◌, refl, ap, sym, ◌∙◌, false, ◌||◌, Option, none, String, List, [], ◌∷◌, arith, if◌then◌else◌,
  Bool-cases, Option-cases, inl, inr,
}
use fuzzmeter.Prelude.Equality.{Eq, ◌==◌, string_eq, elem}
use fuzzmeter.Json.{
  Value, null, Fields, end, field, find, get, field_names, value_eq, sorted_union, insert_name,
  add_names, before,
}
use fuzzmeter.Composite.Diffs.{differing, added, collect, entry_of, entries_of, diff_dict}

elem-insert_name :
    (k s : String) (ss : List String) → elem k (insert_name s ss) ≡ (k == s || elem k ss)
elem-insert_name k s [] = refl
elem-insert_name k s (t ∷ ts) = elim (Bool-cases (before t s)) [
  | inl goes ↦ ground (arith, elem-insert_name k s ts)
  | inr here ↦ rw (here, insert_name) refl
]

elem-add_names :
    (k : String) (ss names : List String)
    → elem k (add_names ss names) ≡ (elem k ss || elem k names)
elem-add_names k [] names = refl
elem-add_names k (s ∷ ss) names = elim (Bool-cases (elem s names)) [
  | inl there ↦ ground (arith, elem-add_names k ss names, string_eq.beq_iff k s)
  | inr new ↦ ground (arith, elem-add_names k ss (insert_name s names), elem-insert_name k s names)
]

pub elem-sorted_union :
    (k : String) (ss ts : List String) → elem k (sorted_union ss ts) ≡ (elem k ss || elem k ts)
elem-sorted_union k ss ts =
    elem-add_names k ts (add_names ss []) ∙ ground (arith, elem-add_names k ss [])

module _ {N : Type 0} ⦃e : Eq N⦄ where
  find-collect :
      (k : String) (ks : List String) (entries : List (String × Option (Value N)))
      (candidate : Fields N)
      → find k (collect ks entries candidate)
        ≡ (if elem k ks then entry_of candidate k entries else none)
  find-collect k [] entries candidate = refl
  find-collect k (j ∷ ks) entries candidate = elim (Option-cases (entry_of candidate j entries)) [
    | inl quiet ↦ ground (arith, quiet, find-collect k ks entries candidate, string_eq.beq_iff k j)
    | inr entry ↦ ground (
      arith,
      entry.1,
      find-collect k ks entries candidate,
      string_eq.beq_iff k j,
      string_eq.beq_iff j k,
    )
  ]

  differing-null : (right : Value N) → differing null right ≡ added right
  unfolding differing
  differing-null right = refl

  entries_of-field :
      (j : String) (v : Value N) (fs gs : Fields N)
      → entries_of (field j v fs) gs ≡ (j, differing v (get j gs)) ∷ entries_of fs gs
  unfolding differing
  entries_of-field j v fs gs = refl

  entries_of-end : (gs : Fields N) → entries_of end gs ≡ []
  unfolding differing
  entries_of-end gs = refl

  entry_of-entries_of :
      (k : String) (fs gs : Fields N)
      → entry_of gs k (entries_of fs gs) ≡ differing (get k fs) (get k gs)
  entry_of-entries_of k end gs =
      ap (entry_of gs k) (entries_of-end gs) ∙ sym (differing-null (get k gs))
  entry_of-entries_of k (field j v fs) gs =
      ap (entry_of gs k) (entries_of-field j v fs gs) ∙ elim (Bool-cases (j == k)) [
        | inl same ↦
            rw (same, get, find) (ap (λ i. differing v (get i gs)) ((string_eq.beq_iff j k).0 same))
        | inr other ↦ rw (other, get, find) (entry_of-entries_of k fs gs)
      ]

  absent-null : (k : String) (fs : Fields N) → elem k (field_names fs) ≡ false → get k fs ≡ null
  absent-null k end h = refl
  absent-null k (field j v fs) h =
      ground (arith, absent-null k fs, string_eq.beq_iff k j, string_eq.beq_iff j k)

  both_null : differing {N = N} null null ≡ none
  unfolding differing value_eq
  both_null = refl

  -- Each key has the entry of its two values.
  pub find-diff_dict :
      (k : String) (reference candidate : Fields N)
      → find k (diff_dict reference candidate) ≡ differing (get k reference) (get k candidate)
  unfolding diff_dict
  find-diff_dict k reference candidate =
      find-collect k (sorted_union (field_names reference) (field_names candidate))
        (entries_of reference candidate) candidate
      ∙ elim (Bool-cases (elem k (sorted_union (field_names reference) (field_names candidate)))) [
        | inl there ↦ rw there (entry_of-entries_of k reference candidate)
        | inr absent ↦
            let split = elem-sorted_union k (field_names reference) (field_names candidate) in
            rw
              (
                absent,
                absent-null k reference (ground (arith, split)),
                absent-null k candidate (ground (arith, split)),
              )
              (sym both_null)
      ]
