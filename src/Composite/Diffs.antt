-- ===== src/Composite/Diffs.antt =====
-- `_diff_dict` of src/fuzzmeter/composite/compatibility.py: the differences of two JSON objects.
pub mod Entries
use fuzzmeter.Prelude.{
  Bool, true, false, ◌&&◌, ◌||◌, Option, none, some, String, List, [], ◌∷◌, if◌then◌else◌,
}
use fuzzmeter.Prelude.Equality.{Eq, ◌==◌, string_eq}
use fuzzmeter.Json.{
  Value, null, number, text, list, dict, Fields, end, field, find, get, field_names, is_empty,
  value_eq, sorted_union,
}

module _ {N : Type 0} ⦃e : Eq N⦄ where
  -- `{'reference': left, 'candidate': right}`
  abbrev pub leaf : Value N → Value N → Value N
  leaf left right = dict (field "reference" left (field "candidate" right end))

  abbrev pub some_fields : Fields N → Option (Value N)
  some_fields fs = if is_empty fs then none else some (dict fs)

  -- The entry of a key that only the candidate has.
  abbrev pub added : Value N → Option (Value N)
  added right = if value_eq null right then none else some (leaf null right)

  -- The entry of a key, from those of the reference's keys.
  abbrev pub entry_of : Fields N → String → List (String × Option (Value N)) → Option (Value N)
  entry_of candidate k [] = added (get k candidate)
  entry_of candidate k ((j, entry) ∷ entries) =
      if j == k then entry else entry_of candidate k entries

  -- The loop over the sorted keys, with the entries of the reference's keys at hand.
  abbrev pub collect : List String → List (String × Option (Value N)) → Fields N → Fields N
  collect [] entries candidate = end
  collect (k ∷ ks) entries candidate = elim (entry_of candidate k entries) [
    | none ↦ collect ks entries candidate
    | some v ↦ field k v (collect ks entries candidate)
  ]

  unfoldable mutual
    -- The entry of a key whose values these are, none where `_diff_dict` leaves it out.
    pub differing : Value N → Value N → Option (Value N)
    differing (dict fs) (dict gs) =
        let child =
          collect (sorted_union (field_names fs) (field_names gs)) (entries_of fs gs) gs in
        if value_eq (dict fs) (dict gs) then none else some_fields child
    differing left right = if value_eq left right then none else some (leaf left right)

    pub entries_of : Fields N → Fields N → List (String × Option (Value N))
    entries_of end candidate = []
    entries_of (field k v fs) candidate =
        (k, differing v (get k candidate)) ∷ entries_of fs candidate

  -- `_diff_dict`
  unfoldable pub diff_dict : Fields N → Fields N → Fields N
  unfolding differing
  diff_dict reference candidate =
      collect (sorted_union (field_names reference) (field_names candidate))
        (entries_of reference candidate) candidate
