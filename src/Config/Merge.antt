-- ===== src/Config/Merge.antt =====
-- `_merge` and `_build_campaign_case` of src/fuzzmeter/config/builder.py. An exception is none.
pub mod Layers
use fuzzmeter.Prelude.{
  Bool, true, false, not, Option, none, some, String, List, [], ◌∷◌, if◌then◌else◌,
}
use fuzzmeter.Prelude.Equality.{Eq, ◌==◌, string_eq}
use fuzzmeter.Prelude.Failing.{◌>>=◌}
use fuzzmeter.Json.{
  Value, null, number, text, list, dict, Items, nil, cons, Fields, end, field, find,
}

module _ {N : Type 0} where
  -- `out[key] = value`
  abbrev pub put_field : String → Value N → Fields N → Fields N
  put_field k v end = field k v end
  put_field k v (field j w fs) = if j == k then field j v fs else field j w (put_field k v fs)

  -- `[*out[key], *value]`
  abbrev pub append_items : Items N → Items N → Items N
  append_items nil ys = ys
  append_items (cons x xs) ys = cons x (append_items xs ys)

-- `K` holds the types of Python's numbers: int, bool, float.
module _ {N K : Type 0} ⦃e : Eq K⦄ (type_of : N → K) where
  -- `type(a) is type(b)`
  unfoldable pub same_type : Value N → Value N → Bool
  same_type null null = true
  same_type (number m) (number n) = type_of m == type_of n
  same_type (text s) (text t) = true
  same_type (list xs) (list ys) = true
  same_type (dict fs) (dict gs) = true
  same_type _ _ = false

  -- What a key gets, from the value it has and what merging a value with the new one gives.
  abbrev pub stored : (Value N → Option (Value N)) → Option (Value N) → Value N → Option (Value N)
  stored merged none v = some v
  stored merged (some w) v = if same_type w v then merged w else none

  unfoldable mutual
    unfolding same_type

    pub merge : Fields N → Fields N → Option (Fields N)
    merge out end = some out
    merge out (field k v fs) =
        stored (λ w. merge_value w v) (find k out) v >>= (λ u. merge (put_field k u out) fs)

    -- The value under a key that is there already, with a value of its type.
    pub merge_value : Value N → Value N → Option (Value N)
    merge_value (dict out) (dict fs) = merge out fs >>= (λ merged. some (dict merged))
    merge_value (list xs) (list ys) = some (list (append_items xs ys))
    merge_value w v = some v

  -- Layer upon layer, from a base.
  unfoldable pub merge_all : Fields N → List (Fields N) → Option (Fields N)
  unfolding merge
  merge_all out [] = some out
  merge_all out (layer ∷ layers) = merge out layer >>= (λ merged. merge_all merged layers)
