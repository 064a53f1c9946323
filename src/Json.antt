-- ===== src/Json.antt =====
-- JSON values as Python holds them, with Python's equality.
use Prim.Native.Nat.Ordering.{lt, eq, gt}
use Prim.Native.String.{compare}
use fuzzmeter.Prelude.{
  ℕ, suc, Bool, true, false, ◌&&◌, Option, none, some, String, List, [], ◌∷◌, nat_beq,
  if◌then◌else◌,
}
use fuzzmeter.Prelude.Equality.{Eq, ◌==◌, string_eq, elem}

-- `N` holds the numbers, Booleans among them: True is 1 in Python.
mutual
  pub data Value (N : Type 0) : Type 0 where
    null : Value N
    number : N → Value N
    text : String → Value N
    list : Items N → Value N
    dict : Fields N → Value N

  pub data Items (N : Type 0) : Type 0 where
    nil : Items N
    cons : Value N → Items N → Items N

  pub data Fields (N : Type 0) : Type 0 where
    end : Fields N
    field : String → Value N → Fields N → Fields N

module _ {N : Type 0} where
  abbrev pub find : String → Fields N → Option (Value N)
  find k end = none
  find k (field j v fs) = if j == k then some v else find k fs

  -- `d.get(k)`, which is None where the key is missing.
  abbrev pub get : String → Fields N → Value N
  get k fs = elim (find k fs) [ none ↦ null | some v ↦ v ]

  abbrev pub fields_len : Fields N → ℕ
  fields_len end = 0
  fields_len (field k v fs) = suc (fields_len fs)

  abbrev pub field_names : Fields N → List String
  field_names end = []
  field_names (field k v fs) = k ∷ field_names fs

  abbrev pub to_list : Items N → List (Value N)
  to_list nil = []
  to_list (cons x xs) = x ∷ to_list xs

  -- `bool(d)` negated.
  abbrev pub is_empty : Fields N → Bool
  is_empty end = true
  is_empty (field k v fs) = false

module _ {N : Type 0} ⦃e : Eq N⦄ where
  -- Python's `==`: of two dicts, whatever the order of their keys.
  unfoldable mutual
    pub value_eq : Value N → Value N → Bool
    value_eq null null = true
    value_eq (number m) (number n) = m == n
    value_eq (text s) (text t) = s == t
    value_eq (list xs) (list ys) = items_eq xs ys
    value_eq (dict fs) (dict gs) = nat_beq (fields_len fs) (fields_len gs) && fields_in fs gs
    value_eq _ _ = false

    pub items_eq : Items N → Items N → Bool
    items_eq nil nil = true
    items_eq (cons x xs) (cons y ys) = value_eq x y && items_eq xs ys
    items_eq _ _ = false

    pub fields_in : Fields N → Fields N → Bool
    fields_in end gs = true
    fields_in (field k v fs) gs =
        elim (find k gs) [ none ↦ false | some w ↦ value_eq v w ] && fields_in fs gs

-- Strings in the order of their code points.
abbrev pub before : String → String → Bool
before s t = elim (compare s t) [ lt ↦ true | eq ↦ false | gt ↦ false ]

abbrev pub insert_name : String → List String → List String
insert_name s [] = s ∷ []
insert_name s (t ∷ ts) = if before t s then t ∷ insert_name s ts else s ∷ t ∷ ts

abbrev pub add_names : List String → List String → List String
add_names [] names = names
add_names (s ∷ ss) names =
    if elem s names then add_names ss names else add_names ss (insert_name s names)

-- `sorted(set(a) | set(b))`
abbrev pub sorted_union : List String → List String → List String
sorted_union ss ts = add_names ts (add_names ss [])
