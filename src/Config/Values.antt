-- ===== src/Config/Values.antt =====
-- The values of a YAML file as src/fuzzmeter/config/builder.py checks them. An exception is none.
use fuzzmeter.Prelude.{
  ℕ, ◌≡◌, ◌≤◌, ltb, arith, Bool, true, false, not, ◌&&◌, ◌||◌, Option, none, some, Option-cases,
  inl, inr, String, List, [], ◌∷◌, nat_beq, leb, if◌then◌else◌,
}
use fuzzmeter.Prelude.Equality.{◌==◌, string_eq}
use fuzzmeter.Prelude.Failing.{◌>>=◌}
use fuzzmeter.Json.{Value, null, number, text, list, dict, Items, Fields, end, is_empty, to_list}

-- What the code takes from Python, PyYAML and the file system. `N` holds Python's numbers, `K`
-- their types, `D` the directories.
pub record Host (N K D : Type 0) : Type 0 where
  pub number_type : N → K
  pub truthy_number : N → Bool
  -- The code points of a text, `str(value)` and `s.strip()`.
  pub code_points : String → List ℕ
  pub str_of : Value N → String
  pub strip : String → String
  -- `int(value)`, with true before the size of a number below 0, and `float(value)`; none is an
  -- exception. Whether `x <= 0`, and 1.0.
  pub int_of : Value N → Option (Bool × ℕ)
  pub float_of : Value N → Option N
  pub at_most_zero : N → Bool
  pub one : N
  -- The two parts of `s.split(':', 1)`; none if there is no colon.
  pub split_colon : String → Option (String × String)
  -- `Path(s).expanduser().resolve()`
  pub resolve : String → D
  pub is_dir : D → Bool
  -- What `yaml.safe_load` makes of a file under a directory: none if there is no file, some none
  -- if it is no YAML.
  pub safe_load : D → List String → Option (Option (Value N))

-- [a-zA-Z0-9_.-]
abbrev pub identifier_char : ℕ → Bool
identifier_char c =
    (leb 97 c && leb c 122)
    || (leb 65 c && leb c 90)
    || (leb 48 c && leb c 57)
    || nat_beq c 95
    || nat_beq c 46
    || nat_beq c 45

abbrev pub all_identifier_chars : List ℕ → Bool
all_identifier_chars [] = true
all_identifier_chars (c ∷ cs) = identifier_char c && all_identifier_chars cs

-- `IDENTIFIER_RE.fullmatch`
abbrev pub identifier_match : List ℕ → Bool
identifier_match [] = false
identifier_match (c ∷ cs) = all_identifier_chars (c ∷ cs)

module _ {N K D : Type 0} (host : Host N K D) where
  open host use {truthy_number, code_points, int_of, safe_load}

  -- `bool(value)`
  unfoldable pub is_true : Value N → Bool
  is_true null = false
  is_true (number n) = truthy_number n
  is_true (text s) = not (s == "")
  is_true (list Items.nil) = false
  is_true (list (Items.cons x xs)) = true
  is_true (dict fs) = not (is_empty fs)

  -- `value or {}`, which has to be a mapping.
  unfoldable pub mapping_or_empty : Value N → Option (Fields N)
  unfolding is_true
  mapping_or_empty (dict fs) = some fs
  mapping_or_empty v = if is_true v then none else some end

  -- `all(isinstance(name, str) and name for name in xs)`
  unfoldable pub names_of : Items N → Option (List String)
  names_of Items.nil = some []
  names_of (Items.cons (text s) xs) =
      if s == "" then none else names_of xs >>= (λ names. some (s ∷ names))
  names_of (Items.cons x xs) = none

  -- `value or []`, which has to be a list of texts that are not empty.
  unfoldable pub names_or_empty : Value N → Option (List String)
  unfolding is_true names_of
  names_or_empty (list xs) = names_of xs
  names_or_empty v = if is_true v then none else some []

  -- A list that is not empty.
  unfoldable pub full_list : Value N → Option (List (Value N))
  full_list (list (Items.cons x xs)) = some (x ∷ to_list xs)
  full_list v = none

  -- The value under a key that has to be a list of texts that are not empty, if it is given.
  unfoldable pub names_or_none : Value N → Option (List String)
  unfolding names_of
  names_or_none null = some []
  names_or_none (list xs) = names_of xs
  names_or_none v = none

  -- `_check_id_format`
  unfoldable pub check_id_format : Value N → Option String
  check_id_format (text s) = if identifier_match (code_points s) then some s else none
  check_id_format v = none

  -- `_normalized_int_value`: no call gives a largest value.
  unfoldable pub normalized_int_value : Value N → ℕ → Option ℕ
  normalized_int_value value min_value = elim (int_of value) [
    | none ↦ none
    | some (true, m) ↦ none
    | some (false, n) ↦ if ltb n min_value then none else some n
  ]

  pub normalized_int_value-ge :
      (value : Value N) (min_value n : ℕ)
      → normalized_int_value value min_value ≡ some n
      → min_value ≤ n
  unfolding normalized_int_value
  normalized_int_value-ge value min_value n h = elim (Option-cases (int_of value)) [
    | inl bad ↦ absurd (ground (arith, bad))
    | inr ((true, m), e) ↦ absurd (ground (arith, e))
    | inr ((false, m), e) ↦ ground (arith, e)
  ]

  -- `load_yaml`, of a path that is a file.
  unfoldable pub load_yaml : Option (Value N) → Option (Fields N)
  unfolding mapping_or_empty
  load_yaml none = none
  load_yaml (some v) = mapping_or_empty v

  -- `load_yaml(path) if path.is_file() else {}`
  unfoldable pub load_optional : D → List String → Option (Fields N)
  unfolding load_yaml
  load_optional dir path = elim (safe_load dir path) [ none ↦ some end | some v ↦ load_yaml v ]
