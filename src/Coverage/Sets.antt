-- ===== src/Coverage/Sets.antt =====
-- What src/fuzzmeter/resources/entrypoints/coverage_sets.py reads out of an llvm-cov export:
-- `_covered_hashes` and what it calls, and `branch_summary_from_export`. An exception is none.
pub mod Bounds
pub mod Distinct
pub mod Document
mod Tests
use Prim.Native.String.{◌++◌ as append}
use fuzzmeter.Prelude.{
  ℕ, zero, suc, ◌+◌, ◌-◌, ◌*◌, Bool, true, false, not, ◌&&◌, ◌||◌, Option, none, some, String, List,
  [], ◌∷◌, ltb, leb, if◌then◌else◌, length,
}
use fuzzmeter.Prelude.Equality.{◌==◌, string_eq, nat_eq, elem}
use fuzzmeter.Prelude.Failing.{◌>>=◌, ◌>>◌, require, fold}
use fuzzmeter.Prelude.Sorting.{sorted}
use fuzzmeter.Json.{
  Value, null, number, text, list, dict, Fields, Items, get, to_list, field_names, is_empty,
}

-- `int(value)`: an integer, with true before the size of one below 0, a TypeError or ValueError,
-- or an OverflowError.
pub data IntOf : Type 0 where
  integer : Bool → ℕ → IntOf
  refused overflow : IntOf

-- Python on the values of an export: `float(value) > 0`, `int(value)` with its sign, `str(value)`,
-- `bool` of a number, the characters of a text, `str.strip`; and the digest that hashlib makes.
pub record Python (N : Type 0) : Type 0 where
  pub float_positive : Value N → Option Bool
  pub int_of : Value N → IntOf
  pub str_of : Value N → String
  pub truthy_number : N → Bool
  pub characters : String → List String
  pub strip : String → String
  pub blake2b : String → List ℕ

pub data Metric : Type 0 where
  branches lines functions regions : Metric

abbrev pub coverage_metrics : List Metric
coverage_metrics = branches ∷ lines ∷ functions ∷ regions ∷ []

abbrev pub is_branches : Metric → Bool
is_branches branches = true
is_branches _ = false

-- The item at an index, from the end where it is negative.
abbrev pub nth {ℓ} : {A : Type ℓ} → ℕ → List A → Option A
nth i [] = none
nth zero (x ∷ xs) = some x
nth (suc i) (x ∷ xs) = nth i xs

abbrev pub item_at {ℓ} : {A : Type ℓ} → Bool × ℕ → List A → Option A
item_at (negative, i) xs =
    if negative then (if leb i (length xs) then nth (length xs - i) xs else none) else nth i xs

abbrev pub take_first {ℓ} : {A : Type ℓ} → ℕ → List A → List A
take_first n [] = []
take_first zero (x ∷ xs) = []
take_first (suc n) (x ∷ xs) = x ∷ take_first n xs

-- `':'.join(parts)`
abbrev pub join_colon : List String → String
join_colon [] = ""
join_colon (s ∷ []) = s
join_colon (s ∷ t ∷ ts) = append s (append ":" (join_colon (t ∷ ts)))

-- `int.from_bytes(digest, byteorder='big')`, from what the bytes before have given.
abbrev pub from_bytes : ℕ → List ℕ → ℕ
from_bytes n [] = n
from_bytes n (b ∷ bs) = from_bytes (n * 256 + b) bs

-- `hashes.add(h)`
pub add_hash : ℕ → List ℕ → List ℕ
add_hash h hashes = if elem h hashes then hashes else h ∷ hashes

module _ {N : Type 0} (python : Python N) where
  open python use {float_positive, int_of, str_of, truthy_number, characters, strip, blake2b}

  abbrev pub names_as_values : List String → List (Value N)
  names_as_values [] = []
  names_as_values (s ∷ ss) = text s ∷ names_as_values ss

  -- What `for x in value or []` goes through; none is a TypeError.
  pub elements : Value N → Option (List (Value N))
  elements null = some []
  elements (number n) = if truthy_number n then none else some []
  elements (text s) = some (names_as_values (characters s))
  elements (list xs) = some (to_list xs)
  elements (dict fs) = some (names_as_values (field_names fs))

  -- A value of a field, where it counts as true.
  abbrev pub is_true : Value N → Bool
  is_true null = false
  is_true (number n) = truthy_number n
  is_true (text s) = not (s == "")
  is_true (list Items.nil) = false
  is_true (list (Items.cons x xs)) = true
  is_true (dict fs) = not (is_empty fs)

  -- `_stable_hash`
  abbrev pub stable_hash : String → ℕ
  stable_hash value = from_bytes 0 (blake2b value)

  -- `_safe_text`
  abbrev pub safe_parts : List (Value N) → List String
  safe_parts [] = []
  safe_parts (null ∷ parts) = safe_parts parts
  safe_parts (part ∷ parts) =
      let rest = safe_parts parts in
      if strip (str_of part) == "" then rest else strip (str_of part) ∷ rest

  abbrev pub safe_text : List (Value N) → String
  safe_text parts = join_colon (safe_parts parts)

  -- `_positive`
  abbrev pub positive : Value N → Option Bool
  positive value = float_positive value

  -- `_covered_tuple`
  pub covered_tuple : Value N → ℕ → Option Bool
  covered_tuple (list xs) i = nth i (to_list xs) >>= positive
  covered_tuple _ i = none

  -- `any(_covered_tuple(region, 4) for region in regions)`
  pub any_covered : List (Value N) → Option Bool
  unfolding covered_tuple
  any_covered [] = some false
  any_covered (region ∷ others) = do
    covered ← covered_tuple region 4
    let rest = any_covered others
    if covered then some true else rest

  -- `_function_covered`
  pub function_covered : Value N → Option Bool
  unfolding any_covered elements
  function_covered (dict fs) = do
    counted ← positive (get "count" fs)
    if counted then some true else elements (get "regions" fs) >>= any_covered
  function_covered _ = none

  -- The filenames of a function: a list that is not empty.
  abbrev pub filenames_of : Fields N → Option (List (Value N))
  filenames_of fs = elim (get "filenames" fs) [
    | list (Items.cons x xs) ↦ some (x ∷ to_list xs)
    | _ ↦ none
  ]

  abbrev pub region_parts : Value N → List (Value N)
  region_parts (list (Items.cons (list xs) rest)) = take_first 4 (to_list xs)
  region_parts _ = []

  -- `_function_key`
  pub function_key : Fields N → Option String
  function_key fs =
      let name = if is_true (get "name" fs) then get "name" fs else get "demangled" fs in
      do
        require (is_true name)
        filenames ← filenames_of fs
        first ← nth 0 filenames
        some (safe_text (first ∷ name ∷ region_parts (get "regions" fs)))

  -- `str(filenames[int(branch[6])])`, of the first file where that raises an IndexError, TypeError
  -- or ValueError; an OverflowError is not caught.
  abbrev pub branch_file : Value N → List (Value N) → Option (Value N)
  branch_file index filenames = elim (int_of index) [
    | integer negative i ↦ elim (item_at (negative, i) filenames) [
      | some file ↦ some file
      | none ↦ nth 0 filenames
    ]
    | refused ↦ nth 0 filenames
    | overflow ↦ none
  ]

  -- Whether each direction of a branch was taken: its fields 4 and 5.
  pub branch_taken : List (Value N) → Option (Bool × Bool)
  branch_taken branch = do
    when_true ← nth 4 branch >>= positive
    when_false ← nth 5 branch >>= positive
    some (when_true, when_false)

  pub branch_key : String → List (Value N) → List (Value N) → Option String
  branch_key key filenames branch = do
    index ← nth 6 branch
    file ← branch_file index filenames
    some (safe_text (text key ∷ text (str_of file) ∷ take_first 4 branch))

  pub add_direction : Bool → String → List ℕ → List ℕ
  unfolding add_hash
  add_direction taken key hashes = if taken then add_hash (stable_hash key) hashes else hashes

  abbrev pub add_directions : String → Bool × Bool → List ℕ → List ℕ
  add_directions key (when_true, when_false) hashes =
      add_direction when_false (append key ":false")
        (add_direction when_true (append key ":true") hashes)

  -- One branch in `_collect_function_branch_hashes`.
  pub add_branch : String → List (Value N) → Value N → List ℕ → Option (List ℕ)
  unfolding branch_key branch_taken add_direction
  add_branch key filenames (list xs) hashes =
      branch_key key filenames (to_list xs)
      >>= (λ k. branch_taken (to_list xs) >>= (λ taken. some (add_directions k taken hashes)))
  add_branch key filenames _ hashes = none

  -- `_collect_function_branch_hashes`
  pub collect_function_branch_hashes : Fields N → List ℕ → Option (List ℕ)
  unfolding add_branch function_key elements
  collect_function_branch_hashes fs hashes = do
    key ← function_key fs
    filenames ← filenames_of fs
    found ← elements (get "branches" fs)
    fold (add_branch key filenames) found hashes

  -- What is hashed of a segment: no column in the metric of lines.
  abbrev pub segment_parts : Metric → Value N → List (Value N) → Option (List (Value N))
  segment_parts lines filename (line ∷ rest) = some (filename ∷ line ∷ [])
  segment_parts _ filename (line ∷ column ∷ rest) = some (filename ∷ line ∷ column ∷ [])
  segment_parts _ filename _ = none

  abbrev pub tuple_items : Value N → List (Value N)
  tuple_items (list xs) = to_list xs
  tuple_items _ = []

  -- A covered segment of a file, in the two metrics of segments.
  pub add_segment : Metric → Value N → Value N → List ℕ → Option (List ℕ)
  unfolding covered_tuple
  add_segment metric filename segment hashes = covered_tuple segment 2 >>= (λ covered.
      if covered
      then segment_parts metric filename (tuple_items segment)
        >>= (λ parts. some (add_hash (stable_hash (safe_text parts)) hashes))
      else some hashes)

  abbrev pub of_segments : Metric → Bool
  of_segments lines = true
  of_segments regions = true
  of_segments _ = false

  -- `str(file_item.get('filename') or '')`
  abbrev pub filename_of : Fields N → String
  filename_of fs = if is_true (get "filename" fs) then str_of (get "filename" fs) else ""

  -- `_collect_file_hashes`
  pub collect_file_hashes : Metric → Value N → List ℕ → Option (List ℕ)
  unfolding add_segment elements
  collect_file_hashes metric (dict fs) hashes =
      if filename_of fs == "" || not (of_segments metric)
      then some hashes
      else (elements (get "segments" fs)
          >>= (λ segments. fold (add_segment metric (text (filename_of fs))) segments hashes))
  collect_file_hashes metric _ hashes = some hashes

  -- One function of a data item, in the two metrics of functions.
  pub add_function : Bool → Value N → List ℕ → Option (List ℕ)
  unfolding function_covered function_key collect_function_branch_hashes
  add_function by_branch (dict fs) hashes = function_covered (dict fs) >>= (λ covered.
      if not covered
      then some hashes
      else if by_branch
      then collect_function_branch_hashes fs hashes
      else (function_key fs >>= (λ key. some (add_hash (stable_hash key) hashes))))
  add_function by_branch _ hashes = none

  -- The functions of a data item, in the metrics that look at them.
  abbrev pub add_functions : Metric → Value N → List ℕ → Option (List ℕ)
  add_functions branches found hashes =
      elements found >>= (λ fs. fold (add_function true) fs hashes)
  add_functions functions found hashes =
      elements found >>= (λ fs. fold (add_function false) fs hashes)
  add_functions _ found hashes = some hashes

  -- One data item of the export.
  pub add_data : Metric → Value N → List ℕ → Option (List ℕ)
  unfolding collect_file_hashes add_function elements
  add_data metric (dict fs) hashes = do
    files ← elements (get "files" fs)
    hashes ← fold (collect_file_hashes metric) files hashes
    add_functions metric (get "functions" fs) hashes
  add_data metric _ hashes = some hashes

  -- `_covered_hashes`
  pub covered_hashes : Fields N → Metric → Option (List ℕ)
  unfolding add_data elements
  covered_hashes export_obj metric = do
    items ← elements (get "data" export_obj)
    hashes ← fold (add_data metric) items []
    some (sorted (λ h. h) hashes)

  abbrev pub count_taken : Bool × Bool → ℕ × ℕ → ℕ × ℕ
  count_taken (when_true, when_false) (covered, total) =
      (covered + (if when_true then 1 else 0) + (if when_false then 1 else 0), total + 2)

  -- The counts of one branch in `branch_summary_from_export`: covered, and total.
  pub count_branch : Value N → ℕ × ℕ → Option (ℕ × ℕ)
  unfolding branch_taken
  count_branch (list xs) counts =
      if leb 6 (length (to_list xs))
      then branch_taken (to_list xs) >>= (λ taken. some (count_taken taken counts))
      else none
  count_branch _ counts = none

  pub count_function : Value N → ℕ × ℕ → Option (ℕ × ℕ)
  unfolding count_branch elements
  count_function (dict fs) counts =
      elements (get "branches" fs) >>= (λ found. fold count_branch found counts)
  count_function _ counts = none

  pub count_data : Value N → ℕ × ℕ → Option (ℕ × ℕ)
  unfolding count_function elements
  count_data (dict fs) counts =
      elements (get "functions" fs) >>= (λ found. fold count_function found counts)
  count_data _ counts = none

  -- `branch_summary_from_export`: the covered and the total count.
  pub branch_summary_from_export : Fields N → Option (ℕ × ℕ)
  unfolding count_data elements
  branch_summary_from_export export_obj = do
    items ← elements (get "data" export_obj)
    fold count_data items (0, 0)
