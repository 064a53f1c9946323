-- ===== src/Coverage/Sets/Tests.antt =====
-- An export of one function with one branch, of which one direction was taken.
use Prim.Native.String.{len}
use fuzzmeter.Prelude.{ℕ, ◌≡◌, refl, Bool, false, Option, none, some, String, List, [], ◌∷◌, ltb}
use fuzzmeter.Prelude.Failing.{fold}
use fuzzmeter.Prelude.Sorting.{sorted}
use fuzzmeter.Json.{Value, number, text, list, dict, Fields, end, field, Items}
use fuzzmeter.Coverage.Codec.{Packing}
use fuzzmeter.Coverage.Sets.{
  IntOf, integer, refused, Python, Metric, branches, covered_hashes, add_data, add_function,
  function_covered, any_covered, covered_tuple, function_key, collect_function_branch_hashes,
  collect_file_hashes, add_segment, add_branch, branch_key, branch_taken, add_direction, add_hash,
  elements, branch_summary_from_export, count_data, count_function, count_branch,
}
use fuzzmeter.Coverage.Sets.Bounds.{Within, covered_hashes-Within}
use fuzzmeter.Coverage.Sets.Document.{
  Document, no_summary, coverage_metrics_from_export, for_metrics, by_metric, write_coverage_sets,
  read_covered_keys,
}
use fuzzmeter.Coverage.Sets.Document.RoundTrip.{read-write_coverage_sets}

-- A text is hashed to its length.
abbrev plain_python : Python ℕ
plain_python = record {
  float_positive = positive;
  int_of = index;
  str_of = shown;
  truthy_number = λ n. ltb 0 n;
  characters = λ s. [];
  strip = λ s. s;
  blake2b = λ s. len s ∷ [];
}
  where
    positive : Value ℕ → Option Bool
    positive (number n) = some (ltb 0 n)
    positive _ = none

    index : Value ℕ → IntOf
    index (number n) = integer false n
    index _ = refused

    shown : Value ℕ → String
    shown (text s) = s
    shown _ = "1"

abbrev numbers : List ℕ → Items ℕ
numbers [] = Items.nil
numbers (n ∷ ns) = Items.cons (number n) (numbers ns)

abbrev one : Value ℕ → Value ℕ
one v = list (Items.cons v Items.nil)

abbrev inflate : Value ℕ
inflate = dict (
    field "name" (text "inflate") (
      field "count" (number 3) (
        field "filenames" (one (text "inflate.c"))
          (field "branches" (one (list (numbers (10 ∷ 2 ∷ 10 ∷ 9 ∷ 3 ∷ 0 ∷ 0 ∷ [])))) end))))

abbrev inflate_c : Value ℕ
inflate_c = dict (
    field "filename" (text "inflate.c")
      (field "segments" (one (list (numbers (10 ∷ 2 ∷ 3 ∷ 1 ∷ 1 ∷ [])))) end))

abbrev export_obj : Fields ℕ
export_obj =
    field "data" (one (dict (field "files" (one inflate_c) (field "functions" (one inflate) end))))
      end

one_direction : covered_hashes plain_python export_obj branches ≡ some (40 ∷ [])
unfolding covered_hashes add_data add_function function_covered any_covered covered_tuple
    function_key collect_function_branch_hashes collect_file_hashes add_segment add_branch
    branch_key branch_taken add_direction add_hash elements fold sorted
one_direction = refl

one_of_two : branch_summary_from_export plain_python export_obj ≡ some (1, 2)
unfolding branch_summary_from_export count_data count_function count_branch branch_taken elements
    fold
one_of_two = refl

covered_hashes-Within_example : Within (40 ∷ []) (1, 2)
covered_hashes-Within_example =
    covered_hashes-Within plain_python export_obj (40 ∷ []) (1, 2) one_direction one_of_two

abbrev all_metrics : Metric → List ℕ
all_metrics = by_metric (40 ∷ []) (11 ∷ []) (17 ∷ []) (13 ∷ [])

all_metrics_run : coverage_metrics_from_export plain_python export_obj ≡ some all_metrics
unfolding coverage_metrics_from_export for_metrics covered_hashes add_data add_function
    function_covered any_covered covered_tuple function_key collect_function_branch_hashes
    collect_file_hashes add_segment add_branch branch_key branch_taken add_direction add_hash
    elements fold sorted
all_metrics_run = refl

-- A packing that leaves the bytes as they are.
abbrev plain : Packing
plain = record {
  Payload = List ℕ;
  is_empty = λ raw. false;
  pack = λ raw. raw;
  unpack = λ raw. some raw;
  pack_nonempty = λ raw. refl;
  unpack-pack = λ raw. refl;
}

read-write_coverage_sets_example :
    (doc : Document (List ℕ)) × (write_coverage_sets plain no_summary no_summary all_metrics none
      ≡ some doc)
    × ((m : Metric) → read_covered_keys plain doc m ≡ some (all_metrics m))
read-write_coverage_sets_example =
    read-write_coverage_sets plain_python plain export_obj no_summary no_summary none all_metrics
      all_metrics_run
