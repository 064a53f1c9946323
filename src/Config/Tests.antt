-- ===== src/Config/Tests.antt =====
-- Loading a fuzzer with a parent.
use fuzzmeter.Prelude.{
  ℕ, ◌≡◌, ◌<◌, refl, Bool, true, false, Option, none, some, String, List, [], ◌∷◌, arith, ltb,
  nat_beq, All, any, if◌then◌else◌,
}
use fuzzmeter.Prelude.Equality.{◌==◌, nat_eq, string_eq}
use fuzzmeter.Dict.{Dict}
use fuzzmeter.Json.{Value, number, text, list, dict, Items, end, field}
use fuzzmeter.Config.Values.{
  Host, mapping_or_empty, load_yaml, names_of, check_id_format, load_optional, is_true,
  names_or_empty,
}
use fuzzmeter.Config.Merge.{merge, same_type}
use fuzzmeter.Config.Fuzzers.{
  Fuzzer, fuzzer, no_parent, child_of, nil, description, Entries, loaded, load_fuzzer, load_new,
  load_with, read_settings, settings_of, load_parent, load_sources, effective_allowed,
}
use fuzzmeter.Config.Fuzzers.Entries.{unopened, Good}
use fuzzmeter.Config.Fuzzers.Closure.{
  parents, Allows, load_fuzzer-narrows, dependencies, dependencies-AreInOrder, AreInOrder,
}
use fuzzmeter.Config.Fuzzers.Loading.{Ends, load_fuzzer-Ends}

-- Directories are texts, and files are those of the fuzzer "afl" and its child "mopt".
unfoldable pub yaml_of : String → List String → Option (Option (Value ℕ))
yaml_of dir [] = none
yaml_of dir (part ∷ path) =
    if part == "benchmark.yaml"
    then some (some benchmark_yaml)
    else if part == "build"
    then if dir == "mopt" then some (some mopt_yaml) else none
    else none
  where
    benchmark_yaml : Value ℕ
    benchmark_yaml = dict (
        field "benchmark" (text "zlib") (
          field "fuzz_targets"
            (dict (field "inflate" (dict (field "input_mode" (text "file") end)) end)) end))

    mopt_yaml : Value ℕ
    mopt_yaml = dict (
        field "parent" (text "afl")
          (field "allowed_fuzz_targets" (list (Items.cons (text "zlib:inflate") Items.nil)) end))

abbrev pub plain_host : Host ℕ ℕ String
plain_host = record {
  number_type = λ n. 0;
  truthy_number = λ n. ltb 0 n;
  code_points = λ s. 97 ∷ [];
  str_of = λ v. "file";
  strip = λ s. s;
  int_of = index;
  float_of = real;
  at_most_zero = λ n. nat_beq n 0;
  one = 1;
  split_colon = λ s. some ("zlib", "inflate");
  resolve = λ s. s;
  is_dir = λ s. true;
  safe_load = yaml_of;
}
  where
    index : Value ℕ → Option (Bool × ℕ)
    index (number n) = some (false, n)
    index _ = none

    real : Value ℕ → Option ℕ
    real (number n) = some n
    real _ = none

abbrev pub dirs : Dict String String
dirs = ("afl", "afl") ∷ ("mopt", "mopt") ∷ []

abbrev afl : Fuzzer ℕ String
afl =
    fuzzer
      (record {
        id = "afl";
        name = "afl";
        src_dir = "afl";
        allowed_fuzz_targets = none;
        local_repo_env = some "file";
        build_config = end;
        run_config = end;
      })
      no_parent nil

abbrev pub mopt : Fuzzer ℕ String
mopt =
    fuzzer
      (record {
        id = "mopt";
        name = "mopt";
        src_dir = "mopt";
        allowed_fuzz_targets = some ("zlib:inflate" ∷ []);
        local_repo_env = some "file";
        build_config = end;
        run_config = end;
      })
      (child_of afl) nil

abbrev both : Entries ℕ String
both = ("mopt", some mopt) ∷ ("afl", some afl) ∷ []

abbrev no_entries : Entries ℕ String
no_entries = []

two_unopened : unopened dirs no_entries < 3
unfolding unopened
two_unopened = omega arith

load_mopt : load_fuzzer plain_host 3 dirs "mopt" [] ≡ loaded mopt both
unfolding load_fuzzer load_new load_with read_settings settings_of load_parent load_sources
    effective_allowed load_optional load_yaml mapping_or_empty names_or_empty names_of is_true
    check_id_format merge same_type yaml_of
load_mopt = refl

load_fuzzer-narrows_example : All (Allows "zlib:inflate") (parents mopt)
load_fuzzer-narrows_example =
    load_fuzzer-narrows plain_host 3 dirs "mopt" "zlib:inflate" [] both mopt (λ n f h. absurd cc)
      two_unopened load_mopt refl

load_fuzzer-Ends_example :
    Ends (Good dirs no_entries "mopt") (load_fuzzer plain_host 3 dirs "mopt" no_entries)
load_fuzzer-Ends_example =
    load_fuzzer-Ends plain_host 3 dirs "mopt" no_entries (λ n f h. absurd cc) two_unopened

dependencies-AreInOrder_example :
    AreInOrder [] (dependencies mopt)
    × (any (λ g. "mopt" == (description g).name) (dependencies mopt) ≡ true)
dependencies-AreInOrder_example = dependencies-AreInOrder mopt
