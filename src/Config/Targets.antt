-- ===== src/Config/Targets.antt =====
-- `Benchmark` and `FuzzTarget` of src/fuzzmeter/config/models.py, `_fuzz_target_from_config` and
-- `_load_fuzz_targets` of src/fuzzmeter/config/builder.py.
pub mod Loaded
use Prim.Native.String.{◌++◌ as str_append}
use fuzzmeter.Prelude.{
  ℕ, Bool, true, false, not, ◌&&◌, Option, none, some, String, List, [], ◌∷◌, ◌++◌, if◌then◌else◌,
}
use fuzzmeter.Prelude.Equality.{Eq, ◌==◌, string_eq, elem}
use fuzzmeter.Prelude.Failing.{◌>>=◌, ◌>>◌, require, fold}
use fuzzmeter.Dict.{Dict, get, put}
use fuzzmeter.Json.{Value, null, text, dict, Fields, end, field, get as get_field}
use fuzzmeter.Config.Values.{
  Host, is_true, mapping_or_empty, full_list, check_id_format, normalized_int_value, load_yaml,
  load_optional,
}

-- The path of its configuration is that of benchmark.yaml in its directory.
pub record Benchmark (D : Type 0) : Type 0 where
  pub name : String
  pub src_dir : D

pub record FuzzTarget (N D : Type 0) : Type 0 where
  pub benchmark : Benchmark D
  pub fuzz_target : String
  pub input_mode : String
  pub fuzzer_overrides : Fields N
  pub target_timeout_s : N
  pub build_compile_jobs : Option ℕ

module _ {N D : Type 0} where
  unfoldable pub target_ident : FuzzTarget N D → String
  target_ident t = str_append t.benchmark.name (str_append "-" t.fuzz_target)

  unfoldable pub target_spec : FuzzTarget N D → String
  target_spec t = str_append t.benchmark.name (str_append ":" t.fuzz_target)

-- `INPUT_MODE_OPTIONS`
unfoldable pub input_mode_options : List String
input_mode_options = "in_process" ∷ "file" ∷ "stdin" ∷ []

-- `all(isinstance(override, dict) for override in overrides.values())`
abbrev pub all_mappings : {N : Type 0} → Fields N → Bool
all_mappings end = true
all_mappings (field k (dict fs) rest) = all_mappings rest
all_mappings (field k v rest) = false

module _ {N K D : Type 0} (host : Host N K D) where
  open host use {str_of, float_of, at_most_zero, one, split_colon, strip, safe_load}

  -- A mapping that is not empty.
  abbrev pub full_mapping : Value N → Option (Fields N)
  full_mapping (dict (field k v fs)) = some (field k v fs)
  full_mapping v = none

  -- `FuzzTarget.target_timeout_s` where none is given.
  abbrev pub float_or_one : Value N → Option N
  float_or_one null = some one
  float_or_one v = float_of v

  -- The time a target may take: a number that is not at most 0.
  unfoldable pub timeout_of : Value N → Option N
  timeout_of value = do
    timeout_s ← float_or_one value
    require (not (at_most_zero timeout_s))
    some timeout_s

  abbrev pub compile_jobs_of : Value N → Option (Option ℕ)
  compile_jobs_of null = some none
  compile_jobs_of v = normalized_int_value host v 1 >>= (λ n. some (some n))

  -- The fields of one target in benchmark.yaml.
  unfoldable pub target_of : Benchmark D → String → Fields N → Option (FuzzTarget N D)
  target_of benchmark name fields =
      let mode = get_field "input_mode" fields in
      let input_mode = str_of (if is_true host mode then mode else text "") in
      do
        require (elem input_mode input_mode_options)
        timeout_s ← timeout_of (get_field "timeout_s" fields)
        overrides ← mapping_or_empty host (get_field "fuzzers" fields)
        require (all_mappings overrides)
        build_fields ← mapping_or_empty host (get_field "build" fields)
        jobs ← compile_jobs_of (get_field "compile_jobs" build_fields)
        some (record {
          benchmark = benchmark;
          fuzz_target = name;
          input_mode = input_mode;
          fuzzer_overrides = overrides;
          target_timeout_s = timeout_s;
          build_compile_jobs = jobs;
        })

  abbrev pub named_benchmark : String → Value N → Option String
  named_benchmark required (text s) =
      if s == "" then none else if required == s then some s else none
  named_benchmark required v = none

  abbrev pub mapping : Value N → Option (Fields N)
  mapping (dict fs) = some fs
  mapping v = none

  -- `_fuzz_target_from_config`
  unfoldable pub fuzz_target_from_config : D → String → String → Option (FuzzTarget N D)
  fuzz_target_from_config benchmark_dir required_benchmark required_target = do
    yaml ← safe_load benchmark_dir ("benchmark.yaml" ∷ [])
    fields ← load_yaml host yaml
    name ← named_benchmark required_benchmark (get_field "benchmark" fields)
    targets ← full_mapping (get_field "fuzz_targets" fields)
    target ← mapping (get_field required_target targets)
    target_of (record { name = name; src_dir = benchmark_dir }) required_target target

-- What the loop over the specs keeps.
pub record TargetsRead (N D : Type 0) : Type 0 where
  pub fuzz_targets : List (FuzzTarget N D)
  pub benchmarks : Dict String (Benchmark D)
  pub seen_idents : List String

module _ {N K D : Type 0} (host : Host N K D) where
  open host use {split_colon, strip}

  -- The parts of a spec, checked.
  unfoldable pub spec_parts : Value N → Option (String × String)
  spec_parts (text spec) = do
    parts ← split_colon spec
    benchmark ← check_id_format host (text (strip parts.0))
    name ← check_id_format host (text (strip parts.1))
    some (benchmark, name)
  spec_parts v = none

  -- `benchmarks.setdefault(name, benchmark)`
  abbrev pub setdefault :
      String → Benchmark D → Dict String (Benchmark D) → Benchmark D × Dict String (Benchmark D)
  setdefault name b known = elim (get name known) [
    | none ↦ (b, put name b known)
    | some first ↦ (first, known)
  ]

  unfoldable pub with_benchmark : FuzzTarget N D → Benchmark D → FuzzTarget N D
  with_benchmark t b = record {
    benchmark = b;
    fuzz_target = t.fuzz_target;
    input_mode = t.input_mode;
    fuzzer_overrides = t.fuzzer_overrides;
    target_timeout_s = t.target_timeout_s;
    build_compile_jobs = t.build_compile_jobs;
  }

  -- The target with the benchmark that all its targets share.
  unfoldable pub add_target : String → FuzzTarget N D → TargetsRead N D → Option (TargetsRead N D)
  add_target benchmark t read =
      let shared = setdefault benchmark t.benchmark read.benchmarks in
      let target = with_benchmark t shared.0 in
      do
        require (not (elem (target_ident target) read.seen_idents))
        some (record {
          fuzz_targets = read.fuzz_targets ++ target ∷ [];
          benchmarks = shared.1;
          seen_idents = target_ident target ∷ read.seen_idents;
        })

  -- A round of the loop over the specs.
  unfoldable pub read_target : Dict String D → Value N → TargetsRead N D → Option (TargetsRead N D)
  read_target benchmark_dirs spec read = do
    parts ← spec_parts spec
    dir ← get parts.0 benchmark_dirs
    t ← fuzz_target_from_config host dir parts.0 parts.1
    add_target parts.0 t read

  -- `_load_fuzz_targets`
  unfoldable pub load_fuzz_targets : Fields N → Dict String D → Option (List (FuzzTarget N D))
  load_fuzz_targets fields benchmark_dirs = do
    specs ← full_list host (get_field "fuzz_targets" fields)
    read ←
        fold (read_target benchmark_dirs) specs
          (record { fuzz_targets = []; benchmarks = []; seen_idents = [] })
    some read.fuzz_targets
