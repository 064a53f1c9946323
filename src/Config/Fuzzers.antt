-- ===== src/Config/Fuzzers.antt =====
-- The fuzzers of a campaign: `Fuzzer` of src/fuzzmeter/config/models.py and
-- `_load_fuzzer_from_config` of src/fuzzmeter/config/builder.py.
pub mod Entries
pub mod Loading
pub mod Closure
use fuzzmeter.Prelude.{
  ℕ, zero, suc, Bool, true, false, Option, none, some, String, List, [], ◌∷◌, filter, if◌then◌else◌,
}
use fuzzmeter.Prelude.Equality.{Eq, ◌==◌, string_eq, elem}
use fuzzmeter.Prelude.Failing.{◌>>=◌}
use fuzzmeter.Dict.{Dict, get, put}
use fuzzmeter.Json.{Value, null, text, Fields, get as get_field}
use fuzzmeter.Config.Merge.{merge}
use fuzzmeter.Config.Values.{
  Host, is_true, mapping_or_empty, names_or_empty, check_id_format, load_optional,
}

-- What a fuzzer is built of besides other fuzzers. No list of allowed targets allows all.
pub record Description (N D : Type 0) : Type 0 where
  pub id : String
  pub name : String
  pub src_dir : D
  pub allowed_fuzz_targets : Option (List String)
  pub local_repo_env : Option String
  pub build_config : Fields N
  pub run_config : Fields N

mutual
  pub data Fuzzer (N D : Type 0) : Type 0 where
    fuzzer : Description N D → Parent N D → Fuzzers N D → Fuzzer N D

  -- `parent: Fuzzer | None`
  pub data Parent (N D : Type 0) : Type 0 where
    no_parent : Parent N D
    child_of : Fuzzer N D → Parent N D

  -- `source_dependencies: list[Fuzzer]`
  pub data Fuzzers (N D : Type 0) : Type 0 where
    nil : Fuzzers N D
    cons : Fuzzer N D → Fuzzers N D → Fuzzers N D

module _ {N D : Type 0} where
  abbrev pub description : Fuzzer N D → Description N D
  description (fuzzer d p ds) = d

  abbrev pub parent : Fuzzer N D → Parent N D
  parent (fuzzer d p ds) = p

  -- `parent.allowed_fuzz_targets if parent else None`
  abbrev pub inherited_from : Parent N D → Option (List String)
  inherited_from no_parent = none
  inherited_from (child_of f) = (description f).allowed_fuzz_targets

-- A list of allowed targets, if any, holds the spec.
abbrev pub allowed_by : Option (List String) → String → Bool
allowed_by none spec = true
allowed_by (some specs) spec = elem spec specs

-- `_effective_allowed`
unfoldable pub effective_allowed : List String → Option (List String) → Option (List String)
effective_allowed [] inherited = inherited
effective_allowed (s ∷ own) none = some (s ∷ own)
effective_allowed (s ∷ own) (some specs) = some (filter (λ spec. elem spec specs) (s ∷ own))

-- The fuzzers loaded so far; those that are being loaded have none.
abbrev pub Entries : Type 0 → Type 0 → Type 0
Entries N D = Dict String (Option (Fuzzer N D))

-- What a call that loads gives: a value, an exception, or no result with the fuel there is.
pub data Attempt (N D A : Type 0) : Type 0 where
  loaded : A → Entries N D → Attempt N D A
  raised : Attempt N D A
  stuck : Attempt N D A

abbrev pub Load : Type 0 → Type 0 → Type 0
Load N D = String → Entries N D → Attempt N D (Fuzzer N D)

module _ {N D : Type 0} where
  abbrev pub then_with :
      {A B : Type 0} → Attempt N D A → (A → Entries N D → Attempt N D B) → Attempt N D B
  then_with (loaded a entries) f = f a entries
  then_with raised f = raised
  then_with stuck f = stuck

  -- `_load_fuzzer_from_config(parent_name, …) if parent_name else None`
  unfoldable pub load_parent : Load N D → Option String → Entries N D → Attempt N D (Parent N D)
  load_parent load none entries = loaded no_parent entries
  load_parent load (some name) entries =
      then_with (load name entries) (λ f entries'. loaded (child_of f) entries')

  -- `[_load_fuzzer_from_config(name, …) for name in source_names]`
  unfoldable pub load_sources : Load N D → List String → Entries N D → Attempt N D (Fuzzers N D)
  load_sources load [] entries = loaded nil entries
  load_sources load (name ∷ names) entries = then_with (load name entries) (λ f entries'.
      then_with (load_sources load names entries') (λ fs entries''. loaded (cons f fs) entries''))

-- The fields of a configuration, checked.
pub record FuzzerSettings (N : Type 0) : Type 0 where
  pub parent_name : Option String
  pub source_names : List String
  pub allowed : List String
  pub build : Fields N
  pub runtime : Fields N
  pub repo_env : Option String

module _ {N K D : Type 0} ⦃e : Eq K⦄ (host : Host N K D) where
  open host use {number_type, str_of, strip, is_dir}

  -- None is no parent; any other value has to be an identifier.
  abbrev pub checked_parent : Value N → Option (Option String)
  checked_parent null = some none
  checked_parent v = check_id_format host v >>= (λ s. some (some s))

  -- `str(value or '').strip() or None`
  abbrev pub stripped_or_none : Value N → Option String
  stripped_or_none v =
      let s = strip (str_of (if is_true host v then v else text "")) in
      if s == "" then none else some s

  unfoldable pub settings_of : Fields N → Option (FuzzerSettings N)
  settings_of fields = do
    parent_name ← checked_parent (get_field "parent" fields)
    sources ← names_or_empty host (get_field "source_dependencies" fields)
    allowed ← names_or_empty host (get_field "allowed_fuzz_targets" fields)
    build_config ← mapping_or_empty host (get_field "build" fields)
    run_config ← mapping_or_empty host (get_field "runtime" fields)
    some (record {
      parent_name = parent_name;
      source_names = sources;
      allowed = allowed;
      build = build_config;
      runtime = run_config;
      repo_env = stripped_or_none (get_field "local_repo_env" fields);
    })

  -- The configuration in a fuzzer's directory: of the build merged with that of the run.
  unfoldable pub read_settings : D → Option (FuzzerSettings N)
  read_settings dir = do
    build_data ← load_optional host dir ("build" ∷ "build.yaml" ∷ [])
    run_data ← load_optional host dir ("run" ∷ "run.yaml" ∷ [])
    fields ← merge number_type build_data run_data
    settings_of fields

  abbrev pub make_fuzzer : String → D → FuzzerSettings N → Parent N D → Fuzzers N D → Fuzzer N D
  make_fuzzer name dir settings p sources =
      fuzzer
        (record {
          id = name;
          name = name;
          src_dir = dir;
          allowed_fuzz_targets = effective_allowed settings.allowed (inherited_from p);
          local_repo_env = settings.repo_env;
          build_config = settings.build;
          run_config = settings.runtime;
        })
        p sources

  -- The fuzzer with its parent first and then its source dependencies.
  unfoldable pub load_with :
      Load N D → String → D → FuzzerSettings N → Entries N D → Attempt N D (Fuzzer N D)
  load_with load name dir settings entries =
      then_with (load_parent load settings.parent_name entries) (λ p entries'.
        then_with (load_sources load settings.source_names entries') (λ sources entries''.
          let f = make_fuzzer name dir settings p sources in
          loaded f (put name (some f) entries'')))

  -- A fuzzer that has no entry yet.
  unfoldable pub load_new : Load N D → Dict String D → Load N D
  load_new load fuzzer_dirs name entries = elim (get name fuzzer_dirs) [
    | none ↦ raised
    | some dir ↦
        if is_dir dir
        then elim (read_settings dir) [
          | none ↦ raised
          | some settings ↦ load_with load name dir settings (put name none entries)
        ]
        else raised
  ]

  -- `_load_fuzzer_from_config`
  unfoldable pub load_fuzzer : ℕ → Dict String D → Load N D
  load_fuzzer zero fuzzer_dirs name entries = stuck
  load_fuzzer (suc fuel) fuzzer_dirs name entries = elim (get name entries) [
    | some (some f) ↦ loaded f entries
    | some none ↦ raised
    | none ↦ load_new (load_fuzzer fuel fuzzer_dirs) fuzzer_dirs name entries
  ]
