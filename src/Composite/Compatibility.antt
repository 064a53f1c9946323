-- ===== src/Composite/Compatibility.antt =====
-- src/fuzzmeter/composite/compatibility.py: whether the metadata of two measurements allows putting
-- them into one report.
pub mod Levels
mod Tests
use Prim.Native.String.{◌++◌ as append}
use fuzzmeter.Prelude.{
  ℕ, zero, suc, ◌+◌, Bool, true, false, not, ◌&&◌, ◌||◌, Option, none, some, String, List, [], ◌∷◌,
  ◌++◌, nat_beq, if◌then◌else◌, any, All,
}
use fuzzmeter.Prelude.Equality.{Eq, ◌==◌, string_eq, elem}
use fuzzmeter.Json.{
  Value, null, number, text, list, dict, Fields, end, field, find, get, field_names, is_empty,
}
use fuzzmeter.Composite.Diffs.{leaf, diff_dict}

abbrev pub target_config_keys : List String
target_config_keys = "benchmark" ∷ "fuzz_target" ∷ "input_mode" ∷ "timeout" ∷ []

-- `key in TARGET_CONFIG_KEYS`
pub is_target : String → Bool
is_target key = elem key target_config_keys

abbrev pub benchmark_source_scope : String
benchmark_source_scope = "benchmark_source"

pub record MeasurementMetadata (N : Type 0) : Type 0 where
  pub environment : Fields N
  pub config : Fields N
  pub source : Fields N
  pub environment_digest : Option String

-- `reference.environment_digest and candidate.environment_digest and …`
abbrev pub same_digest : Option String → Option String → Bool
same_digest (some a) (some b) = not (a == "") && not (b == "") && a == b
same_digest _ _ = false

pub data Domain : Type 0 where
  environment config source : Domain

pub data Severity : Type 0 where
  error warning : Severity

pub data Level : Type 0 where
  compatible risky incompatible : Level

pub record CompatibilityIssue (N : Type 0) : Type 0 where
  pub domain : Domain
  pub severity : Severity
  pub message : String
  pub details : Fields N

pub record DiffRow (N : Type 0) : Type 0 where
  pub domain : Domain
  pub path : String
  pub severity : Severity
  pub message : String
  pub reference : Value N
  pub candidate : Value N

pub record CompatibilityResult (N : Type 0) : Type 0 where
  pub level : Level
  pub issues : List (CompatibilityIssue N)
  pub diffs : List (DiffRow N)
  pub environment_diff : Fields N
  pub config_diff : Fields N
  pub source_diff : Fields N

-- `f'{prefix}.{key}' if prefix else str(key)`
abbrev pub path_of : String → String → String
path_of prefix key = if prefix == "" then key else append prefix (append "." key)

abbrev pub is_error : Severity → Bool
is_error error = true
is_error warning = false

module _ {N : Type 0} where
  -- The two dicts of `split_config_diff`.
  abbrev pub target_part : Fields N → Fields N
  target_part end = end
  target_part (field k v fs) = if is_target k then field k v (target_part fs) else target_part fs

  abbrev pub risky_part : Fields N → Fields N
  risky_part end = end
  risky_part (field k v fs) = if is_target k then risky_part fs else field k v (risky_part fs)

  -- `_is_leaf_diff`
  abbrev pub is_leaf_diff : Fields N → Bool
  is_leaf_diff fs =
      elem "reference" (field_names fs)
      && elem "candidate" (field_names fs)
      && not (any (λ k. not (k == "reference" || k == "candidate")) (field_names fs))

  abbrev pub leaf_row : Domain → Severity → String → String → Fields N → DiffRow N
  leaf_row domain severity message path fs = record {
    domain = domain;
    path = path;
    severity = severity;
    message = message;
    reference = get "reference" fs;
    candidate = get "candidate" fs;
  }

  mutual
    -- The rows of one entry.
    pub entry_rows : Domain → Severity → String → String → Value N → List (DiffRow N)
    entry_rows domain severity message path (dict fs) =
        let nested = diff_rows domain severity message path fs in
        if is_leaf_diff fs then leaf_row domain severity message path fs ∷ [] else nested
    entry_rows domain severity message path _ = []

    -- `_diff_rows`
    pub diff_rows : Domain → Severity → String → String → Fields N → List (DiffRow N)
    diff_rows domain severity message prefix end = []
    diff_rows domain severity message prefix (field k v fs) =
        entry_rows domain severity message (path_of prefix k) v
        ++ diff_rows domain severity message prefix fs

  -- `_diff_rows_for_issues`
  pub diff_rows_for_issues : List (CompatibilityIssue N) → List (DiffRow N)
  unfolding diff_rows
  diff_rows_for_issues [] = []
  diff_rows_for_issues (i ∷ issues) =
      diff_rows i.domain i.severity i.message "" i.details ++ diff_rows_for_issues issues

  pub level_from_diffs : List (CompatibilityIssue N) → Level
  level_from_diffs issues =
      if any (λ i. is_error i.severity) issues
      then incompatible
      else elim issues [ [] ↦ compatible | _ ∷ _ ↦ risky ]

  -- One issue where there is a diff.
  abbrev pub warn : Domain → String → Fields N → List (CompatibilityIssue N)
  warn domain message details =
      if is_empty details
      then []
      else record { domain = domain; severity = warning; message = message; details = details } ∷ []

  -- `_scope_data`
  abbrev pub scope_data : Value N → Fields N
  scope_data (dict fs) = elim (get "data" fs) [ dict gs ↦ gs | _ ↦ end ]
  scope_data _ = end

  abbrev pub is_text : String → Value N → Bool
  is_text s (text t) = t == s
  is_text s _ = false

  -- `_scope_has_data`
  abbrev pub scope_has_data : Value N → Bool
  scope_has_data (dict fs) = is_text "ok" (get "status" fs) && not (is_empty (scope_data (dict fs)))
  scope_has_data _ = false

  -- `_presence_label`
  abbrev pub presence_label : Bool → Value N
  presence_label missing = text (if missing then "missing" else "present")

module _ {N : Type 0} ⦃e : Eq N⦄ where
  abbrev pub diff_environment : MeasurementMetadata N → MeasurementMetadata N → Fields N
  diff_environment reference candidate =
      if same_digest reference.environment_digest candidate.environment_digest
      then end
      else diff_dict reference.environment candidate.environment

  -- `_diff_source_scope`
  pub diff_source_scope : Fields N → Fields N → String → Fields N
  diff_source_scope reference candidate scope =
      let ref_missing = not (scope_has_data (get scope reference)) in
      let cand_missing = not (scope_has_data (get scope candidate)) in
      if ref_missing || cand_missing
      then field "metadata" (leaf (presence_label ref_missing) (presence_label cand_missing)) end
      else diff_dict (scope_data (get scope reference)) (scope_data (get scope candidate))

  pub diff_source : Fields N → Fields N → Fields N
  unfolding diff_source_scope
  diff_source reference candidate =
      let target_diff = diff_source_scope reference candidate benchmark_source_scope in
      if is_empty target_diff then end else field benchmark_source_scope (dict target_diff) end

  -- The issues of `compare_metadata`, from the three diffs.
  pub issues_of : Fields N → Fields N → Fields N → List (CompatibilityIssue N)
  issues_of environment_diff config_diff source_diff =
      let target_diff = target_part config_diff in
      if is_empty target_diff
      then warn environment "Environment metadata differs." environment_diff
        ++ warn config "Measurement configuration differs." (risky_part config_diff)
        ++ warn source "User source metadata is missing or differs." source_diff
      else record {
        domain = config;
        severity = error;
        message = "Measurement identity differs.";
        details = target_diff;
      }
        ∷ []

  pub compare_metadata : MeasurementMetadata N → MeasurementMetadata N → CompatibilityResult N
  unfolding diff_source issues_of diff_rows_for_issues level_from_diffs
  compare_metadata reference candidate =
      let environment_diff = diff_environment reference candidate in
      let config_diff = diff_dict reference.config candidate.config in
      let source_diff = diff_source reference.source candidate.source in
      let issues = issues_of environment_diff config_diff source_diff in
      record {
        level =
            if is_empty (target_part config_diff) then level_from_diffs issues else incompatible;
        issues = issues;
        diffs = diff_rows_for_issues issues;
        environment_diff = environment_diff;
        config_diff = config_diff;
        source_diff = source_diff;
      }
