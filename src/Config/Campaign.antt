-- ===== src/Config/Campaign.antt =====
-- `CampaignSettings`, `CampaignCase` and `CampaignConfig` of src/fuzzmeter/config/models.py, and
-- `_load_campaign_settings`, `_load_fuzzers`, `_build_campaign_case` and `load_campaign_config` of
-- src/fuzzmeter/config/builder.py. Logging is left out.
pub mod Bounds
pub mod Cases
pub mod Layers
use mathlib.Core.List.{reverse}
use fuzzmeter.Prelude.{
  ℕ, Bool, true, false, not, ◌&&◌, Option, none, some, String, List, [], ◌∷◌, ◌++◌, nat_beq, ltb,
  length, any, if◌then◌else◌,
}
use fuzzmeter.Prelude.Equality.{Eq, ◌==◌, string_eq, elem}
use fuzzmeter.Prelude.Sets.{without}
use fuzzmeter.Prelude.Failing.{◌>>=◌, ◌>>◌, require, fold}
use fuzzmeter.Dict.{Dict, get, keys}
use fuzzmeter.Json.{
  Value, null, number, text, list, dict, Items, Fields, end, field, find, get as get_field,
}
use fuzzmeter.Config.Merge.{merge}
use fuzzmeter.Config.Values.{
  Host, is_true, mapping_or_empty, full_list, check_id_format, normalized_int_value,
}
use fuzzmeter.Config.Fuzzers.{
  Description, Fuzzer, fuzzer, child_of, Fuzzers, nil, description, allowed_by, effective_allowed,
}
use fuzzmeter.Config.Fuzzers.Closure.{parents}
use fuzzmeter.Config.Selection.{Selected, load_fuzzers}
use fuzzmeter.Config.Targets.{FuzzTarget, target_spec, load_fuzz_targets}

pub record CampaignSettings (N : Type 0) : Type 0 where
  pub time_seconds : ℕ
  pub repetitions : ℕ
  pub build_jobs : ℕ
  pub build_compile_jobs : ℕ
  pub parallel_jobs : ℕ
  pub snapshot_jobs : ℕ
  pub snapshot_every_seconds : ℕ
  pub snapshot_export_every_ticks : ℕ
  pub memory : Option (Value N)
  pub memory_swap : Option (Value N)

pub record CampaignCase (N D : Type 0) : Type 0 where
  pub case_fuzzer : Fuzzer N D
  pub fuzz_target : FuzzTarget N D
  pub build_config : Fields N
  pub run_config : Fields N
  pub replay_trials : List D

pub record CampaignConfig (N D : Type 0) : Type 0 where
  pub settings : CampaignSettings N
  pub cases : List (CampaignCase N D)

module _ {N K D : Type 0} (host : Host N K D) where
  -- The value of a setting, the default if it is missing.
  unfoldable pub int_setting : String → Fields N → ℕ → ℕ → Option ℕ
  int_setting key fields default min_value = elim (find key fields) [
    | none ↦ if ltb default min_value then none else some default
    | some v ↦ normalized_int_value host v min_value
  ]

  -- `fields.get(key, '') or None`
  unfoldable pub value_or_none : String → Fields N → Option (Value N)
  value_or_none key fields =
      if is_true host (get_field key fields) then some (get_field key fields) else none

  -- The time, the repetitions and the parallel jobs.
  unfoldable pub run_settings : ℕ → Fields N → Option (ℕ × ℕ × ℕ)
  run_settings cpus run = do
    time_seconds ← int_setting "time_seconds" run 3600 60
    repetitions ← int_setting "repetitions" run 1 1
    parallel_jobs ← int_setting "parallel_jobs" run cpus 1
    some (time_seconds, repetitions, parallel_jobs)

  -- The jobs of the build and those of one compilation.
  unfoldable pub build_settings : Fields N → Option (ℕ × ℕ)
  build_settings build = do
    jobs ← int_setting "jobs" build 1 1
    compile_jobs ← int_setting "compile_jobs" build 1 1
    some (jobs, compile_jobs)

  -- The jobs, the period and the ticks between exports of the snapshots.
  unfoldable pub snapshot_settings : Fields N → Option (ℕ × ℕ × ℕ)
  snapshot_settings snap = do
    jobs ← int_setting "jobs" snap 1 0
    every_seconds ← int_setting "every_seconds" snap 900 60
    export_every ← int_setting "export_every_ticks" snap 1 0
    some (jobs, every_seconds, export_every)

  unfoldable pub checked_settings : ℕ → Fields N → Fields N → Fields N → Option (CampaignSettings N)
  checked_settings cpus run snap build = do
    r ← run_settings cpus run
    b ← build_settings build
    s ← snapshot_settings snap
    some (record {
      time_seconds = r.0;
      repetitions = r.1;
      build_jobs = b.0;
      build_compile_jobs = b.1;
      parallel_jobs = r.2;
      snapshot_jobs = s.0;
      snapshot_every_seconds = s.1;
      snapshot_export_every_ticks = s.2;
      memory = value_or_none "memory" run;
      memory_swap = value_or_none "memory_swap" run;
    })

  -- `_load_campaign_settings`; `cpus` is `os.cpu_count() or 2`.
  unfoldable pub load_campaign_settings : ℕ → Fields N → Option (CampaignSettings N)
  load_campaign_settings cpus fields = do
    run ← mapping_or_empty host (get_field "run" fields)
    snap ← mapping_or_empty host (get_field "snapshot" run)
    build ← mapping_or_empty host (get_field "build" fields)
    checked_settings cpus run snap build

  -- What a target overrides for a fuzzer's id.
  unfoldable pub override_of : String → FuzzTarget N D → String → Option (Fields N)
  override_of key target id =
      mapping_or_empty host (get_field id target.fuzzer_overrides)
      >>= (λ override. mapping_or_empty host (get_field key override))

-- Its build and its run configuration, while a case is built.
pub record Configs (N : Type 0) : Type 0 where
  pub build : Fields N
  pub run : Fields N

-- `replay_trials.get(spec, ())`
abbrev pub trials_for : {D : Type 0} → String → Dict String (List D) → List D
trials_for spec trials = elim (get spec trials) [ none ↦ [] | some dirs ↦ dirs ]

-- What the loop over the targets keeps.
pub record Selection (N D : Type 0) : Type 0 where
  pub unselected : List String
  pub selected_cases : List (CampaignCase N D)

module _ {N K D : Type 0} ⦃e : Eq K⦄ (host : Host N K D) where
  open host use {number_type}

  -- A fuzzer's configuration and then the target's override for it, merged into one.
  unfoldable pub merge_layers :
      String → FuzzTarget N D → String → Fields N → Fields N → Option (Fields N)
  merge_layers key target id own config = do
    merged ← merge number_type config own
    override ← override_of host key target id
    merge number_type merged override

  -- A round of the loop over a fuzzer and its parents.
  unfoldable pub merge_configs : FuzzTarget N D → Fuzzer N D → Configs N → Option (Configs N)
  merge_configs target f configs = do
    build ←
        merge_layers "build" target (description f).id (description f).build_config configs.build
    run ← merge_layers "runtime" target (description f).id (description f).run_config configs.run
    some (record { build = build; run = run })

  -- `_build_campaign_case`
  unfoldable pub build_campaign_case :
      Fuzzer N D → FuzzTarget N D → List D → Option (CampaignCase N D)
  build_campaign_case f target trials = do
    configs ←
        fold (merge_configs target) (reverse (f ∷ parents f)) (record { build = end; run = end })
    some (record {
      case_fuzzer = f;
      fuzz_target = target;
      build_config = configs.build;
      run_config = configs.run;
      replay_trials = trials;
    })

  -- A round of the loop over the targets.
  unfoldable pub select_target :
      Selected N D → FuzzTarget N D → Selection N D → Option (Selection N D)
  select_target (f, trials) target selection =
      let spec = target_spec target in
      let selected = do
        case_ ← build_campaign_case f target (trials_for spec trials)
        some (record {
          unselected = without spec selection.unselected;
          selected_cases = selection.selected_cases ++ case_ ∷ [];
        })
      in if allowed_by (description f).allowed_fuzz_targets spec then selected else some selection

  -- A round of the loop over the fuzzers.
  unfoldable pub select_fuzzer :
      List (FuzzTarget N D)
      → Selected N D
      → List (CampaignCase N D)
      → Option (List (CampaignCase N D))
  select_fuzzer targets (f, trials) cases = do
    selection ←
        fold (select_target (f, trials)) targets
          (record { unselected = keys trials; selected_cases = cases })
    require (nat_beq (length selection.unselected) 0)
    some selection.selected_cases

  -- The number of trials to replay is the same for all cases, or no trial is replayed.
  unfoldable pub replay_counts_agree : ℕ → List (CampaignCase N D) → Bool
  replay_counts_agree repetitions cases = not (
      any (λ c. not (nat_beq (length c.replay_trials) 0)) cases
      && any (λ c. not (nat_beq (length c.replay_trials) repetitions)) cases)

  -- The end of `load_campaign_config`: its cases and settings, checked.
  unfoldable pub checked_config :
      ℕ → Fields N → List (CampaignCase N D) → Option (CampaignConfig N D)
  checked_config cpus fields cases = do
    require (not (nat_beq (length cases) 0))
    settings ← load_campaign_settings host cpus fields
    require (replay_counts_agree settings.repetitions cases)
    some (record { settings = settings; cases = cases })

  abbrev pub loaded_mapping : Option (Value N) → Option (Fields N)
  loaded_mapping (some (dict (field k v fs))) = some (field k v fs)
  loaded_mapping _ = none

  -- `load_campaign_config`, from what `yaml.safe_load` makes of the text, none if it is no YAML.
  unfoldable pub load_campaign_config :
      ℕ → Dict String D → Dict String D → Option (Value N) → Option (CampaignConfig N D)
  load_campaign_config cpus fuzzer_dirs benchmark_dirs yaml = do
    fields ← loaded_mapping yaml
    fuzzers ← load_fuzzers host fields fuzzer_dirs
    targets ← load_fuzz_targets host fields benchmark_dirs
    cases ← fold (select_fuzzer targets) fuzzers []
    checked_config cpus fields cases
