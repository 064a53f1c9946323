-- ===== src/Config/CampaignTests.antt =====
-- A campaign of one fuzzer and one target.
use fuzzmeter.Prelude.{ℕ, ◌≡◌, refl, none, some, String, List, [], ◌∷◌, All, map}
use fuzzmeter.Prelude.Equality.{nat_eq, string_eq}
use fuzzmeter.Dict.{Dict}
use fuzzmeter.Json.{text, list, dict, Items, Fields, end, field, find}
use fuzzmeter.Config.Values.{
  mapping_or_empty, full_list, load_yaml, names_of, normalized_int_value, check_id_format,
  load_optional, is_true, names_or_empty,
}
use fuzzmeter.Config.Merge.{merge, same_type}
use fuzzmeter.Config.Fuzzers.{
  Fuzzer, fuzzer, no_parent, child_of, nil, load_fuzzer, load_new, load_with, read_settings,
  settings_of, load_parent, load_sources, effective_allowed,
}
use fuzzmeter.Config.Fuzzers.Closure.{parents}
use fuzzmeter.Config.Campaign.{
  load_campaign_settings, checked_settings, run_settings, build_settings, snapshot_settings,
  int_setting, value_or_none, CampaignConfig, CampaignCase, load_campaign_config, checked_config,
  select_fuzzer, select_target, build_campaign_case, merge_configs, merge_layers, override_of,
  replay_counts_agree, loaded_mapping,
}
use fuzzmeter.Config.Campaign.Cases.{parts, all_parts, IsRunnable, load_campaign_config-cases}
use fuzzmeter.Config.Campaign.Layers.{build_side, layers, build_campaign_case-last}
use mathlib.Core.List.{reverse}
use fuzzmeter.Config.Selection.{Selected, load_fuzzers, read_fuzzer, with_selected, selected_of}
use fuzzmeter.Config.Selection.Distinct.{id_of, IsNarrow, load_fuzzers-AreDistinct}
use fuzzmeter.Config.Targets.{
  FuzzTarget, load_fuzz_targets, read_target, add_target, with_benchmark, spec_parts,
  fuzz_target_from_config, target_of, timeout_of, target_ident, target_spec, input_mode_options,
}
use fuzzmeter.Config.Targets.Loaded.{IsConfigured, load_fuzz_targets-AreConfigured}
use fuzzmeter.Prelude.Sets.{IsUnique}
use fuzzmeter.Prelude.Failing.{fold}
use fuzzmeter.Config.Tests.{plain_host, dirs, mopt, yaml_of}

abbrev inflate : FuzzTarget ℕ String
inflate = record {
  benchmark = record { name = "zlib"; src_dir = "zlib" };
  fuzz_target = "inflate";
  input_mode = "file";
  fuzzer_overrides = end;
  target_timeout_s = 1;
  build_compile_jobs = none;
}

abbrev target_fields : Fields ℕ
target_fields = field "fuzz_targets" (list (Items.cons (text "zlib:inflate") Items.nil)) end

abbrev benchmark_dirs : Dict String String
benchmark_dirs = ("zlib", "zlib") ∷ []

targets_read : load_fuzz_targets plain_host target_fields benchmark_dirs ≡ some (inflate ∷ [])
unfolding load_fuzz_targets read_target add_target with_benchmark spec_parts fuzz_target_from_config
    target_of timeout_of full_list load_yaml mapping_or_empty is_true check_id_format yaml_of fold
    target_ident input_mode_options
targets_read = refl

load_fuzz_targets-AreConfigured_example :
    IsUnique (map target_ident (inflate ∷ []))
    × All (IsConfigured plain_host benchmark_dirs) (inflate ∷ [])
load_fuzz_targets-AreConfigured_example =
    load_fuzz_targets-AreConfigured plain_host target_fields benchmark_dirs (inflate ∷ [])
      targets_read

abbrev campaign_fields : Fields ℕ
campaign_fields = field "fuzzers" (list (Items.cons (text "mopt") Items.nil)) target_fields

abbrev campaign : CampaignConfig ℕ String
campaign = record {
  settings = record {
    time_seconds = 3600;
    repetitions = 1;
    build_jobs = 1;
    build_compile_jobs = 1;
    parallel_jobs = 8;
    snapshot_jobs = 1;
    snapshot_every_seconds = 900;
    snapshot_export_every_ticks = 1;
    memory = none;
    memory_swap = none;
  };
  cases =
      record {
        case_fuzzer = mopt;
        fuzz_target = inflate;
        build_config = end;
        run_config = end;
        replay_trials = [];
      }
      ∷ [];
}

campaign_read :
    load_campaign_config plain_host 8 dirs benchmark_dirs (some (dict campaign_fields))
    ≡ some campaign
unfolding load_campaign_config checked_config load_campaign_settings checked_settings run_settings
    build_settings snapshot_settings int_setting value_or_none normalized_int_value
    load_fuzz_targets read_target add_target with_benchmark spec_parts fuzz_target_from_config
    target_of timeout_of full_list load_yaml mapping_or_empty is_true check_id_format yaml_of fold
    target_ident target_spec input_mode_options load_fuzzers read_fuzzer with_selected selected_of
    load_fuzzer load_new load_with read_settings settings_of load_parent load_sources
    effective_allowed load_optional names_or_empty names_of merge same_type select_fuzzer
    select_target build_campaign_case merge_configs merge_layers override_of replay_counts_agree
    parents
campaign_read = refl

load_campaign_config-cases_example :
    (fields : Fields ℕ) × (selected : List (Selected ℕ String)) × (ts : List (FuzzTarget ℕ String))
    × (loaded_mapping plain_host (some (dict campaign_fields)) ≡ some fields)
    × (load_fuzzers plain_host fields dirs ≡ some selected)
    × (load_fuzz_targets plain_host fields benchmark_dirs ≡ some ts)
    × (map parts campaign.cases ≡ all_parts selected ts)
    × IsRunnable plain_host campaign
load_campaign_config-cases_example =
    load_campaign_config-cases plain_host 8 dirs benchmark_dirs (some (dict campaign_fields))
      campaign campaign_read

abbrev selected : List (Selected ℕ String)
selected = (mopt, []) ∷ []

fuzzers_read : load_fuzzers plain_host campaign_fields dirs ≡ some selected
unfolding load_fuzzers read_fuzzer with_selected selected_of load_fuzzer load_new load_with
    read_settings settings_of load_parent load_sources effective_allowed load_optional load_yaml
    full_list mapping_or_empty names_or_empty names_of is_true check_id_format merge same_type
    yaml_of fold
fuzzers_read = refl

load_fuzzers-AreDistinct_example : IsUnique (map id_of selected) × All IsNarrow selected
load_fuzzers-AreDistinct_example =
    load_fuzzers-AreDistinct plain_host campaign_fields dirs selected fuzzers_read

-- A child of a fuzzer that sets the same key, and a target that overrides it for the child.
abbrev flags : String → Fields ℕ
flags s = field "flags" (text s) end

abbrev parent_fuzzer : Fuzzer ℕ String
parent_fuzzer =
    fuzzer
      (record {
        id = "afl";
        name = "afl";
        src_dir = "afl";
        allowed_fuzz_targets = none;
        local_repo_env = none;
        build_config = flags "-O1";
        run_config = end;
      })
      no_parent nil

abbrev child_fuzzer : Fuzzer ℕ String
child_fuzzer =
    fuzzer
      (record {
        id = "mopt";
        name = "afl";
        src_dir = "afl";
        allowed_fuzz_targets = none;
        local_repo_env = none;
        build_config = flags "-O2";
        run_config = end;
      })
      (child_of parent_fuzzer) nil

abbrev tuned : FuzzTarget ℕ String
tuned = record {
  benchmark = record { name = "zlib"; src_dir = "zlib" };
  fuzz_target = "inflate";
  input_mode = "file";
  fuzzer_overrides = field "mopt" (dict (field "build" (dict (flags "-O3")) end)) end;
  target_timeout_s = 1;
  build_compile_jobs = none;
}

abbrev tuned_case : CampaignCase ℕ String
tuned_case = record {
  case_fuzzer = child_fuzzer;
  fuzz_target = tuned;
  build_config = flags "-O3";
  run_config = end;
  replay_trials = [];
}

case_built : build_campaign_case plain_host child_fuzzer tuned [] ≡ some tuned_case
unfolding build_campaign_case merge_configs merge_layers override_of mapping_or_empty is_true merge
    same_type fold parents
case_built = refl

abbrev build_layers : List (Fields ℕ)
build_layers = flags "-O1" ∷ end ∷ flags "-O2" ∷ flags "-O3" ∷ []

layers_listed :
    layers plain_host build_side tuned (reverse (child_fuzzer ∷ parents child_fuzzer))
    ≡ some build_layers
unfolding layers override_of mapping_or_empty is_true parents
layers_listed = refl

build_campaign_case-last_example : find "flags" tuned_case.build_config ≡ some (text "-O3")
build_campaign_case-last_example =
    build_campaign_case-last plain_host build_side child_fuzzer tuned [] tuned_case build_layers
      "flags" (text "-O3") case_built layers_listed
      ((refl, tt), (tt, ((refl, tt), ((refl, tt), tt)))) refl refl
