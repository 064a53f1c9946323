-- ===== src/Config/Selection.antt =====
-- `_replay_trials` and `_load_fuzzers` of src/fuzzmeter/config/builder.py. An exception is none, and
-- so is a fuzzer for which the fuel is not enough: one more than there are directories always is.
-- Logging is left out.
pub mod Distinct
use fuzzmeter.Prelude.{
  ℕ, suc, Bool, true, false, not, Option, none, some, String, List, [], ◌∷◌, ◌++◌, length,
  if◌then◌else◌,
}
use fuzzmeter.Prelude.Equality.{Eq, ◌==◌, string_eq, elem}
use fuzzmeter.Prelude.Failing.{◌>>=◌, ◌>>◌, require, fold}
use fuzzmeter.Dict.{Dict}
use fuzzmeter.Json.{
  Value, null, number, text, list, dict, Items, Fields, end, field, find, get as get_field,
}
use fuzzmeter.Config.Values.{
  Host, is_true, mapping_or_empty, names_of, names_or_none, full_list, check_id_format,
}
use fuzzmeter.Config.Fuzzers.{
  Description, Fuzzer, fuzzer, child_of, Fuzzers, nil, description, effective_allowed, Entries,
  Attempt, loaded, raised, stuck, load_fuzzer,
}

-- A fuzzer of the campaign with the trials to replay for each target.
abbrev pub Selected : Type 0 → Type 0 → Type 0
Selected N D = Fuzzer N D × Dict String (List D)

-- What the loop over the fuzzers keeps.
pub record FuzzersRead (N D : Type 0) : Type 0 where
  pub entries : Entries N D
  pub campaign_ids : List String
  pub campaign_fuzzers : List (Selected N D)

abbrev outcome_value : {N D A : Type 0} → Attempt N D A → Option (A × Entries N D)
outcome_value (loaded a es) = some (a, es)
outcome_value raised = none
outcome_value stuck = none

module _ {N K D : Type 0} (host : Host N K D) where
  open host use {resolve, is_dir}

  -- The directories of one spec.
  unfoldable pub replay_dirs : Items N → Option (List D)
  replay_dirs Items.nil = some []
  replay_dirs (Items.cons (text s) xs) =
      if is_dir (resolve s) then replay_dirs xs >>= (λ dirs. some (resolve s ∷ dirs)) else none
  replay_dirs (Items.cons x xs) = none

  unfoldable pub replay_specs : Fields N → Option (Dict String (List D))
  unfolding replay_dirs
  replay_specs end = some []
  replay_specs (field spec (list xs) rest) = do
    dirs ← replay_dirs xs
    others ← replay_specs rest
    some ((spec, dirs) ∷ others)
  replay_specs (field spec v rest) = none

  -- `_replay_trials`
  unfoldable pub replay_trials_of : Fields N → Option (Dict String (List D))
  replay_trials_of fields =
      mapping_or_empty host (get_field "replay_trials" fields) >>= replay_specs

  -- The id of an entry and the name of the fuzzer that it configures.
  abbrev pub entry_names : Value N → Option (Value N × Value N)
  entry_names (text s) = some (text s, text s)
  entry_names (dict fields) = find "id" fields >>= (λ id.
      let name =
        if is_true host (get_field "parent" fields) then get_field "parent" fields else id in
      some (id, name))
  entry_names v = none

  -- A fuzzer that an entry derives from the one it names.
  unfoldable pub derived : String → Fuzzer N D → Fields N → Option (Selected N D)
  derived id base fields = do
    allowed ← names_or_none host (get_field "allowed_fuzz_targets" fields)
    build_override ← mapping_or_empty host (get_field "build" fields)
    run_override ← mapping_or_empty host (get_field "runtime" fields)
    trials ← replay_trials_of fields
    some (
      fuzzer
          (record {
            id = id;
            name = (description base).name;
            src_dir = (description base).src_dir;
            allowed_fuzz_targets =
                effective_allowed allowed (description base).allowed_fuzz_targets;
            local_repo_env = none;
            build_config = build_override;
            run_config = run_override;
          })
          (child_of base) nil,
      trials,
    )

  -- The fuzzer of an entry.
  unfoldable pub selected_of : String → Fuzzer N D → Value N → Option (Selected N D)
  unfolding derived
  selected_of id base (dict fields) = derived id base fields
  selected_of id base v = some (base, [])

module _ {N K D : Type 0} ⦃e : Eq K⦄ (host : Host N K D) where
  -- The fuzzer of an entry is added, after the one it names was loaded.
  unfoldable pub with_selected :
      String → Value N → FuzzersRead N D → Fuzzer N D × Entries N D → Option (FuzzersRead N D)
  with_selected id entry read base = do
    selected ← selected_of host id base.0 entry
    some (record {
      entries = base.1;
      campaign_ids = id ∷ read.campaign_ids;
      campaign_fuzzers = read.campaign_fuzzers ++ selected ∷ [];
    })

  -- A round of the loop over the fuzzers.
  unfoldable pub read_fuzzer : Dict String D → Value N → FuzzersRead N D → Option (FuzzersRead N D)
  read_fuzzer fuzzer_dirs entry read = do
    names ← entry_names host entry
    fuzzer_id ← check_id_format host names.0
    fuzzer_name ← check_id_format host names.1
    require (not (elem fuzzer_id read.campaign_ids))
    base ←
        outcome_value
          (load_fuzzer host (suc (length fuzzer_dirs)) fuzzer_dirs fuzzer_name read.entries)
    with_selected fuzzer_id entry read base

  -- `_load_fuzzers`
  unfoldable pub load_fuzzers : Fields N → Dict String D → Option (List (Selected N D))
  load_fuzzers fields fuzzer_dirs = do
    specs ← full_list host (get_field "fuzzers" fields)
    read ←
        fold (read_fuzzer fuzzer_dirs) specs
          (record { entries = []; campaign_ids = []; campaign_fuzzers = [] })
    some read.campaign_fuzzers
