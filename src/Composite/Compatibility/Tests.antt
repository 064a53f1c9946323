-- ===== src/Composite/Compatibility/Tests.antt =====
-- Two measurements of different benchmarks.
use fuzzmeter.Prelude.{ℕ, ◌≡◌, ◌↔◌, refl, none, [], ◌∷◌}
use fuzzmeter.Prelude.Equality.{nat_eq}
use fuzzmeter.Json.{Value, null, number, text, dict, Fields, end, field, value_eq}
use fuzzmeter.Composite.Diffs.{leaf, diff_dict, differing}
use fuzzmeter.Composite.Compatibility.{
  MeasurementMetadata, config, error, compatible, incompatible, diff_rows,
}
use fuzzmeter.Composite.Compatibility.Levels.{result, TargetDiffers, compare_metadata_lem}

abbrev metadata : Fields ℕ → MeasurementMetadata ℕ
metadata fs = record { environment = end; config = fs; source = end; environment_digest = none }

abbrev zlib : MeasurementMetadata ℕ
zlib = metadata (field "benchmark" (text "zlib") (field "jobs" (number 2) end))

abbrev png : MeasurementMetadata ℕ
png = metadata (field "jobs" (number 2) (field "benchmark" (text "png") end))

target_only :
    diff_dict zlib.config png.config ≡ field "benchmark" (leaf (text "zlib") (text "png")) end
unfolding diff_dict differing value_eq
target_only = refl

abbrev nothing : Value ℕ
nothing = null

-- A key that holds None is not told from a key that is missing.
none_as_missing : diff_dict (field "a" nothing end) end ≡ end
unfolding diff_dict differing value_eq
none_as_missing = refl

nested_path :
    diff_rows {N = ℕ} config error "m" ""
      (field "run" (dict (field "jobs" (leaf (number 1) (number 2)) end)) end)
    ≡ record {
      domain = config;
      path = "run.jobs";
      severity = error;
      message = "m";
      reference = number 1;
      candidate = number 2;
    }
      ∷ []
unfolding diff_rows
nested_path = refl

compare_metadata_lem_example :
    (((result zlib png).level ≡ incompatible) ↔ TargetDiffers zlib png)
    × (((result zlib png).level ≡ compatible) ↔ (
        ((result zlib png).environment_diff ≡ end)
        × ((result zlib png).config_diff ≡ end)
        × ((result zlib png).source_diff ≡ end)))
compare_metadata_lem_example = compare_metadata_lem zlib png
