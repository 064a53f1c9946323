-- ===== src/Coverage/Sets/Document.antt =====
-- The artifact of src/fuzzmeter/resources/entrypoints/coverage_sets.py: `coverage_metrics_from_export`,
-- `write_coverage_sets` and `read_covered_keys`. A part that is missing in the document or is of
-- another type is none; the text of the JSON, the provenance and the logging are left out. A key,
-- the decimal text of a hash, is its number.
pub mod RoundTrip
use fuzzmeter.Prelude.{
  ℕ, ◌≡◌, Bool, true, false, ◌&&◌, Option, none, some, String, List, nat_beq, if◌then◌else◌, length,
}
use fuzzmeter.Prelude.Equality.{◌==◌, string_eq}
use fuzzmeter.Prelude.Failing.{◌>>=◌}
use fuzzmeter.Json.{Fields}
use fuzzmeter.Coverage.Codec.{
  Packing, Decoded, decoded, unknown, value_error, stuck, decode_compact_metric, encode_payload,
}
use fuzzmeter.Coverage.Sets.{
  Python, Metric, branches, lines, functions, regions, is_branches, covered_hashes,
}

-- The counts of a summary: `cov_{metric}_covered` and `cov_{metric}_total`.
pub record Summary : Type 0 where
  pub covered : Metric → Option ℕ
  pub total : Metric → Option ℕ

pub record Scalar : Type 0 where
  pub definition : String
  pub covered_count : Option ℕ
  pub total_count : Option ℕ

pub record ElementSet (Payload : Type 0) : Type 0 where
  pub definition : String
  pub element_count : ℕ
  pub payload : Option Payload

pub record MetricEntry (Payload : Type 0) : Type 0 where
  pub authoritative_scalar : Scalar
  pub report_scalar : Scalar
  pub export_summary : Scalar
  pub element_set : Option (ElementSet Payload)

pub record Document (Payload : Type 0) : Type 0 where
  pub version : ℕ
  pub kind : String
  pub metrics : Option (Metric → Option (MetricEntry Payload))

abbrev pub coverage_sets_version : ℕ
coverage_sets_version = 5

abbrev pub set_definition : Metric → String
set_definition branches = "hashed-covered-branch-directions-by-mangled-function"
set_definition lines = "hashed-covered-segment-start-lines"
set_definition functions = "hashed-covered-functions"
set_definition regions = "hashed-covered-segment-start-regions"

abbrev pub scalar_of : String → Summary → Metric → Scalar
scalar_of definition summary metric = record {
  definition = definition;
  covered_count = summary.covered metric;
  total_count = summary.total metric;
}

abbrev pub report_scalar_definition : String
report_scalar_definition = "llvm-cov-report-total"

abbrev pub no_summary : Summary
no_summary = record { covered = λ m. none; total = λ m. none }

-- `branch_summary or {}`
abbrev pub or_no_summary : Option Summary → Summary
or_no_summary none = no_summary
or_no_summary (some summary) = summary

-- The entry of a metric with the payload of its set.
abbrev pub metric_entry :
    {Payload : Type 0}
    → Summary
    → Summary
    → Option Summary
    → (Metric → List ℕ)
    → Metric
    → Payload
    → MetricEntry Payload
metric_entry report_summary export_summary branch_summary metrics metric payload = record {
  authoritative_scalar =
      if is_branches metric
      then scalar_of "llvm-cov-export-per-instantiation-branches" (or_no_summary branch_summary)
          metric
      else scalar_of report_scalar_definition report_summary metric;
  report_scalar = scalar_of report_scalar_definition report_summary metric;
  export_summary = scalar_of "llvm-cov-export-totals" export_summary metric;
  element_set = some (record {
    definition = set_definition metric;
    element_count = length (metrics metric);
    payload = some payload;
  });
}

-- A value for each metric.
abbrev pub by_metric : {A : Type 0} → A → A → A → A → Metric → A
by_metric b l f r branches = b
by_metric b l f r lines = l
by_metric b l f r functions = f
by_metric b l f r regions = r

-- The loop over the metrics: none where it raises for one of them.
unfoldable pub for_metrics : {A : Type 0} → (Metric → Option A) → Option (Metric → A)
for_metrics f = do
  b ← f branches
  l ← f lines
  c ← f functions
  r ← f regions
  some (by_metric b l c r)

-- `coverage_metrics_from_export`
unfoldable pub coverage_metrics_from_export :
    {N : Type 0} → Python N → Fields N → Option (Metric → List ℕ)
unfolding for_metrics
coverage_metrics_from_export python export_obj = for_metrics (covered_hashes python export_obj)

module _ (p : Packing) where
  -- The document that `write_coverage_sets` writes.
  pub write_coverage_sets :
      Summary → Summary → (Metric → List ℕ) → Option Summary → Option (Document p.Payload)
  unfolding for_metrics
  write_coverage_sets report_summary export_summary metrics branch_summary = do
    payloads ← for_metrics (λ m. encode_payload p (metrics m))
    some (record {
      version = coverage_sets_version;
      kind = "fuzzmeter.coverage.sets";
      metrics = some (λ m.
          some (metric_entry report_summary export_summary branch_summary metrics m (payloads m)));
    })

  -- `_decode_compact_metric` of the element set, where there is one.
  abbrev pub element_values : Option (ElementSet p.Payload) → Decoded
  element_values none = unknown
  element_values (some element_set) = decode_compact_metric p element_set.payload

  abbrev pub entry_values : Option (MetricEntry p.Payload) → Decoded
  entry_values none = unknown
  entry_values (some entry) = element_values entry.element_set

  -- `_metric_values`
  pub metric_values : Document p.Payload → Metric → Decoded
  metric_values doc metric = elim doc.metrics [
    | none ↦ unknown
    | some metrics ↦ entry_values (metrics metric)
  ]

  -- `read_covered_keys`, whose handler turns an exception into None.
  pub read_covered_keys : Document p.Payload → Metric → Option (List ℕ)
  unfolding metric_values
  read_covered_keys doc metric =
      if nat_beq doc.version coverage_sets_version && doc.kind == "fuzzmeter.coverage.sets"
      then elim (metric_values doc metric) [
        | decoded values ↦ some values
        | unknown ↦ none
        | value_error ↦ none
        | stuck ↦ none
      ]
      else none
