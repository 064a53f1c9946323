-- ===== src/Coverage/Sets/Document/RoundTrip.antt =====
-- What is written of an export is read back.
use fuzzmeter.Prelude.{
  ℕ, ◌≤◌, ◌<◌, ◌≡◌, refl, ap, sym, ◌∙◌, true, Option, some, List, [], ◌∷◌, arith, All,
}
use fuzzmeter.Prelude.Failing.{>>=-some}
use fuzzmeter.Prelude.Sorting.{IsIncreasing}
use fuzzmeter.Json.{Fields}
use fuzzmeter.Coverage.Codec.{Packing, decoded, decode_compact_metric, encode_payload}
use fuzzmeter.Coverage.Codec.RoundTrip.{
  is_rising, differences, encode-differences, decode-encode_payload,
}
use fuzzmeter.Coverage.Sets.{Python, Metric, branches, lines, functions, regions, covered_hashes}
use fuzzmeter.Coverage.Sets.Distinct.{covered_hashes-IsIncreasing}
use fuzzmeter.Coverage.Sets.Document.{
  Summary, Document, coverage_sets_version, metric_entry, by_metric, for_metrics,
  coverage_metrics_from_export, write_coverage_sets, read_covered_keys, metric_values,
}

IsIncreasing-rises :
    (prev : ℕ) (vs : List ℕ)
    → All (λ v. prev ≤ v) vs
    → IsIncreasing (λ (v : ℕ). v) vs
    → is_rising prev vs ≡ true
IsIncreasing-rises prev [] h inc = refl
IsIncreasing-rises prev (v ∷ vs) h inc =
    ground (arith, h.0, IsIncreasing-rises v vs (weaken vs inc.0) inc.1)
  where
    weaken : (ws : List ℕ) → All (λ w. v < w) ws → All (λ w. v ≤ w) ws
    weaken [] a = tt
    weaken (w ∷ ws) a = (omega (arith, a.0), weaken ws a.1)

not_negative : (vs : List ℕ) → All (λ v. 0 ≤ v) vs
not_negative [] = tt
not_negative (v ∷ vs) = (omega arith, not_negative vs)

-- The value of each metric in the loop over the metrics.
for_metrics-each :
    {A : Type 0} (f : Metric → Option A) (g : Metric → A)
    → for_metrics f ≡ some g
    → (m : Metric) → f m ≡ some (g m)
unfolding for_metrics
for_metrics-each {A} f g h m =
    let (b, hb, h₁) = >>=-some (f branches) _ h in
    let (l, hl, h₂) = >>=-some (f lines) _ h₁ in
    let (c, hc, h₃) = >>=-some (f functions) _ h₂ in
    let (r, hr, h₄) = >>=-some (f regions) _ h₃ in
    let same : by_metric b l c r ≡ g = cc in
    let found : f m ≡ some (by_metric b l c r m) =
      elim m as (λ m. f m ≡ some (by_metric b l c r m)) [
        | branches ↦ hb
        | lines ↦ hl
        | functions ↦ hc
        | regions ↦ hr
      ] in
    found ∙ ap (λ (k : Metric → A). some (k m)) same

for_metrics-some :
    {A : Type 0} (f : Metric → Option A)
    → ((m : Metric) → (a : A) × (f m ≡ some a))
    → (g : Metric → A) × (for_metrics f ≡ some g)
unfolding for_metrics
for_metrics-some f all =
    let (b, hb) = all branches in
    let (l, hl) = all lines in
    let (c, hc) = all functions in
    let (r, hr) = all regions in (by_metric b l c r, rw (hb, hl, hc, hr) refl)

some_same : {A : Type 0} {a b : A} → some a ≡ some b → a ≡ b
some_same h = cc

module _ (p : Packing) where
  payload-decodes :
      (vs : List ℕ)
      → IsIncreasing (λ (v : ℕ). v) vs
      → (payload : p.Payload) × (encode_payload p vs ≡ some payload)
        × (decode_compact_metric p (some payload) ≡ decoded vs)
  unfolding encode_payload
  payload-decodes vs inc =
      let rising = IsIncreasing-rises 0 vs (not_negative vs) inc in
      let encoded : encode_payload p vs ≡ some (p.pack (differences 0 vs)) =
        rw (encode-differences vs rising) refl in
      (
        p.pack (differences 0 vs),
        encoded,
        ap (decode_compact_metric p) (sym encoded) ∙ decode-encode_payload p vs rising,
      )

  -- The document with the payloads of the metrics.
  abbrev document :
      Summary
      → Summary
      → Option Summary
      → (Metric → List ℕ)
      → (Metric → p.Payload)
      → Document p.Payload
  document report export_summary branch_summary metrics payloads = record {
    version = coverage_sets_version;
    kind = "fuzzmeter.coverage.sets";
    metrics =
        some (λ m. some (metric_entry report export_summary branch_summary metrics m (payloads m)));
  }

  document-read :
      (report export_summary : Summary) (branch_summary : Option Summary)
      (metrics : Metric → List ℕ) (payloads : Metric → p.Payload) (m : Metric) (vs : List ℕ)
      → decode_compact_metric p (some (payloads m)) ≡ decoded vs
      → read_covered_keys p (document report export_summary branch_summary metrics payloads) m
        ≡ some vs
  unfolding read_covered_keys metric_values
  document-read report export_summary branch_summary metrics payloads m vs e =
      rw (e, read_covered_keys, metric_values) refl

module _ {N : Type 0} (python : Python N) (p : Packing) where
  -- Where an export gives its hashes in all four metrics, `write_coverage_sets` writes a document
  -- of them, and of every metric `read_covered_keys` reads back exactly the hashes that were
  -- collected.
  pub read-write_coverage_sets :
      (export_obj : Fields N) (report export_summary : Summary) (branch_summary : Option Summary)
      (metrics : Metric → List ℕ)
      → coverage_metrics_from_export python export_obj ≡ some metrics
      → (doc : Document p.Payload) × (write_coverage_sets p report export_summary metrics
            branch_summary
          ≡ some doc)
        × ((m : Metric) → read_covered_keys p doc m ≡ some (metrics m))
  unfolding coverage_metrics_from_export write_coverage_sets
  read-write_coverage_sets export_obj report export_summary branch_summary metrics h =
      let kept = λ (m : Metric). payload-decodes p (metrics m) (
        covered_hashes-IsIncreasing python export_obj m (metrics m)
          (for_metrics-each (covered_hashes python export_obj) metrics h m)) in
      let (payloads, written) =
        for_metrics-some (λ m. encode_payload p (metrics m)) (λ m. ((kept m).0, (kept m).1)) in
      (
        document p report export_summary branch_summary metrics payloads,
        rw written refl,
        λ m.
            let same : (kept m).0 ≡ payloads m = some_same (
              sym (kept m).1
              ∙ for_metrics-each (λ m. encode_payload p (metrics m)) payloads written m) in
            document-read p report export_summary branch_summary metrics payloads m (metrics m)
              (ap (λ x. decode_compact_metric p (some x)) (sym same) ∙ (kept m).2),
      )
