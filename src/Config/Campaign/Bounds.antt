-- ===== src/Config/Campaign/Bounds.antt =====
-- The bounds of a campaign's settings.
use mathlib.Core.Path.{subst}
use fuzzmeter.Prelude.{ℕ, ◌≤◌, ◌≡◌, some, String, arith, Option-cases, inl, inr}
use fuzzmeter.Prelude.Failing.{>>=-some}
use fuzzmeter.Json.{Fields, find, get}
use fuzzmeter.Config.Values.{Host, mapping_or_empty, normalized_int_value-ge}
use fuzzmeter.Config.Campaign.{
  CampaignSettings, int_setting, value_or_none, run_settings, build_settings, snapshot_settings,
  checked_settings, load_campaign_settings,
}

module _ {N K D : Type 0} (host : Host N K D) where
  int_setting-ge :
      (key : String) (fields : Fields N) (default min_value n : ℕ)
      → int_setting host key fields default min_value ≡ some n
      → min_value ≤ n
  unfolding int_setting
  int_setting-ge key fields default min_value n h = elim (Option-cases (find key fields)) [
    | inl missing ↦ ground (arith, missing)
    | inr (v, found) ↦ normalized_int_value-ge host v min_value n (rw (found, int_setting) at h)
  ]

  abbrev pub AreInBounds : CampaignSettings N → Type 0
  AreInBounds s =
      (60 ≤ s.time_seconds)
      × (1 ≤ s.repetitions)
      × (1 ≤ s.build_jobs)
      × (1 ≤ s.build_compile_jobs)
      × (1 ≤ s.parallel_jobs)
      × (60 ≤ s.snapshot_every_seconds)

  run_settings-ge :
      (cpus : ℕ) (run : Fields N) (r : ℕ × ℕ × ℕ)
      → run_settings host cpus run ≡ some r
      → (60 ≤ r.0) × (1 ≤ r.1) × (1 ≤ r.2)
  unfolding run_settings
  run_settings-ge cpus run r h =
      let (t, e1, h1) = >>=-some (int_setting host "time_seconds" run 3600 60) _ h in
      let (n, e2, h2) = >>=-some (int_setting host "repetitions" run 1 1) _ h1 in
      let (p, e3, h3) = >>=-some (int_setting host "parallel_jobs" run cpus 1) _ h2 in
      let made : (t, n, p) ≡ r = cc in
      subst (λ x. (60 ≤ x.0) × (1 ≤ x.1) × (1 ≤ x.2)) made
        (
          int_setting-ge "time_seconds" run 3600 60 t e1,
          int_setting-ge "repetitions" run 1 1 n e2,
          int_setting-ge "parallel_jobs" run cpus 1 p e3,
        )

  build_settings-ge :
      (build : Fields N) (b : ℕ × ℕ) → build_settings host build ≡ some b → (1 ≤ b.0) × (1 ≤ b.1)
  unfolding build_settings
  build_settings-ge build b h =
      let (j, e1, h1) = >>=-some (int_setting host "jobs" build 1 1) _ h in
      let (c, e2, h2) = >>=-some (int_setting host "compile_jobs" build 1 1) _ h1 in
      let made : (j, c) ≡ b = cc in
      subst (λ x. (1 ≤ x.0) × (1 ≤ x.1)) made
        (int_setting-ge "jobs" build 1 1 j e1, int_setting-ge "compile_jobs" build 1 1 c e2)

  snapshot_settings-ge :
      (snap : Fields N) (s : ℕ × ℕ × ℕ) → snapshot_settings host snap ≡ some s → 60 ≤ s.1
  unfolding snapshot_settings
  snapshot_settings-ge snap s h =
      let (n, e1, h1) = >>=-some (int_setting host "jobs" snap 1 0) _ h in
      let (every, e2, h2) = >>=-some (int_setting host "every_seconds" snap 900 60) _ h1 in
      let (ticks, e3, h3) = >>=-some (int_setting host "export_every_ticks" snap 1 0) _ h2 in
      let made : (n, every, ticks) ≡ s = cc in
      subst (λ x. 60 ≤ x.1) made (int_setting-ge "every_seconds" snap 900 60 every e2)

  checked_settings-AreInBounds :
      (cpus : ℕ) (run snap build : Fields N) (s : CampaignSettings N)
      → checked_settings host cpus run snap build ≡ some s
      → AreInBounds s
  unfolding checked_settings
  checked_settings-AreInBounds cpus run snap build s h =
      let (r, e1, h1) = >>=-some (run_settings host cpus run) _ h in
      let (b, e2, h2) = >>=-some (build_settings host build) _ h1 in
      let (n, e3, h3) = >>=-some (snapshot_settings host snap) _ h2 in
      let u : CampaignSettings N = record {
        time_seconds = r.0;
        repetitions = r.1;
        build_jobs = b.0;
        build_compile_jobs = b.1;
        parallel_jobs = r.2;
        snapshot_jobs = n.0;
        snapshot_every_seconds = n.1;
        snapshot_export_every_ticks = n.2;
        memory = value_or_none host "memory" run;
        memory_swap = value_or_none host "memory_swap" run;
      } in
      let made : u ≡ s = cc in
      let (time, repeats, parallel) = run_settings-ge cpus run r e1 in
      let (jobs, compiles) = build_settings-ge build b e2 in
      subst AreInBounds made
        (time, repeats, jobs, compiles, parallel, snapshot_settings-ge snap n e3)

  -- Settings that have been read are within their bounds.
  pub load_campaign_settings-AreInBounds :
      (cpus : ℕ) (fields : Fields N) (s : CampaignSettings N)
      → load_campaign_settings host cpus fields ≡ some s
      → AreInBounds s
  unfolding load_campaign_settings
  load_campaign_settings-AreInBounds cpus fields s h =
      let (run, e1, h1) = >>=-some (mapping_or_empty host (get "run" fields)) _ h in
      let (snap, e2, h2) = >>=-some (mapping_or_empty host (get "snapshot" run)) _ h1 in
      let (build, e3, h3) = >>=-some (mapping_or_empty host (get "build" fields)) _ h2 in
      checked_settings-AreInBounds cpus run snap build s h3
