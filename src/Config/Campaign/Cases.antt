-- ===== src/Config/Campaign/Cases.antt =====
-- The cases of a campaign.
use mathlib.Core.Path.{subst}
use mathlib.Core.List.{map-append, append_assoc, append-nil, reverse}
use fuzzmeter.Prelude.{
  ℕ, ◌≤◌, ◌≡◌, ◌⊎◌, refl, ap, sym, ◌∙◌, true, false, not, Option, some, String, List, [], ◌∷◌, ◌++◌,
  map, arith, length, All, any, nat_beq, if◌then◌else◌, Bool-cases, inl, inr,
}
use fuzzmeter.Prelude.Equality.{Eq, string_eq}
use fuzzmeter.Prelude.Sets.{without}
use fuzzmeter.Prelude.Failing.{>>=-some, require-some, fold}
use fuzzmeter.Dict.{Dict, keys}
use fuzzmeter.Json.{Value, Fields, end}
use fuzzmeter.Config.Values.{Host}
use fuzzmeter.Config.Fuzzers.{Fuzzer, description, allowed_by}
use fuzzmeter.Config.Fuzzers.Closure.{parents}
use fuzzmeter.Config.Selection.{Selected, load_fuzzers}
use fuzzmeter.Config.Targets.{FuzzTarget, target_spec, load_fuzz_targets}
use fuzzmeter.Config.Campaign.{
  CampaignCase, CampaignConfig, merge_configs, build_campaign_case, Selection, trials_for,
  select_target, select_fuzzer, replay_counts_agree, loaded_mapping, checked_config,
  load_campaign_config, load_campaign_settings,
}
use fuzzmeter.Config.Campaign.Bounds.{AreInBounds, load_campaign_settings-AreInBounds}

-- A fuzzer, a target and the trials to replay.
abbrev pub Parts : Type 0 → Type 0 → Type 0
Parts N D = Fuzzer N D × FuzzTarget N D × List D

module _ {N D : Type 0} where
  abbrev pub parts : CampaignCase N D → Parts N D
  parts c = (c.case_fuzzer, c.fuzz_target, c.replay_trials)

  -- The targets that a fuzzer allows.
  abbrev pub allowed_parts : Selected N D → List (FuzzTarget N D) → List (Parts N D)
  allowed_parts s [] = []
  allowed_parts (f, trials) (t ∷ ts) =
      let rest = allowed_parts (f, trials) ts in
      if allowed_by (description f).allowed_fuzz_targets (target_spec t)
      then (f, t, trials_for (target_spec t) trials) ∷ rest
      else rest

  abbrev pub all_parts : List (Selected N D) → List (FuzzTarget N D) → List (Parts N D)
  all_parts [] targets = []
  all_parts (s ∷ selected) targets = allowed_parts s targets ++ all_parts selected targets

module _ {N K D : Type 0} ⦃e : Eq K⦄ (host : Host N K D) where
  build_campaign_case-parts :
      (f : Fuzzer N D) (t : FuzzTarget N D) (trials : List D) (c : CampaignCase N D)
      → build_campaign_case host f t trials ≡ some c
      → parts c ≡ (f, t, trials)
  unfolding build_campaign_case
  build_campaign_case-parts f t trials c h =
      let (configs, e1, h1) =
        >>=-some
          (fold (merge_configs host t) (reverse (f ∷ parents f))
            (record { build = end; run = end }))
          _ h in
      let u : CampaignCase N D = record {
        case_fuzzer = f;
        fuzz_target = t;
        build_config = configs.build;
        run_config = configs.run;
        replay_trials = trials;
      } in
      let made : u ≡ c = cc in ap parts (sym made)

  select_target-parts :
      (f : Fuzzer N D) (trials : Dict String (List D)) (t : FuzzTarget N D) (a b : Selection N D)
      → select_target host (f, trials) t a ≡ some b
      → map parts b.selected_cases
        ≡ map parts a.selected_cases ++ allowed_parts (f, trials) (t ∷ [])
  unfolding select_target
  select_target-parts f trials t a b h =
      elim (Bool-cases (allowed_by (description f).allowed_fuzz_targets (target_spec t))) [
        | inr other ↦
            let same : a ≡ b = ground (arith, other) in
            rw other (
              ap (λ x. map parts x.selected_cases) (sym same)
              ∙ sym (append-nil (map parts a.selected_cases)))
        | inl allowed ↦
            let (c, built, rest) =
              >>=-some (build_campaign_case host f t (trials_for (target_spec t) trials)) _
                (rw allowed at h) in
            let u : Selection N D = record {
              unselected = without (target_spec t) a.unselected;
              selected_cases = a.selected_cases ++ c ∷ [];
            } in
            let made : u ≡ b = cc in
            rw allowed (
              ap (λ x. map parts x.selected_cases) (sym made)
              ∙ map-append parts a.selected_cases (c ∷ [])
              ∙ ap (λ p. map parts a.selected_cases ++ p ∷ [])
                  (build_campaign_case-parts f t (trials_for (target_spec t) trials) c built))
      ]

  allowed_parts-cons :
      (f : Fuzzer N D) (trials : Dict String (List D)) (t : FuzzTarget N D)
      (ts : List (FuzzTarget N D))
      → allowed_parts (f, trials) (t ∷ []) ++ allowed_parts (f, trials) ts
        ≡ allowed_parts (f, trials) (t ∷ ts)
  allowed_parts-cons f trials t ts =
      elim (Bool-cases (allowed_by (description f).allowed_fuzz_targets (target_spec t))) [
        | inl allowed ↦ rw allowed refl
        | inr other ↦ rw other refl
      ]

  select_targets-parts :
      (f : Fuzzer N D) (trials : Dict String (List D)) (ts : List (FuzzTarget N D))
      (a b : Selection N D)
      → fold (select_target host (f, trials)) ts a ≡ some b
      → map parts b.selected_cases ≡ map parts a.selected_cases ++ allowed_parts (f, trials) ts
  unfolding fold
  select_targets-parts f trials [] a b h =
      let same : a ≡ b = cc in
      ap (λ x. map parts x.selected_cases) (sym same)
      ∙ sym (append-nil (map parts a.selected_cases))
  select_targets-parts f trials (t ∷ ts) a b h =
      let (mid, here, rest) =
        >>=-some (select_target host (f, trials) t a) (fold (select_target host (f, trials)) ts)
          h in
      select_targets-parts f trials ts mid b rest
      ∙ ap (λ xs. xs ++ allowed_parts (f, trials) ts) (select_target-parts f trials t a mid here)
      ∙ append_assoc (map parts a.selected_cases) (allowed_parts (f, trials) (t ∷ []))
          (allowed_parts (f, trials) ts)
      ∙ ap (λ xs. map parts a.selected_cases ++ xs) (allowed_parts-cons f trials t ts)

  select_fuzzer-parts :
      (ts : List (FuzzTarget N D)) (s : Selected N D) (a b : List (CampaignCase N D))
      → select_fuzzer host ts s a ≡ some b
      → map parts b ≡ map parts a ++ allowed_parts s ts
  unfolding select_fuzzer
  select_fuzzer-parts ts (f, trials) a b h =
      let start : Selection N D = record { unselected = keys trials; selected_cases = a } in
      let (selection, e1, h1) = >>=-some (fold (select_target host (f, trials)) ts start) _ h in
      let (empty, h2) =
        require-some (nat_beq (length selection.unselected) 0) (some selection.selected_cases) h1 in
      let same : selection.selected_cases ≡ b = cc in
      ap (map parts) (sym same) ∙ select_targets-parts f trials ts start selection e1

  select_fuzzers-parts :
      (ts : List (FuzzTarget N D)) (selected : List (Selected N D)) (a b : List (CampaignCase N D))
      → fold (select_fuzzer host ts) selected a ≡ some b
      → map parts b ≡ map parts a ++ all_parts selected ts
  unfolding fold
  select_fuzzers-parts ts [] a b h =
      let same : a ≡ b = cc in ap (map parts) (sym same) ∙ sym (append-nil (map parts a))
  select_fuzzers-parts ts (s ∷ selected) a b h =
      let (mid, here, rest) =
        >>=-some (select_fuzzer host ts s a) (fold (select_fuzzer host ts) selected) h in
      select_fuzzers-parts ts selected mid b rest
      ∙ ap (λ xs. xs ++ all_parts selected ts) (select_fuzzer-parts ts s a mid here)
      ∙ append_assoc (map parts a) (allowed_parts s ts) (all_parts selected ts)

  -- Each case replays as many trials.
  abbrev pub IsReplay : ℕ → List (CampaignCase N D) → Type 0
  IsReplay n cases = All (λ c. length c.replay_trials ≡ n) cases

  none_replayed :
      (cases : List (CampaignCase N D)) (n : ℕ)
      → any (λ c. not (nat_beq (length c.replay_trials) n)) cases ≡ false
      → IsReplay n cases
  none_replayed [] n h = tt
  none_replayed (c ∷ cases) n h = (ground arith, none_replayed cases n (ground arith))

  replay_counts_agree-IsReplay :
      (n : ℕ) (cases : List (CampaignCase N D))
      → replay_counts_agree host n cases ≡ true
      → IsReplay 0 cases ⊎ IsReplay n cases
  unfolding replay_counts_agree
  replay_counts_agree-IsReplay n cases h =
      elim (Bool-cases (any (λ c. not (nat_beq (length c.replay_trials) 0)) cases)) [
        | inr nothing ↦ inl (none_replayed cases 0 nothing)
        | inl something ↦ inr (none_replayed cases n (ground arith))
      ]

  -- A campaign has cases, settings in their bounds, and trials to replay for all cases or for none.
  abbrev pub IsRunnable : CampaignConfig N D → Type 0
  IsRunnable c =
      (1 ≤ length c.cases)
      × AreInBounds host c.settings
      × (IsReplay 0 c.cases ⊎ IsReplay c.settings.repetitions c.cases)

  checked_config-IsRunnable :
      (cpus : ℕ) (fields : Fields N) (cases : List (CampaignCase N D)) (c : CampaignConfig N D)
      → checked_config host cpus fields cases ≡ some c
      → (c.cases ≡ cases) × IsRunnable c
  unfolding checked_config
  checked_config-IsRunnable cpus fields cases c h =
      let (filled, h1) = require-some (not (nat_beq (length cases) 0)) _ h in
      let (settings, e2, h2) = >>=-some (load_campaign_settings host cpus fields) _ h1 in
      let (agree, h3) = require-some (replay_counts_agree host settings.repetitions cases) _ h2 in
      let u : CampaignConfig N D = record { settings = settings; cases = cases } in
      let made : u ≡ c = cc in
      subst (λ x. (x.cases ≡ cases) × IsRunnable x) made
        (
          refl,
          (
            ground (arith, filled),
            load_campaign_settings-AreInBounds host cpus fields settings e2,
            replay_counts_agree-IsReplay settings.repetitions cases agree,
          ),
        )

  -- A campaign configuration that is loaded has one case for each pair of a selected fuzzer and a
  -- target that the fuzzer allows, in this order and with the trials listed for the target, at
  -- least one case, settings within their bounds, and either no trial to replay in any case or as
  -- many as there are repetitions in every case.
  pub load_campaign_config-cases :
      (cpus : ℕ) (fuzzer_dirs benchmark_dirs : Dict String D) (yaml : Option (Value N))
      (c : CampaignConfig N D)
      → load_campaign_config host cpus fuzzer_dirs benchmark_dirs yaml ≡ some c
      → (fields : Fields N) × (selected : List (Selected N D)) × (ts : List (FuzzTarget N D))
        × (loaded_mapping host yaml ≡ some fields)
        × (load_fuzzers host fields fuzzer_dirs ≡ some selected)
        × (load_fuzz_targets host fields benchmark_dirs ≡ some ts)
        × (map parts c.cases ≡ all_parts selected ts)
        × IsRunnable c
  unfolding load_campaign_config
  load_campaign_config-cases cpus fuzzer_dirs benchmark_dirs yaml c h =
      let (fields, e1, h1) = >>=-some (loaded_mapping host yaml) _ h in
      let (selected, e2, h2) = >>=-some (load_fuzzers host fields fuzzer_dirs) _ h1 in
      let (ts, e3, h3) = >>=-some (load_fuzz_targets host fields benchmark_dirs) _ h2 in
      let (cases, e4, h4') = >>=-some (fold (select_fuzzer host ts) selected []) _ h3 in
      let (same, runnable) = checked_config-IsRunnable cpus fields cases c h4' in
      (
        fields,
        selected,
        ts,
        e1,
        e2,
        e3,
        ap (map parts) same ∙ select_fuzzers-parts ts selected [] cases e4,
        runnable,
      )
