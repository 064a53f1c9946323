-- ===== src/Composite/Compatibility/Levels.antt =====
-- The level of a comparison, from what differs.
use fuzzmeter.Prelude.{
  ◌≡◌, ◌↔◌, refl, ap, ◌∙◌, true, false, ◌&&◌, none, some, String, ◌++◌, arith, if◌then◌else◌,
  Bool-cases, inl, inr,
}
use fuzzmeter.Prelude.Equality.{Eq, ◌==◌, string_eq}
use fuzzmeter.Json.{Value, Fields, end, field, find, get, is_empty}
use fuzzmeter.Composite.Diffs.{differing, diff_dict}
use fuzzmeter.Composite.Diffs.Entries.{find-diff_dict}
use fuzzmeter.Composite.Compatibility.{
  is_target, MeasurementMetadata, compatible, risky, incompatible, environment, config, source,
  target_part, risky_part, warn, level_from_diffs, diff_environment, diff_source, issues_of,
  compare_metadata, CompatibilityResult,
}

module _ {N : Type 0} where
  is_empty-end : (fs : Fields N) → (is_empty fs ≡ true) ↔ (fs ≡ end)
  is_empty-end end = (λ h. refl, λ h. refl)
  is_empty-end (field k v fs) = (λ h. absurd (ground arith), λ h. ap is_empty h)

  -- Where an object is not empty it has a key.
  some_key :
      (fs : Fields N) → is_empty fs ≡ false → (k : String) × (v : Value N) × (find k fs ≡ some v)
  some_key end h = absurd (ground arith)
  some_key (field k v fs) h = (k, v, ground (arith, string_eq.beq_iff k k))

  found-is_empty :
      (k : String) (v : Value N) (fs : Fields N) → find k fs ≡ some v → is_empty fs ≡ false
  found-is_empty k v end h = absurd (ground arith)
  found-is_empty k v (field j w fs) h = refl

  find-target_part :
      (k : String) (fs : Fields N)
      → find k (target_part fs) ≡ (if is_target k then find k fs else none)
  find-target_part k end = ground arith
  find-target_part k (field j v fs) = elim (Bool-cases (j == k)) [
    | inl same ↦
        let eq : is_target j ≡ is_target k = ap is_target ((string_eq.beq_iff j k).0 same) in
        ground (arith, find-target_part k fs, eq)
    | inr other ↦ ground (arith, find-target_part k fs)
  ]

  is_empty-parts :
      (fs : Fields N) → is_empty fs ≡ (is_empty (target_part fs) && is_empty (risky_part fs))
  is_empty-parts end = refl
  is_empty-parts (field k v fs) = ground (arith, is_empty-parts fs)

  -- Warnings alone make a comparison risky.
  warnings-level :
      (s t u : String) (es rs ss : Fields N)
      → level_from_diffs (warn environment s es ++ warn config t rs ++ warn source u ss)
        ≡ (if is_empty es && is_empty rs && is_empty ss then compatible else risky)
  unfolding level_from_diffs
  warnings-level s t u end end end = refl
  warnings-level s t u (field k v es) end end = refl
  warnings-level s t u end (field k v rs) end = refl
  warnings-level s t u (field k v es) (field j w rs) end = refl
  warnings-level s t u end end (field k v ss) = refl
  warnings-level s t u (field k v es) end (field j w ss) = refl
  warnings-level s t u end (field k v rs) (field j w ss) = refl
  warnings-level s t u (field k v es) (field j w rs) (field l x ss) = refl

module _ {N : Type 0} ⦃e : Eq N⦄ where
  issues_of-clean :
      (es cs ss : Fields N)
      → is_empty (target_part cs) ≡ true
      → issues_of es cs ss
        ≡ warn environment "Environment metadata differs." es
          ++ warn config "Measurement configuration differs." (risky_part cs)
          ++ warn source "User source metadata is missing or differs." ss
  unfolding issues_of
  issues_of-clean es cs ss clean = rw clean refl

  level_of :
      (es cs ss : Fields N)
      → (if is_empty (target_part cs) then level_from_diffs (issues_of es cs ss) else incompatible)
        ≡ (if is_empty (target_part cs)
            then (if is_empty es && is_empty (risky_part cs) && is_empty ss
                then compatible
                else risky)
            else incompatible)
  level_of es cs ss = elim (Bool-cases (is_empty (target_part cs))) [
    | inl clean ↦
        let known =
          ap level_from_diffs (issues_of-clean es cs ss clean)
          ∙ warnings-level _ _ _ es (risky_part cs) ss in
        ground (arith, known)
    | inr hard ↦ ground arith
  ]

module _ {N : Type 0} ⦃e : Eq N⦄ (reference candidate : MeasurementMetadata N) where
  abbrev pub result : CompatibilityResult N
  result = compare_metadata reference candidate

  level_lem : result.level ≡ (
      if is_empty (target_part result.config_diff)
      then (if is_empty result.environment_diff
            && is_empty (risky_part result.config_diff)
            && is_empty result.source_diff
          then compatible
          else risky)
      else incompatible)
  unfolding compare_metadata
  level_lem =
      level_of (diff_environment reference candidate) (diff_dict reference.config candidate.config)
        (diff_source reference.source candidate.source)

  -- A target key whose values differ, with its entry.
  abbrev pub TargetDiffers : Type 0
  TargetDiffers =
      (k : String) × (v : Value N) × (is_target k ≡ true)
      × (differing (get k reference.config) (get k candidate.config) ≡ some v)

  target-find :
      (k : String)
      → find k (target_part result.config_diff) ≡ (
          if is_target k then differing (get k reference.config) (get k candidate.config) else none)
  unfolding compare_metadata
  target-find k =
      find-target_part k result.config_diff
      ∙ ap (λ o. if is_target k then o else none)
          (find-diff_dict k reference.config candidate.config)

  level-incompatible : (result.level ≡ incompatible) ↔ TargetDiffers
  level-incompatible = (
    λ h.
        let (k, v, found) = some_key (target_part result.config_diff) (ground (arith, level_lem)) in
        let spec = target-find k in
        (k, v, ground (arith, spec, found), ground (arith, spec, found)),
    λ (k, v, target, differs).
        let hard : is_empty (target_part result.config_diff) ≡ false =
          found-is_empty k v (target_part result.config_diff) (target-find k ∙ ground arith) in
        ground (arith, level_lem),
  )

  level-compatible :
      (result.level ≡ compatible)
      ↔ ((result.environment_diff ≡ end) × (result.config_diff ≡ end) × (result.source_diff ≡ end))
  level-compatible =
      let parts = is_empty-parts result.config_diff in
      (
        λ h. (
          (is_empty-end result.environment_diff).0 (ground (arith, level_lem)),
          (is_empty-end result.config_diff).0 (ground (arith, level_lem, parts)),
          (is_empty-end result.source_diff).0 (ground (arith, level_lem)),
        ),
        λ (no_env, no_config, no_source).
            let a = (is_empty-end result.environment_diff).1 no_env in
            let b = (is_empty-end result.config_diff).1 no_config in
            let c = (is_empty-end result.source_diff).1 no_source in
            ground (arith, level_lem, parts),
      )

  -- Two measurements are incompatible exactly if `_diff_dict` makes an entry of the two values of
  -- some target key of the config, and compatible exactly if the environment, config and source
  -- diffs are all empty.
  pub compare_metadata_lem :
      ((result.level ≡ incompatible) ↔ TargetDiffers)
      × ((result.level ≡ compatible) ↔ (
          (result.environment_diff ≡ end)
          × (result.config_diff ≡ end)
          × (result.source_diff ≡ end)))
  compare_metadata_lem = (level-incompatible, level-compatible)
