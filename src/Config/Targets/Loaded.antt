-- ===== src/Config/Targets/Loaded.antt =====
-- The targets of a campaign that has been read.
use mathlib.Core.Path.{subst}
use mathlib.Core.List.{map-append}
use fuzzmeter.Prelude.{
  ℕ, ◌≤◌, ◌≡◌, refl, ap, sym, ◌∙◌, true, false, not, Option, some, String, List, [], ◌∷◌, ◌++◌, map,
  arith, All, All-append, if◌then◌else◌, Bool-cases, Option-cases, inl, inr,
}
use fuzzmeter.Prelude.Equality.{◌==◌, string_eq, elem, elem-append}
use fuzzmeter.Prelude.Sets.{IsUnique, append-IsUnique}
use fuzzmeter.Prelude.Failing.{◌>>=◌, ◌>>◌, require, >>=-some, require-some, fold, fold-keeps}
use fuzzmeter.Dict.{Dict, get, put, get-put}
use fuzzmeter.Json.{Value, null, number, text, list, dict, Fields, get as get_field}
use fuzzmeter.Config.Values.{
  Host, load_yaml, full_list, mapping_or_empty, is_true, normalized_int_value,
  normalized_int_value-ge,
}
use fuzzmeter.Config.Targets.{
  Benchmark, FuzzTarget, target_ident, input_mode_options, timeout_of, float_or_one,
  compile_jobs_of, target_of, named_benchmark, full_mapping, mapping, all_mappings,
  fuzz_target_from_config, TargetsRead, spec_parts, setdefault, with_benchmark, add_target,
  read_target, load_fuzz_targets,
}

module _ {N K D : Type 0} (host : Host N K D) where
  -- What holds of a target by its configuration.
  abbrev pub IsRunnable : FuzzTarget N D → Type 0
  IsRunnable t =
      (elem t.input_mode input_mode_options ≡ true)
      × (host.at_most_zero t.target_timeout_s ≡ false)
      × ((n : ℕ) → t.build_compile_jobs ≡ some n → 1 ≤ n)

  timeout_of-positive :
      (v : Value N) (t : N) → timeout_of host v ≡ some t → host.at_most_zero t ≡ false
  unfolding timeout_of
  timeout_of-positive v t h =
      let (u, read, rest) =
        >>=-some (float_or_one host v) (λ u. require (not (host.at_most_zero u)) >> some u) h in
      let (ok, same) = require-some (not (host.at_most_zero u)) (some u) rest in
      let q : u ≡ t = cc in subst (λ x. host.at_most_zero x ≡ false) q (ground arith)

  normalized-ge :
      (v : Value N) (jobs : Option ℕ) (n : ℕ)
      → (normalized_int_value host v 1 >>= (λ m. some (some m))) ≡ some jobs
      → jobs ≡ some n
      → 1 ≤ n
  normalized-ge v jobs n h j =
      let (m, e, rest) = >>=-some (normalized_int_value host v 1) (λ m. some (some m)) h in
      let q : m ≡ n = cc in subst (λ k. 1 ≤ k) q (normalized_int_value-ge host v 1 m e)

  compile_jobs_of-ge :
      (v : Value N) (jobs : Option ℕ) (n : ℕ)
      → compile_jobs_of host v ≡ some jobs
      → jobs ≡ some n
      → 1 ≤ n
  compile_jobs_of-ge null jobs n h j = absurd cc
  compile_jobs_of-ge (number x) jobs n h j = normalized-ge (number x) jobs n h j
  compile_jobs_of-ge (text x) jobs n h j = normalized-ge (text x) jobs n h j
  compile_jobs_of-ge (list x) jobs n h j = normalized-ge (list x) jobs n h j
  compile_jobs_of-ge (dict x) jobs n h j = normalized-ge (dict x) jobs n h j

  target_of-IsRunnable :
      (b : Benchmark D) (name : String) (fields : Fields N) (t : FuzzTarget N D)
      → target_of host b name fields ≡ some t
      → IsRunnable t × (t.benchmark ≡ b)
  unfolding target_of
  target_of-IsRunnable b name fields t h =
      let mode = get_field "input_mode" fields in
      let input_mode = host.str_of (if is_true host mode then mode else text "") in
      let (known, h1) = require-some (elem input_mode input_mode_options) _ h in
      let (timeout, e2, h2) = >>=-some (timeout_of host (get_field "timeout_s" fields)) _ h1 in
      let (overrides, e3, h3) =
        >>=-some (mapping_or_empty host (get_field "fuzzers" fields)) _ h2 in
      let (maps, h4) = require-some (all_mappings overrides) _ h3 in
      let (build_fields, e5, h5) =
        >>=-some (mapping_or_empty host (get_field "build" fields)) _ h4 in
      let (jobs, e6, h6) =
        >>=-some (compile_jobs_of host (get_field "compile_jobs" build_fields)) _ h5 in
      let u : FuzzTarget N D = record {
        benchmark = b;
        fuzz_target = name;
        input_mode = input_mode;
        fuzzer_overrides = overrides;
        target_timeout_s = timeout;
        build_compile_jobs = jobs;
      } in
      let made : u ≡ t = cc in
      subst (λ x. IsRunnable x × (x.benchmark ≡ b)) made
        (
          (
            known,
            timeout_of-positive (get_field "timeout_s" fields) timeout e2,
            (λ n. compile_jobs_of-ge (get_field "compile_jobs" build_fields) jobs n e6),
          ),
          refl,
        )

  named_benchmark-same :
      (required : String) (v : Value N) (name : String)
      → named_benchmark host required v ≡ some name
      → required ≡ name
  named_benchmark-same required (text s) name h = ground (arith, string_eq.beq_iff required s)
  named_benchmark-same required null name h = absurd cc
  named_benchmark-same required (number n) name h = absurd cc
  named_benchmark-same required (list xs) name h = absurd cc
  named_benchmark-same required (dict fs) name h = absurd cc

  -- A target as its benchmark's configuration describes it.
  abbrev pub IsConfigured : Dict String D → FuzzTarget N D → Type 0
  IsConfigured dirs t = IsRunnable t × (get t.benchmark.name dirs ≡ some t.benchmark.src_dir)

  abbrev IsKnown : Dict String D → String → Benchmark D → Type 0
  IsKnown dirs name b = (b.name ≡ name) × (get name dirs ≡ some b.src_dir)

  fuzz_target_from_config-IsRunnable :
      (dir : D) (benchmark name : String) (t : FuzzTarget N D)
      → fuzz_target_from_config host dir benchmark name ≡ some t
      → IsRunnable t × (t.benchmark.name ≡ benchmark) × (t.benchmark.src_dir ≡ dir)
  unfolding fuzz_target_from_config
  fuzz_target_from_config-IsRunnable dir benchmark name t h =
      let (yaml, e1, h1) = >>=-some (host.safe_load dir ("benchmark.yaml" ∷ [])) _ h in
      let (fields, e2, h2) = >>=-some (load_yaml host yaml) _ h1 in
      let (found, e3, h3) =
        >>=-some (named_benchmark host benchmark (get_field "benchmark" fields)) _ h2 in
      let (targets, e4, h4) = >>=-some (full_mapping host (get_field "fuzz_targets" fields)) _ h3 in
      let (target, e5, h5) = >>=-some (mapping host (get_field name targets)) _ h4 in
      let (fine, same) =
        target_of-IsRunnable (record { name = found; src_dir = dir }) name target t h5 in
      (
        fine,
        ap (λ b. b.name) same
            ∙ sym (named_benchmark-same benchmark (get_field "benchmark" fields) found e3),
        ap (λ b. b.src_dir) same,
      )

  setdefault-IsKnown :
      (dirs : Dict String D) (name : String) (b : Benchmark D) (known : Dict String (Benchmark D))
      → IsKnown dirs name b
      → ((k : String) (c : Benchmark D) → get k known ≡ some c → IsKnown dirs k c)
      → IsKnown dirs name (setdefault host name b known).0
        × ((k : String) (c : Benchmark D)
            → get k (setdefault host name b known).1 ≡ some c
            → IsKnown dirs k c)
  setdefault-IsKnown dirs name b known here h = elim (Option-cases (get name known)) [
    | inl new ↦ rw (new, setdefault) (here, added)
    | inr (c, there) ↦ rw (there, setdefault) (h name c there, h)
  ]
    where
      added : (k : String) (c : Benchmark D) → get k (put name b known) ≡ some c → IsKnown dirs k c
      added k c q = elim (Bool-cases (name == k)) [
        | inl same ↦
            let found : b ≡ c = cc (q, rw (same) at (get-put name k b known)) in
            subst (IsKnown dirs k) found
              (subst (λ i. IsKnown dirs i b) ((string_eq.beq_iff name k).0 same) here)
        | inr other ↦ h k c (ground (arith, get-put name k b known))
      ]

  abbrev IsRead : Dict String D → TargetsRead N D → Type 0
  IsRead dirs read =
      ((k : String) → elem k read.seen_idents ≡ elem k (map target_ident read.fuzz_targets))
      × IsUnique (map target_ident read.fuzz_targets)
      × All (IsConfigured dirs) read.fuzz_targets
      × ((k : String) (b : Benchmark D) → get k read.benchmarks ≡ some b → IsKnown dirs k b)

  add_target-IsRead :
      (dirs : Dict String D) (name : String) (t : FuzzTarget N D) (read read' : TargetsRead N D)
      → IsRead dirs read
      → IsRunnable t
      → IsKnown dirs name t.benchmark
      → add_target host name t read ≡ some read'
      → IsRead dirs read'
  unfolding add_target with_benchmark
  add_target-IsRead dirs name t read read' (seen, unique, fine, known) runnable here h =
      let (shared, kept) = setdefault-IsKnown dirs name t.benchmark read.benchmarks here known in
      let b = (setdefault host name t.benchmark read.benchmarks).0 in
      let target = with_benchmark host t b in
      let (new, h') = require-some (not (elem (target_ident target) read.seen_idents)) _ h in
      let u : TargetsRead N D = record {
        fuzz_targets = read.fuzz_targets ++ target ∷ [];
        benchmarks = (setdefault host name t.benchmark read.benchmarks).1;
        seen_idents = target_ident target ∷ read.seen_idents;
      } in
      let made : u ≡ read' = cc in
      let mapped : map target_ident (read.fuzz_targets ++ target ∷ [])
          ≡ map target_ident read.fuzz_targets ++ target_ident target ∷ [] =
        map-append target_ident read.fuzz_targets (target ∷ []) in
      let fresh : elem (target_ident target) (map target_ident read.fuzz_targets) ≡ false =
        sym (seen (target_ident target)) ∙ ground arith in
      subst (IsRead dirs) made (
        (λ k.
            let q = elem-append k (map target_ident read.fuzz_targets) (target_ident target ∷ []) in
            rw mapped (ground (arith, seen k))),
        subst IsUnique (sym mapped) (
            append-IsUnique (target_ident target) (map target_ident read.fuzz_targets) unique
              fresh),
        All-append (IsConfigured dirs) read.fuzz_targets (target ∷ []) fine
            ((runnable, subst (λ i. get i dirs ≡ some b.src_dir) (sym shared.0) shared.1), tt),
        kept,
      )

  read_target-IsRead :
      (dirs : Dict String D) (spec : Value N) (read read' : TargetsRead N D)
      → IsRead dirs read
      → read_target host dirs spec read ≡ some read'
      → IsRead dirs read'
  unfolding read_target
  read_target-IsRead dirs spec read read' is_read h =
      let (parts, e1, h1) = >>=-some (spec_parts host spec) _ h in
      let (dir, e2, h2) = >>=-some (get parts.0 dirs) _ h1 in
      let (t, e3, h3) = >>=-some (fuzz_target_from_config host dir parts.0 parts.1) _ h2 in
      let (runnable, named, from) = fuzz_target_from_config-IsRunnable dir parts.0 parts.1 t e3 in
      add_target-IsRead dirs parts.0 t read read' is_read runnable (named, e2 ∙ ap some (sym from))
        h3

  -- The targets that `_load_fuzz_targets` gives have different idents, and each has the directory
  -- that is configured for its benchmark, an input mode that is an option, a timeout that is not
  -- at most 0, and, if given, at least one compile job.
  pub load_fuzz_targets-AreConfigured :
      (fields : Fields N) (dirs : Dict String D) (ts : List (FuzzTarget N D))
      → load_fuzz_targets host fields dirs ≡ some ts
      → IsUnique (map target_ident ts) × All (IsConfigured dirs) ts
  unfolding load_fuzz_targets
  load_fuzz_targets-AreConfigured fields dirs ts h =
      let (specs, e1, h1) = >>=-some (full_list host (get_field "fuzz_targets" fields)) _ h in
      let start : TargetsRead N D = record {
        fuzz_targets = [];
        benchmarks = [];
        seen_idents = [];
      } in
      let (read, e2, h2) = >>=-some (fold (read_target host dirs) specs start) _ h1 in
      let (seen, unique, fine, known) =
        fold-keeps (IsRead dirs) (read_target host dirs) (read_target-IsRead dirs) specs start read
          ((λ k. refl), tt, tt, (λ k b q. absurd cc)) e2 in
      let same : read.fuzz_targets ≡ ts = cc in
      subst (λ xs. IsUnique (map target_ident xs) × All (IsConfigured dirs) xs) same (unique, fine)
