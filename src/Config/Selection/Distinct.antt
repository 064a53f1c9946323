-- ===== src/Config/Selection/Distinct.antt =====
-- The fuzzers of a campaign that has been read.
use mathlib.Core.Path.{subst}
use mathlib.Core.List.{map-append}
use fuzzmeter.Prelude.{
  suc, ◌<◌, ◌≡◌, refl, ap, sym, ◌∙◌, false, not, none, some, String, List, [], ◌∷◌, ◌++◌, map,
  arith, length, All, All-append,
}
use fuzzmeter.Prelude.Equality.{Eq, string_eq, elem, elem-append}
use fuzzmeter.Prelude.Sets.{IsUnique, append-IsUnique}
use fuzzmeter.Prelude.Failing.{>>=-some, require-some, fold, fold-keeps}
use fuzzmeter.Dict.{Dict}
use fuzzmeter.Json.{Value, null, number, text, list, dict, Fields, get as get_field}
use fuzzmeter.Config.Values.{Host, mapping_or_empty, names_or_none, full_list, check_id_format}
use fuzzmeter.Config.Fuzzers.{
  Description, Fuzzer, fuzzer, child_of, nil, description, effective_allowed, Attempt, loaded,
  Entries, load_fuzzer, raised, stuck,
}
use fuzzmeter.Config.Fuzzers.Entries.{
  effective_allowed-narrows, IsSound, AreSound, IsRecorded, Good, unopened,
}
use fuzzmeter.Config.Fuzzers.Closure.{Allows, parents, ancestors-Allows, parents-Allows}
use fuzzmeter.Config.Fuzzers.Loading.{Ends, load_fuzzer-Ends}
use fuzzmeter.Config.Selection.{
  Selected, FuzzersRead, outcome_value, replay_trials_of, entry_names, derived, selected_of,
  with_selected, read_fuzzer, load_fuzzers,
}

module _ {N D : Type 0} where
  abbrev pub id_of : Selected N D → String
  id_of s = (description s.0).id

  -- What a fuzzer allows, all its parents allow.
  abbrev pub IsNarrow : Selected N D → Type 0
  IsNarrow s = (spec : String) → Allows spec s.0 → All (Allows spec) (parents s.0)

  unopened-le : (dirs : Dict String D) (es : Entries N D) → unopened dirs es < suc (length dirs)
  unfolding unopened
  unopened-le [] es = omega arith
  unopened-le ((k, v) ∷ dirs) es = ground (arith, unopened-le dirs es)

  abbrev IsRead : Dict String D → FuzzersRead N D → Type 0
  IsRead dirs read =
      AreSound dirs read.entries
      × ((k : String) → elem k read.campaign_ids ≡ elem k (map id_of read.campaign_fuzzers))
      × IsUnique (map id_of read.campaign_fuzzers)
      × All IsNarrow read.campaign_fuzzers

module _ {N K D : Type 0} (host : Host N K D) where
  derived-IsNarrow :
      (dirs : Dict String D) (es : Entries N D) (id : String) (base : Fuzzer N D)
      (fields : Fields N) (s : Selected N D)
      → AreSound dirs es
      → IsRecorded es base
      → derived host id base fields ≡ some s
      → (id_of s ≡ id) × IsNarrow s
  unfolding derived parents
  derived-IsNarrow dirs es id base fields s sound recorded h =
      let (allowed, e1, h1) =
        >>=-some (names_or_none host (get_field "allowed_fuzz_targets" fields)) _ h in
      let (build_override, e2, h2) =
        >>=-some (mapping_or_empty host (get_field "build" fields)) _ h1 in
      let (run_override, e3, h3) =
        >>=-some (mapping_or_empty host (get_field "runtime" fields)) _ h2 in
      let (trials, e4, h4) = >>=-some (replay_trials_of host fields) _ h3 in
      let d : Description N D = record {
        id = id;
        name = (description base).name;
        src_dir = (description base).src_dir;
        allowed_fuzz_targets = effective_allowed allowed (description base).allowed_fuzz_targets;
        local_repo_env = none;
        build_config = build_override;
        run_config = run_override;
      } in
      let made : (fuzzer d (child_of base) nil, trials) ≡ s = cc in
      subst (λ x. (id_of x ≡ id) × IsNarrow x) made
        (
          refl,
          λ spec ok.
              ancestors-Allows dirs es spec (child_of base) sound recorded
                (effective_allowed-narrows allowed (description base).allowed_fuzz_targets spec ok),
        )

  selected_of-IsNarrow :
      (dirs : Dict String D) (es : Entries N D) (entry : Value N) (names : Value N × Value N)
      (id name : String) (base : Fuzzer N D) (s : Selected N D)
      → AreSound dirs es
      → IsRecorded es base
      → (description base).id ≡ name
      → entry_names host entry ≡ some names
      → check_id_format host names.0 ≡ some id
      → check_id_format host names.1 ≡ some name
      → selected_of host id base entry ≡ some s
      → (id_of s ≡ id) × IsNarrow s
  unfolding selected_of
  selected_of-IsNarrow dirs es (dict fields) names id name base s sound recorded named e i n h =
      derived-IsNarrow dirs es id base fields s sound recorded h
  selected_of-IsNarrow dirs es (text x) names id name base s sound recorded named e i n h =
      let q : (text x, text x) ≡ names = cc in
      let i' = ap (λ p. check_id_format host p.0) q ∙ i in
      let n' = ap (λ p. check_id_format host p.1) q ∙ n in
      let same_name : id ≡ name = cc in
      let made : (base, []) ≡ s = cc in
      subst (λ y. (id_of y ≡ id) × IsNarrow y) made
        (named ∙ sym same_name, (λ spec ok. parents-Allows dirs es spec base sound recorded ok))
  selected_of-IsNarrow dirs es null names id name base s sound recorded named e i n h = absurd cc
  selected_of-IsNarrow dirs es (number x) names id name base s sound recorded named e i n h =
      absurd cc
  selected_of-IsNarrow dirs es (list xs) names id name base s sound recorded named e i n h =
      absurd cc

module _ {N K D : Type 0} ⦃e : Eq K⦄ (host : Host N K D) where
  loaded-Good :
      (dirs : Dict String D) (name : String) (es : Entries N D) (base : Fuzzer N D × Entries N D)
      → AreSound dirs es
      → outcome_value (load_fuzzer host (suc (length dirs)) dirs name es) ≡ some base
      → Good dirs es name base.0 base.1
  loaded-Good dirs name es base sound h =
      of_attempt (load_fuzzer host (suc (length dirs)) dirs name es) h
        (load_fuzzer-Ends host (suc (length dirs)) dirs name es sound (unopened-le dirs es))
    where
      of_attempt :
          (o : Attempt N D (Fuzzer N D))
          → outcome_value o ≡ some base
          → Ends (Good dirs es name) o
          → Good dirs es name base.0 base.1
      of_attempt (loaded f es') q good =
          let same : (f, es') ≡ base = cc in subst (λ b. Good dirs es name b.0 b.1) same good
      of_attempt raised q good = absurd cc
      of_attempt stuck q good = absurd cc

  id_of_sound :
      (dirs : Dict String D) (es : Entries N D) (name : String) (f : Fuzzer N D)
      → IsSound dirs es name f
      → (description f).id ≡ name
  id_of_sound dirs es name (fuzzer d p fs) h = h.0

  with_selected-IsRead :
      (dirs : Dict String D) (entry : Value N) (read read' : FuzzersRead N D) (id : String)
      (base : Fuzzer N D × Entries N D)
      → IsRead dirs read
      → AreSound dirs base.1
      → elem id read.campaign_ids ≡ false
      → ((s : Selected N D)
          → selected_of host id base.0 entry ≡ some s
          → (id_of s ≡ id) × IsNarrow s)
      → with_selected host id entry read base ≡ some read'
      → IsRead dirs read'
  unfolding with_selected
  with_selected-IsRead dirs entry read read' id base (sound, seen, unique, narrow) sound' new fine
        h =
      let (s, e1, h1) = >>=-some (selected_of host id base.0 entry) _ h in
      let (named, is_narrow) = fine s e1 in
      let u : FuzzersRead N D = record {
        entries = base.1;
        campaign_ids = id ∷ read.campaign_ids;
        campaign_fuzzers = read.campaign_fuzzers ++ s ∷ [];
      } in
      let made : u ≡ read' = cc in
      let mapped : map id_of (read.campaign_fuzzers ++ s ∷ [])
          ≡ map id_of read.campaign_fuzzers ++ id ∷ [] =
        map-append id_of read.campaign_fuzzers (s ∷ [])
        ∙ ap (λ i. map id_of read.campaign_fuzzers ++ i ∷ []) named in
      subst (IsRead dirs) made (
        sound',
        (λ k.
            let q = elem-append k (map id_of read.campaign_fuzzers) (id ∷ []) in
            rw mapped (ground (arith, seen k))),
        subst IsUnique (sym mapped)
            (append-IsUnique id (map id_of read.campaign_fuzzers) unique (sym (seen id) ∙ new)),
        All-append IsNarrow read.campaign_fuzzers (s ∷ []) narrow (is_narrow, tt),
      )

  read_fuzzer-IsRead :
      (dirs : Dict String D) (entry : Value N) (read read' : FuzzersRead N D)
      → IsRead dirs read
      → read_fuzzer host dirs entry read ≡ some read'
      → IsRead dirs read'
  unfolding read_fuzzer
  read_fuzzer-IsRead dirs entry read read' is_read h =
      let (names, e1, h1) = >>=-some (entry_names host entry) _ h in
      let (id, e2, h2) = >>=-some (check_id_format host names.0) _ h1 in
      let (name, e3, h3) = >>=-some (check_id_format host names.1) _ h2 in
      let (new, h4) = require-some (not (elem id read.campaign_ids)) _ h3 in
      let (base, e5, h5) =
        >>=-some (outcome_value (load_fuzzer host (suc (length dirs)) dirs name read.entries)) _
          h4 in
      let (x, there, recorded, sound) = loaded-Good dirs name read.entries base is_read.0 e5 in
      let named = id_of_sound dirs base.1 name base.0 (sound name base.0 there) in
      with_selected-IsRead dirs entry read read' id base is_read sound (ground (arith, new))
        (λ s.
          selected_of-IsNarrow host dirs base.1 entry names id name base.0 s sound recorded named e1
            e2 e3)
        h5

  -- The fuzzers that `_load_fuzzers` selects have different ids, and every target that one of
  -- them allows is allowed by each of its `parents`.
  pub load_fuzzers-AreDistinct :
      (fields : Fields N) (dirs : Dict String D) (selected : List (Selected N D))
      → load_fuzzers host fields dirs ≡ some selected
      → IsUnique (map id_of selected) × All IsNarrow selected
  unfolding load_fuzzers
  load_fuzzers-AreDistinct fields dirs selected h =
      let (specs, e1, h1) = >>=-some (full_list host (get_field "fuzzers" fields)) _ h in
      let start : FuzzersRead N D = record {
        entries = [];
        campaign_ids = [];
        campaign_fuzzers = [];
      } in
      let (read, e2, h2) = >>=-some (fold (read_fuzzer host dirs) specs start) _ h1 in
      let (sound, seen, unique, narrow) =
        fold-keeps (IsRead dirs) (read_fuzzer host dirs) (read_fuzzer-IsRead dirs) specs start read
          ((λ n f q. absurd cc), (λ k. refl), tt, tt) e2 in
      let same : read.campaign_fuzzers ≡ selected = cc in
      subst (λ xs. IsUnique (map id_of xs) × All IsNarrow xs) same (unique, narrow)
