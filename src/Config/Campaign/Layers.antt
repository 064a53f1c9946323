-- ===== src/Config/Campaign/Layers.antt =====
-- The build and the run configuration of a case as layers that are merged one after the other.
use mathlib.Core.Path.{subst}
use mathlib.Core.List.{reverse}
use fuzzmeter.Prelude.{◌≡◌, refl, ap, ◌∙◌, true, Option, some, String, List, [], ◌∷◌, All}
use fuzzmeter.Prelude.Equality.{Eq, string_eq}
use fuzzmeter.Prelude.Sets.{IsUnique}
use fuzzmeter.Prelude.Failing.{◌>>=◌, >>=-some, fold}
use fuzzmeter.Json.{Value, Fields, end, find, field_names}
use fuzzmeter.Config.Values.{Host}
use fuzzmeter.Config.Merge.{merge, merge_all}
use fuzzmeter.Config.Merge.Layers.{is_scalar, last_found, merge_all-last}
use fuzzmeter.Config.Fuzzers.{Fuzzer, description}
use fuzzmeter.Config.Fuzzers.Closure.{parents}
use fuzzmeter.Config.Targets.{FuzzTarget}
use fuzzmeter.Config.Campaign.{
  CampaignCase, Configs, override_of, merge_layers, merge_configs, build_campaign_case,
}

-- The two configurations of a case.
pub data Side : Type 0 where
  build_side : Side
  run_side : Side

abbrev pub side_key : Side → String
side_key build_side = "build"
side_key run_side = "runtime"

module _ {N D : Type 0} where
  abbrev pub own_config : Side → Fuzzer N D → Fields N
  own_config build_side f = (description f).build_config
  own_config run_side f = (description f).run_config

  abbrev pub case_config : Side → CampaignCase N D → Fields N
  case_config build_side c = c.build_config
  case_config run_side c = c.run_config

abbrev side_of : {N : Type 0} → Side → Configs N → Fields N
side_of build_side c = c.build
side_of run_side c = c.run

module _ {N K D : Type 0} (host : Host N K D) where
  -- Of each fuzzer its own configuration and what the target overrides for it.
  unfoldable pub layers : Side → FuzzTarget N D → List (Fuzzer N D) → Option (List (Fields N))
  layers side target [] = some []
  layers side target (f ∷ fs) = do
    override ← override_of host (side_key side) target (description f).id
    rest ← layers side target fs
    some (own_config side f ∷ override ∷ rest)

module _ {N K D : Type 0} ⦃e : Eq K⦄ (host : Host N K D) where
  merge_configs-side :
      (side : Side) (t : FuzzTarget N D) (f : Fuzzer N D) (a b : Configs N)
      → merge_configs host t f a ≡ some b
      → merge_layers host (side_key side) t (description f).id (own_config side f) (side_of side a)
        ≡ some (side_of side b)
  unfolding merge_configs
  merge_configs-side side t f a b h =
      let (build, e1, h1) =
        >>=-some
          (merge_layers host "build" t (description f).id (description f).build_config a.build) _
          h in
      let (run, e2, h2) =
        >>=-some (merge_layers host "runtime" t (description f).id (description f).run_config a.run)
          _ h1 in
      let u : Configs N = record { build = build; run = run } in
      let made : u ≡ b = cc in
      subst
        (λ x.
          merge_layers host (side_key side) t (description f).id (own_config side f)
            (side_of side a)
          ≡ some (side_of side x))
        made (of_side side e1 e2)
    where
      of_side :
          (side : Side) {build run : Fields N}
          → merge_layers host "build" t (description f).id (description f).build_config a.build
            ≡ some build
          → merge_layers host "runtime" t (description f).id (description f).run_config a.run
            ≡ some run
          → merge_layers host
              (side_key side)
              t
              (description f).id
              (own_config side f)
              (side_of side a)
            ≡ some (side_of side (record { build = build; run = run }))
      of_side build_side p q = p
      of_side run_side p q = q

  merge_layers-merge_all :
      (key id : String) (t : FuzzTarget N D) (own a m o : Fields N) (rest : List (Fields N))
      → merge_layers host key t id own a ≡ some m
      → override_of host key t id ≡ some o
      → merge_all host.number_type a (own ∷ o ∷ rest) ≡ merge_all host.number_type m rest
  unfolding merge_layers merge_all
  merge_layers-merge_all key id t own a m o rest h found =
      let (merged, e1, h1) = >>=-some (merge host.number_type a own) _ h in
      let (o', e2, h2) = >>=-some (override_of host key t id) _ h1 in
      let same : o' ≡ o = cc in
      let e3 : merge host.number_type merged o ≡ some m =
        subst (λ x. merge host.number_type merged x ≡ some m) same h2 in
      rw (e1, e3) refl

  fold-merge_all :
      (side : Side) (t : FuzzTarget N D) (fs : List (Fuzzer N D)) (a b : Configs N)
      (ls : List (Fields N))
      → fold (merge_configs host t) fs a ≡ some b
      → layers host side t fs ≡ some ls
      → merge_all host.number_type (side_of side a) ls ≡ some (side_of side b)
  unfolding fold layers merge_all
  fold-merge_all side t [] a b ls h l =
      let none_left : [] ≡ ls = cc in
      let same : a ≡ b = cc in
      subst (λ x. merge_all host.number_type (side_of side a) x ≡ some (side_of side b)) none_left
        (ap (λ x. some (side_of side x)) same)
  fold-merge_all side t (f ∷ fs) a b ls h l =
      let (m, e1, h1) = >>=-some (merge_configs host t f a) (fold (merge_configs host t) fs) h in
      let (o, e2, l1) = >>=-some (override_of host (side_key side) t (description f).id) _ l in
      let (rest, e3, l2) = >>=-some (layers host side t fs) _ l1 in
      let made : own_config side f ∷ o ∷ rest ≡ ls = cc in
      subst (λ x. merge_all host.number_type (side_of side a) x ≡ some (side_of side b)) made
        (merge_layers-merge_all (side_key side) (description f).id t (own_config side f)
            (side_of side a) (side_of side m) o rest (merge_configs-side side t f a m e1) e2
          ∙ fold-merge_all side t fs m b rest h1 e3)

  build_campaign_case-configs :
      (side : Side) (f : Fuzzer N D) (t : FuzzTarget N D) (trials : List D) (c : CampaignCase N D)
      (ls : List (Fields N))
      → build_campaign_case host f t trials ≡ some c
      → layers host side t (reverse (f ∷ parents f)) ≡ some ls
      → merge_all host.number_type end ls ≡ some (case_config side c)
  unfolding build_campaign_case
  build_campaign_case-configs side f t trials c ls h l =
      let start : Configs N = record { build = end; run = end } in
      let (configs, e1, h1) =
        >>=-some (fold (merge_configs host t) (reverse (f ∷ parents f)) start) _ h in
      let u : CampaignCase N D = record {
        case_fuzzer = f;
        fuzz_target = t;
        build_config = configs.build;
        run_config = configs.run;
        replay_trials = trials;
      } in
      let made : u ≡ c = cc in
      subst (λ x. merge_all host.number_type end ls ≡ some (case_config side x)) made
        (of_side side configs e1 l)
    where
      of_side :
          (side : Side) (configs : Configs N)
          → fold
              (merge_configs host t)
              (reverse (f ∷ parents f))
              (record { build = end; run = end })
            ≡ some configs
          → layers host side t (reverse (f ∷ parents f)) ≡ some ls
          → merge_all host.number_type end ls
            ≡ some (
                case_config side (record {
                  case_fuzzer = f;
                  fuzz_target = t;
                  build_config = configs.build;
                  run_config = configs.run;
                  replay_trials = trials;
                }))
      of_side build_side b p q =
          fold-merge_all build_side t (reverse (f ∷ parents f)) (record { build = end; run = end })
            b ls p q
      of_side run_side b p q =
          fold-merge_all run_side t (reverse (f ∷ parents f)) (record { build = end; run = end }) b
            ls p q

  -- The build and the run configuration of a case come from layers, from the fuzzer's farthest
  -- parent to the fuzzer itself, of each its own configuration and then what the target overrides
  -- for it: where no layer repeats a key, a key has the value of the last layer that has it, if
  -- that value is neither a mapping nor a list.
  pub build_campaign_case-last :
      (side : Side) (f : Fuzzer N D) (t : FuzzTarget N D) (trials : List D) (c : CampaignCase N D)
      (ls : List (Fields N)) (k : String) (v : Value N)
      → build_campaign_case host f t trials ≡ some c
      → layers host side t (reverse (f ∷ parents f)) ≡ some ls
      → All (λ layer. IsUnique (field_names layer)) ls
      → is_scalar v ≡ true
      → last_found host.number_type k ls ≡ some v
      → find k (case_config side c) ≡ some v
  build_campaign_case-last side f t trials c ls k v h l unique scalar found =
      merge_all-last host.number_type end (case_config side c) ls k v unique
        (build_campaign_case-configs side f t trials c ls h l) scalar found
