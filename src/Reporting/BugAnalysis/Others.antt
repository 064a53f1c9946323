-- ===== src/Reporting/BugAnalysis/Others.antt =====
-- The prefix and suffix unions against the union of all other fuzzers.
use fuzzmeter.Prelude.{
  ℕ, ◌≡◌, refl, ap, sym, ◌∙◌, Bool, true, false, not, ◌&&◌, ◌||◌, Option, none, some, String, List,
  [], ◌∷◌, arith, if◌then◌else◌, Bool-cases, inl, inr, any, map,
}
use fuzzmeter.Prelude.Equality.{◌==◌, string_eq, elem}
use fuzzmeter.Prelude.Sets.{
  IsUnique, union, in_some, elem-union, difference_size, count_cong, All-elem,
}
use fuzzmeter.Dict.{Dict, put, get-put}
use fuzzmeter.Reporting.SetComparison.{TrialSets, get_or}
use fuzzmeter.Reporting.SetComparison.Index.{trials_of}
use fuzzmeter.Reporting.SetComparison.Sizes.{other_sets, in_other_sets}
use fuzzmeter.Reporting.BugAnalysis.{
  both, fuzzer_union, prefixes_of, others_from, other_bug_union, trial_counts,
}

-- Some fuzzer of the list found the bug; some other than one.
abbrev found_by : TrialSets → String → List String → Bool
found_by sets v fuzzers = any (λ l. in_some v (trials_of sets l)) fuzzers

abbrev found_by_other : TrialSets → String → String → List String → Bool
found_by_other sets v f fuzzers = any (λ l. not (l == f) && in_some v (trials_of sets l)) fuzzers

-- Where a fuzzer is not in the list, all in it are others.
all_others :
    (sets : TrialSets) (v f : String) (fuzzers : List String)
    → elem f fuzzers ≡ false
    → found_by_other sets v f fuzzers ≡ found_by sets v fuzzers
all_others sets v f [] new = refl
all_others sets v f (l ∷ fuzzers) new =
    ground (arith, all_others sets v f fuzzers, string_eq.beq_iff f l, string_eq.beq_iff l f)

elem-both : (v : String) (a b : List String) → elem v (both a b) ≡ (elem v a || elem v b)
elem-both v a b = ground (arith, elem-union v (a ∷ b ∷ []))

get_or-put :
    (f g : String) (default x : List String) (d : Dict String (List String))
    → get_or default f (put g x d) ≡ (if g == f then x else get_or default f d)
get_or-put f g default x d =
    ap (λ (o : Option (List String)). elim o as (λ y. List String) [ none ↦ default | some y ↦ y ])
      (get-put g f x d)
    ∙ elim (Bool-cases (g == f)) [ inl same ↦ rw same refl | inr other ↦ rw other refl ]

-- The last loop over what the first leaves.
loops : TrialSets → List String → List String → Dict String (List String) × List String
loops sets fuzzers all = others_from sets fuzzers (prefixes_of sets fuzzers all).0

module _ (sets : TrialSets) (v : String) where
  suffix_lem :
      (fuzzers all : List String) → elem v (loops sets fuzzers all).1 ≡ found_by sets v fuzzers
  unfolding loops others_from prefixes_of
  suffix_lem [] all = refl
  suffix_lem (f ∷ fuzzers) all =
      let next = both all (fuzzer_union sets f) in
      ground (
        arith,
        suffix_lem fuzzers next,
        elem-both v (loops sets fuzzers next).1 (fuzzer_union sets f),
        elem-union v (trials_of sets f),
      )

  others_lem :
      (f : String) (fuzzers all default : List String)
      → IsUnique fuzzers
      → elem f fuzzers ≡ true
      → elem v (get_or default f (loops sets fuzzers all).0)
        ≡ (elem v all || found_by_other sets v f fuzzers)
  unfolding loops others_from prefixes_of
  others_lem f [] all default u known = absurd (ground arith)
  others_lem f (g ∷ fuzzers) all default u known =
      let next = both all (fuzzer_union sets g) in
      let here = ap (elem v) (
        get_or-put f g default (both all (loops sets fuzzers next).1)
          (loops sets fuzzers next).0) in
      elim (Bool-cases (g == f)) [
        | inl same ↦
            let new : elem f fuzzers ≡ false =
              ap (λ l. elem l fuzzers) (sym ((string_eq.beq_iff g f).0 same)) ∙ u.0 in
            ground (
              arith,
              here,
              elem-both v all (loops sets fuzzers next).1,
              suffix_lem fuzzers next,
              all_others sets v f fuzzers new,
            )
        | inr other ↦ ground (
          arith,
          here,
          others_lem f fuzzers next default u.1,
          elem-both v all (fuzzer_union sets g),
          elem-union v (trials_of sets g),
          string_eq.beq_iff f g,
          string_eq.beq_iff g f,
        )
      ]

-- Two lists with the same elements take the same from a set.
difference_size_cong :
    (vs a b : List String)
    → ((v : String) → elem v a ≡ elem v b)
    → difference_size vs a ≡ difference_size vs b
difference_size_cong vs a b h =
    count_cong (λ v. not (elem v a)) (λ v. not (elem v b)) vs
      (All-elem _ vs (λ v there. ap not (h v)))

map_cong :
    (f g : List String → ℕ) (xs : List (List String))
    → ((x : List String) → f x ≡ g x)
    → map f xs ≡ map g xs
map_cong f g [] h = refl
map_cong f g (x ∷ xs) h = rw (h x, map_cong f g xs h) refl

-- With distinct fuzzers, the bugs that each usable trial of one has for itself, counted by the
-- prefix and suffix unions, are its bugs that no usable trial of any other fuzzer has.
pub trial_counts_lem :
    (fuzzers : List String) (sets : TrialSets) (f : String)
    → IsUnique fuzzers
    → elem f fuzzers ≡ true
    → trial_counts fuzzers sets f
      ≡ map
          (λ vs. difference_size vs (union (other_sets (trials_of sets) f fuzzers)))
          (trials_of sets f)
unfolding trial_counts other_bug_union loops
trial_counts_lem fuzzers sets f u known = map_cong _ _ (trials_of sets f) (λ vs.
    difference_size_cong vs _ _ (λ v.
      others_lem sets v f fuzzers [] (prefixes_of sets fuzzers []).1 u known
      ∙ sym
          (elem-union v (other_sets (trials_of sets) f fuzzers) ∙ in_other_sets sets f v fuzzers)))
