-- ===== src/Config/Fuzzers/Entries.antt =====
-- The entries of loaded fuzzers, and how loading changes them.
use mathlib.Core.Path.{subst}
use fuzzmeter.Prelude.{
  ℕ, ◌≢◌, ◌<◌, ◌≤◌, ◌≡◌, refl, ap, sym, ◌∙◌, Bool, true, false, not, Option, none, some, String,
  List, [], ◌∷◌, arith, filter, Bool-cases, Option-cases, inl, inr,
}
use fuzzmeter.Prelude.Equality.{◌==◌, string_eq, elem}
use fuzzmeter.Prelude.Sets.{count, count-le_weaker}
use fuzzmeter.Dict.{Dict, get, put, keys, contains, get-put, contains-get, contains-put}
use fuzzmeter.Config.Fuzzers.{
  Fuzzer, fuzzer, Parent, no_parent, child_of, Fuzzers, nil, cons, description, allowed_by,
  inherited_from, effective_allowed, Entries,
}

-- More is allowed by no own list.
pub effective_allowed-narrows :
    (own : List String) (inherited : Option (List String)) (spec : String)
    → allowed_by (effective_allowed own inherited) spec ≡ true
    → allowed_by inherited spec ≡ true
unfolding effective_allowed
effective_allowed-narrows own none spec h = refl
effective_allowed-narrows [] (some specs) spec h = h
effective_allowed-narrows (s ∷ own) (some specs) spec h = elem-filter (s ∷ own) h
  where
    elem-filter :
        (xs : List String)
        → elem spec (filter (λ x. elem x specs) xs) ≡ true
        → elem spec specs ≡ true
    elem-filter [] h = cc
    elem-filter (x ∷ xs) h = elim (Bool-cases (spec == x)) [
      | inl same ↦
          let eq = ap (λ y. elem y specs) ((string_eq.beq_iff spec x).0 same) in
          ground (arith, elem-filter xs)
      | inr other ↦ ground (arith, elem-filter xs)
    ]

-- The count is smaller where one element more fails the test.
count-lt_weaker :
    (p q : String → Bool) (a : String) (xs : List String)
    → ((x : String) → p x ≡ true → q x ≡ true)
    → elem a xs ≡ true
    → p a ≡ false
    → q a ≡ true
    → count p xs < count q xs
count-lt_weaker p q a [] h i f t = cc
count-lt_weaker p q a (x ∷ xs) h i f t = elim (Bool-cases (a == x)) [
  | inl same ↦
      let pe = ap p ((string_eq.beq_iff a x).0 same) in
      let qe = ap q ((string_eq.beq_iff a x).0 same) in ground (arith, count-le_weaker p q xs h)
  | inr other ↦ ground (arith, count-lt_weaker p q a xs h, h x)
]

module _ {N D : Type 0} where
  -- Nothing that has an entry gets another.
  abbrev pub Extends : Entries N D → Entries N D → Type 0
  Extends es es' = (k : String) (x : Option (Fuzzer N D)) → get k es ≡ some x → get k es' ≡ some x

  abbrev pub IsRecorded : Entries N D → Fuzzer N D → Type 0
  IsRecorded es f = get (description f).name es ≡ some (some f)

  abbrev pub ParentIsRecorded : Entries N D → Parent N D → Type 0
  ParentIsRecorded es no_parent = Unit
  ParentIsRecorded es (child_of f) = IsRecorded es f

  abbrev pub AreRecorded : Entries N D → Fuzzers N D → Type 0
  AreRecorded es nil = Unit
  AreRecorded es (cons f fs) = IsRecorded es f × AreRecorded es fs

  -- The fuzzer of an entry: it has the entry's name and directory, its parent and its sources have
  -- entries, and it allows no target that its parent does not allow.
  abbrev pub IsSound : Dict String D → Entries N D → String → Fuzzer N D → Type 0
  IsSound dirs es name (fuzzer d p sources) =
      (d.id ≡ name)
      × (d.name ≡ name)
      × (get name dirs ≡ some d.src_dir)
      × ((spec : String)
          → allowed_by d.allowed_fuzz_targets spec ≡ true
          → allowed_by (inherited_from p) spec ≡ true)
      × ParentIsRecorded es p
      × AreRecorded es sources

  abbrev pub AreSound : Dict String D → Entries N D → Type 0
  AreSound dirs es =
      (name : String) (f : Fuzzer N D) → get name es ≡ some (some f) → IsSound dirs es name f

  -- What is loaded stays loaded.
  abbrev pub Keeps : Entries N D → Entries N D → Type 0
  Keeps es es' =
      (k : String) (f : Fuzzer N D) → get k es ≡ some (some f) → get k es' ≡ some (some f)

  pub AreRecorded-Keeps :
      (es es' : Entries N D) (fs : Fuzzers N D)
      → Keeps es es'
      → AreRecorded es fs
      → AreRecorded es' fs
  AreRecorded-Keeps es es' nil x r = tt
  AreRecorded-Keeps es es' (cons f fs) x r =
      (x (description f).name f r.0, AreRecorded-Keeps es es' fs x r.1)

  pub ParentIsRecorded-Keeps :
      (es es' : Entries N D) (p : Parent N D)
      → Keeps es es'
      → ParentIsRecorded es p
      → ParentIsRecorded es' p
  ParentIsRecorded-Keeps es es' no_parent x r = tt
  ParentIsRecorded-Keeps es es' (child_of f) x r = x (description f).name f r

  pub IsSound-Keeps :
      (dirs : Dict String D) (es es' : Entries N D) (name : String) (f : Fuzzer N D)
      → Keeps es es'
      → IsSound dirs es name f
      → IsSound dirs es' name f
  IsSound-Keeps dirs es es' name (fuzzer d p fs) x (i, n, s, a, r, rs) =
      (i, n, s, a, ParentIsRecorded-Keeps es es' p x r, AreRecorded-Keeps es es' fs x rs)

  -- The fuzzers that are configured and have no entry.
  unfoldable pub unopened : Dict String D → Entries N D → ℕ
  unopened dirs es = count (λ k. not (contains k es)) (keys dirs)

  pub contains-Extends :
      (es es' : Entries N D)
      → Extends es es'
      → (k : String) → contains k es ≡ true
      → contains k es' ≡ true
  contains-Extends es es' x k h = elim (Option-cases (get k es)) [
    | inl missing ↦ absurd (ground (arith, contains-get k es))
    | inr (v, found) ↦ let there = x k v found in ground (arith, contains-get k es')
  ]

  pub unopened-Extends :
      (dirs : Dict String D) (es es' : Entries N D)
      → Extends es es'
      → unopened dirs es' ≤ unopened dirs es
  unfolding unopened
  unopened-Extends dirs es es' x =
      count-le_weaker (λ k. not (contains k es')) (λ k. not (contains k es)) (keys dirs)
        (λ k h. ground (arith, contains-Extends es es' x k))

  pub unopened-put :
      (dirs : Dict String D) (es : Entries N D) (name : String) (x : Option (Fuzzer N D))
      → contains name dirs ≡ true
      → contains name es ≡ false
      → unopened dirs (put name x es) < unopened dirs es
  unfolding unopened
  unopened-put dirs es name x there new =
      count-lt_weaker (λ k. not (contains k (put name x es))) (λ k. not (contains k es)) name
        (keys dirs) (λ k h. ground (arith, contains-put name k x es)) there
        (ground (arith, contains-put name name x es, string_eq.beq_iff name name)) (ground arith)

  -- What a call for a name gives: a fuzzer that has its entry, and entries that stay sound.
  abbrev pub Good : Dict String D → Entries N D → String → Fuzzer N D → Entries N D → Type 0
  Good dirs es name f es' =
      Extends es es' × (get name es' ≡ some (some f)) × IsRecorded es' f × AreSound dirs es'

  pub get-put_same :
      (es : Entries N D) (name : String) (v : Option (Fuzzer N D))
      → get name (put name v es) ≡ some v
  get-put_same es name v = ground (arith, get-put name name v es, string_eq.beq_iff name name)

  pub get-put_other :
      (es : Entries N D) (name k : String) (v : Option (Fuzzer N D))
      → (name == k) ≡ false
      → get k (put name v es) ≡ get k es
  get-put_other es name k v other = ground (arith, get-put name k v es)

  -- A key is another one where its entry is another one.
  pub other_name :
      (es : Entries N D) (name k : String) (o : Option (Option (Fuzzer N D)))
      (x : Option (Fuzzer N D))
      → get name es ≡ o
      → get k es ≡ some x
      → o ≢ some x
      → (name == k) ≡ false
  other_name es name k o x h there ne = elim (Bool-cases (name == k)) [
    | inl same ↦
        absurd (ne (sym h ∙ ap (λ i. get i es) ((string_eq.beq_iff name k).0 same) ∙ there))
    | inr other ↦ other
  ]

  pub Extends-put :
      (es : Entries N D) (name : String) (v : Option (Fuzzer N D))
      → get name es ≡ none
      → Extends es (put name v es)
  Extends-put es name v new k x h =
      get-put_other es name k v (other_name es name k none x new h (λ q. cc)) ∙ h

  pub put-Keeps :
      (es : Entries N D) (name : String) (v : Option (Fuzzer N D))
      → get name es ≡ some none
      → Keeps es (put name v es)
  put-Keeps es name v pending k f h =
      get-put_other es name k v (other_name es name k (some none) (some f) pending h (λ q. cc)) ∙ h

  -- A fuzzer begins to be loaded.
  pub begin-AreSound :
      (dirs : Dict String D) (es : Entries N D) (name : String)
      → AreSound dirs es
      → get name es ≡ none
      → AreSound dirs (put name none es)
  begin-AreSound dirs es name sound new k f h = elim (Bool-cases (name == k)) [
    | inl same ↦
        let here = ap (λ i. get i (put name none es)) ((string_eq.beq_iff name k).0 same) in
        let q = get-put_same es name none in absurd cc
    | inr other ↦
        IsSound-Keeps dirs es (put name none es) k f
          (λ i g. Extends-put es name none new i (some g))
          (sound k f (sym (get-put_other es name k none other) ∙ h))
  ]

  -- A fuzzer has been loaded.
  pub put-AreSound :
      (dirs : Dict String D) (es : Entries N D) (name : String) (f : Fuzzer N D)
      → AreSound dirs es
      → get name es ≡ some none
      → IsSound dirs es name f
      → AreSound dirs (put name (some f) es)
  put-AreSound dirs es name f sound pending new k g h =
      IsSound-Keeps dirs es (put name (some f) es) k g (put-Keeps es name (some f) pending)
        (elim (Bool-cases (name == k)) [
          | inl same ↦
              let q : name ≡ k = (string_eq.beq_iff name k).0 same in
              let here = ap (λ i. get i (put name (some f) es)) q in
              let stored = get-put_same es name (some f) in
              let same_fuzzer : f ≡ g = cc in
              subst (IsSound dirs es k) same_fuzzer (subst (λ i. IsSound dirs es i f) q new)
          | inr other ↦ sound k g (sym (get-put_other es name k (some f) other) ∙ h)
        ])

  pub finish-Good :
      (dirs : Dict String D) (es es' : Entries N D) (name : String) (f : Fuzzer N D)
      → get name es ≡ none
      → (description f).name ≡ name
      → Extends (put name none es) es'
      → AreSound dirs es'
      → IsSound dirs es' name f
      → Good dirs es name f (put name (some f) es')
  finish-Good dirs es es' name f new named x sound fine =
      let pending : get name es' ≡ some none = x name none (get-put_same es name none) in
      (
        (λ k v h.
            get-put_other es' name k (some f) (other_name es name k none v new h (λ q. cc))
            ∙ x k v (Extends-put es name none new k v h)),
        get-put_same es' name (some f),
        ap (λ i. get i (put name (some f) es')) named ∙ get-put_same es' name (some f),
        put-AreSound dirs es' name f sound pending fine,
      )
