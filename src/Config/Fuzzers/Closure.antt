-- ===== src/Config/Fuzzers/Closure.antt =====
-- `Fuzzer.parents` and `Fuzzer.dependencies` of src/fuzzmeter/config/models.py.
use mathlib.Core.Path.{subst}
use fuzzmeter.Prelude.{
  ℕ, ◌<◌, ◌≡◌, refl, ap, sym, ◌∙◌, true, false, String, List, [], ◌∷◌, ◌++◌, arith, All, ◌||◌, any,
  if◌then◌else◌, Bool-cases, inl, inr,
}
use fuzzmeter.Prelude.Equality.{Eq, ◌==◌, string_eq, elem, beq_refl}
use fuzzmeter.Dict.{Dict}
use fuzzmeter.Config.Fuzzers.{
  Fuzzer, fuzzer, Parent, no_parent, child_of, Fuzzers, nil, cons, description, parent, allowed_by,
  inherited_from, loaded, load_fuzzer, Entries,
}
use fuzzmeter.Config.Fuzzers.Entries.{AreSound, IsRecorded, ParentIsRecorded, Good, unopened}
use fuzzmeter.Config.Fuzzers.Loading.{Ends, load_fuzzer-Ends}
use fuzzmeter.Config.Values.{Host}

module _ {N D : Type 0} where
  abbrev pub ancestors : Parent N D → List (Fuzzer N D)
  ancestors no_parent = []
  ancestors (child_of (fuzzer d p sources)) = fuzzer d p sources ∷ ancestors p

  -- `Fuzzer.parents`
  unfoldable pub parents : Fuzzer N D → List (Fuzzer N D)
  parents f = ancestors (parent f)

  abbrev pub Allows : String → Fuzzer N D → Type 0
  Allows spec f = allowed_by (description f).allowed_fuzz_targets spec ≡ true

  pub ancestors-Allows :
      (dirs : Dict String D) (es : Entries N D) (spec : String) (p : Parent N D)
      → AreSound dirs es
      → ParentIsRecorded es p
      → allowed_by (inherited_from p) spec ≡ true
      → All (Allows spec) (ancestors p)
  ancestors-Allows dirs es spec no_parent sound r h = tt
  ancestors-Allows dirs es spec (child_of (fuzzer d p sources)) sound r h =
      let (i, n, s, narrow, r', rs) = sound d.name (fuzzer d p sources) r in
      (h, ancestors-Allows dirs es spec p sound r' (narrow spec h))

  pub parents-Allows :
      (dirs : Dict String D) (es : Entries N D) (spec : String) (f : Fuzzer N D)
      → AreSound dirs es
      → IsRecorded es f
      → Allows spec f
      → All (Allows spec) (parents f)
  unfolding parents
  parents-Allows dirs es spec (fuzzer d p sources) sound r h =
      (ancestors-Allows dirs es spec (child_of (fuzzer d p sources)) sound r h).1

-- What `add` of `dependencies` keeps.
pub record Closure (N D : Type 0) : Type 0 where
  pub seen : List String
  pub result : List (Fuzzer N D)

module _ {N D : Type 0} where
  unfoldable mutual
    pub add : Fuzzer N D → Closure N D → Closure N D
    add (fuzzer d p sources) c =
        let c' = add_parent p c in
        if elem d.name c'.seen
        then c'
        else add_sources sources
            (record { seen = d.name ∷ c'.seen; result = c'.result ++ fuzzer d p sources ∷ [] })

    pub add_parent : Parent N D → Closure N D → Closure N D
    add_parent no_parent c = c
    add_parent (child_of f) c = add f c

    pub add_sources : Fuzzers N D → Closure N D → Closure N D
    add_sources nil c = c
    add_sources (cons f fs) c = add_sources fs (add f c)

  -- `Fuzzer.dependencies`
  pub dependencies : Fuzzer N D → List (Fuzzer N D)
  unfolding add
  dependencies f = (add f (record { seen = []; result = [] })).result

  abbrev name_of : Fuzzer N D → String
  name_of f = (description f).name

  -- The parent, if any, has its name in the list.
  abbrev pub ParentIn : List String → Parent N D → Type 0
  ParentIn names no_parent = Unit
  ParentIn names (child_of f) = elem (name_of f) names ≡ true

  -- Of fuzzers to build after those named: each is named once and comes after its parent.
  abbrev pub AreInOrder : List String → List (Fuzzer N D) → Type 0
  AreInOrder names [] = Unit
  AreInOrder names (f ∷ fs) =
      ParentIn names (parent f)
      × (elem (name_of f) names ≡ false)
      × AreInOrder (name_of f ∷ names) fs

  abbrev names_after : List String → List (Fuzzer N D) → List String
  names_after names [] = names
  names_after names (f ∷ fs) = names_after (name_of f ∷ names) fs

  abbrev IsClosure : Closure N D → Type 0
  IsClosure c = (c.seen ≡ names_after [] c.result) × AreInOrder [] c.result

  names_after-append :
      (names : List String) (fs : List (Fuzzer N D)) (f : Fuzzer N D)
      → names_after names (fs ++ f ∷ []) ≡ name_of f ∷ names_after names fs
  names_after-append names [] f = refl
  names_after-append names (g ∷ fs) f = names_after-append (name_of g ∷ names) fs f

  append-AreInOrder :
      (names : List String) (fs : List (Fuzzer N D)) (f : Fuzzer N D)
      → AreInOrder names fs
      → ParentIn (names_after names fs) (parent f)
      → elem (name_of f) (names_after names fs) ≡ false
      → AreInOrder names (fs ++ f ∷ [])
  append-AreInOrder names [] f h p new = (p, new, tt)
  append-AreInOrder names (g ∷ fs) f (p', new', rest) p new =
      (p', new', append-AreInOrder (name_of g ∷ names) fs f rest p new)

  -- The closure grows.
  abbrev Grows : Closure N D → Closure N D → Type 0
  Grows c c' = (k : String) → elem k c.seen ≡ true → elem k c'.seen ≡ true

  abbrev with_fuzzer : Fuzzer N D → Closure N D → Closure N D
  with_fuzzer f c = record { seen = name_of f ∷ c.seen; result = c.result ++ f ∷ [] }

  with_fuzzer-IsClosure :
      (f : Fuzzer N D) (c : Closure N D)
      → IsClosure c
      → ParentIn c.seen (parent f)
      → elem (name_of f) c.seen ≡ false
      → IsClosure (with_fuzzer f c)
  with_fuzzer-IsClosure f c (same, ordered) has_parent new = (
    ap (λ s. name_of f ∷ s) same ∙ sym (names_after-append [] c.result f),
    append-AreInOrder [] c.result f ordered (subst (λ s. ParentIn s (parent f)) same has_parent)
        (ap (elem (name_of f)) (sym same) ∙ new),
  )

  mutual
    unfolding add

    add-IsClosure :
        (f : Fuzzer N D) (c : Closure N D)
        → IsClosure c
        → IsClosure (add f c) × Grows c (add f c) × (elem (name_of f) (add f c).seen ≡ true)
    add-IsClosure (fuzzer d p sources) c h =
        let (closed, grows, has_parent) = add_parent-IsClosure p c h in
        elim (Bool-cases (elem d.name (add_parent p c).seen)) [
          | inl old ↦ rw old (closed, grows, old)
          | inr new ↦
              let (closed', grows') =
                add_sources-IsClosure sources (with_fuzzer (fuzzer d p sources) (add_parent p c)) (
                  with_fuzzer-IsClosure (fuzzer d p sources) (add_parent p c) closed has_parent
                    new) in
              rw new (
                closed',
                (λ k i. grows' k (ground (arith, grows k i))),
                grows' d.name (rw (beq_refl d.name) refl),
              )
        ]

    add_parent-IsClosure :
        (p : Parent N D) (c : Closure N D)
        → IsClosure c
        → IsClosure (add_parent p c) × Grows c (add_parent p c) × ParentIn (add_parent p c).seen p
    add_parent-IsClosure no_parent c h = (h, (λ k i. i), tt)
    add_parent-IsClosure (child_of f) c h = add-IsClosure f c h

    add_sources-IsClosure :
        (fs : Fuzzers N D) (c : Closure N D)
        → IsClosure c
        → IsClosure (add_sources fs c) × Grows c (add_sources fs c)
    add_sources-IsClosure nil c h = (h, λ k i. i)
    add_sources-IsClosure (cons f fs) c h =
        let (closed, grows, here) = add-IsClosure f c h in
        let (closed', grows') = add_sources-IsClosure fs (add f c) closed in
        (closed', λ k i. grows' k (grows k i))

  listed_after :
      (k : String) (names : List String) (fs : List (Fuzzer N D))
      → elem k (names_after names fs) ≡ true
      → (elem k names || any (λ f. k == name_of f) fs) ≡ true
  listed_after k names [] h = ground arith
  listed_after k names (f ∷ fs) h = ground (arith, listed_after k (name_of f ∷ names) fs h)

  -- `Fuzzer.dependencies` names each fuzzer once, each after its parent, and holds the fuzzer's
  -- own name.
  pub dependencies-AreInOrder :
      (f : Fuzzer N D)
      → AreInOrder [] (dependencies f) × (any (λ g. name_of f == name_of g) (dependencies f) ≡ true)
  unfolding dependencies
  dependencies-AreInOrder f =
      let c : Closure N D = record { seen = []; result = [] } in
      let (closed, grows, here) = add-IsClosure f c (refl, tt) in
      (
        closed.1,
        listed_after (name_of f) [] (add f c).result (ap (elem (name_of f)) (sym closed.0) ∙ here),
      )

module _ {N K D : Type 0} ⦃e : Eq K⦄ (host : Host N K D) where
  -- From sound entries and with enough fuel, every target that a loaded fuzzer allows is allowed
  -- by each of its `parents`.
  pub load_fuzzer-narrows :
      (fuel : ℕ) (dirs : Dict String D) (name spec : String) (es es' : Entries N D) (f : Fuzzer N D)
      → AreSound dirs es
      → unopened dirs es < fuel
      → load_fuzzer host fuel dirs name es ≡ loaded f es'
      → Allows spec f
      → All (Allows spec) (parents f)
  load_fuzzer-narrows fuel dirs name spec es es' f sound few h allowed =
      let (x, there, recorded, sound') : Good dirs es name f es' =
        subst (Ends (Good dirs es name)) h (load_fuzzer-Ends host fuel dirs name es sound few) in
      parents-Allows dirs es' spec f sound' recorded allowed
