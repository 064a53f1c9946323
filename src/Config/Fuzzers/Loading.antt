-- ===== src/Config/Fuzzers/Loading.antt =====
-- Loading a fuzzer ends, and what is loaded is sound.
use fuzzmeter.Prelude.{
  ℕ, zero, suc, ◌<◌, ◌≡◌, refl, ap, ◌∙◌, true, false, Option, none, some, String, List, [], ◌∷◌,
  arith, Bool-cases, Option-cases, inl, inr,
}
use fuzzmeter.Prelude.Equality.{Eq, string_eq}
use fuzzmeter.Dict.{Dict, get, put, contains, contains-get}
use fuzzmeter.Config.Values.{Host}
use fuzzmeter.Config.Fuzzers.{
  Fuzzer, fuzzer, Parent, child_of, Fuzzers, cons, description, inherited_from, Entries, Attempt,
  loaded, raised, stuck, then_with, Load, load_parent, load_sources, FuzzerSettings, read_settings,
  make_fuzzer, load_with, load_new, load_fuzzer,
}
use fuzzmeter.Config.Fuzzers.Entries.{
  effective_allowed-narrows, Extends, IsRecorded, ParentIsRecorded, AreRecorded, IsSound, AreSound,
  Good, unopened, unopened-Extends, unopened-put, ParentIsRecorded-Keeps, begin-AreSound,
  finish-Good,
}

module _ {N D : Type 0} where
  -- A call ends without running out of fuel, and what it loads is as stated.
  abbrev pub Ends : {A : Type 0} → (A → Entries N D → Type 0) → Attempt N D A → Type 0
  Ends P (loaded a es) = P a es
  Ends P raised = Unit
  Ends P stuck = ⊥

  then_with-Ends :
      {A B : Type 0} (P : A → Entries N D → Type 0) (Q : B → Entries N D → Type 0)
      (o : Attempt N D A) (f : A → Entries N D → Attempt N D B)
      → Ends P o
      → ((a : A) (es : Entries N D) → P a es → Ends Q (f a es))
      → Ends Q (then_with o f)
  then_with-Ends P Q (loaded a es) f h k = k a es h
  then_with-Ends P Q raised f h k = tt
  then_with-Ends P Q stuck f h k = absurd h

  -- A way to load that does as stated while fewer than `m` fuzzers are without an entry.
  abbrev pub LoadsBelow : Dict String D → ℕ → Load N D → Type 0
  LoadsBelow dirs m load =
      (name : String) (es : Entries N D)
      → AreSound dirs es
      → unopened dirs es < m
      → Ends (Good dirs es name) (load name es)

  load_parent-Ends :
      (dirs : Dict String D) (m : ℕ) (load : Load N D)
      → LoadsBelow dirs m load
      → (name : Option String) (es : Entries N D) → AreSound dirs es
      → unopened dirs es < m
      → Ends
          (λ p es'. Extends es es' × ParentIsRecorded es' p × AreSound dirs es')
          (load_parent load name es)
  unfolding load_parent
  load_parent-Ends dirs m load ok none es sound few = ((λ k x h. h), tt, sound)
  load_parent-Ends dirs m load ok (some name) es sound few =
      then_with-Ends (Good dirs es name)
        (λ p es'. Extends es es' × ParentIsRecorded es' p × AreSound dirs es') (load name es)
        (λ f es'. loaded (child_of f) es') (ok name es sound few)
        (λ f es' (x, there, r, s). (x, r, s))

  load_sources-Ends :
      (dirs : Dict String D) (m : ℕ) (load : Load N D)
      → LoadsBelow dirs m load
      → (names : List String) (es : Entries N D) → AreSound dirs es
      → unopened dirs es < m
      → Ends
          (λ fs es'. Extends es es' × AreRecorded es' fs × AreSound dirs es')
          (load_sources load names es)
  unfolding load_sources
  load_sources-Ends dirs m load ok [] es sound few = ((λ k x h. h), tt, sound)
  load_sources-Ends dirs m load ok (name ∷ names) es sound few =
      then_with-Ends (Good dirs es name)
        (λ fs es'. Extends es es' × AreRecorded es' fs × AreSound dirs es') (load name es)
        (λ f es'. then_with (load_sources load names es') (λ fs es''. loaded (cons f fs) es''))
        (ok name es sound few)
        (λ f es' (x, there, r, s).
          let fewer : unopened dirs es' < m = omega (arith, unopened-Extends dirs es es' x) in
          then_with-Ends (λ fs es''. Extends es' es'' × AreRecorded es'' fs × AreSound dirs es'')
            (λ fs es''. Extends es es'' × AreRecorded es'' fs × AreSound dirs es'')
            (load_sources load names es') (λ fs es''. loaded (cons f fs) es'')
            (load_sources-Ends dirs m load ok names es' s fewer)
            (λ fs es'' (x', rs, s').
              ((λ k v h. x' k v (x k v h)), (x' (description f).name (some f) r, rs), s')))

module _ {N K D : Type 0} ⦃e : Eq K⦄ (host : Host N K D) where
  load_with-Ends :
      (dirs : Dict String D) (m : ℕ) (load : Load N D)
      → LoadsBelow dirs m load
      → (name : String) (dir : D) (settings : FuzzerSettings N) (es : Entries N D)
      → AreSound dirs es
      → get name dirs ≡ some dir
      → get name es ≡ none
      → unopened dirs es < suc m
      → Ends (Good dirs es name) (load_with host load name dir settings (put name none es))
  unfolding load_with
  load_with-Ends dirs m load ok name dir settings es sound configured new few =
      then_with-Ends (λ p es1. Extends es0 es1 × ParentIsRecorded es1 p × AreSound dirs es1)
        (Good dirs es name) (load_parent load settings.parent_name es0) with_sources
        (load_parent-Ends dirs m load ok settings.parent_name es0 sound0 few0)
        (λ p es1 (x1, r1, s1).
          then_with-Ends (λ fs es2. Extends es1 es2 × AreRecorded es2 fs × AreSound dirs es2)
            (Good dirs es name) (load_sources load settings.source_names es1) (made p)
            (load_sources-Ends dirs m load ok settings.source_names es1 s1
              (omega (arith, few0, unopened-Extends dirs es0 es1 x1)))
            (λ fs es2 (x2, r2, s2).
              finish-Good dirs es es2 name (make_fuzzer host name dir settings p fs) new refl
                (λ k v h. x2 k v (x1 k v h)) s2
                (
                  refl,
                  refl,
                  configured,
                  effective_allowed-narrows settings.allowed (inherited_from p),
                  ParentIsRecorded-Keeps es1 es2 p (λ k f. x2 k (some f)) r1,
                  r2,
                )))
    where
      es0 : Entries N D
      es0 = put name none es

      sound0 : AreSound dirs es0
      sound0 = begin-AreSound dirs es name sound new

      few0 : unopened dirs es0 < m
      few0 =
          let there : contains name dirs ≡ true =
            ground (arith, contains-get name dirs, configured) in
          let absent : contains name es ≡ false = ground (arith, contains-get name es, new) in
          omega (arith, few, unopened-put dirs es name none there absent)

      made : Parent N D → Fuzzers N D → Entries N D → Attempt N D (Fuzzer N D)
      made p fs es2 =
          let f = make_fuzzer host name dir settings p fs in loaded f (put name (some f) es2)

      with_sources : Parent N D → Entries N D → Attempt N D (Fuzzer N D)
      with_sources p es1 = then_with (load_sources load settings.source_names es1) (made p)

  load_new-Ends :
      (dirs : Dict String D) (m : ℕ) (load : Load N D)
      → LoadsBelow dirs m load
      → (name : String) (es : Entries N D) → AreSound dirs es
      → get name es ≡ none
      → unopened dirs es < suc m
      → Ends (Good dirs es name) (load_new host load dirs name es)
  unfolding load_new
  load_new-Ends dirs m load ok name es sound new few = elim (Option-cases (get name dirs)) [
    | inl missing ↦ rw (missing, Ends) tt
    | inr (dir, configured) ↦ elim (Bool-cases (host.is_dir dir)) [
      | inr file ↦ rw (configured, Ends, file) tt
      | inl yes_dir ↦ elim (Option-cases (read_settings host dir)) [
        | inl bad ↦ rw (configured, Ends, yes_dir, bad) tt
        | inr (settings, read) ↦
            rw (configured, Ends, yes_dir, read)
              (load_with-Ends dirs m load ok name dir settings es sound configured new few)
      ]
    ]
  ]

  -- From sound entries, with more fuel than there are configured fuzzers without an entry,
  -- `_load_fuzzer_from_config` ends, also where fuzzers depend on each other in a cycle: it
  -- raises, or gives a fuzzer that has its entry, keeps every entry there was and leaves the
  -- entries sound: each fuzzer has the name and the directory of its entry, its parent and its
  -- source dependencies have entries, and it allows no target that its parent does not allow.
  pub load_fuzzer-Ends :
      (fuel : ℕ) (dirs : Dict String D) (name : String) (es : Entries N D)
      → AreSound dirs es
      → unopened dirs es < fuel
      → Ends (Good dirs es name) (load_fuzzer host fuel dirs name es)
  unfolding load_fuzzer
  load_fuzzer-Ends zero dirs name es sound few = absurd (omega (arith, few))
  load_fuzzer-Ends (suc fuel) dirs name es sound few = elim (Option-cases (get name es)) [
    | inl new ↦
        rw (new, Ends)
          (load_new-Ends dirs fuel (load_fuzzer host fuel dirs) (load_fuzzer-Ends fuel dirs) name es
            sound new few)
    | inr (none, pending) ↦ rw (pending, Ends) tt
    | inr (some f, there) ↦ rw (there, Ends) ((λ k x h. h), there, recorded f there, sound)
  ]
    where
      recorded : (f : Fuzzer N D) → get name es ≡ some (some f) → IsRecorded es f
      recorded f there = ap (λ i. get i es) (named f (sound name f there)) ∙ there
        where
          named : (g : Fuzzer N D) → IsSound dirs es name g → (description g).name ≡ name
          named (fuzzer d p fs) h = h.1
