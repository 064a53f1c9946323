-- ===== src/Config/Merge/Layers.antt =====
-- What a merge holds under each key.
use mathlib.Core.Path.{subst}
use fuzzmeter.Prelude.{
  ◌≡◌, refl, ap, sym, ◌∙◌, Bool, true, false, Option, none, some, String, List, [], ◌∷◌, arith, All,
  if◌then◌else◌, Bool-cases, Option-cases, inl, inr,
}
use fuzzmeter.Prelude.Equality.{Eq, ◌==◌, string_eq, elem}
use fuzzmeter.Prelude.Sets.{IsUnique}
use fuzzmeter.Prelude.Failing.{>>=-some}
use fuzzmeter.Json.{Value, null, number, text, list, dict, Fields, end, field, find, field_names}
use fuzzmeter.Config.Merge.{put_field, same_type, stored, merge, merge_value, merge_all}

module _ {N : Type 0} where
  find-put_field :
      (k j : String) (v : Value N) (fs : Fields N)
      → find j (put_field k v fs) ≡ (if k == j then some v else find j fs)
  find-put_field k j v end = refl
  find-put_field k j v (field i w fs) = ground (
    arith,
    find-put_field k j v fs,
    string_eq.beq_iff i k,
    string_eq.beq_iff i j,
    string_eq.beq_iff k j,
  )

  find-absent : (k : String) (fs : Fields N) → elem k (field_names fs) ≡ false → find k fs ≡ none
  find-absent k end h = refl
  find-absent k (field j v fs) h =
      ground (arith, find-absent k fs, string_eq.beq_iff k j, string_eq.beq_iff j k)

  -- No mapping and no list: the later value replaces the earlier.
  abbrev pub is_scalar : Value N → Bool
  is_scalar (dict fs) = false
  is_scalar (list xs) = false
  is_scalar _ = true

module _ {N K : Type 0} ⦃e : Eq K⦄ (type_of : N → K) where
  -- What is under a key, from what the two mappings had there.
  abbrev pub Merged : Option (Value N) → Option (Value N) → Option (Value N) → Type 0
  Merged out none r = r ≡ out
  Merged none (some v) r = r ≡ some v
  Merged (some w) (some v) r =
      (u : Value N) × (same_type type_of w v ≡ true)
      × (merge_value type_of w v ≡ some u)
      × (r ≡ some u)

  stored-Merged :
      (o : Option (Value N)) (v u : Value N)
      → stored type_of (λ w. merge_value type_of w v) o v ≡ some u
      → Merged o (some v) (some u)
  stored-Merged none v u h = sym h
  stored-Merged (some w) v u h = elim (Bool-cases (same_type type_of w v)) [
    | inl same ↦ (u, same, sym (rw same refl) ∙ h, refl)
    | inr other ↦ absurd (ground (arith, other))
  ]

  merge-step :
      (out fs c : Fields N) (j : String) (v : Value N)
      → merge type_of out (field j v fs) ≡ some c
      → (u : Value N) × (merge type_of (put_field j u out) fs ≡ some c)
        × Merged (find j out) (some v) (some u)
  unfolding merge
  merge-step out fs c j v h =
      let (u, here, rest) =
        >>=-some (stored type_of (λ w. merge_value type_of w v) (find j out) v)
          (λ u. merge type_of (put_field j u out) fs) h in
      (u, rest, stored-Merged (find j out) v u here)

  merge-end : (out c : Fields N) → merge type_of out end ≡ some c → out ≡ c
  unfolding merge
  merge-end out c h = cc

  pub find-merge :
      (out fs c : Fields N) (k : String)
      → IsUnique (field_names fs)
      → merge type_of out fs ≡ some c
      → Merged (find k out) (find k fs) (find k c)
  find-merge out end c k u h = ap (find k) (sym (merge-end out c h))
  find-merge out (field j v fs) c k u h =
      let (w, rest, here) = merge-step out fs c j v h in
      let later = find-merge (put_field j w out) fs c k u.1 rest in
      elim (Bool-cases (j == k)) [
        | inl same ↦
            let absent : find k fs ≡ none =
              find-absent k fs
                (ap (λ i. elem i (field_names fs)) (sym ((string_eq.beq_iff j k).0 same)) ∙ u.0) in
            let put : find k (put_field j w out) ≡ some w =
              find-put_field j k w out ∙ ground arith in
            let found : find k c ≡ some w =
              subst (λ o. Merged o none (find k c)) put
                (subst (λ o. Merged (find k (put_field j w out)) o (find k c)) absent later) in
            rw same (
              subst (λ i. Merged (find i out) (some v) (find k c)) ((string_eq.beq_iff j k).0 same)
                (subst (λ o. Merged (find j out) (some v) o) (sym found) here))
        | inr other ↦
            let kept : find k (put_field j w out) ≡ find k out =
              find-put_field j k w out ∙ ground arith in
            rw other (subst (λ o. Merged o (find k fs) (find k c)) kept later)
      ]

  merge_value-scalar : (w v : Value N) → is_scalar v ≡ true → merge_value type_of w v ≡ some v
  unfolding merge
  merge_value-scalar null v s = refl
  merge_value-scalar (number m) v s = refl
  merge_value-scalar (text x) v s = refl
  merge_value-scalar (list xs) null s = refl
  merge_value-scalar (list xs) (number n) s = refl
  merge_value-scalar (list xs) (text y) s = refl
  merge_value-scalar (list xs) (list ys) s = absurd (ground arith)
  merge_value-scalar (list xs) (dict gs) s = absurd (ground arith)
  merge_value-scalar (dict fs) null s = refl
  merge_value-scalar (dict fs) (number n) s = refl
  merge_value-scalar (dict fs) (text y) s = refl
  merge_value-scalar (dict fs) (list ys) s = absurd (ground arith)
  merge_value-scalar (dict fs) (dict gs) s = absurd (ground arith)

  -- A scalar replaces what was there.
  Merged-scalar :
      (o r : Option (Value N)) (v : Value N) → is_scalar v ≡ true → Merged o (some v) r → r ≡ some v
  Merged-scalar none r v s h = h
  Merged-scalar (some w) r v s (u, t, m, e) = e ∙ sym m ∙ merge_value-scalar w v s

  -- The value of the last layer that has the key.
  abbrev pub last_found : String → List (Fields N) → Option (Value N)
  last_found k [] = none
  last_found k (layer ∷ layers) = elim (last_found k layers) [
    | none ↦ find k layer
    | some v ↦ some v
  ]

  merge_all-absent :
      (out c : Fields N) (layers : List (Fields N)) (k : String)
      → All (λ layer. IsUnique (field_names layer)) layers
      → merge_all type_of out layers ≡ some c
      → last_found k layers ≡ none
      → find k c ≡ find k out
  unfolding merge_all
  merge_all-absent out c [] k u h none_has = let same : out ≡ c = cc in ap (find k) (sym same)
  merge_all-absent out c (layer ∷ layers) k u h none_has =
      let (merged, here, rest) =
        >>=-some (merge type_of out layer) (λ m. merge_all type_of m layers) h in
      elim (Option-cases (last_found k layers)) [
        | inr e ↦ absurd (ground (arith, e.1))
        | inl later ↦
            let here_none : find k layer ≡ none = ground (arith, later) in
            merge_all-absent merged c layers k u.1 rest later
            ∙ subst (λ o. Merged (find k out) o (find k merged)) here_none
                (find-merge out layer merged k u.0 here)
      ]

  -- Where layers without repeated keys are merged one after the other, a key has in the result
  -- the value of the last layer that has it, if that value is neither a mapping nor a list.
  pub merge_all-last :
      (out c : Fields N) (layers : List (Fields N)) (k : String) (v : Value N)
      → All (λ layer. IsUnique (field_names layer)) layers
      → merge_all type_of out layers ≡ some c
      → is_scalar v ≡ true
      → last_found k layers ≡ some v
      → find k c ≡ some v
  unfolding merge_all
  merge_all-last out c [] k v u h s found = absurd (ground arith)
  merge_all-last out c (layer ∷ layers) k v u h s found =
      let (merged, here, rest) =
        >>=-some (merge type_of out layer) (λ m. merge_all type_of m layers) h in
      elim (Option-cases (last_found k layers)) [
        | inr e ↦ merge_all-last merged c layers k v u.1 rest s (e.1 ∙ ground (arith, e.1))
        | inl later ↦
            let here_some : find k layer ≡ some v = ground (arith, later) in
            merge_all-absent merged c layers k u.1 rest later
            ∙ Merged-scalar (find k out) (find k merged) v s (
                subst (λ o. Merged (find k out) o (find k merged)) here_some
                  (find-merge out layer merged k u.0 here))
      ]
