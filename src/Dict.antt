-- ===== src/Dict.antt =====
-- Python's `dict`, in insertion order, over any type of keys with an equality.
use fuzzmeter.Prelude.{
  ◌≡◌, refl, Bool, true, false, Option, none, some, List, [], ◌∷◌, arith, if◌then◌else◌, Bool-cases,
  inl, inr,
}
use fuzzmeter.Prelude.Equality.{Eq, ◌==◌, elem}

abbrev pub Dict {ℓ κ} : Type ℓ → Type κ → Type (ℓ ⊔ κ)
Dict K V = List (K × V)

module _ {ℓ κ} {K : Type ℓ} {V : Type κ} ⦃e : Eq K⦄ where
  -- `d.get(k)`
  abbrev pub get : K → Dict K V → Option V
  get k [] = none
  get k ((j, v) ∷ d) = if j == k then some v else get k d

  -- `d[k] = v`: the entry keeps its place.
  abbrev pub put : K → V → Dict K V → Dict K V
  put k v [] = (k, v) ∷ []
  put k v ((j, w) ∷ d) = if j == k then (j, v) ∷ d else (j, w) ∷ put k v d

  -- `d.pop(k, None)`
  abbrev pub pop : K → Dict K V → Dict K V
  pop k [] = []
  pop k ((j, w) ∷ d) = if j == k then pop k d else (j, w) ∷ pop k d

  abbrev pub keys : Dict K V → List K
  keys [] = []
  keys ((k, v) ∷ d) = k ∷ keys d

  abbrev pub values : Dict K V → List V
  values [] = []
  values ((k, v) ∷ d) = v ∷ values d

  -- `k in d`
  abbrev pub contains : K → Dict K V → Bool
  contains k d = elem k (keys d)

  -- No key is listed twice.
  abbrev pub IsDict : Dict K V → Type 0
  IsDict [] = Unit
  IsDict ((k, v) ∷ d) = (contains k d ≡ false) × IsDict d

  pub get-put :
      (k j : K) (v : V) (d : Dict K V) → get j (put k v d) ≡ (if k == j then some v else get j d)
  get-put k j v [] = refl
  get-put k j v ((i, w) ∷ d) =
      ground (arith, get-put k j v d, e.beq_iff i k, e.beq_iff i j, e.beq_iff k j)

  pub get-pop : (k j : K) (d : Dict K V) → get j (pop k d) ≡ (if k == j then none else get j d)
  get-pop k j [] = ground arith
  get-pop k j ((i, w) ∷ d) =
      ground (arith, get-pop k j d, e.beq_iff i k, e.beq_iff i j, e.beq_iff k j)

  pub contains-put :
      (k j : K) (v : V) (d : Dict K V)
      → contains j (put k v d) ≡ (if k == j then true else contains j d)
  contains-put k j v [] = ground (arith, e.beq_iff j k, e.beq_iff k j)
  contains-put k j v ((i, w) ∷ d) =
      ground
        (arith, contains-put k j v d, e.beq_iff i k, e.beq_iff j i, e.beq_iff j k, e.beq_iff k j)

  pub contains-pop :
      (k j : K) (d : Dict K V) → contains j (pop k d) ≡ (if k == j then false else contains j d)
  contains-pop k j [] = ground arith
  contains-pop k j ((i, w) ∷ d) =
      ground (arith, contains-pop k j d, e.beq_iff i k, e.beq_iff j i, e.beq_iff j k, e.beq_iff k j)

  pub get_of_contains : (k : K) (d : Dict K V) → contains k d ≡ true → (v : V) × (get k d ≡ some v)
  get_of_contains k ((j, v) ∷ d) h = elim (Bool-cases (j == k)) [
    | inl same ↦ (v, rw same)
    | inr other ↦
        let (w, found) = get_of_contains k d (ground (arith, e.beq_iff k j, e.beq_iff j k)) in
        (w, rw other found)
  ]
  get_of_contains k [] h = cc

  pub get_of_absent : (k : K) (v : V) (d : Dict K V) → contains k d ≡ false → ¬ (get k d ≡ some v)
  get_of_absent k v [] h = λ q. cc
  get_of_absent k v ((j, w) ∷ d) h =
      let other : (j == k) ≡ false = ground (arith, e.beq_iff k j, e.beq_iff j k) in
      rw other (get_of_absent k v d (ground arith))

  pub put-IsDict : (k : K) (v : V) (d : Dict K V) → IsDict d → IsDict (put k v d)
  put-IsDict k v [] h = (refl, tt)
  put-IsDict k v ((j, w) ∷ d) h =
      ground (arith, put-IsDict k v d h.1, contains-put k j v d, e.beq_iff j k, e.beq_iff k j)

  pub pop-IsDict : (k : K) (d : Dict K V) → IsDict d → IsDict (pop k d)
  pop-IsDict k [] h = tt
  pop-IsDict k ((j, w) ∷ d) h = ground (arith, pop-IsDict k d h.1, contains-pop k j d)

  pub contains-get :
      (k : K) (d : Dict K V) → contains k d ≡ elim (get k d) [ none ↦ false | some v ↦ true ]
  contains-get k [] = refl
  contains-get k ((j, w) ∷ d) = ground (arith, contains-get k d, e.beq_iff j k, e.beq_iff k j)
