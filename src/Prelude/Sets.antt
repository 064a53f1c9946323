-- ===== src/Prelude/Sets.antt =====
-- Python's sets as lists without duplicates, and the number of elements that pass a test.
use Prim.Native.Nat.{ℕ, ◌+◌, ◌≤◌}
use mathlib.Core.Path.{◌≡◌, refl, ap, ◌∙◌, sym}
use mathlib.Core.Logic.{inl, inr}
use mathlib.Core.Bool.{Bool, true, false, not, ◌&&◌, ◌||◌}
use mathlib.Core.List.{List, [], ◌∷◌, ◌++◌}
use native.Mathlib.Omega.{arith}
use native.Mathlib.Nat.{le_antisymm}
use fuzzmeter.Prelude.Tests.{if◌then◌else◌, Bool-cases}
use fuzzmeter.Prelude.Lists.{All, filter, any}
use fuzzmeter.Prelude.Equality.{Eq, ◌==◌, elem, elem-append, beq_refl}

module _ {ℓ} {A : Type ℓ} where
  -- `sum(1 for x in xs if p(x))`
  abbrev pub count : (A → Bool) → List A → ℕ
  count p [] = 0
  count p (x ∷ xs) = (if p x then 1 else 0) + count p xs

  pub count_cong :
      (p q : A → Bool) (xs : List A) → All (λ x. p x ≡ q x) xs → count p xs ≡ count q xs
  count_cong p q [] h = refl
  count_cong p q (x ∷ xs) h = ground (arith, count_cong p q xs h.1)

  pub count-le_weaker :
      (p q : A → Bool) (xs : List A) → ((x : A) → p x ≡ true → q x ≡ true) → count p xs ≤ count q xs
  count-le_weaker p q [] h = omega arith
  count-le_weaker p q (x ∷ xs) h = ground (arith, count-le_weaker p q xs h, h x)

module _ {ℓ} {A : Type ℓ} ⦃e : Eq A⦄ where
  -- No element is listed twice.
  abbrev pub IsUnique : List A → Type 0
  IsUnique [] = Unit
  IsUnique (x ∷ xs) = (elem x xs ≡ false) × IsUnique xs

  pub append-IsUnique :
      (x : A) (xs : List A) → IsUnique xs → elem x xs ≡ false → IsUnique (xs ++ x ∷ [])
  append-IsUnique x [] u new = (refl, tt)
  append-IsUnique x (y ∷ ys) u new = (
    ground (arith, u.0, elem-append y ys (x ∷ []), e.beq_iff x y, e.beq_iff y x),
    append-IsUnique x ys u.1 (ground arith),
  )

  -- `xs - {a}`
  abbrev pub without : A → List A → List A
  without a [] = []
  without a (x ∷ xs) = if a == x then xs else x ∷ without a xs

  elem-without :
      (a b : A) (xs : List A) → (a == b) ≡ false → elem b xs ≡ true → elem b (without a xs) ≡ true
  elem-without a b [] ne h = cc
  elem-without a b (x ∷ xs) ne h =
      ground (arith, elem-without a b xs ne, e.beq_iff a x, e.beq_iff b x, e.beq_iff a b)

  count-without :
      (p : A → Bool) (a : A) (xs : List A)
      → elem a xs ≡ true
      → count p xs ≡ (if p a then 1 else 0) + count p (without a xs)
  count-without p a [] h = cc
  count-without p a (x ∷ xs) h = elim (Bool-cases (a == x)) [
    | inl same ↦ rw same (rw (sym ((e.beq_iff a x).0 same)) refl)
    | inr other ↦ ground (arith, count-without p a xs)
  ]

  -- Of two lists, the first without duplicates: if all that pass in the first are in the second,
  -- no more pass in the first.
  pub count-le_subset :
      (p : A → Bool) (xs ys : List A)
      → IsUnique xs
      → ((a : A) → p a ≡ true → elem a xs ≡ true → elem a ys ≡ true)
      → count p xs ≤ count p ys
  count-le_subset p [] ys u h = omega arith
  count-le_subset p (x ∷ xs) ys u h = elim (Bool-cases (p x)) [
    | inl passes ↦
        let there : elem x ys ≡ true = h x passes (rw (beq_refl x) refl) in
        let rest = count-le_subset p xs (without x ys) u.1 (remaining passes) in
        ground (arith, count-without p x ys there)
    | inr fails ↦
        let rest = count-le_subset p xs ys u.1 (λ a pa there. h a pa (ground arith)) in ground arith
  ]
    where
      remaining :
          p x ≡ true → (a : A) → p a ≡ true → elem a xs ≡ true → elem a (without x ys) ≡ true
      remaining passes a pa there = elim (Bool-cases (x == a)) [
        | inl same ↦ absurd (twice (sym ((e.beq_iff x a).0 same)))
        | inr other ↦ elem-without x a ys other (h a pa (ground arith))
      ]
        where
          twice : a ≡ x → ⊥
          twice q =
              let listed : elem x xs ≡ true = ap (λ y. elem y xs) (sym q) ∙ there in
              ground (arith, u.0)

  -- Two lists without duplicates of which the same elements pass have as many that pass.
  pub count_same :
      (p : A → Bool) (xs ys : List A)
      → IsUnique xs
      → IsUnique ys
      → ((a : A) → p a ≡ true → elem a xs ≡ elem a ys)
      → count p xs ≡ count p ys
  count_same p xs ys u v h =
      le_antisymm (count-le_subset p xs ys u (λ a pa q. sym (h a pa) ∙ q))
        (count-le_subset p ys xs v (λ a pa q. h a pa ∙ q))

  -- The elements of both lists.
  abbrev add_all : List A → List A → List A
  add_all [] ys = ys
  add_all (x ∷ xs) ys = let rest = add_all xs ys in if elem x rest then rest else x ∷ rest

  -- `set().union(*sets)`
  pub union : List (List A) → List A
  union [] = []
  union (xs ∷ sets) = add_all xs (union sets)

  -- Some set holds the element; every set does.
  abbrev pub in_some : A → List (List A) → Bool
  in_some a [] = false
  in_some a (xs ∷ sets) = elem a xs || in_some a sets

  abbrev pub in_every : A → List (List A) → Bool
  in_every a [] = true
  in_every a (xs ∷ sets) = elem a xs && in_every a sets

  elem-add_all : (a : A) (xs ys : List A) → elem a (add_all xs ys) ≡ (elem a xs || elem a ys)
  elem-add_all a [] ys = refl
  elem-add_all a (x ∷ xs) ys = elim (Bool-cases (a == x)) [
    | inl same ↦
        let eq = ap (λ y. elem y (add_all xs ys)) ((e.beq_iff a x).0 same) in
        ground (arith, elem-add_all a xs ys)
    | inr other ↦ ground (arith, elem-add_all a xs ys)
  ]

  pub elem-union : (a : A) (sets : List (List A)) → elem a (union sets) ≡ in_some a sets
  unfolding union
  elem-union a [] = refl
  elem-union a (xs ∷ sets) = ground (arith, elem-add_all a xs (union sets), elem-union a sets)

  add_all-IsUnique : (xs ys : List A) → IsUnique ys → IsUnique (add_all xs ys)
  add_all-IsUnique [] ys u = u
  add_all-IsUnique (x ∷ xs) ys u = elim (Bool-cases (elem x (add_all xs ys))) [
    | inl there ↦ rw there (add_all-IsUnique xs ys u)
    | inr new ↦ rw new (new, add_all-IsUnique xs ys u)
  ]

  pub union-IsUnique : (sets : List (List A)) → IsUnique (union sets)
  unfolding union
  union-IsUnique [] = tt
  union-IsUnique (xs ∷ sets) = add_all-IsUnique xs (union sets) (union-IsUnique sets)

  -- `len(xs - ys)`
  abbrev pub difference_size : List A → List A → ℕ
  difference_size xs ys = count (λ x. not (elem x ys)) xs

  -- The elements that every set holds: none if there is no set.
  unfoldable pub intersection : List (List A) → List A
  intersection sets = filter (λ a. in_every a sets) (union sets)

module _ {ℓ} {A : Type ℓ} where
  pub count-filter :
      (p q : A → Bool) (xs : List A) → count p (filter q xs) ≡ count (λ x. q x && p x) xs
  count-filter p q [] = refl
  count-filter p q (x ∷ xs) = ground (arith, count-filter p q xs)

  pub any_cong : (p q : A → Bool) (xs : List A) → All (λ x. p x ≡ q x) xs → any p xs ≡ any q xs
  any_cong p q [] h = refl
  any_cong p q (x ∷ xs) h = ground (arith, h.0, any_cong p q xs h.1)

  pub any_none : (p : A → Bool) (xs : List A) → ((x : A) → p x ≡ false) → any p xs ≡ false
  any_none p [] h = refl
  any_none p (x ∷ xs) h = ground (arith, h x, any_none p xs h)

module _ {ℓ} {A : Type ℓ} ⦃e : Eq A⦄ where
  pub any_of_elem :
      (p : A → Bool) (a : A) (xs : List A) → elem a xs ≡ true → p a ≡ true → any p xs ≡ true
  any_of_elem p a [] h t = cc
  any_of_elem p a (x ∷ xs) h t = elim (Bool-cases (a == x)) [
    | inl same ↦ let eq = ap p ((e.beq_iff a x).0 same) in ground arith
    | inr other ↦ ground (arith, any_of_elem p a xs)
  ]

  -- A count over a set is one over any other set that holds what passes.
  pub All-elem : (P : A → Type 0) (xs : List A) → ((a : A) → elem a xs ≡ true → P a) → All P xs
  All-elem P [] h = tt
  All-elem P (x ∷ xs) h = (h x (rw (beq_refl x) refl), All-elem P xs (λ a i. h a (ground arith)))
