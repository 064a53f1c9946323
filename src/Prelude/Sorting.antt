-- ===== src/Prelude/Sorting.antt =====
-- Python's `sorted` with a numeric key: a stable sort, and its order where the keys are distinct.
use Prim.Native.Nat.{ℕ, suc, ◌+◌, ◌<◌}
use mathlib.Core.Path.{◌≡◌, refl}
use mathlib.Core.Bool.{Bool, false, ◌||◌}
use mathlib.Core.List.{List, [], ◌∷◌}
use native.Mathlib.Omega.{arith}
use fuzzmeter.Prelude.Tests.{ltb, nat_beq, if◌then◌else◌}
use fuzzmeter.Prelude.Lists.{All, any, length}

module _ {ℓ} {A : Type ℓ} (key : A → ℕ) where
  -- Goes behind the entries that are not larger.
  insert : A → List A → List A
  insert a [] = a ∷ []
  insert a (x ∷ xs) = if ltb (key a) (key x) then a ∷ x ∷ xs else x ∷ insert a xs

  insert_all : List A → List A → List A
  insert_all [] out = out
  insert_all (a ∷ xs) out = insert_all xs (insert a out)

  unfoldable pub sorted : List A → List A
  unfolding insert insert_all
  sorted xs = insert_all xs []

  abbrev pub has_key : ℕ → List A → Bool
  has_key k xs = any (λ x. nat_beq (key x) k) xs

  abbrev pub IsDistinct : List A → Type 0
  IsDistinct [] = Unit
  IsDistinct (x ∷ xs) = (has_key (key x) xs ≡ false) × IsDistinct xs

  abbrev pub IsIncreasing : List A → Type 0
  IsIncreasing [] = Unit
  IsIncreasing (x ∷ xs) = All (λ y. key x < key y) xs × IsIncreasing xs

  any-insert : (p : A → Bool) (a : A) (xs : List A) → any p (insert a xs) ≡ (p a || any p xs)
  unfolding insert
  any-insert p a [] = refl
  any-insert p a (x ∷ xs) = ground (arith, any-insert p a xs)

  any-insert_all :
      (p : A → Bool) (xs out : List A) → any p (insert_all xs out) ≡ (any p xs || any p out)
  unfolding insert_all
  any-insert_all p [] out = refl
  any-insert_all p (x ∷ xs) out =
      ground (arith, any-insert_all p xs (insert x out), any-insert p x out)

  -- Sorting keeps the elements.
  pub any-sorted : (p : A → Bool) (xs : List A) → any p (sorted xs) ≡ any p xs
  unfolding sorted
  any-sorted p xs = ground (arith, any-insert_all p xs [])

  length-insert : (a : A) (xs : List A) → length (insert a xs) ≡ suc (length xs)
  unfolding insert
  length-insert a [] = refl
  length-insert a (x ∷ xs) = ground (arith, length-insert a xs)

  length-insert_all : (xs out : List A) → length (insert_all xs out) ≡ length xs + length out
  unfolding insert_all
  length-insert_all [] out = omega arith
  length-insert_all (a ∷ xs) out =
      omega (arith, length-insert_all xs (insert a out), length-insert a out)

  pub length-sorted : (xs : List A) → length (sorted xs) ≡ length xs
  unfolding sorted
  length-sorted xs = omega (arith, length-insert_all xs [])

  All-lt_trans : (k m : ℕ) (xs : List A) → k < m → All (λ y. m < key y) xs → All (λ y. k < key y) xs
  All-lt_trans k m [] h a = tt
  All-lt_trans k m (x ∷ xs) h a = (omega arith, All-lt_trans k m xs h a.1)

  All-lt-insert :
      (k : ℕ) (a : A) (xs : List A)
      → k < key a
      → All (λ y. k < key y) xs
      → All (λ y. k < key y) (insert a xs)
  unfolding insert
  All-lt-insert k a [] h b = (h, tt)
  All-lt-insert k a (x ∷ xs) h b = ground (arith, All-lt-insert k a xs h b.1)

  insert-IsIncreasing :
      (a : A) (xs : List A)
      → IsIncreasing xs
      → has_key (key a) xs ≡ false
      → IsIncreasing (insert a xs)
  unfolding insert
  insert-IsIncreasing a [] h new = (tt, tt)
  insert-IsIncreasing a (x ∷ xs) h new = ground (
    arith,
    insert-IsIncreasing a xs h.1,
    All-lt_trans (key a) (key x) xs,
    All-lt-insert (key x) a xs,
  )

  -- No key of the first list occurs in the second.
  abbrev IsApart : List A → List A → Type 0
  IsApart [] out = Unit
  IsApart (x ∷ xs) out = (has_key (key x) out ≡ false) × IsApart xs out

  IsApart-insert :
      (a : A) (xs out : List A)
      → has_key (key a) xs ≡ false
      → IsApart xs out
      → IsApart xs (insert a out)
  IsApart-insert a [] out h d = tt
  IsApart-insert a (x ∷ xs) out h d =
      ground (arith, any-insert (λ y. nat_beq (key y) (key x)) a out, IsApart-insert a xs out)

  IsApart-nil : (xs : List A) → IsApart xs []
  IsApart-nil [] = tt
  IsApart-nil (x ∷ xs) = (refl, IsApart-nil xs)

  insert_all-IsIncreasing :
      (xs out : List A)
      → IsDistinct xs
      → IsApart xs out
      → IsIncreasing out
      → IsIncreasing (insert_all xs out)
  unfolding insert_all
  insert_all-IsIncreasing [] out d ap inc = inc
  insert_all-IsIncreasing (x ∷ xs) out d ap inc =
      insert_all-IsIncreasing xs (insert x out) d.1 (IsApart-insert x xs out d.0 ap.1)
        (insert-IsIncreasing x out inc ap.0)

  -- With distinct keys the result is strictly increasing.
  pub sorted-IsIncreasing : (xs : List A) → IsDistinct xs → IsIncreasing (sorted xs)
  unfolding sorted
  sorted-IsIncreasing xs d = insert_all-IsIncreasing xs [] d (IsApart-nil xs) tt
