-- ===== src/Composite/Key/Escaping.antt =====
-- Escaping and back.
use mathlib.Core.Path.{subst}
use fuzzmeter.Prelude.{
  sym, ◌≡◌, refl, ap, ◌∙◌, ℕ, false, [], ◌∷◌, nat_beq, All, Bool-cases, inl, inr,
}
use fuzzmeter.Prelude.Equality.{nat_eq}
use fuzzmeter.Composite.Key.{
  Text, percent, colon, two_five, replace_char, replace_three, escape, unescape,
}

-- What does not start an escape is kept.
replace_three-skip :
    (a b c new x : ℕ) (xs : Text)
    → nat_beq x a ≡ false
    → replace_three a b c new (x ∷ xs) ≡ x ∷ replace_three a b c new xs
unfolding replace_three
replace_three-skip a b c new x (y ∷ z ∷ rest) h = rw h refl
replace_three-skip a b c new x (y ∷ []) h = refl
replace_three-skip a b c new x [] h = refl

-- The percent signs are escaped, the colons are not yet.
abbrev signs : Text → Text
signs = replace_char percent (percent ∷ two_five)

-- A character that needs no escape.
escape-plain :
    (x : ℕ) (xs : Text)
    → nat_beq x percent ≡ false
    → nat_beq x colon ≡ false
    → escape (x ∷ xs) ≡ x ∷ escape xs
unfolding escape replace_char
escape-plain x xs other plain = rw (other, plain) refl

colons-back : (value : Text) → replace_three percent 51 65 colon (escape value) ≡ signs value
unfolding escape replace_char replace_three
colons-back [] = refl
colons-back (x ∷ xs) = elim (Bool-cases (nat_beq x percent)) [
  | inl sign ↦
      subst (λ y. replace_three percent 51 65 colon (escape (y ∷ xs)) ≡ signs (y ∷ xs))
        (sym ((nat_eq.beq_iff x percent).0 sign))
        (ap (λ t. percent ∷ t)
          (replace_three-skip percent 51 65 colon 50 (53 ∷ escape xs) refl
            ∙ ap (λ t. 50 ∷ t)
                (replace_three-skip percent 51 65 colon 53 (escape xs) refl
                  ∙ ap (λ t. 53 ∷ t) (colons-back xs))))
  | inr other ↦ elim (Bool-cases (nat_beq x colon)) [
    | inl same ↦
        subst (λ y. replace_three percent 51 65 colon (escape (y ∷ xs)) ≡ signs (y ∷ xs))
          (sym ((nat_eq.beq_iff x colon).0 same)) (ap (λ t. colon ∷ t) (colons-back xs))
    | inr plain ↦
        ap (replace_three percent 51 65 colon) (escape-plain x xs other plain)
        ∙ replace_three-skip percent 51 65 colon x (escape xs) other
        ∙ ap (λ t. x ∷ t) (colons-back xs)
        ∙ (rw other refl)
  ]
]

signs-back : (value : Text) → replace_three percent 50 53 percent (signs value) ≡ value
unfolding replace_char replace_three
signs-back [] = refl
signs-back (x ∷ xs) = elim (Bool-cases (nat_beq x percent)) [
  | inl sign ↦
      subst (λ y. replace_three percent 50 53 percent (signs (y ∷ xs)) ≡ y ∷ xs)
        (sym ((nat_eq.beq_iff x percent).0 sign)) (ap (λ t. percent ∷ t) (signs-back xs))
  | inr other ↦
      let kept : signs (x ∷ xs) ≡ x ∷ signs xs = rw other refl in
      ap (replace_three percent 50 53 percent) kept
      ∙ replace_three-skip percent 50 53 percent x (signs xs) other
      ∙ ap (λ t. x ∷ t) (signs-back xs)
]

pub unescape-escape : (value : Text) → unescape (escape value) ≡ value
unfolding unescape
unescape-escape value =
    ap (replace_three percent 50 53 percent) (colons-back value) ∙ signs-back value

abbrev pub IsPlain : ℕ → Type 0
IsPlain x = nat_beq x colon ≡ false

-- An escaped text holds no colon.
pub escape-IsPlain : (value : Text) → All IsPlain (escape value)
unfolding escape replace_char
escape-IsPlain [] = tt
escape-IsPlain (x ∷ xs) = elim (Bool-cases (nat_beq x percent)) [
  | inl sign ↦
      subst (λ y. All IsPlain (escape (y ∷ xs))) (sym ((nat_eq.beq_iff x percent).0 sign))
        (refl, (refl, (refl, escape-IsPlain xs)))
  | inr other ↦ elim (Bool-cases (nat_beq x colon)) [
    | inl same ↦
        subst (λ y. All IsPlain (escape (y ∷ xs))) (sym ((nat_eq.beq_iff x colon).0 same))
          (refl, (refl, (refl, escape-IsPlain xs)))
    | inr plain ↦
        subst (All IsPlain) (sym (escape-plain x xs other plain)) (plain, escape-IsPlain xs)
  ]
]
