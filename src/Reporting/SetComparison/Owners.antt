-- ===== src/Reporting/SetComparison/Owners.antt =====
-- What the ownership index holds: how many of a label's usable sets hold a value.
use fuzzmeter.Prelude.{
  ℕ, ◌+◌, ◌≡◌, refl, ap, ◌∙◌, sym, true, ◌&&◌, Option, none, some, String, List, [], ◌∷◌, arith,
  nat_beq, Bool-cases, Option-cases, inl, inr, if◌then◌else◌, All,
}
use fuzzmeter.Prelude.Equality.{◌==◌, string_eq, elem}
use fuzzmeter.Prelude.Sets.{IsUnique}
use fuzzmeter.Dict.{Dict, get, put, contains, IsDict, get-put, put-IsDict, get_of_absent}
use fuzzmeter.Reporting.SetComparison.{get_or, count_values, count_trials, record_owners}

-- The sets of the list that hold the value.
abbrev pub held : String → List (List String) → ℕ
held v [] = 0
held v (vs ∷ trials) = (if elem v vs then 1 else 0) + held v trials

-- An entry of a counter: there is none for 0.
abbrev pub positive : ℕ → Option ℕ
positive n = if nat_beq n 0 then none else some n

abbrev pub Holds : Dict String ℕ → (String → ℕ) → Type 0
Holds counter f = (v : String) → get v counter ≡ positive (f v)

positive-default : (n : ℕ) → elim (positive n) [ none ↦ 0 | some m ↦ m ] ≡ n
positive-default n = ground arith

pub get_or-Holds :
    (counter : Dict String ℕ) (f : String → ℕ) (v : String)
    → Holds counter f
    → get_or 0 v counter ≡ f v
get_or-Holds counter f v h =
    ap (λ (o : Option ℕ). elim o as (λ x. ℕ) [ none ↦ 0 | some m ↦ m ]) (h v)
    ∙ positive-default (f v)

count_value-Holds :
    (v : String) (counter : Dict String ℕ) (f : String → ℕ)
    → Holds counter f
    → Holds (put v (get_or 0 v counter + 1) counter) (λ w. f w + (if v == w then 1 else 0))
count_value-Holds v counter f h w = elim (Bool-cases (v == w)) [
  | inl same ↦
      let eq : v ≡ w = (string_eq.beq_iff v w).0 same in
      get-put v w (get_or 0 v counter + 1) counter
      ∙ ground (arith, get_or-Holds counter f v h, ap f eq)
  | inr other ↦
      get-put v w (get_or 0 v counter + 1) counter ∙ rw other (h w ∙ ap positive (omega arith))
]

count_values-Holds :
    (vs : List String) (counter : Dict String ℕ) (f : String → ℕ)
    → IsUnique vs
    → Holds counter f
    → Holds (count_values vs counter) (λ w. f w + (if elem w vs then 1 else 0))
unfolding count_values
count_values-Holds [] counter f u h w = h w ∙ ap positive (omega arith)
count_values-Holds (v ∷ vs) counter f u h w =
    count_values-Holds vs _ (λ x. f x + (if v == x then 1 else 0)) u.1
      (count_value-Holds v counter f h) w
    ∙ ap positive (ground (arith, string_eq.beq_iff v w, string_eq.beq_iff w v, u.0))

count_trials-Holds :
    (trials : List (List String)) (counter : Dict String ℕ) (f : String → ℕ)
    → All IsUnique trials
    → Holds counter f
    → Holds (count_trials trials counter) (λ w. f w + held w trials)
unfolding count_trials
count_trials-Holds [] counter f u h w = h w ∙ ap positive (omega arith)
count_trials-Holds (vs ∷ trials) counter f u h w =
    count_trials-Holds trials _ (λ x. f x + (if elem x vs then 1 else 0)) u.1
      (count_values-Holds vs counter f u.0 h) w
    ∙ ap positive (omega arith)

count_values-IsDict :
    (vs : List String) (counter : Dict String ℕ) → IsDict counter → IsDict (count_values vs counter)
unfolding count_values
count_values-IsDict [] counter d = d
count_values-IsDict (v ∷ vs) counter d =
    count_values-IsDict vs _ (put-IsDict v (get_or 0 v counter + 1) counter d)

pub count_trials-IsDict :
    (trials : List (List String)) (counter : Dict String ℕ)
    → IsDict counter
    → IsDict (count_trials trials counter)
unfolding count_trials
count_trials-IsDict [] counter d = d
count_trials-IsDict (vs ∷ trials) counter d =
    count_trials-IsDict trials _ (count_values-IsDict vs counter d)

pub counter-Holds :
    (trials : List (List String)) (v : String)
    → All IsUnique trials
    → get v (count_trials trials []) ≡ positive (held v trials)
counter-Holds trials v u =
    count_trials-Holds trials [] (λ x. 0) u (λ x. refl) v ∙ ap positive (omega arith)

-- `label`'s count of `value`, if it has one.
abbrev pub owned : String → String → Dict String (Dict String ℕ) → Option ℕ
owned value label owners = get label (get_or [] value owners)

owned-put :
    (value label v l : String) (n : ℕ) (owners : Dict String (Dict String ℕ))
    → owned v l (put value (put label n (get_or [] value owners)) owners)
      ≡ (if value == v && label == l then some n else owned v l owners)
owned-put value label v l n owners = elim (Bool-cases (value == v)) [
  | inl same ↦
      let eq : value ≡ v = (string_eq.beq_iff value v).0 same in
      ap
        (λ (o : Option (Dict String ℕ)).
          get l (elim o as (λ x. Dict String ℕ) [ none ↦ [] | some m ↦ m ]))
        (get-put value v (put label n (get_or [] value owners)) owners)
      ∙ rw same (get-put label l n (get_or [] value owners) ∙ rw eq refl)
  | inr other ↦
      ap
        (λ (o : Option (Dict String ℕ)).
          get l (elim o as (λ x. Dict String ℕ) [ none ↦ [] | some m ↦ m ]))
        (get-put value v (put label n (get_or [] value owners)) owners)
      ∙ rw other refl
]

pub owned-record_owners :
    (label : String) (counter : Dict String ℕ) (owners : Dict String (Dict String ℕ)) (v l : String)
    → IsDict counter
    → owned v l (record_owners label counter owners) ≡ (
        if label == l
        then elim (get v counter) [ some n ↦ some n | none ↦ owned v l owners ]
        else owned v l owners)
unfolding record_owners
owned-record_owners label [] owners v l d = ground arith
owned-record_owners label ((value, n) ∷ counter) owners v l d =
    owned-record_owners label counter _ v l d.1 ∙ cases (owned-put value label v l n owners)
  where
    absent : (value == v) ≡ true → get v counter ≡ none
    absent same = elim (Option-cases (get v counter)) [
      | inl e ↦ e
      | inr (m, e) ↦ absurd (
          get_of_absent v m counter
            (ap (λ x. contains x counter) (sym ((string_eq.beq_iff value v).0 same)) ∙ d.0) e)
    ]

    cases :
        {o : Option ℕ}
        → o ≡ (if value == v && label == l then some n else owned v l owners)
        → (if label == l then elim (get v counter) [ some m ↦ some m | none ↦ o ] else o) ≡ (
            if label == l
            then elim (if value == v then some n else get v counter) [
              | some m ↦ some m
              | none ↦ owned v l owners
            ]
            else owned v l owners)
    cases e = elim (Bool-cases (value == v)) [
      | inl same ↦ ground (arith, absent same)
      | inr other ↦ ground arith
    ]
