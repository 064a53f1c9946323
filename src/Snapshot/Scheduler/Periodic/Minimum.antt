-- ===== src/Snapshot/Scheduler/Periodic/Minimum.antt =====
-- The smallest of the scheduled time stamps.
use fuzzmeter.Prelude.{
  ℕ, ◌≤◌, ◌≡◌, refl, inl, inr, false, none, some, String, [], ◌∷◌, arith, ltb, Bool-cases,
  Option-cases,
}
use fuzzmeter.Prelude.Equality.{◌==◌, string_eq, beq_refl}
use fuzzmeter.Dict.{Dict, get, values, contains, IsDict, get_of_absent}
use fuzzmeter.Snapshot.Scheduler.Periodic.{minimum}

pub get-minimum-none :
    (key : String) (d : Dict String ℕ) → minimum (values d) ≡ none → get key d ≡ none
unfolding minimum
get-minimum-none key [] e = refl
get-minimum-none key ((j, u) ∷ d) e = ground arith

pub get-minimum_le :
    (key : String) (d : Dict String ℕ) (m t : ℕ)
    → minimum (values d) ≡ some m
    → get key d ≡ some t
    → m ≤ t
unfolding minimum
get-minimum_le key [] m t e f = cc
get-minimum_le key ((j, u) ∷ d) m t e f = elim (Option-cases (minimum (values d))) [
  | inl empty ↦ ground (arith, get-minimum-none key d empty)
  | inr (n, rest) ↦ ground (arith, get-minimum_le key d n t rest)
]

-- A key that is found in the rest is not the first one.
get-cons_later :
    (j : String) (u : ℕ) (key : String) (n : ℕ) (d : Dict String ℕ)
    → contains j d ≡ false
    → get key d ≡ some n
    → get key ((j, u) ∷ d) ≡ some n
get-cons_later j u key n d once at = elim (Bool-cases (j == key)) [
  | inl same ↦ absurd (get_of_absent j n d once (rw ((string_eq.beq_iff j key).0 same) at))
  | inr other ↦ rw other at
]

pub minimum_attained :
    (d : Dict String ℕ)
    → IsDict d
    → (m : ℕ) → minimum (values d) ≡ some m
    → (key : String) × (get key d ≡ some m)
unfolding minimum
minimum_attained [] h m e = cc
minimum_attained ((j, u) ∷ d) h m e = elim (Option-cases (minimum (values d))) [
  | inl empty ↦ (j, rw (beq_refl j) (ground arith))
  | inr (n, rest) ↦ elim (Bool-cases (ltb n u)) [
    | inl smaller ↦
        let (key, at) = minimum_attained d h.1 n rest in
        (key, rw (get-cons_later j u key n d h.0 at) (ground arith))
    | inr not_smaller ↦ (j, rw (beq_refl j) (ground arith))
  ]
]
