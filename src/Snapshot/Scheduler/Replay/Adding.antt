-- ===== src/Snapshot/Scheduler/Replay/Adding.antt =====
-- What the loops of `_build_tick_schedule` add to the set of time stamps.
use fuzzmeter.Prelude.{
  ℕ, zero, suc, ◌+◌, ◌-◌, ◌*◌, ◌<◌, ◌≡◌, refl, ◌↔◌, ◌⊎◌, inl, inr, Bool, true, false, ◌||◌, some,
  List, [], ◌∷◌, arith, nat_beq, ltb, Bool-cases, any,
}
use fuzzmeter.Prelude.Equality.{nat_eq, elem}
use fuzzmeter.Prelude.Sorting.{IsDistinct}
use fuzzmeter.Snapshot.Scheduler.Replay.{add_ts, add_steps}

-- `ts` is one of `next`, `next + every`, … before `end`.
abbrev pub StepBefore : (every end next ts : ℕ) → Type 0
StepBefore every end next ts = (k : ℕ) × (ts ≡ next + k * every) × (ts < end)

abbrev pub listed : ℕ → List ℕ → Bool
listed ts tick_ts = any (λ t. nat_beq t ts) tick_ts

elem-eq-listed : (ts : ℕ) (tick_ts : List ℕ) → elem ts tick_ts ≡ listed ts tick_ts
elem-eq-listed ts [] = refl
elem-eq-listed ts (t ∷ tick_ts) = ground (arith, elem-eq-listed ts tick_ts)

listed-add_ts :
    (ts t : ℕ) (tick_ts : List ℕ)
    → listed ts (add_ts t tick_ts) ≡ (nat_beq t ts || listed ts tick_ts)
unfolding add_ts
listed-add_ts ts t tick_ts = elim (Bool-cases (nat_beq t ts)) [
  | inl same ↦ let eq : t ≡ ts = ground arith in rw eq (ground (arith, elem-eq-listed ts tick_ts))
  | inr other ↦ ground (arith, elem-eq-listed t tick_ts)
]

add_ts-IsDistinct :
    (t : ℕ) (tick_ts : List ℕ)
    → IsDistinct (λ x. x) tick_ts
    → IsDistinct (λ x. x) (add_ts t tick_ts)
unfolding add_ts
add_ts-IsDistinct t tick_ts d = ground (arith, elem-eq-listed t tick_ts)

-- The set `after` holds what `before` held and the time stamps that satisfy `P`.
pub record Adds (before after : List ℕ) (P : ℕ → Type 0) : Type 0 where
  pub member : (ts : ℕ) → (listed ts after ≡ true) ↔ ((listed ts before ≡ true) ⊎ P ts)
  pub distinct : IsDistinct (λ x. x) before → IsDistinct (λ x. x) after

pub add_steps-Adds :
    (rounds every end next : ℕ) (before : List ℕ)
    → 0 < every
    → end - next < rounds
    → (after : List ℕ) × (add_steps rounds every end next before ≡ some after)
      × Adds before after (StepBefore every end next)
unfolding add_steps
add_steps-Adds zero every end next before positive enough = absurd (omega arith)
add_steps-Adds (suc rounds) every end next before positive enough =
    elim (Bool-cases (ltb next end)) [
      | inl more ↦
          let (after, runs, adds) =
            add_steps-Adds rounds every end (next + every) (add_ts next before) positive
              (ground arith) in
          (
            after,
            rw (more, add_steps) runs,
            record {
              member = λ ts. step ts more adds;
              distinct = λ d. adds.distinct (add_ts-IsDistinct next before d);
            },
          )
      | inr done ↦ (
        before,
        rw (done, add_steps),
        record { member = λ ts. (inl, λ h. unchanged ts done h); distinct = λ d. d },
      )
    ]
  where
    unchanged :
        (ts : ℕ)
        → ltb next end ≡ false
        → (listed ts before ≡ true) ⊎ StepBefore every end next ts
        → listed ts before ≡ true
    unchanged ts done (inl old) = old
    unchanged ts done (inr (k, at, b)) = absurd (ground arith)

    step :
        {after : List ℕ} (ts : ℕ)
        → ltb next end ≡ true
        → Adds (add_ts next before) after (StepBefore every end (next + every))
        → (listed ts after ≡ true) ↔ ((listed ts before ≡ true) ⊎ StepBefore every end next ts)
    step {after} ts more adds = (forth, back)
      where
        forth : listed ts after ≡ true → (listed ts before ≡ true) ⊎ StepBefore every end next ts
        forth e = elim ((adds.member ts).0 e) [
          | inl old ↦ elim (Bool-cases (nat_beq next ts)) [
            | inl same ↦ inr (0, ground arith, ground arith)
            | inr other ↦ inl (ground (arith, listed-add_ts ts next before))
          ]
          | inr (k, at, b) ↦ inr (suc k, omega arith, b)
        ]

        back : (listed ts before ≡ true) ⊎ StepBefore every end next ts → listed ts after ≡ true
        back (inl old) = (adds.member ts).1 (inl (ground (arith, listed-add_ts ts next before)))
        back (inr (zero, at, b)) =
            (adds.member ts).1 (inl (ground (arith, listed-add_ts ts next before)))
        back (inr (suc k, at, b)) = (adds.member ts).1 (inr (k, omega arith, b))

pub add_end-Adds :
    (end : ℕ) (before after : List ℕ) (P Q : ℕ → Type 0)
    → Adds before after P
    → ((ts : ℕ) → (P ts ⊎ (ts ≡ end)) ↔ Q ts)
    → Adds before (add_ts end after) Q
add_end-Adds end before after P Q adds same = record {
  member = λ ts. (forth ts, back ts);
  distinct = λ d. add_ts-IsDistinct end after (adds.distinct d);
}
  where
    forth : (ts : ℕ) → listed ts (add_ts end after) ≡ true → (listed ts before ≡ true) ⊎ Q ts
    forth ts e = elim (Bool-cases (nat_beq end ts)) [
      | inl is_end ↦ inr ((same ts).0 (inr (ground arith)))
      | inr other ↦ elim ((adds.member ts).0 (ground (arith, listed-add_ts ts end after))) [
        | inl old ↦ inl old
        | inr p ↦ inr ((same ts).0 (inl p))
      ]
    ]

    in_after : (ts : ℕ) → listed ts after ≡ true → listed ts (add_ts end after) ≡ true
    in_after ts e = ground (arith, listed-add_ts ts end after)

    back : (ts : ℕ) → (listed ts before ≡ true) ⊎ Q ts → listed ts (add_ts end after) ≡ true
    back ts (inl old) = in_after ts ((adds.member ts).1 (inl old))
    back ts (inr q) = elim ((same ts).1 q) [
      | inl p ↦ in_after ts ((adds.member ts).1 (inr p))
      | inr is_end ↦ ground (arith, listed-add_ts ts end after)
    ]
