-- ===== src/Snapshot/Scheduler/Periodic/Due.antt =====
-- The inner loop of `_due_periodic_snapshots`, for one trial.
use fuzzmeter.Prelude.{
  ℕ, zero, suc, ◌+◌, ◌-◌, ◌*◌, ◌≤◌, ◌<◌, ◌≡◌, refl, ◌↔◌, ◌⊎◌, inl, inr, Bool, true, false, ◌&&◌,
  ◌||◌, some, [], ◌∷◌, arith, nat_beq, ltb, leb, any, any-append, Bool-cases,
}
use fuzzmeter.Prelude.Sorting.{has_key, IsDistinct}
use fuzzmeter.Snapshot.Scheduler.State.{TrialInstance}
use fuzzmeter.Snapshot.Scheduler.Periodic.{DueByTs, append_due, collect_due, due_rounds}

-- Some trial that passes `p` is listed as due at `ts`.
abbrev pub is_due : (TrialInstance → Bool) → ℕ → DueByTs → Bool
is_due p ts due = any (λ g. nat_beq g.0 ts && any p g.1) due

pub is_due-append_due :
    (p : TrialInstance → Bool) (ts n : ℕ) (trial : TrialInstance) (due : DueByTs)
    → is_due p ts (append_due n trial due) ≡ (is_due p ts due || (nat_beq n ts && p trial))
unfolding append_due
is_due-append_due p ts n trial [] = ground arith
is_due-append_due p ts n trial ((j, trials) ∷ due) =
    ground (arith, is_due-append_due p ts n trial due, any-append p trials (trial ∷ []))

has_key-append_due :
    (k n : ℕ) (trial : TrialInstance) (due : DueByTs)
    → has_key (λ g. g.0) k (append_due n trial due) ≡ (nat_beq n k || has_key (λ g. g.0) k due)
unfolding append_due
has_key-append_due k n trial [] = refl
has_key-append_due k n trial ((j, trials) ∷ due) = ground (arith, has_key-append_due k n trial due)

append_due-IsDistinct :
    (n : ℕ) (trial : TrialInstance) (due : DueByTs)
    → IsDistinct (λ g. g.0) due
    → IsDistinct (λ g. g.0) (append_due n trial due)
unfolding append_due
append_due-IsDistinct n trial [] d = (refl, tt)
append_due-IsDistinct n trial ((j, trials) ∷ due) d =
    ground (arith, append_due-IsDistinct n trial due d.1, has_key-append_due j n trial due)

-- `ts` is one of the time stamps `next`, `next + every`, … that have come by `now`, before `end`.
abbrev pub Window : (every now end next ts : ℕ) → Type 0
Window every now end next ts = (k : ℕ) × (ts ≡ next + k * every) × (ts ≤ now) × (ts < end)

-- `next'` is the first of `next`, `next + every`, … that is later than `now` or not before `end`.
abbrev pub Advanced : (every now end next next' : ℕ) → Type 0
Advanced every now end next next' =
    (n : ℕ) × (next' ≡ next + n * every)
    × ((n ≡ 0) ⊎ (next' ≤ now + every))
    × ((now < next') ⊎ (end ≤ next'))

module _ (every now end : ℕ) (trial : TrialInstance) (positive : 0 < every) where
  -- Where the time step is positive the loop ends.
  collect_due_ends :
      (rounds next : ℕ) (due : DueByTs)
      → suc now - next < rounds
      → (next' : ℕ) × (due' : DueByTs) × (collect_due rounds every now end trial next due
          ≡ some (next', due'))
  unfolding collect_due
  collect_due_ends zero next due h = absurd (omega arith)
  collect_due_ends (suc rounds) next due h = elim (Bool-cases (leb next now && ltb next end)) [
    | inl more ↦
        rw (more, collect_due)
          (collect_due_ends rounds (next + every) (append_due next trial due) (ground arith))
    | inr done ↦ (next, due, rw (done, collect_due))
  ]

  pub collect_due_total :
      (next : ℕ) (due : DueByTs)
      → (next' : ℕ) × (due' : DueByTs) × (collect_due
            (due_rounds now next)
            every
            now
            end
            trial
            next
            due
          ≡ some (next', due'))
  collect_due_total next due = collect_due_ends (due_rounds now next) next due (omega arith)

  pub collect_due-Advanced :
      (rounds next : ℕ) (due : DueByTs) {next' : ℕ} {due' : DueByTs}
      → collect_due rounds every now end trial next due ≡ some (next', due')
      → Advanced every now end next next'
  unfolding collect_due
  collect_due-Advanced zero next due e = cc
  collect_due-Advanced (suc rounds) next due {next'} e =
      elim (Bool-cases (leb next now && ltb next end)) [
        | inl more ↦
            let (n, eq, lo, hi) =
              collect_due-Advanced rounds (next + every) (append_due next trial due) {next' = next'}
                (rw (more, collect_due) at e) in
            (suc n, omega arith, ground arith, hi)
        | inr done ↦ (0, ground arith, inl refl, ground arith)
      ]

  pub collect_due-IsDistinct :
      (rounds next : ℕ) (due : DueByTs) {next' : ℕ} {due' : DueByTs}
      → collect_due rounds every now end trial next due ≡ some (next', due')
      → IsDistinct (λ g. g.0) due
      → IsDistinct (λ g. g.0) due'
  unfolding collect_due
  collect_due-IsDistinct zero next due e d = cc
  collect_due-IsDistinct (suc rounds) next due {next'} {due'} e d = ground (
    arith,
    collect_due-IsDistinct rounds (next + every) (append_due next trial due) {next' = next'}
        {due' = due'},
    append_due-IsDistinct next trial due d,
  )

  -- One more round: the window of `next` is `next` itself and the window one step on.
  Window-step :
      (next ts : ℕ)
      → next ≤ now
      → next < end
      → Window every now end next ts ↔ ((ts ≡ next) ⊎ Window every now end (next + every) ts)
  Window-step next ts lo hi = (forth, back)
    where
      forth : Window every now end next ts → (ts ≡ next) ⊎ Window every now end (next + every) ts
      forth (zero, e, a, b) = inl (omega arith)
      forth (suc k, e, a, b) = inr (k, omega arith, a, b)

      back : (ts ≡ next) ⊎ Window every now end (next + every) ts → Window every now end next ts
      back (inl e) = (0, omega arith, omega arith, omega arith)
      back (inr (k, e, a, b)) = (suc k, omega arith, a, b)

  Window-closed :
      (next ts : ℕ) → (leb next now && ltb next end) ≡ false → ¬ Window every now end next ts
  Window-closed next ts h (k, e, a, b) = let later : next ≤ ts = omega arith in cc (closed later)
    where
      closed : next ≤ ts → false ≡ true
      closed later = ground arith

  module _ (p : TrialInstance → Bool) (ts : ℕ) where
    pub is_due-collect_due :
        (rounds next : ℕ) (due : DueByTs) {next' : ℕ} {due' : DueByTs}
        → collect_due rounds every now end trial next due ≡ some (next', due')
        → is_due p ts due' ≡ true
        → (is_due p ts due ≡ true) ⊎ ((p trial ≡ true) × Window every now end next ts)
    unfolding collect_due
    is_due-collect_due zero next due e d = cc
    is_due-collect_due (suc rounds) next due {next'} {due'} e d =
        elim (Bool-cases (leb next now && ltb next end)) [
          | inl more ↦
              elim (is_due-collect_due rounds (next + every) (append_due next trial due)
                {next' = next'} {due' = due'} (rw (more, collect_due) at e) d) [
                  | inl before ↦ elim (Bool-cases (is_due p ts due)) [
                    | inl old ↦ inl old
                    | inr new ↦ inr (
                      ground (arith, is_due-append_due p ts next trial due),
                      (Window-step next ts (ground arith) (ground arith)).1
                          (inl (ground (arith, is_due-append_due p ts next trial due))),
                    )
                  ]
                  | inr (chosen, w) ↦
                      inr (chosen, (Window-step next ts (ground arith) (ground arith)).1 (inr w))
                ]
          | inr done ↦ inl (ground arith)
        ]

    pub collect_due-is_due :
        (rounds next : ℕ) (due : DueByTs) {next' : ℕ} {due' : DueByTs}
        → collect_due rounds every now end trial next due ≡ some (next', due')
        → (is_due p ts due ≡ true) ⊎ ((p trial ≡ true) × Window every now end next ts)
        → is_due p ts due' ≡ true
    unfolding collect_due
    collect_due-is_due zero next due e d = cc
    collect_due-is_due (suc rounds) next due {next'} {due'} e d =
        elim (Bool-cases (leb next now && ltb next end)) [
          | inl more ↦
              collect_due-is_due rounds (next + every) (append_due next trial due) {next' = next'}
                {due' = due'} (rw (more, collect_due) at e) (earlier more d)
          | inr done ↦ closed done d
        ]
      where
        earlier :
            (leb next now && ltb next end) ≡ true
            → (is_due p ts due ≡ true) ⊎ ((p trial ≡ true) × Window every now end next ts)
            → (is_due p ts (append_due next trial due) ≡ true)
              ⊎ ((p trial ≡ true) × Window every now end (next + every) ts)
        earlier more (inl old) = inl (ground (arith, is_due-append_due p ts next trial due))
        earlier more (inr (chosen, w)) =
            elim ((Window-step next ts (ground arith) (ground arith)).0 w) [
              | inl now_due ↦ inl (ground (arith, is_due-append_due p ts next trial due))
              | inr later ↦ inr (chosen, later)
            ]

        closed :
            (leb next now && ltb next end) ≡ false
            → (is_due p ts due ≡ true) ⊎ ((p trial ≡ true) × Window every now end next ts)
            → is_due p ts due' ≡ true
        closed done (inl old) = ground arith
        closed done (inr (chosen, w)) = absurd (Window-closed next ts done w)
