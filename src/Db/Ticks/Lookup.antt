-- ===== src/Db/Ticks/Lookup.antt =====
-- What a row is after each operation on the table.
use fuzzmeter.Prelude.{
  ℕ, ◌<◌, ◌≤◌, ◌≡◌, refl, Option, none, some, [], ◌∷◌, ◌++◌, arith, nat_beq, if◌then◌else◌,
  Option-cases, Bool-cases, inl, inr, Bool, true, false, not, ◌&&◌, ◌||◌, ◌≢◌,
}
use fuzzmeter.Db.Ticks.{
  TickError, Status, pending, TickRow, TickTable, find_tick, insert_tick, update_tick,
  get_latest_tick_idx, get_next_tick_idx,
}

pub find_tick-append :
    (i : ℕ) (rows : TickTable) (row : TickRow)
    → find_tick i (rows ++ row ∷ []) ≡ elim (find_tick i rows) [
      | some found ↦ some found
      | none ↦ if nat_beq row.idx i then some row else none
    ]
find_tick-append i [] row = refl
find_tick-append i (r ∷ rows) row = ground (arith, find_tick-append i rows row)

abbrev pub new_tick : ℕ → ℕ → TickRow
new_tick i ts = record { idx = i; ts = ts; status = pending; error = none }

abbrev pub or_new : Option TickRow → ℕ → ℕ → Option TickRow
or_new (some row) i ts = some row
or_new none i ts = some (new_tick i ts)

-- An insertion adds a pending row under a new index and changes no row that was there.
pub find_tick-insert_tick :
    (j i ts : ℕ) (rows : TickTable)
    → find_tick j (insert_tick i ts rows)
      ≡ (if nat_beq i j then or_new (find_tick j rows) i ts else find_tick j rows)
unfolding insert_tick
find_tick-insert_tick j i ts rows = ground (arith, find_tick-append j rows (new_tick i ts))

abbrev pub with_status : Status → Option TickError → Option TickRow → Option TickRow
with_status status error none = none
with_status status error (some row) = some (record row { status = status; error = error })

-- A status is written to the row of its index and to no other.
pub find_tick-update_tick :
    (j : ℕ) (status : Status) (error : Option TickError) (i : ℕ) (rows : TickTable)
    → find_tick j (update_tick status error i rows)
      ≡ (if nat_beq i j then with_status status error (find_tick j rows) else find_tick j rows)
unfolding update_tick
find_tick-update_tick j status error i [] = ground arith
find_tick-update_tick j status error i (row ∷ rows) =
    ground (arith, find_tick-update_tick j status error i rows)

find_tick-le-latest :
    (i : ℕ) (rows : TickTable) → get_latest_tick_idx rows < i → find_tick i rows ≡ none
unfolding get_latest_tick_idx
find_tick-le-latest i [] h = refl
find_tick-le-latest i (row ∷ rows) h = ground (arith, find_tick-le-latest i rows)

-- From the next index on no row is taken, so that an insertion there is not ignored.
pub find_tick-next :
    (i : ℕ) (rows : TickTable) → get_next_tick_idx rows ≤ i → find_tick i rows ≡ none
unfolding get_next_tick_idx
find_tick-next i rows h = find_tick-le-latest i rows (omega arith)

pub get_latest-update_tick :
    (status : Status) (error : Option TickError) (i : ℕ) (rows : TickTable)
    → get_latest_tick_idx (update_tick status error i rows) ≡ get_latest_tick_idx rows
unfolding get_latest_tick_idx update_tick
get_latest-update_tick status error i [] = refl
get_latest-update_tick status error i (row ∷ rows) =
    ground (arith, get_latest-update_tick status error i rows)

-- Whether the tick has a row that waits to be processed.
abbrev pub status_pending : Option TickRow → Bool
status_pending none = false
status_pending (some row) = elim row.status [ pending ↦ true | _ ↦ false ]

abbrev pub is_pending : ℕ → TickTable → Bool
is_pending i ticks = status_pending (find_tick i ticks)

pub is_pending-insert_tick :
    (j i ts : ℕ) (rows : TickTable)
    → find_tick i rows ≡ none
    → is_pending j (insert_tick i ts rows) ≡ (nat_beq i j || is_pending j rows)
is_pending-insert_tick j i ts rows free = elim (Bool-cases (nat_beq i j)) [
  | inl same ↦
      let eq : i ≡ j = ground arith in
      rw (find_tick-insert_tick j i ts rows, same) (rw (← eq) (rw free))
  | inr other ↦ rw (find_tick-insert_tick j i ts rows, other)
]

-- A status that is not `pending` takes a row out of the pending ones.
pub is_pending-update_tick :
    (j : ℕ) (status : Status) (error : Option TickError) (i : ℕ) (rows : TickTable)
    → status ≢ pending
    → is_pending j (update_tick status error i rows) ≡ (not (nat_beq i j) && is_pending j rows)
is_pending-update_tick j status error i rows done =
    rw (find_tick-update_tick j status error i rows) (elim (Option-cases (find_tick j rows)) [
      | inl absent ↦ ground arith
      | inr (row, found) ↦ closed status done row found
    ])
  where
    closed :
        (st : Status)
        → st ≢ pending
        → (row : TickRow) → find_tick j rows ≡ some row
        → status_pending
            (if nat_beq i j then with_status st error (find_tick j rows) else find_tick j rows)
          ≡ (not (nat_beq i j) && is_pending j rows)
    closed pending d row found = absurd (d refl)
    closed _ d row found = ground arith
