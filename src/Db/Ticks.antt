-- ===== src/Db/Ticks.antt =====
-- The `snapshot_ticks` rows of one run: the tick functions of src/fuzzmeter/db/snapshot.py over the
-- table of src/fuzzmeter/db/schema.py. Each function is given the run's id, so the rows of other
-- runs are left out; the primary key is then `idx`.
pub mod Lookup
use fuzzmeter.Prelude.{
  ℕ, ◌+◌, Bool, true, false, Option, none, some, String, List, [], ◌∷◌, ◌++◌, max, nat_beq,
  if◌then◌else◌,
}

-- An exception, by the name of its type and its text.
pub record Failure : Type 0 where
  pub kind : String
  pub message : String

-- The error texts that the scheduler stores.
pub data TickError : Type 0 where
  -- f'{type(exc).__name__}: {exc}'
  raised : Failure → TickError
  -- f'Not processed after {type(cause).__name__}: {cause}'
  not_processed : Failure → TickError

pub data Status : Type 0 where
  pending completed failed aborted : Status

pub record TickRow : Type 0 where
  pub idx : ℕ
  pub ts : ℕ
  pub status : Status
  pub error : Option TickError

abbrev pub TickTable : Type 0
TickTable = List TickRow

abbrev pub find_tick : ℕ → TickTable → Option TickRow
find_tick i [] = none
find_tick i (row ∷ rows) = if nat_beq row.idx i then some row else find_tick i rows

-- INSERT OR IGNORE: a row that is there already stays.
unfoldable pub insert_tick : ℕ → ℕ → TickTable → TickTable
insert_tick i ts rows = elim (find_tick i rows) [
  | some row ↦ rows
  | none ↦ rows ++ record { idx = i; ts = ts; status = pending; error = none } ∷ []
]

-- UPDATE … SET status, error WHERE idx
unfoldable pub update_tick : Status → Option TickError → ℕ → TickTable → TickTable
update_tick status error i [] = []
update_tick status error i (row ∷ rows) =
    (if nat_beq row.idx i then record row { status = status; error = error } else row)
    ∷ update_tick status error i rows

abbrev pub mark_tick_completed : ℕ → TickTable → TickTable
mark_tick_completed = update_tick completed none

abbrev pub mark_tick_failed : ℕ → TickError → TickTable → TickTable
mark_tick_failed i error = update_tick failed (some error) i

abbrev pub mark_tick_aborted : ℕ → TickError → TickTable → TickTable
mark_tick_aborted i error = update_tick aborted (some error) i

-- SELECT COALESCE(MAX(idx), 0)
unfoldable pub get_latest_tick_idx : TickTable → ℕ
get_latest_tick_idx [] = 0
get_latest_tick_idx (row ∷ rows) = max row.idx (get_latest_tick_idx rows)

unfoldable pub get_next_tick_idx : TickTable → ℕ
unfolding get_latest_tick_idx
get_next_tick_idx rows = get_latest_tick_idx rows + 1
