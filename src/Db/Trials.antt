-- ===== src/Db/Trials.antt =====
-- The table `trials` of src/fuzzmeter/db/schema.py and its functions in src/fuzzmeter/db/trials.py.
pub mod Rows
use fuzzmeter.Prelude.{
  ℕ, suc, ◌+◌, Bool, true, false, ◌&&◌, Option, none, some, String, List, [], ◌∷◌, ◌++◌, nat_beq,
  if◌then◌else◌,
}
use fuzzmeter.Prelude.Equality.{◌==◌, string_eq}

pub record TrialRecord : Type 0 where
  pub fuzzer : String
  pub benchmark : String
  pub fuzz_target : String
  pub rep : ℕ
  pub time_seconds : ℕ
  pub status : String
  pub fuzzer_image : String
  pub build_config_json : Option String
  pub runtime_config_json : Option String

-- `jobs` is never written by these functions.
pub record TrialRow : Type 0 where
  pub trial_id : ℕ
  pub run_id : String
  pub trial : TrialRecord
  pub started_ts : ℕ
  pub ended_ts : Option ℕ

-- The ids are given out by AUTOINCREMENT, the last one is kept.
pub record TrialTable : Type 0 where
  pub rows : List TrialRow
  pub last_id : ℕ

-- The columns of the unique index `uq_trials_run_f_b_t_rep`.
abbrev pub is_trial : String → TrialRecord → TrialRow → Bool
is_trial run_id t row =
    row.run_id == run_id
    && row.trial.fuzzer == t.fuzzer
    && row.trial.benchmark == t.benchmark
    && row.trial.fuzz_target == t.fuzz_target
    && nat_beq row.trial.rep t.rep

abbrev pub find_id : String → TrialRecord → List TrialRow → Option ℕ
find_id run_id t [] = none
find_id run_id t (row ∷ rows) =
    if is_trial run_id t row then some row.trial_id else find_id run_id t rows

-- INSERT OR IGNORE
abbrev pub insert_trial : String → TrialRecord → ℕ → TrialTable → TrialTable
insert_trial run_id t started_ts table = elim (find_id run_id t table.rows) [
  | some id ↦ table
  | none ↦ record {
    rows =
        table.rows
        ++ record {
          trial_id = suc table.last_id;
          run_id = run_id;
          trial = t;
          started_ts = started_ts;
          ended_ts = none;
        }
          ∷ [];
    last_id = suc table.last_id;
  }
]

-- UPDATE trials SET started_ts=? WHERE trial_id=?
abbrev pub set_started : ℕ → ℕ → List TrialRow → List TrialRow
set_started started_ts id [] = []
set_started started_ts id (row ∷ rows) =
    (if nat_beq row.trial_id id then record row { started_ts = started_ts } else row)
    ∷ set_started started_ts id rows

-- The table and the id of the trial; none is the RuntimeError.
unfoldable pub ensure_trial_row : String → TrialRecord → ℕ → TrialTable → Option (TrialTable × ℕ)
ensure_trial_row run_id t started_ts table =
    let inserted = insert_trial run_id t started_ts table in
    elim (find_id run_id t inserted.rows) [
      | none ↦ none
      | some id ↦ some (record inserted { rows = set_started started_ts id inserted.rows }, id)
    ]

abbrev pub with_status : String → TrialRow → TrialRow
with_status status row = record row { trial = record row.trial { status = status } }

-- UPDATE trials SET status=? WHERE trial_id=?, with `ended_ts` too where it is given.
unfoldable pub set_status_rows : ℕ → String → Option ℕ → List TrialRow → List TrialRow
set_status_rows id status ended_ts [] = []
set_status_rows id status ended_ts (row ∷ rows) =
    (if nat_beq row.trial_id id
      then elim ended_ts [
        | none ↦ with_status status row
        | some ts ↦ record (with_status status row) { ended_ts = some ts }
      ]
      else row)
    ∷ set_status_rows id status ended_ts rows

unfoldable pub set_trial_status : ℕ → String → Option ℕ → TrialTable → TrialTable
unfolding set_status_rows
set_trial_status id status ended_ts table = record table {
  rows = set_status_rows id status ended_ts table.rows;
}

unfoldable pub set_running_rows : String → String → List TrialRow → List TrialRow
set_running_rows run_id status [] = []
set_running_rows run_id status (row ∷ rows) =
    (if row.run_id == run_id && row.trial.status == "running" then with_status status row else row)
    ∷ set_running_rows run_id status rows

unfoldable pub set_running_trial_statuses : String → String → TrialTable → TrialTable
unfolding set_running_rows
set_running_trial_statuses run_id status table = record table {
  rows = set_running_rows run_id status table.rows;
}
