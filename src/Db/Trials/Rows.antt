-- ===== src/Db/Trials/Rows.antt =====
-- What a row says after the functions of the table.
use mathlib.Core.Option as Option
use fuzzmeter.Prelude.{
  ℕ, ◌≡◌, Option, none, some, String, List, [], ◌∷◌, arith, nat_beq, if◌then◌else◌,
}
use fuzzmeter.Prelude.Equality.{string_eq}
use fuzzmeter.Db.Trials.{TrialRow, TrialTable, set_status_rows, set_trial_status}

-- The status of the trial of an id.
abbrev pub status_in : ℕ → List TrialRow → Option String
status_in id [] = none
status_in id (row ∷ rows) =
    if nat_beq row.trial_id id then some row.trial.status else status_in id rows

abbrev pub status_of : ℕ → TrialTable → Option String
status_of id table = status_in id table.rows

status_in-set :
    (id j : ℕ) (status : String) (ended_ts : Option ℕ) (rows : List TrialRow)
    → status_in j (set_status_rows id status ended_ts rows)
      ≡ (if nat_beq id j then Option.map (λ old. status) (status_in j rows) else status_in j rows)
unfolding set_status_rows
status_in-set id j status ended_ts [] = ground arith
status_in-set id j status none (row ∷ rows) = ground (arith, status_in-set id j status none rows)
status_in-set id j status (some ts) (row ∷ rows) =
    ground (arith, status_in-set id j status (some ts) rows)

pub status_of-set_trial_status :
    (id j : ℕ) (status : String) (ended_ts : Option ℕ) (table : TrialTable)
    → status_of j (set_trial_status id status ended_ts table)
      ≡ (if nat_beq id j then Option.map (λ old. status) (status_of j table) else status_of j table)
unfolding set_trial_status
status_of-set_trial_status id j status ended_ts table =
    status_in-set id j status ended_ts table.rows
