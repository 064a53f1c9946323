-- ===== src/Trial/Runner/Endings/Claims.antt =====
-- What is left of a trial when it has ended.
use mathlib.Core.Path.{subst}
use fuzzmeter.Prelude.{
  ◌∙◌, sym, ap, ℕ, ◌+◌, ◌≤◌, ◌≡◌, refl, ◌≢◌, ◌⊎◌, inl, inr, Bool, true, false, Option, none, some,
  String, arith, Bool-cases, Option-cases,
}
use fuzzmeter.Prelude.Equality.{string_eq}
use fuzzmeter.Dict.{get, get-pop}
use fuzzmeter.Snapshot.Scheduler.State.{TrialConfig, Scheduler, unregister}
use fuzzmeter.Db.Trials.{TrialTable, set_trial_status}
use fuzzmeter.Db.Trials.Rows.{status_of, status_of-set_trial_status}
use fuzzmeter.Trial.Container.{
  Raised, processing_error, exception, base_exception, monitor_until_deadline,
}
use fuzzmeter.Trial.Container.Deadline.{monitor-returned}
use fuzzmeter.Trial.Runner.{
  World, Environment, Ran, returned, failed, finished, run_started, end_trial, status_of_run,
  raised_by, write_status, unregister_from,
}
use fuzzmeter.Trial.Runner.Endings.{Reached, declined_start, failed_start, ran_on}

-- The scheduler no longer looks at a trial.
abbrev pub IsGone : String → Option Scheduler → Type 0
IsGone key none = Unit
IsGone key (some s) = (get key s.active ≡ none) × (get key s.next_periodic_ts ≡ none)

pub unregister-IsGone : (key : String) (o : Option Scheduler) → IsGone key (unregister_from key o)
unfolding unregister
unregister-IsGone key none = tt
unregister-IsGone key (some s) = (
  ground (arith, get-pop key key s.active, string_eq.beq_iff key key),
  ground (arith, get-pop key key s.next_periodic_ts, string_eq.beq_iff key key),
)

-- The statuses that go with what a trial raises, over the one that its row had.
abbrev pub Recorded : Option Raised → Option String → Option String → Type 0
Recorded none old new = (new ≡ some "done") ⊎ (new ≡ some "interrupted")
Recorded (some processing_error) old new = new ≡ some "failed_measurement"
Recorded (some exception) old new = (new ≡ some "failed_runtime") ⊎ (new ≡ some "failed_start")
Recorded (some base_exception) old new = new ≡ old

written :
    (id : ℕ) (env : Environment) (status : String) (error : Option Raised) (table : TrialTable)
    → env.status_raises ≡ none
    → write_status id env (some status) error table
      ≡ (set_trial_status id status (some env.ended_ts) table, error)
written id env status error table quiet = rw (quiet, write_status) refl

write-Recorded :
    (id : ℕ) (env : Environment) (status old : String) (error : Option Raised) (table : TrialTable)
    → env.status_raises ≡ none
    → status_of id table ≡ some old
    → Recorded error (some old) (some status)
    → let r = write_status id env (some status) error table in
      Recorded r.1 (some old) (status_of id r.0)
write-Recorded id env status old error table quiet row ok =
    let now_set : status_of id (set_trial_status id status (some env.ended_ts) table)
        ≡ some status =
      status_of-set_trial_status id id status (some env.ended_ts) table ∙ ground arith in
    subst (λ (r : TrialTable × Option Raised). Recorded r.1 (some old) (status_of id r.0))
      (sym (written id env status error table quiet))
      (subst (λ o. Recorded error (some old) o) (sym now_set) ok)

pub end_trial-Recorded :
    (key name : String) (id : ℕ) (env : Environment) (ran : Ran) (started : Bool) (w : World)
    (old : String)
    → env.status_raises ≡ none
    → status_of id w.trials ≡ some old
    → let r = end_trial key name id env ran started w in
      Recorded r.1 (some old) (status_of id r.0.trials)
unfolding end_trial status_of_run
end_trial-Recorded key name id env returned started w old quiet row =
    write-Recorded id env "interrupted" old none w.trials quiet row (inr refl)
end_trial-Recorded key name id env finished started w old quiet row =
    write-Recorded id env _ old none w.trials quiet row (elim (Bool-cases env.stop_set) [
      | inl stopped ↦ inr (rw stopped refl)
      | inr on ↦ inl (rw on refl)
    ])
end_trial-Recorded key name id env (failed processing_error) started w old quiet row =
    write-Recorded id env "failed_measurement" old (some processing_error) w.trials quiet row refl
end_trial-Recorded key name id env (failed exception) started w old quiet row =
    write-Recorded id env _ old (some exception) w.trials quiet row
      (elim (Bool-cases started) [ inl up ↦ inl (rw up refl) | inr down ↦ inr (rw down refl) ])
end_trial-Recorded key name id env (failed base_exception) started w old quiet row = row

-- A stop event that was set stays set.
abbrev pub StopsStay : Environment → Type 0
StopsStay env = (i : ℕ) → (env.monitor_calls.after i).stop_set ≡ true → env.stop_set ≡ true

-- The trial was measured over its whole time and not stopped.
abbrev pub RanFull : TrialConfig → Environment → Type 0
RanFull config env =
    (env.stop_set ≡ false)
    × (i : ℕ) × (env.monitor_calls.now + (config.trial_timeout + config.trial_timeout)
        ≤ (env.monitor_calls.after i).now)

finished-RanFull :
    (config : TrialConfig) (env : Environment) (w : World)
    → StopsStay env
    → env.stop_set ≡ false
    → run_started config.trial_timeout env w ≡ some finished
    → RanFull config env
finished-RanFull config env w stay on h = elim (Option-cases env.log_raises) [
  | inr e ↦ absurd (ground arith)
  | inl quiet ↦
      elim (Option-cases (monitor_until_deadline config.trial_timeout env.monitor_calls)) [
        | inl dry ↦ absurd (ground arith)
        | inr verdict ↦ elim (Option-cases verdict.0) [
          | inr e ↦ absurd (ground arith)
          | inl fine ↦
              let (i, back) =
                monitor-returned config.trial_timeout env.monitor_calls
                  (verdict.1 ∙ ap some fine) in
              (on, i, ground (arith, back, stay i, on))
        ]
      ]
]

-- The threads of the rest of the program write no status into the trial's row.
abbrev pub LeavesRow : ℕ → Environment → Type 0
LeavesRow id env =
    ((w : World) → status_of id (env.before_start w).trials ≡ status_of id w.trials)
    × ((w : World) → status_of id (env.while_running w).trials ≡ status_of id w.trials)
    × ((w : World) → status_of id (env.before_end w).trials ≡ status_of id w.trials)

write-done :
    (id : ℕ) (env : Environment) (status : Option String) (error : Option Raised)
    (table : TrialTable) (old : String)
    → old ≢ "done"
    → status_of id table ≡ some old
    → status_of id (write_status id env status error table).0 ≡ some "done"
    → (status ≡ some "done") × ((write_status id env status error table).1 ≡ error)
write-done id env none error table old not_done row done = absurd (not_done (ground arith))
write-done id env (some status) error table old not_done row done =
    elim (Option-cases env.status_raises) [
      | inr e ↦ absurd (not_done (ground (arith, e.1)))
      | inl quiet ↦
          let w = written id env status error table quiet in
          let same : some status ≡ some "done" =
            sym (status_of-set_trial_status id id status (some env.ended_ts) table ∙ ground arith)
            ∙ ap (λ (r : TrialTable × Option Raised). status_of id r.0) (sym w)
            ∙ done in
          (same, ap (λ (r : TrialTable × Option Raised). r.1) w)
    ]

-- Only a trial that got to the end of its `try` block without a stop is done.
done-finished :
    (ran : Ran) (started stop_set : Bool)
    → status_of_run ran started stop_set ≡ some "done"
    → (ran ≡ finished) × (stop_set ≡ false)
unfolding status_of_run
done-finished returned started stop_set h =
    absurd (ground (arith, string_eq.beq_iff "interrupted" "done"))
done-finished finished started true h =
    absurd (ground (arith, string_eq.beq_iff "interrupted" "done"))
done-finished finished started false h = (refl, refl)
done-finished (failed processing_error) started stop_set h =
    absurd (ground (arith, string_eq.beq_iff "failed_measurement" "done"))
done-finished (failed exception) started stop_set h = absurd (
    ground
      (arith, string_eq.beq_iff "failed_runtime" "done", string_eq.beq_iff "failed_start" "done"))
done-finished (failed base_exception) started stop_set h = absurd (ground arith)

Reached-RanFull :
    (config : TrialConfig) (env : Environment) (ran : Ran) (started : Bool)
    → StopsStay env
    → env.stop_set ≡ false
    → ran ≡ finished
    → Reached config env ran started
    → RanFull config env
Reached-RanFull config env returned started stay on same (declined_start h) = absurd cc
Reached-RanFull config env (failed e) started stay on same (failed_start f) = absurd cc
Reached-RanFull config env ran started stay on same (ran_on r w o h) =
    finished-RanFull config env w stay on (h ∙ ap some same)

pub end_trial-done :
    (config : TrialConfig) (name : String) (id : ℕ) (env : Environment) (ran : Ran) (started : Bool)
    (w : World) (old : String)
    → StopsStay env
    → old ≢ "done"
    → status_of id w.trials ≡ some old
    → Reached config env ran started
    → let r = end_trial config.trial_key name id env ran started w in
      status_of id r.0.trials ≡ some "done" → (r.1 ≡ none) × RanFull config env
unfolding end_trial
end_trial-done config name id env ran started w old stay not_done row reached done =
    let (status, error) =
      write-done id env (status_of_run ran started env.stop_set) (raised_by ran) w.trials old
        not_done row done in
    let (same, on) = done-finished ran started env.stop_set status in
    (error ∙ ap raised_by same, Reached-RanFull config env ran started stay on same reached)
