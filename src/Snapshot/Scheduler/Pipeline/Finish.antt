-- ===== src/Snapshot/Scheduler/Pipeline/Finish.antt =====
-- The `finally` of `run_loop`, from the end mark to the abort of what is left.
use mathlib.Core.Path.{subst}
use fuzzmeter.Prelude.{
  ℕ, ◌≡◌, sym, ap, ◌∙◌, ◌⊎◌, inl, inr, false, none, some, [], Option-cases, length,
}
use fuzzmeter.Db.Ticks.{Failure}
use fuzzmeter.Db.Ticks.Lookup.{is_pending}
use fuzzmeter.Snapshot.Scheduler.Pipeline.{World, Measured, abort_pending_ticks, put_end, finish}
use fuzzmeter.Snapshot.Scheduler.Pipeline.Tracking.{has_idx, IsTracked}
use fuzzmeter.Snapshot.Scheduler.Pipeline.Steps.{abort_pending_ticks-IsTracked}
use fuzzmeter.Snapshot.Scheduler.Pipeline.Same.{put_end-IsTracked}
use fuzzmeter.Snapshot.Scheduler.Pipeline.Drain.{
  has_end, CanFinish, joined, alive-joined, ended-joined, queue-abort, queue-put_end, finish_result,
  worker_loop-IsTracked,
}

module _ (outcomes : ℕ → Measured) (w : World) where
  fatal_cases :
      ((finish outcomes w) ≡ joined outcomes w)
      ⊎ ((cause : Failure) × (finish outcomes w ≡ abort_pending_ticks cause (joined outcomes w)))
  fatal_cases = elim (Option-cases (joined outcomes w).scheduler.fatal_error) [
    | inl fine ↦ inl (finish_result outcomes w none fine)
    | inr (cause, fatal) ↦ inr (cause, finish_result outcomes w (some cause) fatal)
  ]

  finish-IsTracked : IsTracked w → IsTracked (finish outcomes w)
  finish-IsTracked h = elim fatal_cases [
    | inl e ↦ subst IsTracked (sym e) at_join
    | inr (cause, e) ↦
        subst IsTracked (sym e) (abort_pending_ticks-IsTracked cause (joined outcomes w) at_join)
  ]
    where
      at_join : IsTracked (joined outcomes w)
      at_join =
          worker_loop-IsTracked outcomes (length (put_end w).scheduler.tick_queue) (put_end w)
            (put_end-IsTracked w h)

  queue-finish :
      has_end w.scheduler.tick_queue ≡ false
      → CanFinish w
      → (finish outcomes w).scheduler.tick_queue ≡ []
  queue-finish open_queue (inl alive) =
      let empty = alive-joined outcomes w open_queue alive in
      elim fatal_cases [
        | inl e ↦ ap (λ v. v.scheduler.tick_queue) e ∙ empty
        | inr (cause, e) ↦
            ap (λ v. v.scheduler.tick_queue) e
            ∙ queue-abort cause (joined outcomes w) w.scheduler.tick_queue open_queue (inl empty)
      ]
  queue-finish open_queue (inr (ended, (cause, fatal))) =
      let same : joined outcomes w ≡ put_end w = ended-joined outcomes w ended in
      ap (λ v. v.scheduler.tick_queue)
        (finish_result outcomes w (some cause)
          (ap (λ v. v.scheduler.fatal_error) same ∙ unfold put_end in fatal))
      ∙ queue-abort cause (joined outcomes w) w.scheduler.tick_queue open_queue
          (inr (ap (λ v. v.scheduler.tick_queue) same ∙ queue-put_end w))

  -- Where queue and rows agree, no end mark has been put, and the worker runs or has ended by a fatal
  -- error, the end of `run_loop` leaves no row pending, whatever measuring the last ticks does.
  pub finish_clears :
      IsTracked w
      → has_end w.scheduler.tick_queue ≡ false
      → CanFinish w
      → (i : ℕ) → is_pending i (finish outcomes w).ticks ≡ false
  finish_clears h open_queue can i =
      (finish-IsTracked h).tracked i ∙ ap (has_idx i) (queue-finish open_queue can)
