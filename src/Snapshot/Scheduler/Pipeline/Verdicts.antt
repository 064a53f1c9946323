-- ===== src/Snapshot/Scheduler/Pipeline/Verdicts.antt =====
-- What the rows say of a tick after it was measured, and of those behind it in the queue.
use fuzzmeter.Prelude.{
  ℕ, ◌≡◌, refl, ◌∙◌, Bool, true, false, Option, none, some, [], ◌∷◌, arith, nat_beq, Bool-cases,
  inl, inr, if◌then◌else◌,
}
use fuzzmeter.Db.Ticks.{
  Failure, raised, not_processed, completed, failed, aborted, TickRow, TickTable, find_tick,
  mark_tick_aborted, mark_tick_failed,
}
use fuzzmeter.Db.Ticks.Lookup.{find_tick-update_tick, with_status}
use fuzzmeter.Snapshot.Scheduler.State.{SnapshotData, set_fatal_error, shutting_down}
use fuzzmeter.Snapshot.Scheduler.Pipeline.{World, abort_pending, after_measuring}
use fuzzmeter.Snapshot.Scheduler.Pipeline.Tracking.{Queue, has_idx}

-- The ticks that `_abort_pending_ticks` takes: those before the first end mark.
abbrev pub before_end : Queue → Queue
before_end [] = []
before_end (none ∷ queue) = []
before_end (some d ∷ queue) = some d ∷ before_end queue

find_tick-abort_pending :
    (j : ℕ) (cause : Failure) (queue : Queue) (ticks : TickTable)
    → find_tick j (abort_pending cause queue ticks).1 ≡ (
        if has_idx j (before_end queue)
        then with_status aborted (some (not_processed cause)) (find_tick j ticks)
        else find_tick j ticks)
unfolding abort_pending
find_tick-abort_pending j cause [] ticks = refl
find_tick-abort_pending j cause (none ∷ queue) ticks = refl
find_tick-abort_pending j cause (some d ∷ queue) ticks = ground (
  arith,
  find_tick-abort_pending j cause queue (mark_tick_aborted d.tick_idx (not_processed cause) ticks),
  find_tick-update_tick j aborted (some (not_processed cause)) d.tick_idx ticks,
)

-- The verdict on the row of tick `j` after tick `d` was measured with `queue` behind it.
abbrev pub verdict :
    SnapshotData → Option Failure → Bool → Queue → ℕ → Option TickRow → Option TickRow
verdict d none stopping queue j row =
    if nat_beq d.tick_idx j then with_status completed none row else row
verdict d (some exc) true queue j row =
    if nat_beq d.tick_idx j then with_status aborted (some (raised exc)) row else row
verdict d (some exc) false queue j row =
    if nat_beq d.tick_idx j
    then with_status failed (some (raised exc)) row
    else if has_idx j (before_end queue)
    then with_status aborted (some (not_processed exc)) row
    else row

-- Every row after a tick was taken off the queue and measured, if the tick does not stand in the
-- queue again: its own row is completed, or aborted where measuring raised during a shutdown, or
-- else failed; only in the last case the ticks behind it up to the end mark are aborted too;
-- every other row stays.
pub find_tick-after_measuring :
    (d : SnapshotData) (error : Option Failure) (w : World) (j : ℕ)
    → has_idx d.tick_idx w.scheduler.tick_queue ≡ false
    → find_tick j (after_measuring d error w).ticks
      ≡ verdict d error (shutting_down w.scheduler) w.scheduler.tick_queue j (find_tick j w.ticks)
unfolding after_measuring set_fatal_error
find_tick-after_measuring d none w j alone =
    find_tick-update_tick j completed none d.tick_idx w.ticks
find_tick-after_measuring d (some exc) w j alone = elim (Bool-cases (shutting_down w.scheduler)) [
  | inl down ↦ rw down (find_tick-update_tick j aborted (some (raised exc)) d.tick_idx w.ticks)
  | inr up ↦ rw up (
      find_tick-abort_pending j exc w.scheduler.tick_queue
        (mark_tick_failed d.tick_idx (raised exc) w.ticks)
      ∙ settle)
]
  where
    not_behind :
        (queue : Queue) (i : ℕ) → has_idx i queue ≡ false → has_idx i (before_end queue) ≡ false
    not_behind [] i h = refl
    not_behind (none ∷ queue) i h = refl
    not_behind (some e ∷ queue) i h = ground (arith, not_behind queue i)

    settle :
        (if has_idx j (before_end w.scheduler.tick_queue)
          then with_status aborted
              (some (not_processed exc))
              (find_tick j (mark_tick_failed d.tick_idx (raised exc) w.ticks))
          else find_tick j (mark_tick_failed d.tick_idx (raised exc) w.ticks))
        ≡ (if nat_beq d.tick_idx j
            then with_status failed (some (raised exc)) (find_tick j w.ticks)
            else if has_idx j (before_end w.scheduler.tick_queue)
            then with_status aborted (some (not_processed exc)) (find_tick j w.ticks)
            else find_tick j w.ticks)
    settle = elim (Bool-cases (nat_beq d.tick_idx j)) [
      | inl same ↦
          let eq : d.tick_idx ≡ j = ground arith in
          ground (
            arith,
            find_tick-update_tick j failed (some (raised exc)) d.tick_idx w.ticks,
            not_behind w.scheduler.tick_queue j (rw eq at alone),
          )
      | inr other ↦
          ground (arith, find_tick-update_tick j failed (some (raised exc)) d.tick_idx w.ticks)
    ]
