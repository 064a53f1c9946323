-- ===== src/Snapshot/Scheduler/Pipeline/Tests.antt =====
-- Runs of ticks through the queue, and the theorems on them at concrete inputs.
use fuzzmeter.Prelude.{
  ◌+◌, ◌≤◌, ◌⊎◌, length, List, ℕ, ◌≡◌, refl, true, false, none, some, [], ◌∷◌, arith, nat_beq,
  if◌then◌else◌,
}
use fuzzmeter.Db.Ticks.{
  Failure, raised, not_processed, pending, completed, failed, aborted, TickRow, find_tick,
  insert_tick, update_tick, get_latest_tick_idx, get_next_tick_idx,
}
use fuzzmeter.Db.Ticks.Lookup.{is_pending}
use fuzzmeter.Snapshot.Scheduler.State.{
  SnapshotData, Scheduler, init, register, set_fatal_error, raise_if_failed, shutting_down,
  campaign_trial_snapshots,
}
use fuzzmeter.Snapshot.Scheduler.State.Samples.{trial_b, five_minutes, trial_a}
use fuzzmeter.Snapshot.Scheduler.Pipeline.{
  tick_jobs, World, Measured, next_free, schedule_tick, final_of, schedule_final_tick,
  abort_pending, abort_pending_ticks, interrupt, record_tick_error, tick_raised, tick_completed,
  after_measuring, take, serve, worker_step, put_end, worker_loop, finish, start,
}
use fuzzmeter.Snapshot.Scheduler.Pipeline.Reachable.{
  Reach, registers, final, here, next, IsSound, reachable-IsSound,
}
use fuzzmeter.Snapshot.Scheduler.Pipeline.Ending.{Runs, begins, goes_on, run_clears}
use fuzzmeter.Snapshot.Scheduler.Pipeline.Jobs.{AllBegun, tick_jobs_planned}
use fuzzmeter.Run.Resources.{live_resource_plan}
use fuzzmeter.Snapshot.Scheduler.Replay.{ReplayTrial}
use fuzzmeter.Snapshot.Scheduler.Pipeline.Replayed.{
  IsClear, replay_data, replay_insert, replay_measured, replay_tick, replay_loop, replay_leaves,
  TickRound, measures, raises, signalled, with_row, ended, left_pending,
}
use fuzzmeter.Snapshot.Scheduler.Pipeline.Verdicts.{verdict, find_tick-after_measuring}

-- A run that has processed one tick before.
abbrev old_row : TickRow
old_row = record { idx = 1; ts = 900; status = completed; error = none }

none_pending : (i : ℕ) → is_pending i (old_row ∷ []) ≡ false
none_pending i = ground arith

abbrev fine : Measured
fine = record { error = none; interrupted = false }

abbrev disk_full : Failure
disk_full = record { kind = "OSError"; message = "No space left on device" }

abbrev begun : World
begun = start five_minutes none 990 (old_row ∷ [])

abbrev registered : World
registered = record begun { scheduler = register trial_a begun.scheduler }

-- Two ticks wait.
abbrev twice : World
twice = (schedule_final_tick 1310 (schedule_final_tick 1300 registered).1).1

twice_reached : Reach begun twice
twice_reached = next (next (next here (registers trial_a)) (final 1300)) (final 1310)

reachable-IsSound_example : IsSound twice
reachable-IsSound_example =
    reachable-IsSound five_minutes none 990 (old_row ∷ []) (omega arith) none_pending twice_reached

twice_rows :
    twice.ticks
    ≡ old_row
      ∷ record { idx = 2; ts = 1300; status = pending; error = none }
      ∷ record { idx = 3; ts = 1310; status = pending; error = none }
      ∷ []
unfolding schedule_final_tick final_of schedule_tick next_free start init register raise_if_failed
    campaign_trial_snapshots get_next_tick_idx get_latest_tick_idx insert_tick
twice_rows = refl

-- The first tick fails, and the second is aborted.
abbrev fails_first : ℕ → Measured
fails_first k = if nat_beq k 0 then record { error = some disk_full; interrupted = false } else fine

abbrev tick_2 : SnapshotData
tick_2 = record {
  tick_idx = 2;
  end_ts = 1300;
  render_heavy = true;
  trials = trial_a ∷ [];
  campaign_trials = trial_a ∷ [];
}

-- Tick 2 has just been taken off the queue.
abbrev behind : World
behind = record twice {
  scheduler = record twice.scheduler {
    tick_queue = some (record tick_2 { tick_idx = 3; end_ts = 1310 }) ∷ [];
  };
}

find_tick-after_measuring_example :
    find_tick 3 (after_measuring tick_2 (some disk_full) behind).ticks
    ≡ verdict tick_2
        (some disk_full)
        (shutting_down behind.scheduler)
        behind.scheduler.tick_queue
        3
        (find_tick 3 behind.ticks)
find_tick-after_measuring_example = find_tick-after_measuring tick_2 (some disk_full) behind 3 refl

rows_at_the_end :
    (finish fails_first twice).ticks
    ≡ old_row
      ∷ record { idx = 2; ts = 1300; status = failed; error = some (raised disk_full) }
      ∷ record { idx = 3; ts = 1310; status = aborted; error = some (not_processed disk_full) }
      ∷ []
unfolding schedule_final_tick final_of schedule_tick next_free start init register raise_if_failed
    campaign_trial_snapshots get_next_tick_idx get_latest_tick_idx insert_tick finish worker_loop
    worker_step serve take after_measuring tick_raised record_tick_error abort_pending_ticks
    abort_pending update_tick set_fatal_error shutting_down put_end interrupt tick_completed
rows_at_the_end = refl

twice-Runs : Runs begun twice
twice-Runs =
    goes_on (goes_on (goes_on begins (registers trial_a) refl) (final 1300) refl) (final 1310) refl

run_clears_example : is_pending 2 (finish fails_first twice).ticks ≡ false
run_clears_example =
    run_clears five_minutes none 990 (old_row ∷ []) (omega arith) none_pending fails_first
      twice-Runs 2

-- Both trials of a campaign of two have begun; the plan has one snapshot job.
abbrev last_wave : Scheduler
last_wave =
    register trial_b (
      register trial_a
        (init (record five_minutes { total_trials = 2; trial_workers = 3 }) none 990))

reclaimed : tick_jobs last_wave ≡ 2
unfolding tick_jobs register init
reclaimed = refl

three_and_one :
    live_resource_plan last_wave.settings.parallel_jobs none
    ≡ some (last_wave.settings.trial_workers, last_wave.settings.jobs)
unfolding live_resource_plan register init
three_and_one = refl

parallel : 1 ≤ last_wave.settings.parallel_jobs
unfolding register init
parallel = omega arith

two_at_work : length last_wave.active ≤ last_wave.settings.trial_workers
unfolding register init
two_at_work = omega arith

tick_jobs_planned_example :
    (AllBegun last_wave
      × (tick_jobs last_wave + length last_wave.active ≡ last_wave.settings.parallel_jobs))
    ⊎ ((¬ AllBegun last_wave)
        × (tick_jobs last_wave ≡ last_wave.settings.jobs)
        × (tick_jobs last_wave + length last_wave.active ≤ last_wave.settings.parallel_jobs))
tick_jobs_planned_example = tick_jobs_planned last_wave none parallel three_and_one two_at_work

-- Two trials are replayed; the second tick fails or is left by a signal, and the third is not begun.
abbrev replayed : List ReplayTrial
replayed = (trial_a, 1250) ∷ (record trial_b { start_ts = 1100 }, 1230) ∷ []

abbrev fails_second : ℕ → TickRound
fails_second k = if nat_beq k 1 then raises disk_full else measures

abbrev signal_second : ℕ → TickRound
signal_second k = if nat_beq k 1 then signalled with_row else measures

begun-IsClear : IsClear begun.ticks (next_free begun)
unfolding next_free start init get_next_tick_idx get_latest_tick_idx
begun-IsClear = (none_pending, λ i le. ground arith)

replay_rows :
    (replay_loop replayed fails_second (1100 ∷ 1200 ∷ 1230 ∷ []) begun).1.ticks
    ≡ old_row
      ∷ record { idx = 2; ts = 1100; status = completed; error = none }
      ∷ record { idx = 3; ts = 1200; status = failed; error = some (raised disk_full) }
      ∷ []
unfolding replay_loop replay_tick replay_insert replay_data replay_measured next_free start init
    get_next_tick_idx get_latest_tick_idx insert_tick update_tick record_tick_error tick_completed
    interrupt shutting_down
replay_rows = refl

pending_row :
    (replay_loop replayed signal_second (1100 ∷ 1200 ∷ 1230 ∷ []) begun).1.ticks
    ≡ old_row
      ∷ record { idx = 2; ts = 1100; status = completed; error = none }
      ∷ record { idx = 3; ts = 1200; status = pending; error = none }
      ∷ []
unfolding replay_loop replay_tick replay_insert replay_data replay_measured next_free start init
    get_next_tick_idx get_latest_tick_idx insert_tick update_tick record_tick_error tick_completed
pending_row = refl

replay_leaves_example :
    let (ending, w') = replay_loop replayed signal_second (1100 ∷ 1200 ∷ 1230 ∷ []) begun in
    is_pending 3 w'.ticks ≡ left_pending ending (next_free w') 3
replay_leaves_example =
    replay_leaves replayed signal_second (1100 ∷ 1200 ∷ 1230 ∷ []) begun 3 begun-IsClear

not_stopped : begun.scheduler.stop ≡ false
unfolding start init
not_stopped = refl

no_error : (replay_loop replayed (λ k. measures) (1100 ∷ 1200 ∷ []) begun).0 ≡ ended
unfolding replay_loop replay_tick replay_measured start init
no_error = refl
