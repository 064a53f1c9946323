-- ===== src/Snapshot/Scheduler/Pipeline/Replayed.antt =====
-- `run_loop` of `ReplaySnapshotScheduler` from its first tick on: it processes each tick itself, with
-- no queue. The list of ticks is that of `build_tick_schedule`.
use mathlib.Core.Path.{subst}
use fuzzmeter.Prelude.{
  length, ℕ, suc, ◌+◌, ◌≤◌, ◌≡◌, ◌≢◌, refl, ◌∙◌, inl, inr, Bool, true, false, Option, none, some,
  List, [], ◌∷◌, arith, Bool-cases, Option-cases, map, nat_beq,
}
use fuzzmeter.Db.Ticks.{
  Failure, TickError, Status, pending, completed, failed, aborted, raised, TickTable, find_tick,
  insert_tick, update_tick,
}
use fuzzmeter.Db.Ticks.Lookup.{
  find_tick-insert_tick, find_tick-update_tick, is_pending, is_pending-insert_tick,
  is_pending-update_tick,
}
use fuzzmeter.Snapshot.Scheduler.State.{SnapshotData, shutting_down}
use fuzzmeter.Snapshot.Scheduler.Replay.{ReplayTrial, selected_trials, campaign_trials}
use fuzzmeter.Snapshot.Scheduler.Pipeline.{World, next_free, record_tick_error, tick_completed}

-- The arguments of `_process_tick`.
unfoldable pub replay_data : ℕ → ℕ → List ReplayTrial → SnapshotData
replay_data tick_idx ts trials = record {
  tick_idx = tick_idx;
  end_ts = ts;
  render_heavy = true;
  trials = map (λ t. t.0) (selected_trials ts trials);
  campaign_trials = map (λ t. t.0) (campaign_trials ts trials);
}

-- The row and the count of a tick before it is measured.
unfoldable pub replay_insert : ℕ → World → World
unfolding next_free
replay_insert ts w = record w {
  scheduler = record w.scheduler {
    next_tick_idx = some (next_free w + 1);
    scheduled_ticks = w.scheduler.scheduled_ticks + 1;
  };
  ticks = insert_tick (next_free w) ts w.ticks;
}

-- Where a signal comes while a tick is replayed: the loop runs on the main thread, and the signal
-- handler raises KeyboardInterrupt or SystemExit there. Before the tick has a row, while it is
-- measured, or behind that, with the error of the measurement recorded, if there is one.
pub data Moment : Type 0 where
  before_row : Moment
  with_row : Moment
  behind_row : Option Failure → Moment

-- What measuring a tick does: it returns, raises an Exception, or is left by a signal.
pub data TickRound : Type 0 where
  measures : TickRound
  raises : Failure → TickRound
  signalled : Moment → TickRound

-- How the loop ends: it returns, or is left by an Exception or by what the handler raised.
pub data ReplayEnd : Type 0 where
  ended : ReplayEnd
  left_by_error : Failure → ReplayEnd
  left_by_signal : Moment → ReplayEnd

-- The row of a measured tick: an Exception is recorded.
unfoldable pub replay_measured : SnapshotData → Option Failure → World → World
unfolding record_tick_error tick_completed
replay_measured d none w = tick_completed d w
replay_measured d (some exc) w = record_tick_error d exc w

-- A round of the loop, and how it leaves the loop, if it does. What is no Exception passes the
-- `except` by.
unfoldable pub replay_tick : List ReplayTrial → ℕ → TickRound → World → Option ReplayEnd × World
unfolding replay_insert replay_measured
replay_tick trials ts round w =
    let d = replay_data (next_free w) ts trials in
    let w' = replay_insert ts w in
    elim round [
      | measures ↦ (none, replay_measured d none w')
      | raises exc ↦ (some (left_by_error exc), replay_measured d (some exc) w')
      | signalled before_row ↦ (some (left_by_signal before_row), w)
      | signalled with_row ↦ (some (left_by_signal with_row), w')
      | signalled (behind_row error) ↦
          (some (left_by_signal (behind_row error)), replay_measured d error w')
    ]

-- The loop. `rounds k` is what happens in round k.
unfoldable pub replay_loop : List ReplayTrial → (ℕ → TickRound) → List ℕ → World → ReplayEnd × World
replay_loop trials rounds [] w = (ended, w)
replay_loop trials rounds (ts ∷ schedule) w = elim w.scheduler.stop [
  | true ↦ (ended, w)
  | false ↦ elim (replay_tick trials ts (rounds 0) w).0 [
    | some ending ↦ (ending, (replay_tick trials ts (rounds 0) w).1)
    | none ↦
        replay_loop trials (λ k. rounds (suc k)) schedule (replay_tick trials ts (rounds 0) w).1
  ]
]

-- No row is pending, and none has the next index or a later one.
abbrev pub IsClear : TickTable → ℕ → Type 0
IsClear ticks free =
    ((i : ℕ) → is_pending i ticks ≡ false) × ((i : ℕ) → free ≤ i → find_tick i ticks ≡ none)

marked-IsClear :
    (status : Status) (error : Option TickError) (i ts : ℕ) (ticks : TickTable)
    → status ≢ pending
    → IsClear ticks i
    → IsClear (update_tick status error i (insert_tick i ts ticks)) (i + 1)
marked-IsClear status error i ts ticks done (clear, fresh) = (cleared, still_fresh)
  where
    cleared : (j : ℕ) → is_pending j (update_tick status error i (insert_tick i ts ticks)) ≡ false
    cleared j = ground (
      arith,
      is_pending-update_tick j status error i (insert_tick i ts ticks) done,
      is_pending-insert_tick j i ts ticks (fresh i (omega arith)),
      clear j,
    )

    still_fresh :
        (j : ℕ)
        → i + 1 ≤ j
        → find_tick j (update_tick status error i (insert_tick i ts ticks)) ≡ none
    still_fresh j le = ground (
      arith,
      find_tick-update_tick j status error i (insert_tick i ts ticks),
      find_tick-insert_tick j i ts ticks,
      fresh j (omega arith),
    )

abbrev IsClearWorld : World → Type 0
IsClearWorld w = IsClear w.ticks (next_free w)

measured-IsClear :
    (d : SnapshotData) (error : Option Failure) (w : World) (ts : ℕ) (ticks : TickTable)
    → w.ticks ≡ insert_tick d.tick_idx ts ticks
    → w.scheduler.next_tick_idx ≡ some (d.tick_idx + 1)
    → IsClear ticks d.tick_idx
    → IsClearWorld (replay_measured d error w)
unfolding replay_measured next_free
measured-IsClear d none w ts ticks e n h =
    rw (e, n) (marked-IsClear completed none d.tick_idx ts ticks (λ x. cc) h)
measured-IsClear d (some exc) w ts ticks e n h = elim (Bool-cases (shutting_down w.scheduler)) [
  | inl down ↦
      rw (down, e, n) (marked-IsClear aborted (some (raised exc)) d.tick_idx ts ticks (λ x. cc) h)
  | inr up ↦
      rw (up, e, n) (marked-IsClear failed (some (raised exc)) d.tick_idx ts ticks (λ x. cc) h)
]

-- The rows that are pending behind a loop, of which the next index is `free`.
abbrev pub left_pending : ReplayEnd → ℕ → ℕ → Bool
left_pending (left_by_signal with_row) free i = nat_beq (suc i) free
left_pending ending free i = false

abbrev pub IsLeft : ReplayEnd → World → Type 0
IsLeft ending w = (i : ℕ) → is_pending i w.ticks ≡ left_pending ending (next_free w) i

-- What a round leaves, by whether it leaves the loop.
abbrev IsRound : Option ReplayEnd → World → Type 0
IsRound none w = IsClearWorld w
IsRound (some ending) w = IsLeft ending w

measured_tick-IsClear :
    (trials : List ReplayTrial) (ts : ℕ) (error : Option Failure) (w : World)
    → IsClearWorld w
    → IsClearWorld
        (replay_measured (replay_data (next_free w) ts trials) error (replay_insert ts w))
unfolding replay_insert replay_data
measured_tick-IsClear trials ts error w h =
    measured-IsClear (replay_data (next_free w) ts trials) error (replay_insert ts w) ts w.ticks
      refl refl h

inserted-IsLeft :
    (ts : ℕ) (w : World) → IsClearWorld w → IsLeft (left_by_signal with_row) (replay_insert ts w)
unfolding replay_insert next_free
inserted-IsLeft ts w h i = ground (
  arith,
  is_pending-insert_tick i (next_free w) ts w.ticks (h.1 (next_free w) (omega arith)),
  h.0 i,
)

replay_tick-IsRound :
    (trials : List ReplayTrial) (ts : ℕ) (round : TickRound) (w : World)
    → IsClearWorld w
    → IsRound (replay_tick trials ts round w).0 (replay_tick trials ts round w).1
unfolding replay_tick
replay_tick-IsRound trials ts measures w h = measured_tick-IsClear trials ts none w h
replay_tick-IsRound trials ts (raises exc) w h = (measured_tick-IsClear trials ts (some exc) w h).0
replay_tick-IsRound trials ts (signalled before_row) w h = h.0
replay_tick-IsRound trials ts (signalled with_row) w h = inserted-IsLeft ts w h
replay_tick-IsRound trials ts (signalled (behind_row error)) w h =
    (measured_tick-IsClear trials ts error w h).0

-- Over rows of which none is pending, and none has the next index or a later one, a replay leaves
-- no row pending if it comes to the end of its schedule, is stopped or is left by an Exception,
-- whatever measuring its ticks does; if the signal handler's exception leaves it, exactly the row
-- of the last tick is pending where the signal came while that tick was measured, and none where
-- it came before the tick had a row or behind the measurement.
pub replay_leaves :
    (trials : List ReplayTrial) (rounds : ℕ → TickRound) (schedule : List ℕ) (w : World) (i : ℕ)
    → IsClear w.ticks (next_free w)
    → let (ending, w') = replay_loop trials rounds schedule w in
      is_pending i w'.ticks ≡ left_pending ending (next_free w') i
unfolding replay_loop
replay_leaves trials rounds [] w i h = h.0 i
replay_leaves trials rounds (ts ∷ schedule) w i h = elim (Bool-cases w.scheduler.stop) [
  | inl stopped ↦ rw (stopped, replay_loop) (h.0 i)
  | inr on ↦
      let next = (replay_tick trials ts (rounds 0) w).1 in
      let round = replay_tick-IsRound trials ts (rounds 0) w h in
      elim (Option-cases (replay_tick trials ts (rounds 0) w).0) [
        | inl fine ↦
            rw (on, fine, replay_loop)
              (replay_leaves trials (λ k. rounds (suc k)) schedule next i
                (subst (λ o. IsRound o next) fine round))
        | inr (ending, left) ↦ rw (on, left, replay_loop) (subst (λ o. IsRound o next) left round i)
      ]
]

-- A tick that leaves the loop going is counted, and leaves the stop flag alone.
record Counted (w w' : World) : Type 0 where
  stop : w'.scheduler.stop ≡ w.scheduler.stop
  processed : w'.scheduler.processed_ticks ≡ w.scheduler.processed_ticks + 1

replay_tick-Counted :
    (trials : List ReplayTrial) (ts : ℕ) (round : TickRound) (w : World)
    → (replay_tick trials ts round w).0 ≡ none
    → Counted w (replay_tick trials ts round w).1
unfolding replay_tick replay_insert replay_measured
replay_tick-Counted trials ts measures w e = record { stop = refl; processed = refl }
replay_tick-Counted trials ts (raises exc) w e = absurd cc
replay_tick-Counted trials ts (signalled before_row) w e = absurd cc
replay_tick-Counted trials ts (signalled with_row) w e = absurd cc
replay_tick-Counted trials ts (signalled (behind_row error)) w e = absurd cc

left_early :
    (trials : List ReplayTrial) (ts : ℕ) (round : TickRound) (w : World) {ending : ReplayEnd}
    → (replay_tick trials ts round w).0 ≡ some ending
    → ending ≡ ended
    → ⊥
unfolding replay_tick
left_early trials ts measures w left q = cc
left_early trials ts (raises exc) w left q = cc
left_early trials ts (signalled before_row) w left q = cc
left_early trials ts (signalled with_row) w left q = cc
left_early trials ts (signalled (behind_row error)) w left q = cc

-- A replay that is not stopped and returns has counted every tick of its schedule as processed.
pub replay_processes :
    (trials : List ReplayTrial) (rounds : ℕ → TickRound) (schedule : List ℕ) (w : World)
    → w.scheduler.stop ≡ false
    → (replay_loop trials rounds schedule w).0 ≡ ended
    → (replay_loop trials rounds schedule w).1.scheduler.processed_ticks
      ≡ w.scheduler.processed_ticks + length schedule
unfolding replay_loop
replay_processes trials rounds [] w on e = omega arith
replay_processes trials rounds (ts ∷ schedule) w on e =
    elim (Option-cases (replay_tick trials ts (rounds 0) w).0) [
      | inl fine ↦
          let c = replay_tick-Counted trials ts (rounds 0) w fine in
          let next = (replay_tick trials ts (rounds 0) w).1 in
          let rest =
            replay_processes trials (λ k. rounds (suc k)) schedule next (c.stop ∙ on)
              (rw (on, fine, replay_loop) at e) in
          let here = c.processed in rw (on, fine, replay_loop) (omega arith)
      | inr (ending, left) ↦
          absurd (left_early trials ts (rounds 0) w left (rw (on, left, replay_loop) at e))
    ]
