-- ===== src/Snapshot/Scheduler/Pipeline/Tracking.antt =====
-- Queue and rows that agree, under each operation on them.
use fuzzmeter.Prelude.{
  ℕ, ◌+◌, ◌≤◌, ◌≡◌, ◌≢◌, refl, Bool, false, ◌||◌, Option, none, some, List, [], ◌∷◌, ◌++◌, arith,
  nat_beq, Bool-cases, inl, inr,
}
use fuzzmeter.Db.Ticks.{
  Failure, TickError, not_processed, Status, pending, aborted, TickTable, find_tick, insert_tick,
  update_tick,
}
use fuzzmeter.Db.Ticks.Lookup.{
  find_tick-insert_tick, find_tick-update_tick, is_pending, is_pending-insert_tick,
  is_pending-update_tick,
}
use fuzzmeter.Snapshot.Scheduler.State.{SnapshotData}
use fuzzmeter.Snapshot.Scheduler.Pipeline.{World, next_free, abort_pending}

abbrev pub Queue : Type 0
Queue = List (Option SnapshotData)

-- The tick stands in the queue.
abbrev pub has_idx : ℕ → Queue → Bool
has_idx i [] = false
has_idx i (none ∷ queue) = has_idx i queue
has_idx i (some d ∷ queue) = nat_beq d.tick_idx i || has_idx i queue

-- No tick stands in the queue twice.
abbrev pub IsOnce : Queue → Type 0
IsOnce [] = Unit
IsOnce (none ∷ queue) = IsOnce queue
IsOnce (some d ∷ queue) = (has_idx d.tick_idx queue ≡ false) × IsOnce queue

-- Queue and rows agree, and no row is taken from the index `free` on.
pub record IsInStep (queue : Queue) (ticks : TickTable) (free : ℕ) : Type 0 where
  pub tracked : (i : ℕ) → is_pending i ticks ≡ has_idx i queue
  pub once : IsOnce queue
  pub fresh : (i : ℕ) → free ≤ i → find_tick i ticks ≡ none

abbrev pub IsTracked : World → Type 0
IsTracked w = IsInStep w.scheduler.tick_queue w.ticks (next_free w)

has_idx-append :
    (i : ℕ) (queue : Queue) (d : SnapshotData)
    → has_idx i (queue ++ some d ∷ []) ≡ (nat_beq d.tick_idx i || has_idx i queue)
has_idx-append i [] d = refl
has_idx-append i (none ∷ queue) d = has_idx-append i queue d
has_idx-append i (some e ∷ queue) d = ground (arith, has_idx-append i queue d)

IsOnce-append :
    (queue : Queue) (d : SnapshotData)
    → IsOnce queue
    → has_idx d.tick_idx queue ≡ false
    → IsOnce (queue ++ some d ∷ [])
IsOnce-append [] d o h = (refl, tt)
IsOnce-append (none ∷ queue) d o h = IsOnce-append queue d o h
IsOnce-append (some e ∷ queue) d o h =
    ground (arith, IsOnce-append queue d o.1, has_idx-append e.tick_idx queue d)

not_pending : (ticks : TickTable) (i : ℕ) → find_tick i ticks ≡ none → is_pending i ticks ≡ false
not_pending ticks i e = rw e

pub push-IsInStep :
    (d : SnapshotData) (ts : ℕ) (queue : Queue) (ticks : TickTable)
    → IsInStep queue ticks d.tick_idx
    → IsInStep (queue ++ some d ∷ []) (insert_tick d.tick_idx ts ticks) (d.tick_idx + 1)
push-IsInStep d ts queue ticks h = record {
  tracked = λ i. ground (
    arith,
    h.tracked i,
    is_pending-insert_tick i d.tick_idx ts ticks free,
    has_idx-append i queue d,
  );
  once =
      IsOnce-append queue d h.once
        (ground (arith, h.tracked d.tick_idx, not_pending ticks d.tick_idx free));
  fresh = λ i le. ground (arith, find_tick-insert_tick i d.tick_idx ts ticks, h.fresh i);
}
  where
    free : find_tick d.tick_idx ticks ≡ none
    free = h.fresh d.tick_idx (omega arith)

-- A tick leaves the queue with a status that is not `pending`.
pub pop-IsInStep :
    (status : Status) (error : Option TickError) (d : SnapshotData) (queue : Queue)
    (ticks : TickTable) (free : ℕ)
    → status ≢ pending
    → IsInStep (some d ∷ queue) ticks free
    → IsInStep queue (update_tick status error d.tick_idx ticks) free
pop-IsInStep status error d queue ticks free done h = record {
  tracked = λ i. elim (Bool-cases (nat_beq d.tick_idx i)) [
    | inl same ↦
        let eq : d.tick_idx ≡ i = ground arith in
        ground
          (arith, is_pending-update_tick i status error d.tick_idx ticks done, rw eq at h.once.0)
    | inr other ↦
        ground (arith, h.tracked i, is_pending-update_tick i status error d.tick_idx ticks done)
  ];
  once = h.once.1;
  fresh =
      λ i le. ground (arith, find_tick-update_tick i status error d.tick_idx ticks, h.fresh i le);
}

pub abort_pending-IsInStep :
    (cause : Failure) (queue : Queue) (ticks : TickTable) (free : ℕ)
    → IsInStep queue ticks free
    → IsInStep (abort_pending cause queue ticks).0 (abort_pending cause queue ticks).1 free
unfolding abort_pending
abort_pending-IsInStep cause [] ticks free h = h
abort_pending-IsInStep cause (none ∷ queue) ticks free h = record {
  tracked = h.tracked;
  once = h.once;
  fresh = h.fresh;
}
abort_pending-IsInStep cause (some d ∷ queue) ticks free h =
    abort_pending-IsInStep cause queue _ free
      (pop-IsInStep aborted (some (not_processed cause)) d queue ticks free (λ e. cc) h)
