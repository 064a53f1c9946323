-- ===== src/Snapshot/Scheduler/Pipeline/Drain.antt =====
-- The worker's rounds once the end mark stands in the queue.
use mathlib.Core.Path.{subst, ap₂}
use fuzzmeter.Prelude.{
  sym, ap, ℕ, zero, suc, ◌<◌, ◌≡◌, refl, ◌∙◌, ◌⊎◌, inl, inr, Bool, true, false, Option, none, some,
  [], ◌∷◌, ◌++◌, arith, length, length-append, Bool-cases,
}
use fuzzmeter.Db.Ticks.{Failure, TickTable}
use fuzzmeter.Snapshot.Scheduler.State.{SnapshotData, set_fatal_error, shutting_down}
use fuzzmeter.Snapshot.Scheduler.Pipeline.{
  World, Measured, abort_pending, abort_pending_ticks, after_measuring, take, serve, worker_step,
  put_end, worker_loop, finish,
}
use fuzzmeter.Snapshot.Scheduler.Pipeline.Tracking.{Queue, IsTracked}
use fuzzmeter.Snapshot.Scheduler.Pipeline.Steps.{worker_step-IsTracked, queue-interrupt}

-- The end mark has not been put yet.
abbrev pub has_end : Queue → Bool
has_end [] = false
has_end (none ∷ queue) = true
has_end (some d ∷ queue) = has_end queue

-- Aborting takes everything up to the end mark, here the last item.
abort_pending-end :
    (cause : Failure) (queue : Queue) (ticks : TickTable)
    → has_end queue ≡ false
    → (abort_pending cause (queue ++ none ∷ []) ticks).0 ≡ []
unfolding abort_pending
abort_pending-end cause [] ticks h = refl
abort_pending-end cause (none ∷ queue) ticks h = cc
abort_pending-end cause (some d ∷ queue) ticks h = abort_pending-end cause queue _ h

idle-worker_step : (m : Measured) (w : World) → w.scheduler.tick_queue ≡ [] → worker_step m w ≡ w
unfolding worker_step
idle-worker_step m w e = ap (λ q. serve m q w.worker w) e

idle-worker_loop :
    (outcomes : ℕ → Measured) (n : ℕ) (w : World)
    → w.scheduler.tick_queue ≡ []
    → (worker_loop outcomes n w).scheduler.tick_queue ≡ []
unfolding worker_loop
idle-worker_loop outcomes zero w e = e
idle-worker_loop outcomes (suc n) w e =
    idle-worker_loop (λ k. outcomes (suc k)) n _ (rw (idle-worker_step (outcomes 0) w e) e)

serve_ended : (m : Measured) (queue : Queue) (w : World) → serve m queue false w ≡ w
unfolding serve
serve_ended m [] w = refl
serve_ended m (item ∷ queue) w = refl

ended-worker_step : (m : Measured) (w : World) → w.worker ≡ false → worker_step m w ≡ w
unfolding worker_step
ended-worker_step m w e =
    ap (λ b. serve m w.scheduler.tick_queue b w) e ∙ serve_ended m w.scheduler.tick_queue w

ended-worker_loop :
    (outcomes : ℕ → Measured) (n : ℕ) (w : World) → w.worker ≡ false → worker_loop outcomes n w ≡ w
unfolding worker_loop
ended-worker_loop outcomes zero w e = refl
ended-worker_loop outcomes (suc n) w e =
    rw (ended-worker_step (outcomes 0) w e) (ended-worker_loop (λ k. outcomes (suc k)) n w e)

-- After a tick the worker goes on with the rest of the queue, or nothing is left.
abbrev Leaves : Queue → World → Type 0
Leaves rest w =
    (w.scheduler.tick_queue ≡ [])
    ⊎ ((w.worker ≡ true) × (w.scheduler.tick_queue ≡ rest ++ none ∷ []))

measured-Leaves :
    (d : SnapshotData) (error : Option Failure) (rest : Queue) (w : World)
    → has_end rest ≡ false
    → w.worker ≡ true
    → w.scheduler.tick_queue ≡ rest ++ none ∷ []
    → Leaves rest (after_measuring d error w)
unfolding after_measuring set_fatal_error
measured-Leaves d none rest w h alive e = inr (alive, e)
measured-Leaves d (some exc) rest w h alive e = elim (Bool-cases (shutting_down w.scheduler)) [
  | inl down ↦ rw down (inr (alive, e))
  | inr up ↦ rw up (inl (rw e (abort_pending-end exc rest _ h)))
]

step-Leaves :
    (m : Measured) (d : SnapshotData) (rest : Queue) (w : World)
    → has_end rest ≡ false
    → w.worker ≡ true
    → w.scheduler.tick_queue ≡ some d ∷ (rest ++ none ∷ [])
    → Leaves rest (worker_step m w)
unfolding worker_step serve take
step-Leaves m d rest w h alive e =
    subst (Leaves rest) (sym (ap₂ (λ q b. serve m q b w) e alive))
      (measured-Leaves d m.error rest _ h alive (queue-interrupt m.interrupted _))

-- The end mark alone is taken.
end_taken :
    (m : Measured) (w : World)
    → w.worker ≡ true
    → w.scheduler.tick_queue ≡ none ∷ []
    → (worker_step m w).scheduler.tick_queue ≡ []
unfolding worker_step serve take
end_taken m w alive e =
    subst (λ w'. w'.scheduler.tick_queue ≡ []) (sym (ap₂ (λ q b. serve m q b w) e alive)) refl

-- A running worker empties the queue in as many rounds as the queue has items.
loop_empties :
    (outcomes : ℕ → Measured) (rest : Queue) (n : ℕ) (w : World)
    → has_end rest ≡ false
    → w.worker ≡ true
    → w.scheduler.tick_queue ≡ rest ++ none ∷ []
    → length rest < n
    → (worker_loop outcomes n w).scheduler.tick_queue ≡ []
unfolding worker_loop
loop_empties outcomes rest zero w h alive e enough = absurd (omega arith)
loop_empties outcomes [] (suc n) w h alive e enough =
    idle-worker_loop (λ k. outcomes (suc k)) n (worker_step (outcomes 0) w)
      (end_taken (outcomes 0) w alive e)
loop_empties outcomes (none ∷ rest) (suc n) w h alive e enough = cc
loop_empties outcomes (some d ∷ rest) (suc n) w h alive e enough =
    elim (step-Leaves (outcomes 0) d rest w h alive e) [
      | inl empty ↦ idle-worker_loop (λ k. outcomes (suc k)) n (worker_step (outcomes 0) w) empty
      | inr (alive', e') ↦
          loop_empties (λ k. outcomes (suc k)) rest n (worker_step (outcomes 0) w) h alive' e'
            (omega arith)
    ]

pub worker_loop-IsTracked :
    (outcomes : ℕ → Measured) (n : ℕ) (w : World)
    → IsTracked w
    → IsTracked (worker_loop outcomes n w)
unfolding worker_loop
worker_loop-IsTracked outcomes zero w h = h
worker_loop-IsTracked outcomes (suc n) w h =
    worker_loop-IsTracked (λ k. outcomes (suc k)) n (worker_step (outcomes 0) w)
      (worker_step-IsTracked (outcomes 0) w h)

-- The worker runs, or it has ended by a fatal error.
abbrev pub CanFinish : World → Type 0
CanFinish w =
    (w.worker ≡ true)
    ⊎ ((w.worker ≡ false) × ((cause : Failure) × (w.scheduler.fatal_error ≡ some cause)))

abbrev pub joined : (ℕ → Measured) → World → World
joined outcomes w = worker_loop outcomes (length (put_end w).scheduler.tick_queue) (put_end w)

pub queue-put_end :
    (w : World) → (put_end w).scheduler.tick_queue ≡ w.scheduler.tick_queue ++ none ∷ []
unfolding put_end
queue-put_end w = refl

pub alive-joined :
    (outcomes : ℕ → Measured) (w : World)
    → has_end w.scheduler.tick_queue ≡ false
    → w.worker ≡ true
    → (joined outcomes w).scheduler.tick_queue ≡ []
alive-joined outcomes w h alive =
    loop_empties outcomes w.scheduler.tick_queue _ (put_end w) h (unfold put_end in alive)
      (queue-put_end w) (rw queue-put_end (rw length-append (omega arith)))

pub ended-joined :
    (outcomes : ℕ → Measured) (w : World) → w.worker ≡ false → joined outcomes w ≡ put_end w
ended-joined outcomes w ended =
    ended-worker_loop outcomes (length (put_end w).scheduler.tick_queue) (put_end w)
      (unfold put_end in ended)

pub queue-abort :
    (cause : Failure) (w : World) (rest : Queue)
    → has_end rest ≡ false
    → (w.scheduler.tick_queue ≡ []) ⊎ (w.scheduler.tick_queue ≡ rest ++ none ∷ [])
    → (abort_pending_ticks cause w).scheduler.tick_queue ≡ []
unfolding abort_pending_ticks
queue-abort cause w rest h (inl e) = rw e (unfold abort_pending in refl)
queue-abort cause w rest h (inr e) = rw e (abort_pending-end cause rest w.ticks h)

pub finish_result :
    (outcomes : ℕ → Measured) (w : World) (o : Option Failure)
    → (joined outcomes w).scheduler.fatal_error ≡ o
    → finish outcomes w ≡ elim o [
      | none ↦ joined outcomes w
      | some cause ↦ abort_pending_ticks cause (joined outcomes w)
    ]
unfolding finish
finish_result outcomes w o e =
    ap
      (λ (x : Option Failure). elim x as (λ y. World) [
        | none ↦ joined outcomes w
        | some cause ↦ abort_pending_ticks cause (joined outcomes w)
      ])
      e
