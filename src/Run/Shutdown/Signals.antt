-- ===== src/Run/Shutdown/Signals.antt =====
-- The handler over the signals of a run.
use mathlib.Core.Path.{subst}
use mathlib.Core.List.{append-nil, append_assoc}
use fuzzmeter.Prelude.{
  ap, ◌∙◌, ℕ, ◌+◌, ◌≡◌, ◌⊎◌, inl, inr, refl, true, none, some, List, [], ◌∷◌, ◌++◌, arith,
}
use fuzzmeter.Prelude.Failing.{fold, >>=-some}
use fuzzmeter.Run.Shutdown.{
  Signal, signum, RunShutdown, fresh_shutdown, after_sweep, handle_signal, finish_sweep, Event,
  arrives, sweep_returns, step, handle_all,
}

abbrev pub signals_of : List Event → List Signal
signals_of [] = []
signals_of (arrives s ∷ events) = s ∷ signals_of events
signals_of (sweep_returns ∷ events) = signals_of events

-- A signal's handler waits for its sweep, or has raised.
abbrev pub IsSwept : Signal → RunShutdown → Type 0
IsSwept s r =
    ((r.sweeping ≡ s ∷ []) × (r.raised ≡ []))
    ⊎ ((r.sweeping ≡ []) × (r.raised ≡ after_sweep s ∷ []))

-- What the signals that have arrived have led to.
abbrev pub IsHandled : List Signal → RunShutdown → Type 0
IsHandled [] r = r ≡ fresh_shutdown
IsHandled (s ∷ []) r =
    (r.stop_event ≡ true)
    × (r.signal_count ≡ 1)
    × (r.sweeps ≡ 1)
    × (r.exit_status ≡ none)
    × IsSwept s r
IsHandled (s ∷ t ∷ []) r =
    (r.stop_event ≡ true) × (r.sweeps ≡ 1) × (r.exit_status ≡ some (128 + signum t)) × IsSwept s r
IsHandled (s ∷ t ∷ u ∷ more) r = ⊥

-- No event follows `os._exit`.
step_after_exit :
    (event : Event) (r r' : RunShutdown) (status : ℕ)
    → r.exit_status ≡ some status
    → step event r ≡ some r'
    → ⊥
unfolding step
step_after_exit event r r' status x e = ground (arith, x)

first-IsHandled :
    (event : Event) (r r' : RunShutdown)
    → r ≡ fresh_shutdown
    → step event r ≡ some r'
    → IsHandled (signals_of (event ∷ [])) r'
unfolding step handle_signal finish_sweep
first-IsHandled (arrives s) r r' h e =
    let e' : step (arrives s) fresh_shutdown ≡ some r' =
      subst (λ x. step (arrives s) x ≡ some r') h e in
    let made : handle_signal s fresh_shutdown ≡ r' = cc in
    subst (IsHandled (s ∷ [])) made (refl, refl, refl, refl, inl (refl, refl))
first-IsHandled sweep_returns r r' h e =
    let e' : step sweep_returns fresh_shutdown ≡ some r' =
      subst (λ x. step sweep_returns x ≡ some r') h e in
    absurd cc

second-IsHandled :
    (s t : Signal) (r r' : RunShutdown)
    → IsHandled (s ∷ []) r
    → step (arrives t) r ≡ some r'
    → IsHandled (s ∷ t ∷ []) r'
unfolding step handle_signal
second-IsHandled s t r r' (stop, n, sweeps, on, swept) e =
    let made : handle_signal t r ≡ r' = ground (arith, on) in
    subst (IsHandled (s ∷ t ∷ [])) made (rw n (refl, sweeps, refl, swept))

swept-IsHandled :
    (s : Signal) (r r' : RunShutdown)
    → IsHandled (s ∷ []) r
    → step sweep_returns r ≡ some r'
    → IsHandled (s ∷ []) r'
unfolding step finish_sweep
swept-IsHandled s r r' (stop, n, sweeps, on, inl (waits, none_raised)) e =
    let made : record r { sweeping = []; raised = after_sweep s ∷ r.raised } ≡ r' =
      ground (arith, on, waits) in
    subst (IsHandled (s ∷ [])) made (stop, n, sweeps, on, inr (refl, rw none_raised refl))
swept-IsHandled s r r' (stop, n, sweeps, on, inr (none_waits, was_raised)) e =
    absurd (ground (arith, on, none_waits))

step-IsHandled :
    (signals : List Signal) (event : Event) (r r' : RunShutdown)
    → IsHandled signals r
    → step event r ≡ some r'
    → IsHandled (signals ++ signals_of (event ∷ [])) r'
step-IsHandled [] event r r' h e = first-IsHandled event r r' h e
step-IsHandled (s ∷ []) (arrives t) r r' h e = second-IsHandled s t r r' h e
step-IsHandled (s ∷ []) sweep_returns r r' h e = swept-IsHandled s r r' h e
step-IsHandled (s ∷ t ∷ []) event r r' (stop, sweeps, exits, swept) e =
    absurd (step_after_exit event r r' (128 + signum t) exits e)
step-IsHandled (s ∷ t ∷ u ∷ more) event r r' h e = absurd h

handle_all-IsHandled :
    (signals : List Signal) (events : List Event) (r r' : RunShutdown)
    → IsHandled signals r
    → fold step events r ≡ some r'
    → IsHandled (signals ++ signals_of events) r'
unfolding fold
handle_all-IsHandled signals [] r r' h e =
    let same : r ≡ r' = cc in rw append-nil (subst (IsHandled signals) same h)
handle_all-IsHandled signals (event ∷ events) r r' h e =
    let (mid, here, rest) = >>=-some (step event r) (fold step events) e in
    subst (λ l. IsHandled l r')
      (append_assoc signals (signals_of (event ∷ [])) (signals_of events)
        ∙ ap (λ l. signals ++ l) (split_event event events))
      (handle_all-IsHandled (signals ++ signals_of (event ∷ [])) events mid r'
        (step-IsHandled signals event r mid h here) rest)
  where
    split_event :
        (event : Event) (events : List Event)
        → signals_of (event ∷ []) ++ signals_of events ≡ signals_of (event ∷ events)
    split_event (arrives s) events = refl
    split_event sweep_returns events = refl

-- From a fresh shutdown, whatever signals arrive and whenever a sweep returns: the first signal
-- has set the stop event and begun the one sweep there is, and raises only behind the sweep; a
-- second signal, also one that arrives while that sweep still runs, ends the process with its own
-- status and begins no sweep; no third one is handled.
pub one_sweep :
    (events : List Event) (r : RunShutdown)
    → handle_all events fresh_shutdown ≡ some r
    → IsHandled (signals_of events) r
unfolding handle_all
one_sweep events r h = handle_all-IsHandled [] events fresh_shutdown r refl h
