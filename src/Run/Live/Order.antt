-- ===== src/Run/Live/Order.antt =====
-- The order of the actions of a live run.
use fuzzmeter.Prelude.{◌≡◌, Bool, true, false, not, ◌&&◌, ◌||◌, List, [], ◌∷◌, if◌then◌else◌}
use fuzzmeter.Run.Live.{
  Action, start_scheduler, submit_trials, set_stop_event, stop_scheduler, cleanup_containers,
  shutdown_executor, join_scheduler,
}

abbrev pub is_sweep : Action → Bool
is_sweep cleanup_containers = true
is_sweep _ = false

abbrev pub is_stop : Action → Bool
is_stop stop_scheduler = true
is_stop _ = false

abbrev pub is_event : Action → Bool
is_event set_stop_event = true
is_event _ = false

abbrev pub is_join : Action → Bool
is_join join_scheduler = true
is_join _ = false

abbrev pub is_start : Action → Bool
is_start start_scheduler = true
is_start _ = false

abbrev pub is_shutdown : Action → Bool
is_shutdown (shutdown_executor b) = true
is_shutdown _ = false

abbrev pub is_submit : Action → Bool
is_submit submit_trials = true
is_submit _ = false

-- Whatever passes `q` comes after something that passes `p`.
abbrev pub comes_after : (Action → Bool) → (Action → Bool) → List Action → Bool
comes_after p q [] = true
comes_after p q (a ∷ as') = not (q a) && (if p a then true else comes_after p q as')

-- After each that passes `p` comes one that passes `q`.
abbrev pub followed_by : (Action → Bool) → (Action → Bool) → List Action → Bool
followed_by p q [] = true
followed_by p q (a ∷ as') = (if p a then some_of q as' else true) && followed_by p q as'
  where
    some_of : (Action → Bool) → List Action → Bool
    some_of q [] = false
    some_of q (a ∷ as') = q a || some_of q as'

-- What holds of the actions of every run with a scheduler.
abbrev pub IsOrderly : List Action → Type 0
IsOrderly actions =
    (comes_after (λ a. is_event a || is_join a) is_sweep actions ≡ true)
    × (comes_after is_stop is_sweep actions ≡ true)
    × (comes_after is_stop is_join actions ≡ true)
    × (followed_by is_start is_join actions ≡ true)
    × (followed_by is_submit is_shutdown actions ≡ true)
