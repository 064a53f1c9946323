-- ===== src/Run/Resources/Futures.antt =====
-- Waiting for the futures.
use fuzzmeter.Prelude.{ℕ, ◌≡◌, ◌∙◌, ap, sym, not, List, [], ◌∷◌, ◌++◌, map, filter, nat_beq}
use mathlib.Core.List.{append-nil, append_assoc}
use fuzzmeter.Run.Resources.{
  Outcome, result, failure, returned, raised, wait_loop, wait_for_futures,
}

abbrev pub payload : {A : Type 0} → ℕ × A → A
payload (i, a) = a

module _ {A E : Type 0} where
  abbrev pub as_result : ℕ × A → ℕ × Outcome A E
  as_result (i, a) = (i, result a)

  wait_loop-results :
      (futures : List ℕ) (done : List (ℕ × A)) (rest : List (ℕ × Outcome A E)) (results : List A)
      → wait_loop futures (map as_result done ++ rest) results
        ≡ wait_loop futures rest (results ++ map payload done)
  unfolding wait_loop
  wait_loop-results futures [] rest results = rw append-nil
  wait_loop-results futures ((i, a) ∷ done) rest results =
      wait_loop-results futures done rest (results ++ a ∷ [])
      ∙ ap (wait_loop futures rest) (append_assoc results (a ∷ []) (map payload done))

  -- If every future succeeds, the results come in the order of completion.
  pub wait_returns :
      (futures : List ℕ) (done : List (ℕ × A))
      → wait_for_futures futures (map as_result done) ≡ returned (map payload done)
  unfolding wait_for_futures
  wait_returns futures done =
      ap (λ (t : List (ℕ × Outcome A E)). wait_loop futures t [])
        (sym (append-nil (map as_result done)))
      ∙ wait_loop-results futures done [] []

  -- The first future to fail decides: its exception is raised, whatever completes later, and
  -- every other future is cancelled.
  pub wait_raises :
      (futures : List ℕ) (done : List (ℕ × A)) (i : ℕ) (e : E) (later : List (ℕ × Outcome A E))
      → wait_for_futures futures (map as_result done ++ (i, failure e) ∷ later)
        ≡ raised e (filter (λ pending. not (nat_beq pending i)) futures)
  unfolding wait_for_futures
  wait_raises futures done i e later = wait_loop-results futures done ((i, failure e) ∷ later) []
