-- ===== src/Trial/Container.antt =====
-- The control flow of `TrialContainer` in src/fuzzmeter/trial/runtime.py. What Docker, the clock and
-- the stop event answer is handed in, call by call.
pub mod Deadline
use fuzzmeter.Prelude.{
  ℕ, zero, suc, ◌+◌, Bool, true, false, not, ◌&&◌, Option, none, some, String, List, [], ◌∷◌, ◌++◌,
  ltb, leb, if◌then◌else◌, filter,
}
use fuzzmeter.Prelude.Equality.{◌==◌, string_eq, elem}

-- The exceptions that the handlers tell apart: SnapshotProcessingError, any other Exception, and
-- a BaseException such as KeyboardInterrupt.
pub data Raised : Type 0 where
  processing_error exception base_exception : Raised

-- `_active_container_names.add`
abbrev pub add_name : String → List String → List String
add_name name names = if elem name names then names else name ∷ names

-- `_active_container_names.discard`
abbrev pub discard_name : String → List String → List String
discard_name name names = filter (λ n. not (n == name)) names

-- What `is_running` of Docker answers, or raises.
pub data Answer : Type 0 where
  up down : Answer
  raises : Raised → Answer

-- What the calls of `start` answer; `docker_start` is what starting raises.
pub record StartCalls : Type 0 where
  pub stop_set : Bool
  pub docker_start : Option Raised
  pub is_running : Answer

pub data Started : Type 0 where
  declined : Started
  running : Started
  start_raised : Raised → Started

-- The active names after `start`, and how it ended. The `finally` raises RuntimeError whatever
-- reading the logs and removing the container raised.
unfoldable pub start : String → StartCalls → List String → List String × Started
start name calls names = if calls.stop_set then (names, declined) else elim calls.docker_start [
  | some error ↦ (add_name name names, start_raised error)
  | none ↦ elim calls.is_running [
    | up ↦ (add_name name names, running)
    | down ↦ (discard_name name (add_name name names), start_raised exception)
    | raises error ↦ (add_name name names, start_raised error)
  ]
]

-- `stop`, whatever its calls of Docker raise.
abbrev pub stop : String → List String → List String
stop name names = discard_name name names

-- What one round of the wait reads; `now` counts half seconds.
pub record Round : Type 0 where
  pub now : ℕ
  pub is_running : Answer
  pub stop_set : Bool

abbrev pub is_up : Answer → Bool
is_up up = true
is_up down = false
is_up (raises error) = false

-- The round that ends the loop; none is out of fuel.
unfoldable pub wait_round : ℕ → ℕ → (ℕ → Round) → ℕ → Option ℕ
wait_round zero deadline rounds i = none
wait_round (suc fuel) deadline rounds i =
    let r = rounds i in
    let more = wait_round fuel deadline rounds (suc i) in
    if ltb r.now deadline && is_up r.is_running
    then (if r.stop_set then some i else more)
    else some i

-- What is read after the loop ended in a round, and what `docker.wait` and `docker.logs` raise.
pub record After : Type 0 where
  pub now : ℕ
  pub stop_set : Bool
  pub docker_raises : Option Raised

pub record MonitorCalls : Type 0 where
  pub now : ℕ
  pub rounds : ℕ → Round
  pub after : ℕ → After

abbrev pub or_exception : Option Raised → Raised
or_exception none = exception
or_exception (some error) = error

-- After the loop: return on a stop or past the deadline, else raise.
abbrev pub after_wait : ℕ → After → Option Raised
after_wait deadline a =
    if a.stop_set
    then none
    else if leb deadline a.now
    then none
    else some (or_exception a.docker_raises)

-- What the last test of the loop raises: before the deadline Docker was asked.
abbrev pub test_raises : ℕ → Round → Option Raised
test_raises deadline r =
    if ltb r.now deadline
    then elim r.is_running [ up ↦ none | down ↦ none | raises error ↦ some error ]
    else none

abbrev pub end_of_wait : ℕ → Round → After → Option Raised
end_of_wait deadline r a = elim (test_raises deadline r) [
  | some error ↦ some error
  | none ↦ after_wait deadline a
]

abbrev pub deadline_of : ℕ → MonitorCalls → ℕ
deadline_of trial_timeout calls = calls.now + (trial_timeout + trial_timeout)

-- The exception that `monitor_until_deadline` raises, if any. Its rounds sleep half a second each,
-- so twice the timeout and one are enough.
unfoldable pub monitor_until_deadline : ℕ → MonitorCalls → Option (Option Raised)
unfolding wait_round
monitor_until_deadline trial_timeout calls =
    elim (wait_round (suc (trial_timeout + trial_timeout)) (deadline_of trial_timeout calls)
      calls.rounds 0) [
        | none ↦ none
        | some i ↦
            some (end_of_wait (deadline_of trial_timeout calls) (calls.rounds i) (calls.after i))
      ]

-- The first loop of `force_stop_all_active`: every name is discarded, whatever Docker raises.
pub discard_all : List String → List String → List String
discard_all [] names = names
discard_all (n ∷ ns) names = discard_all ns (discard_name n names)

pub force_stop_all_active : List String → List String
unfolding discard_all
force_stop_all_active names = discard_all names names
