-- ===== src/Lib.antt =====
-- fuzzmeter, a benchmarking framework for fuzzers: what it schedules, records and stores while a
-- run measures its trials.
--
-- A run starts trials on worker threads. Each trial registers with the snapshot scheduler when it
-- begins and unregisters when it ends. The scheduler's loop finds the periodic snapshots that have
-- come due, writes a pending row for each into the run's database and puts a tick into a queue; a
-- worker thread takes the ticks off, measures the trials and marks the row as completed, failed or
-- aborted. A replay builds the list of all its ticks beforehand. Measured coverage is stored as
-- delta-coded varints, packed by zlib and base64. The runner splits the jobs of the run between
-- trials and snapshots, starts the threads and ends them in order; each trial writes its own row.
-- Reports compare the sets that trials found, fuzzer by fuzzer, and composite reports put
-- measurements of several runs together where their metadata allows it.
--
-- Files:
--
-- - Snapshot/Scheduler/State models the state of `SnapshotScheduler` in
--   src/fuzzmeter/snapshot/scheduler.py as the record `Scheduler`, with `register`, `unregister`,
--   `stop` (`request_stop`) and the fatal error; State/Invariant defines `IsScheduled`, a
--   schedule in order.
-- - Snapshot/Scheduler/Periodic models `_due_periodic_snapshots`. Due, Visit, Schedule and
--   Minimum treat its loops, Laws one call, Calls and Split successive calls.
-- - Snapshot/Scheduler/Pipeline models the tick methods over a `World` of scheduler, tick rows
--   and worker: `_allocate_tick_idx` (`next_free`), `_schedule_tick`, `schedule_final_tick`,
--   `_tick_worker_loop` (`worker_step`, `worker_loop`), `_record_tick_error`,
--   `_abort_pending_ticks`, `_tick_jobs`, and the body and the `finally` of `run_loop`
--   (`schedule_due`, `finish`). Reachable holds the step relation `Step` of the threads, Ending a
--   run from its beginning to its end, Verdicts what becomes of each row. Replayed models the
--   loop of `run_loop` in `ReplaySnapshotScheduler`, which processes its ticks without the queue,
--   on the main thread: there a signal is an exception of the handler, which `except Exception`
--   does not catch.
-- - Snapshot/Scheduler/Replay models `_build_tick_schedule` and the choice of a tick's trials in
--   `run_loop` of `ReplaySnapshotScheduler`.
-- - Snapshot/Scheduler/Progress models `_update_run_progress`.
-- - Db/Ticks models the table `snapshot_ticks` of src/fuzzmeter/db/schema.py and its functions in
--   src/fuzzmeter/db/snapshot.py.
-- - Coverage/Codec models `_encode_uvarint` to `_decode_compact_metric` of
--   src/fuzzmeter/resources/entrypoints/coverage_sets.py; base64 and zlib are its parameter
--   `Packing`.
-- - Config models the package config: Config/Merge `_merge`; Config/Values the checks of YAML
--   values, with Python, PyYAML and the file system as the parameter `Host`; Config/Fuzzers
--   `_load_fuzzer_from_config`, with the entries as explicit state, Config/Fuzzers/Closure
--   `Fuzzer.parents` and `Fuzzer.dependencies`; Config/Targets `_load_fuzz_targets`;
--   Config/Selection `_load_fuzzers`; Config/Campaign the settings, the cases and
--   `load_campaign_config`, with the layers of a case's configuration merged one after the other
--   in Config/Campaign/Layers. Loading a fuzzer takes one unit of fuel for each fuzzer that is
--   entered, of which there are no more than directories, and `_load_fuzzers` gives one more than
--   that. Keys of mappings are texts.
-- - Coverage/Sets models `_covered_hashes` and what it calls, and `branch_summary_from_export`,
--   of the same file, with Python's conversions and hashlib's digest as the parameter `Python`;
--   Coverage/Sets/Document models `write_coverage_sets` and `read_covered_keys` over it.
-- - Run/Resources models `_live_resource_plan` and `_wait_for_futures` of
--   src/fuzzmeter/run/runner.py.
-- - Run/Live models `_run_live_experiment` of that file as the sequence of what it does to the
--   executor, the scheduler and the containers. An exception in the `finally` itself, as from a
--   second signal, is not modelled.
-- - Run/Replay models `_run_replay_experiment` over the rows of the trials; the database is taken
--   to open.
-- - Run/Shutdown models `_handle_signal` of src/fuzzmeter/run/shutdown.py. Its `Event`s are the
--   arrival of a signal, which is handled up to the sweep or to `os._exit` as one step, and the
--   return of a sweep; so a signal may come while a sweep runs.
-- - Reporting/SetComparison models `trial_set_index` and `_trial_set_counts` of
--   src/fuzzmeter/reporting/set_comparison.py; a count list, which the source indexes by the
--   position of a label, is a function of the label. Owners and Index treat the ownership index,
--   Loops, Sizes and Cells the counts against sizes of sets, Bounds what a bound says of the sets
--   that are missing. Comparison models `trial_set_comparison` and its note, whose text is a list
--   of its sentences.
-- - Reporting/BugAnalysis models `attach_exclusive_bug_stats` and, in Collected, `trial_bug_sets`
--   of src/fuzzmeter/reporting/analyzers/bug_analysis.py.
-- - Db/Trials models the table `trials` and its functions in src/fuzzmeter/db/trials.py.
-- - Trial/Container models the control flow of `TrialContainer` in
--   src/fuzzmeter/trial/runtime.py, Trial/Runner `run_one_trial` of
--   src/fuzzmeter/trial/runner.py. What Docker, the clock, the stop event and other threads do is
--   handed in as `Environment`, call by call. Endings and Outcomes hold how a trial ends and what
--   it leaves.
-- - Composite/Key models `as_id`, `from_id`, `_escape` and `_unescape` of
--   src/fuzzmeter/composite/models.py on lists of code points.
-- - Json holds JSON values with Python's equality, over a type of numbers. Composite/Diffs models
--   `_diff_dict` of src/fuzzmeter/composite/compatibility.py; the children of two objects are
--   compared along the reference's fields, and the result put together along the sorted keys.
--   Composite/Compatibility models the rest of that file. A value None and a missing key are one
--   there, as in the source.
-- - Prelude and Dict hold what these share: tests on numbers, lists, key equality, a stable sort,
--   bits, and Python's dict as an association list in the order of insertion.
--
-- Numbers are naturals: time stamps, seconds and counts are not negative in the source, and each
-- difference that could be is cut off there by `max(0, …)` or guarded; Python's integers have no
-- bound, so there is no overflow. The configuration makes the time step at least 60 seconds, so a
-- positive step is a hypothesis where the source needs one to end its loop.
--
-- Fuel: the inner loop of `_due_periodic_snapshots` has a round for each second from the scheduled
-- time stamp to now, the loop of `_build_tick_schedule` one for each second of a trial, the loop
-- of `_decode_compact_metric` one for each byte; each bounds the rounds that the loop in the
-- source takes. The worker has a round for each item of the queue, the end mark included.
-- `monitor_until_deadline` has two rounds for each second of the trial's timeout and one more,
-- where the source sleeps half a second in each. `_encode_uvarint` is recursion on the
-- accessibility of `<`.
--
-- Threads: a step of `Step` is one whole method, or one round of a loop with its database writes.
-- The steps of different threads come in any order; an interleaving inside a method is not
-- modelled, so neither is one between the insertion of a tick's row and its place in the queue.
--
-- Not modelled: collecting and processing a snapshot (the parameters `Measured`, and `TickRound`
-- in a replay, say whether it raised and whether a signal came), resource telemetry, logging,
-- progress bars as such, rows of other runs, what Docker does, the other report data, the
-- collection of composite reports, the names and paths of a configuration, and the packages repro,
-- docker, artifacts, fuzzers and web of src/fuzzmeter.
pub mod Prelude
pub mod Dict
pub mod Json
pub mod Coverage
pub mod Db
pub mod Snapshot
pub mod Reporting
pub mod Trial
pub mod Composite
pub mod Config
pub mod Run
