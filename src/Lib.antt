-- ===== src/Lib.antt =====
-- A model of VeriProc, the processing framework of this repository, and theorems about it.
--
-- VeriProc keeps tasks, runs and jobs in an SQL database. A task is one window of data for one
-- station; a run is one attempt at it, which is prepared, dispatched to an executor (a batch system
-- or a local process), polled, and finalized; a dispatcher, a reconciler and the HTTP API call the
-- run service concurrently. The database's conditional UPDATE statements are what keeps them apart.
--
-- - Prelude: errors as values (Prelude/Errors), code that changes a state and may fail
--   (Prelude/Effects, with InTx of internal/store/store.go), and the relation between the states
--   before and after it (Prelude/Effects/Within).
-- - Store: internal/store. The tables as lists of rows (Store/Records, Store/Db), the SQL statements
--   on them (Store/Table), and the repositories: Store/Runs (runs.go, runs_lifecycle.go),
--   Store/Jobs, Store/Tasks, Store/Fingerprints (manifests.go, canonicality.go), Store/Manifests,
--   Store/Artifacts (artifacts.go, publications.go, provenance.go), Store/SplitGroups. Under
--   Store/Runs stand the diagram of states, the unique keys and the coherence of the columns;
--   Store/Legal says what every call of the store keeps.
-- - Executor: internal/executor. The interface as a record of operations over the state behind it,
--   the registry, the stub executor, and what the Slurm executor reads in the output of its commands
--   (Executor/Slurm).
-- - Runs: internal/runs. Prepare (PrepareRun, Retry), Dispatch, Poll, Cancel, Promote
--   (PromoteCanonical), Finalize (Finalize, MarkFailedAndLog), Join (contributeToJoinDownstream),
--   Dispatcher.
--   Runs/World holds what these calls read and write, and in `Env` what they take from outside.
-- - Groups: internal/groups. Reconciler: internal/reconciler.
-- - Submission: internal/tasks, the submission of tasks under idempotency keys, with the records of
--   Store/Idempotency. Json: internal/canonjson and the canonical content of a task. Policy: the ids
--   of tasks in internal/policy.
-- - Cleaner: internal/cleaner, over Store/Cleanup (cleanup.go): the purge of runs and tasks, the
--   closure of descendants, and the foreign keys between the tables that it touches, which are
--   checked when the transaction of a purge commits (Store/Cleanup/Commit).
-- - Publisher: internal/publisher, over Store/Publications. Store/Controls: the pauses of stations
--   (station_controls.go).
-- - Access: internal/accessprofile, on texts as lists of code points (Prelude/Text): the lines of a
--   profile, and under Access/File the whole file, its indexes and its edits.
-- - Auth: internal/auth, with the quota of mutating requests in Auth/Quota.
-- - System: every call of these services as one language, and what any history of calls keeps.
-- - Examples: concrete inputs.
--
-- A row is a record with the columns as fields. A time is a number of nanoseconds; within one call
-- the clock is read once, as its argument. A nullable text is "" where it is NULL; a nullable time
-- or number is an option. A wrapped error is its sentinel. A call is one step: statements of
-- different calls are not interleaved within a call, but calls are, in any order; the histories of
-- Store/Runs/Ops are the interleavings of single statements that write runs. SQL statements
-- fail only on a constraint or a missing row, not on I/O. Tables are searched in the order of
-- insertion. Loops are recursions on lists; the search for descendants alone is on fuel, one round for
-- each task of the table, which is proved to be enough.
--
-- Not modelled: the file system, the text of logs and messages, the notifier that starts in a
-- goroutine of its own, and the wire format of the API. What the modelled calls compute from files,
-- station definitions and hashes (input selection, validation of outputs, publication records, the
-- downstream plan, ids) is a field of `Env`, about which nothing is assumed, as nothing is of the
-- executors. Hashes, the copy and the removal of files, and random and time stamps of ids are
-- parameters of the parts that use them. The timers of the loops, stations and their loader, the
-- templates and file names of policies, job orders, the commands and scripts of Slurm, the
-- local executor and the HTTP handlers are not modelled. The deletions of the cleaner, the ticks of the publisher and the pauses
-- are no calls of System.
pub mod Policy
pub mod Prelude
pub mod Store
pub mod Auth
pub mod Cleaner
pub mod Executor
pub mod Runs
pub mod Groups
pub mod Json
pub mod Publisher
pub mod Reconciler
pub mod Submission
pub mod System
pub mod Access
pub mod Examples
