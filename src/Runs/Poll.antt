-- ===== src/Runs/Poll.antt =====
-- internal/runs/service.go: Service.Poll.
pub mod Legal
use veriproc.Prelude.{
  ℕ, String, Bool, true, false, ◌==◌, List, [], ◌∷◌, Option, none, some, if◌then◌else◌, is_some,
  get_last?,
}
use veriproc.Prelude.Errors.{Error, Result, ok, err, invalid_transition}
use veriproc.Prelude.Effects.{Eff, pure, fail, gets, lift, ◌>>=◌, ◌>>◌, ignore, attempt}
use veriproc.Store.Records.{Time, RunRecord, JobRecord, TaskState, ArtifactRecord, RunState}
use veriproc.Store.Runs
use veriproc.Store.Jobs
use veriproc.Store.Jobs.{jobs_of_run}
use veriproc.Store.Tasks
use veriproc.Store.Artifacts.{insert_artifact}
use veriproc.Executor.{Executor, Status, Observation, status_text, is_terminal}
use veriproc.Runs.World.{World, Env, on_db, on_exec, find_executor, map_store_err, tolerate_invalid}
use veriproc.Runs.Join.{contribute_to_join_downstream}

abbrev is_dispatched : RunState → Bool
is_dispatched RunState.dispatched = true
is_dispatched _ = false

abbrev or_reason : String → String
or_reason msg = if msg == "" then "executor reported failure" else msg

module _ {S : Type 0} (env : Env S) where
  -- The log artifacts of a failed run, inserted on a best effort.
  insert_logs : List ArtifactRecord → Eff (World S) (Unit {0})
  insert_logs [] = pure tt
  insert_logs (a ∷ rest) = do
    ignore (on_db (insert_artifact (record a { validation_status = "failed" })))
    insert_logs rest

  pub record_logs : RunRecord → Eff (World S) (Unit {0})
  record_logs run =
      attempt (lift (env.run_logs run))
        (λ r. elim r [ ok logs ↦ insert_logs logs | err e ↦ pure tt ])

  -- What follows MarkFailed: any error but an ineligible run returns; the task fails in both
  -- other cases, and only the call that moved the run contributes to the joins downstream.
  after_failed :
      RunRecord
      → String
      → Eff (World S) (Unit {0})
      → Time
      → Result (Unit {0})
      → Eff (World S) (Unit {0})
  after_failed run reason logs now (ok _) = do
    ignore (on_db (Tasks.set_state run.task_id TaskState.failed reason))
    logs
    ignore (contribute_to_join_downstream env run now)
  after_failed run reason logs now (err invalid_transition) = do
    ignore (on_db (Tasks.set_state run.task_id TaskState.failed reason))
    logs
  after_failed run reason logs now (err e) = fail e

  fail_run : RunRecord → String → Eff (World S) (Unit {0}) → Time → Eff (World S) (Unit {0})
  fail_run run reason logs now =
      attempt (on_db (Runs.mark_failed run.run_id reason now)) (after_failed run reason logs now)

  -- The switch on the observed status.
  react : RunRecord → Observation → Time → Status → Eff (World S) (Unit {0})
  react run obs now Status.running =
      if is_dispatched run.state
      then (do
        tolerate_invalid (on_db (Runs.mark_running run.run_id now))
        ignore (on_db (Tasks.set_state run.task_id TaskState.running "")))
      else pure tt
  react run obs now Status.succeeded =
      tolerate_invalid (on_db (Runs.mark_ready_for_finalization run.run_id))
  react run obs now Status.failed = fail_run run (or_reason obs.failure_msg) (record_logs run) now
  react run obs now Status.cancelled = fail_run run "cancelled" (pure tt) now
  react run obs now Status.unknown =
      if is_some run.cancellation_requested_at
      then fail_run run "cancelled" (pure tt) now
      else pure tt
  react run obs now Status.queued = pure tt

  poll_job : RunRecord → Time → Option JobRecord → Eff (World S) RunRecord
  poll_job run now none = pure run
  poll_job run now (some job) = if job.scheduler_id == "" then pure run else do
    exec ← lift (find_executor env job.executor)
    obs ← on_exec (exec.poll job.scheduler_id)
    on_db (Jobs.update_state job.job_id (status_text obs.status) now (is_terminal obs.status))
    if obs.node == "" then pure tt else ignore (on_db (Jobs.set_node job.job_id obs.node))
    if obs.elapsed == ""
        then pure tt
        else ignore (on_db (Jobs.set_elapsed_time job.job_id obs.elapsed))
    react run obs now obs.status
    on_db (Runs.get run.run_id)

  -- Service.Poll; the clock is read once
  pub poll : String → Time → Eff (World S) RunRecord
  poll id now = do
    run ← map_store_err (on_db (Runs.get id))
    jobs ← gets (λ w. jobs_of_run run.run_id w.db)
    poll_job run now (get_last? jobs)
