-- ===== src/Runs/Cancel.antt =====
-- internal/runs/cancel.go: Service.Cancel.
pub mod Legal
pub mod Outcome
use veriproc.Prelude.{
  ℕ, String, Bool, true, false, ◌==◌, not, List, Option, none, some, if◌then◌else◌, is_some,
  get_last?,
}
use veriproc.Prelude.Errors.{
  Error, Result, ok, err, invalid_transition, reconciliation_in_progress, cancellation_unsupported,
  executor_cancellation_unsupported, unknown_job,
}
use veriproc.Prelude.Effects.{Eff, pure, fail, gets, lift, ◌>>=◌, ◌>>◌, ignore, attempt}
use veriproc.Store.Records.{Time, RunRecord, JobRecord, TaskState, is_terminal}
use veriproc.Store.Runs
use veriproc.Store.Jobs
use veriproc.Store.Jobs.{jobs_of_run}
use veriproc.Store.Tasks
use veriproc.Executor.{Executor, Status, Observation, status_text}
use veriproc.Runs.World.{World, Env, on_db, on_exec, find_executor, map_store_err, tolerate_invalid}

pub record CancelOutcome : Type 0 where
  pub run : RunRecord
  pub accepted : Bool
  pub already_terminal : Bool
  pub cancellation_complete : Bool
  pub executor_err : Option Error

abbrev pub finished_already : RunRecord → CancelOutcome
finished_already run = record {
  run = run;
  accepted = false;
  already_terminal = true;
  cancellation_complete = true;
  executor_err = none;
}

-- What the part that talks to the executor adds to the outcome.
pub record Progress : Type 0 where
  pub is_complete : Bool
  pub problem : Option Error

abbrev is_cancelled : Status → Bool
is_cancelled Status.cancelled = true
is_cancelled _ = false

module _ {S : Type 0} (env : Env S) where
  -- The run has ended: MarkCancelled, unless it was terminal already, and the task fails.
  mark_ended : RunRecord → Time → Eff (World S) Progress
  mark_ended run now = do
    tolerate_invalid (on_db (Runs.mark_cancelled run.run_id now))
    ignore (on_db (Tasks.set_state run.task_id TaskState.failed "cancelled"))
    pure (record { is_complete = true; problem = none })

  -- What a poll right after the executor's Cancel shows.
  after_poll : RunRecord → JobRecord → Time → Result Observation → Eff (World S) Progress
  after_poll run job now (err e) = pure (record { is_complete = false; problem = none })
  after_poll run job now (ok obs) =
      if is_cancelled obs.status
      then (do
        on_db (Jobs.update_state job.job_id (status_text obs.status) now true)
        mark_ended run now)
      else pure (record { is_complete = false; problem = none })

  -- What the executor's Cancel returned.
  after_cancel :
      RunRecord → JobRecord → Executor S → Time → Result (Unit {0}) → Eff (World S) Progress
  after_cancel run job exec now (ok _) =
      attempt (on_exec (exec.poll job.scheduler_id)) (after_poll run job now)
  after_cancel run job exec now (err executor_cancellation_unsupported) =
      fail cancellation_unsupported
  after_cancel run job exec now (err unknown_job) =
      pure (record { is_complete = false; problem = some unknown_job })
  after_cancel run job exec now (err e) = fail e

  cancel_job : RunRecord → JobRecord → Executor S → Time → Eff (World S) Progress
  cancel_job run job exec now = do
    on_db (Jobs.stamp_cancellation_requested job.job_id now)
    if job.scheduler_id == ""
        then pure (record { is_complete = false; problem = none })
        else attempt (on_exec (exec.cancel job.scheduler_id)) (after_cancel run job exec now)

  -- The stamp on the run is set, or the run became terminal in the meantime.
  after_stamp : RunRecord → Eff (World S) Progress → Result (Unit {0}) → Eff (World S) CancelOutcome
  after_stamp run rest (ok _) = do
    p ← rest
    last ← on_db (Runs.get run.run_id)
    pure (record {
      run = last;
      accepted = true;
      already_terminal = false;
      cancellation_complete = p.is_complete;
      executor_err = p.problem;
    })
  after_stamp run rest (err invalid_transition) = do
    last ← on_db (Runs.get run.run_id)
    pure (finished_already last)
  after_stamp run rest (err e) = fail e

  stamp_then : RunRecord → Time → Eff (World S) Progress → Eff (World S) CancelOutcome
  stamp_then run now rest =
      attempt (on_db (Runs.mark_cancellation_requested run.run_id now)) (after_stamp run rest)

  cancel_active : RunRecord → Time → Option JobRecord → Eff (World S) CancelOutcome
  cancel_active run now none = stamp_then run now (mark_ended run now)
  cancel_active run now (some job) = do
    exec ← lift (find_executor env job.executor)
    if not exec.supports_cancellation
        then fail cancellation_unsupported
        else stamp_then run now (cancel_job run job exec now)

  -- Service.Cancel; the clock is read once
  pub cancel : String → Time → Eff (World S) CancelOutcome
  cancel id now = do
    run ← map_store_err (on_db (Runs.get id))
    if is_some run.reconciliation_started_at
        then fail reconciliation_in_progress
        else if is_terminal run.state
        then pure (finished_already run)
        else do
          jobs ← gets (λ w. jobs_of_run run.run_id w.db)
          cancel_active run now (get_last? jobs)
