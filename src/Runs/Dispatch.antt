-- ===== src/Runs/Dispatch.antt =====
-- internal/runs/service.go: Dispatch. The files of a job order are outside the model.
pub mod Legal
use veriproc.Prelude.{
  ℕ, String, Bool, true, false, ◌==◌, List, [], Option, none, some, if◌then◌else◌,
}
use veriproc.Prelude.Errors.{
  Error, Result, ok, err, invalid_state_transition, fatal_dispatch, fatal_submit, command_not_found,
}
use veriproc.Prelude.Effects.{Eff, pure, fail, gets, lift, ◌>>=◌, ◌>>◌, attempt, in_tx}
use veriproc.Store.Table.{find}
use veriproc.Store.Records.{
  Time, RunState, RunRecord, TaskRecord, JobRecord, ArtifactRecord, StationRevisionRecord,
}
use veriproc.Store.Db.{Db, or_not_found}
use veriproc.Store.Runs
use veriproc.Store.Tasks
use veriproc.Store.Jobs
use veriproc.Store.Artifacts.{insert_artifact}
use veriproc.Executor.{Executor, JobDescription, Submission, Status, status_text}
use veriproc.Runs.World.{World, Env, Execution, on_db, on_exec, map_store_err, find_executor}
use veriproc.Runs.Join.{get_revision}

-- What Dispatch hands to the executor of an execution that the revision does not declare, or that
-- does not parse.
abbrev no_execution : Execution
no_execution = record { executable = ""; args = []; mode = "" }

-- Permanent failures of a submission are fatal to the dispatch.
abbrev after_submit : Result Submission → Result Submission
after_submit (ok s) = ok s
after_submit (err fatal_submit) = err fatal_dispatch
after_submit (err command_not_found) = err fatal_dispatch
after_submit (err e) = err e

abbrev fatally {ℓ} : {A : Type ℓ} → Result A → Result A
fatally (ok a) = ok a
fatally (err _) = err fatal_dispatch

insert_if_any : Option ArtifactRecord → Eff Db (Unit {0})
insert_if_any none = pure tt
insert_if_any (some a) = insert_artifact a

module _ {S : Type 0} (env : Env S) where
  execution_of : StationRevisionRecord → Option Execution
  execution_of rev =
      if rev.declared_execution == "" then none else env.parse_execution rev.declared_execution

  -- The execution with its arguments resolved.
  resolved :
      RunRecord → TaskRecord → StationRevisionRecord → String → Option Execution → Result Execution
  resolved run task rev joborder none = ok no_execution
  resolved run task rev joborder (some x) = elim (env.resolve_args run task rev joborder x.args) [
    | ok args ↦ ok (record x { args = args })
    | err e ↦ err e
  ]

  describe : RunRecord → TaskRecord → StationRevisionRecord → String → Execution → JobDescription
  describe run task rev joborder x = record {
    run_id = run.run_id;
    task_id = run.task_id;
    retry_index = run.retry_index;
    run_ref = env.run_ref run.task_id run.retry_index;
    station_id = rev.station_id;
    working_root = run.working_root;
    joborder_path = joborder;
    executable = x.executable;
    args = x.args;
    window_start = task.window_start;
    window_end = task.window_end;
    mode = x.mode;
    split_group_id = task.split_group_id;
  }

  new_job : RunRecord → Executor S → Submission → Time → JobRecord
  new_job run exec s now = record {
    job_id = env.job_id run.run_id s.scheduler_id;
    run_id = run.run_id;
    executor = if s.executor_type == "" then exec.kind else s.executor_type;
    scheduler_id = s.scheduler_id;
    scheduler_state = status_text Status.queued;
    node = "";
    elapsed_time = "";
    submission_attempt = 1;
    submitted_at = some now;
    last_observed_at = some now;
    terminal_at = none;
    cancellation_requested_at = none;
    reconciliation_status = "";
  }

  -- The transaction that records the submission.
  record_submission :
      RunRecord
      → JobRecord
      → Option ArtifactRecord
      → Option ArtifactRecord
      → Time
      → Eff Db (Unit {0})
  record_submission run job order history now = in_tx (do
    Jobs.insert job
    insert_if_any order
    insert_if_any history
    Runs.mark_dispatched run.run_id now)

  submit_run : RunRecord → Time → Eff (World S) RunRecord
  submit_run run now = do
    order ← gets (λ w. env.write_job_order run w.db)
    written ← lift (fatally order)
    history ← gets (λ w. env.write_task_history run w.db)
    told ← lift history
    rev ← on_db (get_revision run.station_revision_id)
    task ← on_db (Tasks.get run.task_id)
    x ← lift (resolved run task rev written.0 (execution_of rev))
    exec ← lift (fatally (find_executor env x.mode))
    submission ←
        attempt (on_exec (exec.submit (describe run task rev written.0 x)))
          (λ r. lift (after_submit r))
    on_db (record_submission run (new_job run exec submission now) written.1 told now)
    on_db (Runs.get run.run_id)

  by_state : RunRecord → Time → RunState → Eff (World S) RunRecord
  by_state run now RunState.ready = submit_run run now
  by_state run now RunState.pending = fail invalid_state_transition
  by_state run now RunState.preparing = fail invalid_state_transition
  by_state run now _ = pure run

  -- Service.Dispatch; the clock is read once
  pub dispatch : String → Time → Eff (World S) RunRecord
  dispatch id now = do run ← map_store_err (on_db (Runs.get id)); by_state run now run.state
