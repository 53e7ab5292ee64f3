-- ===== src/Runs/Prepare.antt =====
-- internal/runs/service.go: PrepareRun, and Retry of internal/runs/retry.go. The files that both
-- write on the way, and remove again on an error, are outside the model.
pub mod Legal
pub mod Refusal
pub mod Stored
use veriproc.Prelude.{
  ℕ, suc, String, Bool, true, false, ◌==◌, ◌&&◌, not, Option, none, some, if◌then◌else◌, is_some,
}
use veriproc.Prelude.Errors.{
  Error, Result, ok, err, not_found, task_not_found, unknown_station, fatal_prepare, waiting_inputs,
  retry_ineligible, missing_mandatory_input,
}
use veriproc.Prelude.Effects.{Eff, pure, fail, gets, lift, ◌>>=◌, ◌>>◌, attempt, in_tx}
use veriproc.Store.Records.{
  Time, RunState, RunRecord, TaskRecord, TaskState, Canonicality, StationRevisionRecord,
  ManifestRecord, FingerprintRecord,
}
use veriproc.Store.Db.{Db}
use veriproc.Store.Runs
use veriproc.Store.Runs.{max_retry_index}
use veriproc.Store.Tasks
use veriproc.Store.Fingerprints
use veriproc.Store.Manifests
use veriproc.Runs.World.{World, Env, on_db}
use veriproc.Groups.{register_run}

-- maxRetry + 1
abbrev pub next_retry : Option ℕ → ℕ
next_retry none = 0
next_retry (some m) = suc m

-- store.ErrNotFound of a task is ErrTaskNotFound here.
abbrev after_get_task : Result TaskRecord → Eff Db TaskRecord
after_get_task (ok t) = pure t
after_get_task (err not_found) = fail task_not_found
after_get_task (err e) = fail e

abbrev get_task : String → Eff Db TaskRecord
get_task id = attempt (Tasks.get id) after_get_task

-- A step whose every error becomes `e`.
abbrev or_error {ℓ} : {A : Type ℓ} → Error → Result A → Result A
or_error e (ok a) = ok a
or_error e (err _) = err e

-- The error that a failed resolveManifest becomes.
abbrev after_manifest : Bool → Result ManifestRecord → Result ManifestRecord
after_manifest joins (ok m) = ok m
after_manifest joins (err missing_mandatory_input) =
    err (if joins then waiting_inputs else fatal_prepare)
after_manifest joins (err e) = err fatal_prepare

abbrev new_run : String → String → String → ℕ → String → Time → RunRecord
new_run id task revision retry root now = record {
  run_id = id;
  task_id = task;
  station_revision_id = revision;
  retry_index = retry;
  working_root = root;
  state = RunState.preparing;
  canonicality = Canonicality.undecided;
  processing_fingerprint = "";
  failure_reason = "";
  created_at = now;
  prepared_at = none;
  dispatched_at = none;
  started_at = none;
  terminal_at = none;
  cancellation_requested_at = none;
  reconciliation_started_at = none;
}

-- GetByValue answered a fingerprint that has an owner.
abbrev pub is_owned : Result FingerprintRecord → Bool
is_owned (ok f) = not (Fingerprints.owner f == "")
is_owned (err e) = false

abbrev task_failed_or_cancelled : TaskState → Bool
task_failed_or_cancelled TaskState.failed = true
task_failed_or_cancelled TaskState.cancelled = true
task_failed_or_cancelled _ = false

module _ {S : Type 0} (env : Env S) where
  -- The transaction that stores the prepared run.
  unfoldable pub store_run : RunRecord → ManifestRecord → String → Time → Eff Db (Unit {0})
  store_run run manifest fingerprint now = in_tx (do
    Runs.insert run
    Manifests.insert manifest
    Fingerprints.upsert env.fingerprint_id fingerprint now
    Runs.mark_prepared run.run_id fingerprint now
    Tasks.set_latest_run run.task_id run.retry_index)

  unfoldable pub register : TaskRecord → String → Time → Eff Db (Unit {0})
  register task run now =
      if task.split_group_id == ""
      then pure tt
      else register_run task.split_group_id run task.task_id "" now

  -- The duplicate check of a run that is not forced.
  unfoldable pub refuse_duplicate : TaskRecord → String → Eff Db (Unit {0})
  refuse_duplicate task fingerprint =
      if task.force
      then pure tt
      else attempt (Fingerprints.get_by_value fingerprint)
          (λ r. if is_owned r then fail fatal_prepare else pure tt)

  unfoldable pub prepare_with :
      TaskRecord → StationRevisionRecord → String → ℕ → Time → Eff Db RunRecord
  prepare_with task rev id retry now =
      let root = env.working_root_path rev task id retry now in
      let run = new_run id task.task_id rev.revision_id retry root now in
      (do
        lift (or_error fatal_prepare (env.make_working_root root))
        manifest ← lift (
            after_manifest (env.is_join_task task)
              (env.resolve_manifest id (env.run_ref task.task_id retry) task rev root))
        let fingerprint =
              env.compute_fingerprint rev manifest task.force task.window_start task.window_end in
            (do
              refuse_duplicate task fingerprint
              store_run run manifest fingerprint now
              register task id now
              Runs.get id))

  -- The lookups that come before the run is prepared.
  abbrev prepare_task : String → String → Time → TaskRecord → Eff Db RunRecord
  prepare_task task_id id now task = do
    rev ← lift (or_error unknown_station (env.resolve_station task.destination_station_id))
    retry ← gets (λ db. next_retry (max_retry_index task_id db.runs))
    prepare_with task rev id retry now

  -- Service.PrepareRun, for the id that the factory gives and one reading of the clock
  unfoldable pub prepare_run : String → String → Time → Eff (World S) RunRecord
  prepare_run task_id id now = on_db (do task ← get_task task_id; prepare_task task_id id now task)

  -- Service.Retry
  pub retry : String → String → Time → Eff (World S) RunRecord
  retry task_id id now = do
    task ← on_db (get_task task_id)
    if not (task_failed_or_cancelled task.state) then fail retry_ineligible else do
      run ← prepare_run task_id id now
      on_db (Tasks.set_state task_id TaskState.accepted "")
      pure run
