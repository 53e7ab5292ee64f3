-- ===== src/Runs/World.antt =====
-- What a call of the run service reads and writes (Service of internal/runs/service.go): the
-- database, and the state `S` of whatever stands behind the executors. What the service takes
-- from packages that are not modelled here stands in `Env`.
pub mod Legal
use veriproc.Prelude.{ℕ, String, Bool, List, Option, none, some}
use veriproc.Prelude.Maps.{Assoc}
use veriproc.Prelude.Errors.{
  Error, Result, ok, err, not_found, invalid_transition, conflict, run_not_found,
  invalid_state_transition,
}
use veriproc.Prelude.Effects.{Eff, pure, fail, ◌>>=◌, ◌>>◌, attempt}
use veriproc.Store.Records.{
  Time, RunRecord, TaskRecord, ArtifactRecord, PublicationRecord, StationRevisionRecord,
  Canonicality, ManifestRecord,
}
use veriproc.Store.Db.{Db}
use veriproc.Executor.{Executor}
use veriproc.Executor.Registry.{Registry, resolve}

pub record World (S : Type 0) : Type 0 where
  pub db : Db
  pub exec : S

-- stations.DownstreamTarget
pub record Route : Type 0 where
  pub station_id : String
  pub join_id : String
  pub mode : String

-- taskOutSplitGroupInit
pub record SplitGroupInit : Type 0 where
  pub group_id : String
  pub label : String
  pub description : String
  pub expected_members : ℕ
  pub close : Bool

-- downstreamPlan
pub record DownstreamPlan : Type 0 where
  pub tasks : List TaskRecord
  pub join_task_ids : List String
  pub join_expected : Assoc ℕ
  pub split_groups : List SplitGroupInit
  pub task_out_artifact : Option ArtifactRecord
  pub provenance_reason : String

-- The fields of stations.Execution that Dispatch hands on; resources and the settings of Slurm and
-- of containers are left out.
pub record Execution : Type 0 where
  pub executable : String
  pub args : List String
  pub mode : String

pub record Env (S : Type 0) : Type 0 where
  -- strings.ToLower and strings.TrimSpace
  pub normalize : String → String
  pub registry : Registry S
  -- workingRootPath
  pub working_root_path : StationRevisionRecord → TaskRecord → String → ℕ → Time → String
  -- materializeWorkingRoot
  pub make_working_root : String → Result (Unit {0})
  -- resolveManifest; its missingMandatoryInputError is `missing_mandatory_input`
  pub resolve_manifest :
      String → String → TaskRecord → StationRevisionRecord → String → Result ManifestRecord
  -- isJoinTask
  pub is_join_task : TaskRecord → Bool
  -- computeFingerprint
  pub compute_fingerprint : StationRevisionRecord → ManifestRecord → Bool → Time → Time → String
  -- "fp-" and sha12 of the value
  pub fingerprint_id : String → String
  -- fmt.Sprintf("%s/r%d") of a task and a retry index
  pub run_ref : String → ℕ → String
  -- writeJobOrder, writeTaskHistory
  pub write_job_order : RunRecord → Db → Result (String × Option ArtifactRecord)
  pub write_task_history : RunRecord → Db → Result (Option ArtifactRecord)
  -- json.Unmarshal of a stations.Execution
  pub parse_execution : String → Option Execution
  -- buildRunContext and stations.ResolveArgs
  pub resolve_args :
      RunRecord → TaskRecord → StationRevisionRecord → String → List String → Result (List String)
  -- "job-" and sha12 of run id and scheduler id
  pub job_id : String → String → String
  -- collectRunLogs: the log files of a run's working root
  pub run_logs : RunRecord → Result (List ArtifactRecord)
  -- encoding/json on declared_downstream
  pub parse_downstream : String → Result (List Route)
  -- stations.Resolver.Resolve
  pub resolve_station : String → Result StationRevisionRecord
  -- joinExpectedCount; 0 where the resolver cannot count
  pub join_expected : String → String → ℕ
  -- sha256 and policy.GenerateTaskID on the join, the station and the window
  pub join_task_id : String → String → Time → Time → String
  -- the canonical JSON of a join task's routing, and its sha256
  pub join_routing : TaskRecord → RunRecord → Route → String
  pub routing_hash : String → String
  -- "prov-" and sha12 of run id and task id
  pub link_id : String → String → String
  -- validateOutputs: the output files of a finished run
  pub validate_outputs : RunRecord → Db → Result (List ArtifactRecord)
  -- buildPublicationRecords
  pub build_publications : RunRecord → List ArtifactRecord → Db → Result (List PublicationRecord)
  -- buildDownstreamPlan
  pub build_plan : RunRecord → TaskRecord → Canonicality → Db → Result DownstreamPlan
  -- "ce-" or "cp-" and a hash of fingerprint, runs and time
  pub audit_id : String → String → String → Time → String

module _ {S : Type 0} where
  -- A call of the store.
  unfoldable pub on_db {ℓ} : {A : Type ℓ} → Eff Db A → Eff (World S) A
  on_db m w = let (r, db') = m w.db in (r, record w { db = db' })

  -- A call of an executor.
  unfoldable pub on_exec {ℓ} : {A : Type ℓ} → Eff S A → Eff (World S) A
  on_exec m w = let (r, s') = m w.exec in (r, record w { exec = s' })

  abbrev pub find_executor : Env S → String → Result (Executor S)
  find_executor env mode = resolve env.normalize env.registry mode

-- mapStoreErr
abbrev pub mapped : Error → Error
mapped not_found = run_not_found
mapped invalid_transition = invalid_state_transition
mapped e = e

module _ {ℓ} {S : Type 0} {A : Type ℓ} where
  abbrev pub after_map : Result A → Eff S A
  after_map (ok a) = pure a
  after_map (err e) = fail (mapped e)

  abbrev pub map_store_err : Eff S A → Eff S A
  map_store_err m = attempt m after_map

  -- `err != nil && !errors.Is(err, store.ErrInvalidTransition)` returns; all else goes on.
  abbrev pub after_tolerated : Result A → Eff S (Unit {0})
  after_tolerated (ok a) = pure tt
  after_tolerated (err invalid_transition) = pure tt
  after_tolerated (err e) = fail e

  abbrev pub tolerate_invalid : Eff S A → Eff S (Unit {0})
  tolerate_invalid m = attempt m after_tolerated

  -- `err != nil && !errors.Is(err, store.ErrConflict)` returns; all else goes on.
  abbrev pub after_conflict : Result A → Eff S (Unit {0})
  after_conflict (ok a) = pure tt
  after_conflict (err conflict) = pure tt
  after_conflict (err e) = fail e

  abbrev pub unless_conflict : Eff S A → Eff S (Unit {0})
  unless_conflict m = attempt m after_conflict
