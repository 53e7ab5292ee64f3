-- ===== src/Examples/Inputs.antt =====
-- The inputs that the examples share.
use veriproc.Prelude.{ℕ, String, true, false, [], ◌∷◌, none, some}
use veriproc.Prelude.Errors.{ok}
use veriproc.Store.Records.{
  RunState, RunRecord, TaskState, TaskRecord, Canonicality, StationRevisionRecord, SplitGroupRecord,
  SplitGroupState, SplitGroupMember,
}
use veriproc.Store.Records.{FingerprintRecord}
use veriproc.Store.Db.{Db, empty_db}
use veriproc.Executor.{Executor, succeeded}
use veriproc.Executor.Stub
use veriproc.Executor.Stub.{Stub, StubJob, new_stub, default_job}
use veriproc.Runs.World.{World, Env}

abbrev pub station : StationRevisionRecord
station = record {
  revision_id = "rev-1";
  station_id = "L1";
  station_name = "Level 1";
  content_hash = "h";
  schema_version = "v1";
  effective_at = 0;
  created_at = 0;
  declared_inputs = "";
  declared_outputs = "";
  declared_downstream = "";
  publication_policy = "";
  rolling_folders = "";
  declared_execution = "";
  declared_joborder = "";
}

abbrev pub task : TaskRecord
task = record {
  task_id = "task-1";
  schema_version = "v1";
  destination_station_id = "L1";
  window_start = 100;
  window_end = 200;
  force = false;
  parent_task_id = "";
  parent_run_retry_index = none;
  split_group_id = "";
  priority = "normal";
  client_metadata = "";
  routing_content = "";
  routing_content_hash = "";
  declared_inputs = "";
  submission_origin = "client";
  state = TaskState.accepted;
  failure_summary = "";
  latest_retry_index = none;
  canonical_retry_index = none;
  idempotency_record_id = "";
  created_at = 10;
  completed_at = none;
  join_arrival_count = 0;
}

abbrev pub new_run : String → ℕ → RunState → RunRecord
new_run id retry state = record {
  run_id = id;
  task_id = "task-1";
  station_revision_id = "rev-1";
  retry_index = retry;
  working_root = id;
  state = state;
  canonicality = Canonicality.undecided;
  processing_fingerprint = "f";
  failure_reason = "";
  created_at = 20;
  prepared_at = some 20;
  dispatched_at = none;
  started_at = none;
  terminal_at = none;
  cancellation_requested_at = none;
  reconciliation_started_at = none;
}

abbrev pub ready_run : RunRecord
ready_run = new_run "run-1" 0 RunState.ready

abbrev pub failed_run : RunRecord
failed_run = record (new_run "run-0" 1 RunState.failed) {
  failure_reason = "x";
  terminal_at = some 30;
}

abbrev pub db : Db
db = record empty_db {
  revisions = station ∷ [];
  tasks = task ∷ [];
  runs = ready_run ∷ failed_run ∷ [];
}

abbrev pub stub : Executor Stub
stub = record {
  kind = "stub";
  supports_cancellation = true;
  submit = Stub.submit;
  poll = λ id. Stub.poll id 50;
  cancel = Stub.cancel;
}

abbrev pub env : Env Stub
env = record {
  normalize = λ s. s;
  registry = record { executors = ("stub", stub) ∷ []; default_key = "stub" };
  working_root_path = λ rev t id retry now. id;
  make_working_root = λ root. ok tt;
  resolve_manifest = λ id ref t rev root.
      ok (record { manifest_id = id; run_id = id; frozen_at = 20; entries = [] });
  is_join_task = λ t. false;
  compute_fingerprint = λ rev m force start end. "f";
  fingerprint_id = λ v. v;
  run_ref = λ t retry. t;
  write_job_order = λ run db. ok ("joborder", none);
  write_task_history = λ run db. ok none;
  parse_execution = λ s. none;
  resolve_args = λ run t rev order args. ok args;
  job_id = λ run id. id;
  run_logs = λ run. ok [];
  parse_downstream = λ s. ok [];
  resolve_station = λ id. ok station;
  join_expected = λ join id. 0;
  join_task_id = λ join id start end. join;
  join_routing = λ t run route. "";
  routing_hash = λ s. s;
  link_id = λ run t. run;
  validate_outputs = λ run db. ok [];
  build_publications = λ run artifacts db. ok [];
  build_plan = λ run t c db. ok (record {
    tasks = [];
    join_task_ids = [];
    join_expected = [];
    split_groups = [];
    task_out_artifact = none;
    provenance_reason = "";
  });
  audit_id = λ fp old new at. new;
}

abbrev pub world : World Stub
world = record { db = db; exec = new_stub }

abbrev pub group : SplitGroupRecord
group = record {
  split_group_id = "g";
  label = "";
  description = "";
  state = SplitGroupState.aggregating;
  expected_members = some 1;
  canonical_count = 0;
  failed_count = 0;
  summary = "";
  created_at = 5;
  closed_at = some 6;
  aggregated_at = none;
}

abbrev pub member : SplitGroupMember
member = record {
  split_group_id = "g";
  run_id = "run-0";
  task_id = "task-1";
  role = "";
  added_at = 7;
}

abbrev pub group_db : Db
group_db = record db { groups = group ∷ []; members = member ∷ [] }

-- A stub with one job that has not been polled.
abbrev pub job : StubJob
job = default_job "stub-run-1"

abbrev pub busy_stub : Stub
busy_stub = record { counter = 1; jobs = ("stub-run-1", job) ∷ [] }

abbrev pub finished_job : StubJob
finished_job = record job { transitions = []; terminal = some succeeded }

abbrev pub finished_stub : Stub
finished_stub = record { counter = 1; jobs = ("stub-run-1", finished_job) ∷ [] }

-- The fingerprint of the inputs, without and with an owner.
abbrev pub free_fingerprint : FingerprintRecord
free_fingerprint = record {
  fingerprint_id = "fp-1";
  value = "f";
  canonical_run_id = none;
  created_at = 15;
}

abbrev pub owned_fingerprint : FingerprintRecord
owned_fingerprint = record free_fingerprint { canonical_run_id = some "run-0" }

abbrev pub claim_db : Db
claim_db = record db { fingerprints = free_fingerprint ∷ [] }

abbrev pub owned_world : World Stub
owned_world = record world { db = record db { fingerprints = owned_fingerprint ∷ [] } }

-- Two complete runs of the same inputs, of which the first is canonical.
abbrev pub complete_run : String → ℕ → Canonicality → RunRecord
complete_run id retry c = record (new_run id retry RunState.complete) {
  canonicality = c;
  dispatched_at = some 40;
  started_at = some 50;
  terminal_at = some 70;
}

abbrev pub rerun_db : Db
rerun_db = record db {
  runs =
      complete_run "run-0" 0 Canonicality.canonical
      ∷ complete_run "run-1" 1 Canonicality.duplicate
      ∷ [];
  fingerprints = owned_fingerprint ∷ [];
}
