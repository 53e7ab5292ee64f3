-- ===== src/Store/Records.antt =====
-- The rows of the tables (internal/store/*.go). A time is a number of nanoseconds; `sql.NullTime`
-- and `sql.NullInt64` are options; a nullable text is "" where it is NULL, as `COALESCE` reads it.
use veriproc.Prelude.{ℕ, String, Bool, true, false, Option, List}

abbrev pub Time : Type 0
Time = ℕ

-- runs.state
pub data RunState : Type 0 where
  pending preparing ready dispatched running finalizing complete failed cancelled : RunState

-- runs.canonicality
pub data Canonicality : Type 0 where
  undecided canonical duplicate forced : Canonicality

pub record RunRecord : Type 0 where
  pub run_id : String
  pub task_id : String
  pub station_revision_id : String
  pub retry_index : ℕ
  pub working_root : String
  pub state : RunState
  pub canonicality : Canonicality
  pub processing_fingerprint : String
  pub failure_reason : String
  pub created_at : Time
  pub prepared_at : Option Time
  pub dispatched_at : Option Time
  pub started_at : Option Time
  pub terminal_at : Option Time
  pub cancellation_requested_at : Option Time
  pub reconciliation_started_at : Option Time

pub record JobRecord : Type 0 where
  pub job_id : String
  pub run_id : String
  pub executor : String
  pub scheduler_id : String
  pub scheduler_state : String
  pub node : String
  pub elapsed_time : String
  pub submission_attempt : ℕ
  pub submitted_at : Option Time
  pub last_observed_at : Option Time
  pub terminal_at : Option Time
  pub cancellation_requested_at : Option Time
  pub reconciliation_status : String

-- tasks.state
pub data TaskState : Type 0 where
  accepted waiting_inputs running failed cancelled completed : TaskState

pub record TaskRecord : Type 0 where
  pub task_id : String
  pub schema_version : String
  pub destination_station_id : String
  pub window_start : Time
  pub window_end : Time
  pub force : Bool
  pub parent_task_id : String
  pub parent_run_retry_index : Option ℕ
  pub split_group_id : String
  pub priority : String
  pub client_metadata : String
  pub routing_content : String
  pub routing_content_hash : String
  pub declared_inputs : String
  pub submission_origin : String
  pub state : TaskState
  pub failure_summary : String
  pub latest_retry_index : Option ℕ
  pub canonical_retry_index : Option ℕ
  pub idempotency_record_id : String
  pub created_at : Time
  pub completed_at : Option Time
  pub join_arrival_count : ℕ

-- A text is "" where it is NULL.
pub record IdempotencyRecord : Type 0 where
  pub id : String
  pub scope : String
  pub key : String
  pub request_hash : String
  pub task_id : String
  pub created_at : Time
  pub expires_at : Option Time

pub record FingerprintRecord : Type 0 where
  pub fingerprint_id : String
  pub value : String
  pub canonical_run_id : Option String
  pub created_at : Time

-- canonicality_audit.action
pub data Action : Type 0 where
  elect promote : Action

pub record CanonicalityChange : Type 0 where
  pub audit_id : String
  pub fingerprint_id : String
  pub previous_run_id : String
  pub new_run_id : String
  pub action : Action
  pub reason : String
  pub actor : String
  pub occurred_at : Time

-- split_groups.state
pub data SplitGroupState : Type 0 where
  open_group aggregating complete failed : SplitGroupState

pub record SplitGroupRecord : Type 0 where
  pub split_group_id : String
  pub label : String
  pub description : String
  pub state : SplitGroupState
  pub expected_members : Option ℕ
  pub canonical_count : ℕ
  pub failed_count : ℕ
  pub summary : String
  pub created_at : Time
  pub closed_at : Option Time
  pub aggregated_at : Option Time

pub record SplitGroupMember : Type 0 where
  pub split_group_id : String
  pub run_id : String
  pub task_id : String
  pub role : String
  pub added_at : Time

pub record ArtifactRecord : Type 0 where
  pub artifact_id : String
  pub producing_run_id : String
  pub logical_type : String
  pub object_kind : String
  pub file_type : String
  pub path : String
  pub size : ℕ
  pub checksum : String
  pub checksum_algo : String
  pub checksum_source : String
  pub validation_status : String
  pub availability : String
  pub created_at : Time

pub record PublicationRecord : Type 0 where
  pub publication_id : String
  pub artifact_id : String
  pub producing_run_id : String
  pub archive_id : String
  pub target_path : String
  pub object_kind : String
  pub publication_mode : String
  pub publication_state : String
  pub size : ℕ
  pub checksum : String
  pub checksum_algo : String
  pub checksum_source : String
  pub failure_reason : String
  pub created_at : Time
  pub published_at : Option Time

pub record ProvenanceLink : Type 0 where
  pub link_id : String
  pub source_type : String
  pub source_id : String
  pub target_type : String
  pub target_id : String
  pub relationship_type : String
  pub role : String
  pub reason : String
  pub created_at : Time

pub record StationRevisionRecord : Type 0 where
  pub revision_id : String
  pub station_id : String
  pub station_name : String
  pub content_hash : String
  pub schema_version : String
  pub effective_at : Time
  pub created_at : Time
  pub declared_inputs : String
  pub declared_outputs : String
  pub declared_downstream : String
  pub publication_policy : String
  pub rolling_folders : String
  pub declared_execution : String
  pub declared_joborder : String

pub record StationControlRecord : Type 0 where
  pub station_id : String
  pub paused : Bool
  pub updated_at : Time

-- The columns of an entry that the model reads; the description of the selected file is its path.
pub record ManifestEntry : Type 0 where
  pub entry_id : String
  pub file_type : String
  pub category : String
  pub path : String
  pub optional : Bool
  pub present : Bool

pub record ManifestRecord : Type 0 where
  pub manifest_id : String
  pub run_id : String
  pub frozen_at : Time
  pub entries : List ManifestEntry

-- The states that the code and its SQL call terminal: complete, failed, cancelled.
abbrev pub is_terminal : RunState → Bool
is_terminal RunState.complete = true
is_terminal RunState.failed = true
is_terminal RunState.cancelled = true
is_terminal _ = false
