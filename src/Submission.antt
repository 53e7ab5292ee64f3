-- ===== src/Submission.antt =====
-- internal/tasks/service.go: the submission of tasks. The resolver of stations, SHA-256, the
-- formats of package time, encoding/json and the random suffix of an id are fields of `Submitting`.
pub mod Answers
pub mod Replay
pub mod Legal
use Prim.Native.String
use veriproc.Prelude.{
  ℕ, ◌+◌, String, Bool, true, false, not, ◌&&◌, ◌||◌, ◌==◌, List, [], ◌∷◌, Option, none, some,
  if◌then◌else◌, eqb, ltb,
}
use veriproc.Prelude.Errors.{
  Error, Result, ok, err, conflict, not_found, invalid_request, submit_unknown_station,
  idempotency_conflict, is_not_found,
}
use veriproc.Prelude.Effects.{Eff, pure, fail, lift, attempt, in_tx, ◌>>=◌, ◌>>◌}
use veriproc.Prelude.Text.{codes, same_text, trim_space}
use veriproc.Json.{
  Json, Leaf, Items, Fields, leaf, text, number, truth, array, object, no_items, item, no_fields,
  field, write,
}
use veriproc.Policy.{generate_task_id, validate_task_id}
use veriproc.Store.Records.{Time, TaskRecord, StationRevisionRecord, IdempotencyRecord, accepted}
use veriproc.Store.Db.{Db}
use veriproc.Store.Tasks
use veriproc.Store.Idempotency

pub record Parent : Type 0 where
  pub task_id : String
  pub retry_index : Option ℕ
  pub run_ref : String

-- A time is 0 where Go's is the zero time. TriggerID, which is only logged, is left out.
pub record SubmitInput : Type 0 where
  pub schema_version : String
  pub idempotency_key : String
  pub station_id : String
  pub window_start : Time
  pub window_end : Time
  pub force : Bool
  pub priority : String
  pub parent : Option Parent
  pub split_group_id : String
  pub client_metadata : Fields
  pub history : Items

pub record SubmitResult : Type 0 where
  pub task : TaskRecord
  pub created : Bool

pub record Submitting : Type 0 where
  -- stations.Resolver.Resolve
  pub resolve : String → Result StationRevisionRecord
  -- json.Marshal of a text, a number or a Boolean, and of the metadata as a whole
  pub marshal : Leaf → Option String
  pub marshal_fields : Fields → String
  -- hex.EncodeToString of sha256.Sum256
  pub sha256_hex : String → String
  -- time.RFC3339Nano, and the layout of the ids of tasks
  pub rfc3339 : Time → String
  pub id_stamp : Time → String
  -- policy.TaskIDTimestampStart is set
  pub stamp_start : Bool
  -- 0 where it is not positive
  pub idempotency_ttl : Time

abbrev pub scope : String
scope = "tasks.submit"

abbrev pub default_schema_version : String → String
default_schema_version v = if v == "" then "veriproc.task-submission/v1" else v

-- validateSubmit finds no fault.
unfoldable pub is_submittable : SubmitInput → Bool
is_submittable input =
    not (same_text (trim_space (codes input.station_id)) [])
    && not (eqb input.window_start 0 || eqb input.window_end 0)
    && not (ltb input.window_end input.window_start)

unfoldable pub validate_submit : SubmitInput → Result (Unit {0})
validate_submit input = if is_submittable input then ok tt else err invalid_request

abbrev pub text_field : String → String → Fields → Fields
text_field key value rest = if value == "" then rest else field key (leaf (text value)) rest

abbrev pub index_field : Option ℕ → Fields → Fields
index_field none rest = rest
index_field (some n) rest = field "retry_index" (leaf (number n)) rest

abbrev pub parent_field : Option Parent → Fields → Fields
parent_field none rest = rest
parent_field (some p) rest =
    parent_object
      (text_field "task_id" p.task_id
        (index_field p.retry_index (text_field "run_ref" p.run_ref no_fields)))
      rest
  where
    parent_object : Fields → Fields → Fields
    parent_object no_fields rest = rest
    parent_object (field k v fs) rest = field "parent" (object (field k v fs)) rest

abbrev pub history_field : Items → Fields → Fields
history_field no_items rest = rest
history_field (item x xs) rest = field "history" (array (item x xs)) rest

abbrev pub metadata_field : Fields → Fields → Fields
metadata_field no_fields rest = rest
metadata_field (field k v fs) rest = field "client_metadata" (object (field k v fs)) rest

abbrev pub or_invalid : Option String → Result String
or_invalid none = err invalid_request
or_invalid (some s) = ok s

abbrev pub resolved : Result StationRevisionRecord → Result StationRevisionRecord
resolved (ok rev) = ok rev
resolved (err e) = err submit_unknown_station

abbrev pub parent_task : Option Parent → String
parent_task none = ""
parent_task (some p) = p.task_id

abbrev pub parent_index : Option Parent → Option ℕ
parent_index none = none
parent_index (some p) = p.retry_index

abbrev pub after_store : Result TaskRecord → Eff Db SubmitResult
after_store (ok t) = pure (record { task = t; created = true })
after_store (err conflict) = fail idempotency_conflict
after_store (err e) = fail e

abbrev pub replay : String → IdempotencyRecord → Eff Db SubmitResult
replay hash r =
    if not (r.request_hash == hash)
    then fail idempotency_conflict
    else if r.task_id == ""
    then fail idempotency_conflict
    else (do t ← Tasks.get r.task_id; pure (record { task = t; created = false }))

abbrev pub after_lookup :
    String → Eff Db SubmitResult → Result IdempotencyRecord → Eff Db SubmitResult
after_lookup hash new (ok r) = replay hash r
after_lookup hash new (err e) = if is_not_found e then new else fail e

module _ (env : Submitting) where
  -- The map that canonicalRouting builds.
  unfoldable pub routing : SubmitInput → StationRevisionRecord → Json
  routing input rev = object (
      field "schema_version" (leaf (text (default_schema_version input.schema_version))) (
        field "destination" (object (field "station_id" (leaf (text rev.station_id)) no_fields)) (
          field "window"
            (object (
              field "start" (leaf (text (env.rfc3339 input.window_start)))
                (field "end" (leaf (text (env.rfc3339 input.window_end))) no_fields)))
            (field "force" (leaf (truth input.force)) (
              text_field "priority" input.priority (
                parent_field input.parent (
                  history_field input.history
                    (metadata_field input.client_metadata no_fields))))))))

  -- canonicalRouting
  unfoldable pub canonical_routing : SubmitInput → StationRevisionRecord → Result String
  canonical_routing input rev = or_invalid (write env.marshal (routing input rev))

  abbrev pub sha256 : String → String
  sha256 content = String.◌++◌ "sha256:" (env.sha256_hex content)

  abbrev pub expiry : Time → Option Time
  expiry now = if eqb env.idempotency_ttl 0 then none else some (now + env.idempotency_ttl)

  abbrev pub metadata_text : Fields → String
  metadata_text no_fields = ""
  metadata_text (field k v fs) = env.marshal_fields (field k v fs)

  -- newTaskID
  unfoldable pub new_task_id : Time → String → Time → String → String
  new_task_id now station window_start hex6 =
      generate_task_id env.id_stamp station (if env.stamp_start then window_start else now) hex6

  unfoldable pub new_task :
      SubmitInput → StationRevisionRecord → String → String → Time → TaskRecord
  new_task input rev id content now = record {
    task_id = id;
    schema_version = default_schema_version input.schema_version;
    destination_station_id = rev.station_id;
    window_start = input.window_start;
    window_end = input.window_end;
    force = input.force;
    parent_task_id = parent_task input.parent;
    parent_run_retry_index = parent_index input.parent;
    split_group_id = input.split_group_id;
    priority = input.priority;
    client_metadata = metadata_text input.client_metadata;
    routing_content = content;
    routing_content_hash = sha256 content;
    declared_inputs = "";
    submission_origin = "client";
    state = accepted;
    failure_summary = "";
    latest_retry_index = none;
    canonical_retry_index = none;
    idempotency_record_id = "";
    created_at = now;
    completed_at = none;
    join_arrival_count = 0;
  }

  unfoldable pub new_record : String → TaskRecord → IdempotencyRecord
  new_record key t = record {
    id = String.◌++◌ "ir-" t.task_id;
    scope = scope;
    key = key;
    request_hash = t.routing_content_hash;
    task_id = t.task_id;
    created_at = t.created_at;
    expires_at = expiry t.created_at;
  }

  -- The body of the transaction: the record of the key, if there is one, and the task.
  unfoldable pub store_task : String → TaskRecord → Eff Db TaskRecord
  store_task key t = if key == "" then (do Tasks.insert t; pure t) else (do
    let keyed = record t { idempotency_record_id = (new_record key t).id }
    Idempotency.insert (new_record key t)
    Tasks.insert keyed
    pure keyed)

  unfoldable pub create :
      SubmitInput → StationRevisionRecord → String → Time → String → Eff Db SubmitResult
  create input rev content now hex6 =
      let id = new_task_id now rev.station_id input.window_start hex6 in
      if validate_task_id id rev.station_id
      then attempt (in_tx (store_task input.idempotency_key (new_task input rev id content now)))
          after_store
      else fail invalid_request

  -- Submit, at time `now`, with `hex6` for the suffix of the id
  unfoldable pub submit : SubmitInput → Time → String → Eff Db SubmitResult
  submit input now hex6 = do
    lift (validate_submit input)
    rev ← lift (resolved (env.resolve input.station_id))
    content ← lift (canonical_routing input rev)
    if input.idempotency_key == ""
        then create input rev content now hex6
        else attempt (Idempotency.get_by_key scope input.idempotency_key)
            (after_lookup (sha256 content) (create input rev content now hex6))
