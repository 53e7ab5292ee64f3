-- ===== src/Examples/Submission.antt =====
-- One task submitted twice under a key, with constant functions for the outside code.
use veriproc.Prelude.{String, true, false, none, some, ◌≡◌, ◌≢◌, refl, arith, eq_iff}
use veriproc.Prelude.Errors.{Error, Result, ok, err}
use veriproc.Prelude.Effects.{lift, attempt, in_tx, ◌>>=◌, pure, fail}
use veriproc.Prelude.Text.{codes, same_text, trim_left, trim_right, is_space, drop}
use veriproc.Prelude.Text.Order.{text_less}
use veriproc.Store.Table.{find}
use veriproc.Store.Records.{IdempotencyRecord}
use veriproc.Store.Db.{Db, empty_db}
use veriproc.Store.Tasks
use veriproc.Store.Idempotency
use veriproc.Store.Idempotency.{sweep, has_key, expired}
use veriproc.Json.{
  leaf, number, object, no_fields, field, no_items, write, place, sort, write_members,
}
use veriproc.Json.Order.{SameJson, SameFields, write-SameJson}
use veriproc.Policy.{
  generate_task_id, validate_task_id, station_of, station_prefix, matches, take, is_line,
}
use veriproc.Policy.TaskId.{IsShaped, validate-generate_task_id}
use veriproc.Submission.{
  Submitting, SubmitInput, SubmitResult, scope, submit, is_submittable, validate_submit,
  canonical_routing, routing, create, new_task_id, new_task, new_record, store_task,
}
use veriproc.Submission.Replay.{answer}
use veriproc.Submission.Answers.{submit-submit, sweep-submit}
use veriproc.Examples.Inputs.{station, task}

abbrev outside : Submitting
outside = record {
  resolve = λ id. ok station;
  marshal = λ x. some "x";
  marshal_fields = λ fs. "{}";
  sha256_hex = λ content. "00";
  rfc3339 = λ t. "t";
  id_stamp = λ t. "20260101T000000000";
  stamp_start = false;
  idempotency_ttl = 50;
}

abbrev input : SubmitInput
input = record {
  schema_version = "";
  idempotency_key = "k";
  station_id = "L1";
  window_start = 100;
  window_end = 200;
  force = false;
  priority = "";
  parent = none;
  split_group_id = "";
  client_metadata = no_fields;
  history = no_items;
}

abbrev result_of : Result SubmitResult → SubmitResult
result_of (ok r) = r
result_of (err e) = record { task = task; created = false }

abbrev made : Result SubmitResult × Db
made = submit outside input 10 "00ff00" empty_db

abbrev db : Db
db = made.1

abbrev first : SubmitResult
first = result_of made.0

submitted : submit outside input 10 "00ff00" empty_db ≡ (ok first, db)
unfolding submit validate_submit is_submittable canonical_routing routing create new_task_id
    new_task new_record store_task write place sort write_members generate_task_id validate_task_id
    station_of matches take is_line same_text trim_left trim_right is_space drop text_less lift
    attempt in_tx ◌>>=◌ pure fail Tasks.insert Idempotency.insert Idempotency.get_by_key
submitted = refl

abbrev text_of : Result String → String
text_of (ok s) = s
text_of (err e) = ""

abbrev content : String
content = text_of (canonical_routing outside input station)

rendered : canonical_routing outside input station ≡ ok content
unfolding canonical_routing routing write place sort write_members text_less
rendered = refl

is_valid : is_submittable input ≡ true
unfolding is_submittable same_text trim_left trim_right is_space
is_valid = refl

k_named : input.idempotency_key ≢ ""
k_named = ground (arith, eq_iff "k" "")

created : first.created ≡ true
unfolding submit validate_submit is_submittable canonical_routing routing create new_task_id
    new_task new_record store_task write place sort write_members generate_task_id validate_task_id
    station_of matches take is_line same_text trim_left trim_right is_space drop text_less lift
    attempt in_tx ◌>>=◌ pure fail Tasks.insert Idempotency.insert Idempotency.get_by_key
created = refl

submit-submit_example :
    submit outside input 30 "ffffff" db ≡ (answer outside input station content first.task, db)
submit-submit_example =
    submit-submit outside input 10 "00ff00" first empty_db db k_named submitted created input
      station content 30 "ffffff" refl is_valid refl rendered

abbrev kept : IdempotencyRecord
kept = new_record outside "k" first.task

kept_found : find (has_key scope "k") db.idempotency ≡ some kept
unfolding submit validate_submit is_submittable canonical_routing routing create new_task_id
    new_task new_record store_task write place sort write_members generate_task_id validate_task_id
    station_of matches take is_line same_text trim_left trim_right is_space drop text_less lift
    attempt in_tx ◌>>=◌ pure fail Tasks.insert Idempotency.insert Idempotency.get_by_key
kept_found = refl

expired_now : expired kept.expires_at 100 ≡ true
unfolding submit validate_submit is_submittable canonical_routing routing create new_task_id
    new_task new_record store_task write place sort write_members generate_task_id validate_task_id
    station_of matches take is_line same_text trim_left trim_right is_space drop text_less lift
    attempt in_tx ◌>>=◌ pure fail Tasks.insert Idempotency.insert Idempotency.get_by_key
expired_now = refl

sweep-submit_example : sweep 100 db ≡ (err Error.other, db)
sweep-submit_example =
    sweep-submit outside input 10 "00ff00" first empty_db db k_named submitted created 100 kept
      kept_found expired_now

l1_is_line : is_line (codes "L1") ≡ true
unfolding is_line
l1_is_line = refl

shaped : IsShaped (outside.id_stamp 10) "00ff00"
unfolding matches
shaped = record { stamp_shape = refl; hex_shape = refl }

validate-generate_task_id_example :
    (validate_task_id (generate_task_id outside.id_stamp "L1" 10 "00ff00") "L1" ≡ true)
    × (station_prefix (generate_task_id outside.id_stamp "L1" 10 "00ff00") ≡ codes "L1")
validate-generate_task_id_example =
    validate-generate_task_id outside.id_stamp "L1" 10 "00ff00" (ground (arith, eq_iff "L1" ""))
      l1_is_line shaped

b_not_a : codes "b" ≢ codes "a"
b_not_a e = absurd (ground arith)

write-SameJson_example :
    write outside.marshal
      (object (field "b" (leaf (number 1)) (field "a" (leaf (number 2)) no_fields)))
    ≡ write outside.marshal
        (object (field "a" (leaf (number 2)) (field "b" (leaf (number 1)) no_fields)))
write-SameJson_example =
    write-SameJson outside.marshal _ _ (SameJson.object (SameFields.swapped b_not_a))
