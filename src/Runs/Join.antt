-- ===== src/Runs/Join.antt =====
-- How a finished run reaches the join tasks downstream of it: contributeToJoinDownstream of
-- internal/runs/finalize.go, and the arrival step that Finalize shares with it.
pub mod Legal
use veriproc.Prelude.{
  ℕ, String, Bool, ◌==◌, ◌&&◌, not, List, [], ◌∷◌, Option, none, some, if◌then◌else◌, leb, ltb,
}
use veriproc.Prelude.Errors.{Result, ok, err}
use veriproc.Prelude.Effects.{Eff, pure, fail, lift, ◌>>=◌, ◌>>◌, ignore, attempt, in_tx}
use veriproc.Store.Table.{find}
use veriproc.Store.Records.{
  Time, RunRecord, TaskRecord, StationRevisionRecord, ProvenanceLink, waiting_inputs, accepted,
}
use veriproc.Store.Db.{Db, or_not_found}
use veriproc.Store.Tasks
use veriproc.Store.Artifacts.{insert_link}
use veriproc.Runs.World.{World, Env, Route, on_db, unless_conflict}

-- StationRevisionRepo.Get
unfoldable pub get_revision : String → Eff Db StationRevisionRecord
get_revision id db =
    (or_not_found (find (λ (v : StationRevisionRecord). v.revision_id == id) db.revisions), db)

-- The counter goes up, and the task is released once the expected producers have arrived.
unfoldable pub count_arrival : String → ℕ → Eff Db (Unit {0})
count_arrival id expected = do
  arrived ← Tasks.increment_join_arrival id
  if ltb 0 expected && leb expected arrived
      then (do Tasks.set_state_if_current id waiting_inputs accepted ""; pure tt)
      else pure tt

-- One transaction of contributeToJoinDownstream.
unfoldable pub arrive : TaskRecord → ProvenanceLink → ℕ → Eff Db (Unit {0})
arrive task link expected = in_tx (do
  unless_conflict (Tasks.insert task)
  unless_conflict (insert_link link)
  count_arrival task.task_id expected)

module _ {S : Type 0} (env : Env S) where
  abbrev join_task : RunRecord → TaskRecord → Route → StationRevisionRecord → Time → TaskRecord
  join_task run task route resolved now =
      let routing = env.join_routing task run route in
      record {
        task_id =
            env.join_task_id route.join_id resolved.station_id task.window_start task.window_end;
        schema_version = task.schema_version;
        destination_station_id = resolved.station_id;
        window_start = task.window_start;
        window_end = task.window_end;
        force = Bool.false;
        parent_task_id = task.task_id;
        parent_run_retry_index = some run.retry_index;
        split_group_id = "";
        priority = "";
        client_metadata = "";
        routing_content = routing;
        routing_content_hash = env.routing_hash routing;
        declared_inputs = "";
        submission_origin = "backend";
        state = waiting_inputs;
        failure_summary = "";
        latest_retry_index = none;
        canonical_retry_index = none;
        idempotency_record_id = "";
        created_at = now;
        completed_at = none;
        join_arrival_count = 0;
      }

  abbrev pub produced_link : RunRecord → String → String → Time → ProvenanceLink
  produced_link run child reason now = record {
    link_id = env.link_id run.run_id child;
    source_type = "run";
    source_id = run.run_id;
    target_type = "task";
    target_id = child;
    relationship_type = "produced_downstream";
    role = "parent";
    reason = reason;
    created_at = now;
  }

  contribute_to_route : RunRecord → TaskRecord → Time → Route → Eff (World S) (Unit {0})
  contribute_to_route run task now route = if not (route.mode == "join") then pure tt else do
    resolved ← lift (env.resolve_station route.station_id)
    let child = join_task run task route resolved now
    on_db (
        arrive child (produced_link run child.task_id "station_default_downstream" now)
          (env.join_expected route.join_id resolved.station_id))

  contribute_to_routes : RunRecord → TaskRecord → Time → List Route → Eff (World S) (Unit {0})
  contribute_to_routes run task now [] = pure tt
  contribute_to_routes run task now (route ∷ routes) = do
    contribute_to_route run task now route
    contribute_to_routes run task now routes

  abbrev routes_of : StationRevisionRecord → Result (List Route)
  routes_of rev =
      if rev.declared_downstream == "" then ok [] else env.parse_downstream rev.declared_downstream

  -- contributeToJoinDownstream
  pub contribute_to_join_downstream : RunRecord → Time → Eff (World S) (Unit {0})
  contribute_to_join_downstream run now = do
    task ← on_db (Tasks.get run.task_id)
    rev ← on_db (get_revision run.station_revision_id)
    routes ← lift (routes_of rev)
    contribute_to_routes run task now routes
