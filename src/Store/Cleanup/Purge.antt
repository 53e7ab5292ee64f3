-- ===== src/Store/Cleanup/Purge.antt =====
-- internal/store/cleanup.go: PurgeRun and PurgeTasks.
use veriproc.Prelude.{
  String, Bool, true, false, not, ◌&&◌, ◌||◌, ◌==◌, List, [], ◌∷◌, map, Option, none, some,
  if◌then◌else◌, leb, eqb,
}
use veriproc.Prelude.Errors.{ok, err, other}
use veriproc.Prelude.Effects.{Eff, ◌>>=◌}
use veriproc.Store.Table.{update, select, exists_row}
use veriproc.Store.Records.{Time, RunRecord, TaskRecord}
use veriproc.Store.Db.{Db}
use veriproc.Store.Runs
use veriproc.Store.Tasks.{is_task}
use veriproc.Store.Cleanup.{
  among, DeletionCounts, no_deletions, Deletion, delete_run_rows, nullify_run_rows,
  delete_task_rows, delete_not_null_for_run, nullify_run_fks, delete_runs, delete_members,
  delete_tasks,
}
use veriproc.Store.Cleanup.Closure.{collect_closure}
use veriproc.Store.Cleanup.Commit.{committed}

pub record PurgeResult : Type 0 where
  pub counts : DeletionCounts
  pub task_ids : List String
  pub run_ids : List String
  pub working_roots : List String

-- The working roots, less the empty ones.
abbrev pub roots_of : List RunRecord → List String
roots_of runs = map (λ r. r.working_root) (select (λ r. not (r.working_root == "")) runs)

-- RunIDsAndRootsForTasks
abbrev pub runs_of_tasks : List String → Db → List RunRecord
runs_of_tasks ids db = select (λ r. among ids r.task_id) db.runs

abbrev pub run_ids : List RunRecord → List String
run_ids runs = map (λ r. r.run_id) runs

abbrev pub started : Db → Deletion
started db = record { db = db; counts = no_deletions }

abbrev pub nothing : PurgeResult
nothing = record { counts = no_deletions; task_ids = []; run_ids = []; working_roots = [] }

-- Store.PurgeRun
unfoldable pub purge_run : String → Bool → Eff Db PurgeResult
unfolding ◌>>=◌
purge_run id cascade = do
  run ← Runs.get id
  λ db.
      let p =
        if cascade
        then delete_run_rows (run.run_id ∷ []) (started db)
        else nullify_run_rows (run.run_id ∷ []) (started db) in
      committed db
        (record {
          counts = p.counts;
          task_ids = [];
          run_ids = run.run_id ∷ [];
          working_roots = roots_of (run ∷ []);
        })
        p.db

-- The body of purgeTasksCascade's transaction
unfoldable pub cascaded : List String → List String → Db → Deletion
cascaded tasks runs db = delete_task_rows tasks (delete_run_rows runs (started db))

-- UPDATE tasks SET parent_task_id = NULL WHERE parent_task_id IN (…)
abbrev pub orphan_children : List String → Deletion → Deletion
orphan_children ids p = record p {
  db = record p.db {
    tasks =
        update (λ t. among ids t.parent_task_id) (λ t. record t { parent_task_id = "" }) p.db.tasks;
  };
}

-- UPDATE tasks SET idempotency_record_id = NULL WHERE task_id IN (…)
abbrev pub forget_records : List String → Deletion → Deletion
forget_records ids p = record p {
  db = record p.db {
    tasks =
        update (λ t. among ids t.task_id) (λ t. record t { idempotency_record_id = "" }) p.db.tasks;
  };
}

-- The body of purgeTasksNullify's transaction
unfoldable pub nullified : List String → List String → Db → Deletion
nullified tasks runs db = delete_tasks tasks (
    forget_records tasks (
      delete_members tasks (λ m. among tasks m.task_id)
        (delete_runs runs (
          nullify_run_fks runs
            (delete_not_null_for_run runs (orphan_children tasks (started db)))))))

abbrev pub purge_listed :
    (List String → List String → Db → Deletion) → List String → Eff Db PurgeResult
purge_listed body ids db =
    let runs = runs_of_tasks ids db in
    let p = body ids (run_ids runs) db in
    committed db
      (record {
        counts = p.counts;
        task_ids = ids;
        run_ids = run_ids runs;
        working_roots = roots_of runs;
      })
      p.db

abbrev pub purge_closure : Option (List String) → Eff Db PurgeResult
purge_closure none db = (err other, db)
purge_closure (some closure) db = purge_listed cascaded closure db

abbrev pub purge_targets : Bool → List String → Eff Db PurgeResult
purge_targets cascade [] db = (ok nothing, db)
purge_targets true (id ∷ ids) db = purge_closure (collect_closure true db.tasks (id ∷ ids)) db
purge_targets false (id ∷ ids) db = purge_listed nullified (id ∷ ids) db

-- The ids of tasks that are there.
abbrev pub known_tasks : List TaskRecord → List String → List String
known_tasks tasks ids = select (λ id. exists_row (is_task id) tasks) ids

-- Store.PurgeTasks
unfoldable pub purge_tasks : List String → Bool → Eff Db PurgeResult
purge_tasks ids cascade db = purge_targets cascade (known_tasks db.tasks ids) db

-- CleanupBasis
pub data CleanupBasis : Type 0 where
  processing_time processing_window : CleanupBasis

abbrev pub before_column : CleanupBasis → TaskRecord → Time
before_column processing_time t = t.created_at
before_column processing_window t = t.window_end

abbrev pub after_column : CleanupBasis → TaskRecord → Time
after_column processing_time t = t.created_at
after_column processing_window t = t.window_start

-- The conditions of IDsForCleanup; a time is 0 where Go's is the zero time.
unfoldable pub falls_within : Time → Time → CleanupBasis → String → TaskRecord → Bool
falls_within before after basis station t =
    (eqb before 0 || leb (before_column basis t) before)
    && (eqb after 0 || leb after (after_column basis t))
    && (station == "" || t.destination_station_id == station)

-- ORDER BY a column
abbrev pub place : (TaskRecord → Time) → TaskRecord → List TaskRecord → List TaskRecord
place column t [] = t ∷ []
place column t (u ∷ us) =
    let rest = place column t us in if leb (column t) (column u) then t ∷ u ∷ us else u ∷ rest

abbrev pub ordered_by : (TaskRecord → Time) → List TaskRecord → List TaskRecord
ordered_by column [] = []
ordered_by column (t ∷ ts) = place column t (ordered_by column ts)

abbrev pub task_ids : List TaskRecord → List String
task_ids tasks = map (λ t. t.task_id) tasks

-- TaskRepo.IDsForCleanup
unfoldable pub ids_for_cleanup : Time → Time → CleanupBasis → String → Eff Db (List String)
ids_for_cleanup before after basis station db =
    if eqb before 0 && eqb after 0 then (err other, db) else (
      ok (
          task_ids (
            ordered_by (after_column basis)
              (select (falls_within before after basis station) db.tasks))),
      db,
    )

-- TaskRepo.TaskIDsForStation
unfoldable pub task_ids_for_station : String → Eff Db (List String)
task_ids_for_station station db = (
  ok (
      task_ids (
        ordered_by (λ t. t.created_at)
          (select (λ t. t.destination_station_id == station) db.tasks))),
  db,
)
