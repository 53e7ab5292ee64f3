-- ===== src/Cleaner.antt =====
-- internal/cleaner/cleaner.go: the removal of tasks, runs and their working roots. What a purge
-- leaves on disk is a list of directories; `remove_all` stands for os.RemoveAll.
pub mod DryRun
use veriproc.Prelude.{
  ℕ, suc, ◌+◌, String, Bool, true, false, not, ◌&&◌, ◌||◌, ◌==◌, List, [], ◌∷◌, ◌++◌, map, Option,
  none, some, if◌then◌else◌, eqb,
}
use veriproc.Prelude.Lists.{length}
use veriproc.Prelude.Errors.{
  Error, Result, ok, err, not_found, other, task_not_found, run_not_found, no_cutoff,
}
use veriproc.Prelude.Effects.{Eff, pure, fail, lift, attempt, ◌>>=◌, ◌>>◌}
use veriproc.Store.Table.{exists_row}
use veriproc.Store.Records.{Time, RunRecord, TaskRecord}
use veriproc.Store.Db.{Db}
use veriproc.Store.Runs
use veriproc.Store.Tasks
use veriproc.Store.Tasks.{is_task}
use veriproc.Store.Cleanup.{DeletionCounts, no_deletions}
use veriproc.Store.Cleanup.Closure.{collect_closure}
use veriproc.Store.Cleanup.Purge.{
  PurgeResult, CleanupBasis, purge_run, purge_tasks, known_tasks, runs_of_tasks, run_ids, roots_of,
  nothing, ids_for_cleanup, task_ids_for_station,
}

pub record Report : Type 0 where
  pub dry_run : Bool
  pub counts : DeletionCounts
  pub task_ids : List String
  pub run_ids : List String
  pub working_roots : List String
  pub working_roots_removed : ℕ
  pub filesystem_errors : List String

pub record CleanFilter : Type 0 where
  pub before : Time
  pub after : Time
  pub basis : CleanupBasis
  pub station_id : String

abbrev pub empty_report : Bool → Report
empty_report dry = record {
  dry_run = dry;
  counts = no_deletions;
  task_ids = [];
  run_ids = [];
  working_roots = [];
  working_roots_removed = 0;
  filesystem_errors = [];
}

-- reportFromPurge, of a purge that was made
abbrev pub report_from_purge : PurgeResult → Report
report_from_purge res = record {
  dry_run = false;
  counts = res.counts;
  task_ids = res.task_ids;
  run_ids = res.run_ids;
  working_roots = res.working_roots;
  working_roots_removed = 0;
  filesystem_errors = [];
}

-- projectTasks' report
abbrev pub projection : List String → Db → Report
projection closure db =
    let runs = runs_of_tasks closure db in
    record {
      dry_run = true;
      counts = record no_deletions { tasks = length closure; runs = length (run_ids runs) };
      task_ids = closure;
      run_ids = run_ids runs;
      working_roots = roots_of runs;
      working_roots_removed = 0;
      filesystem_errors = [];
    }

abbrev pub project_closure : Option (List String) → Eff Db Report
project_closure none db = (err other, db)
project_closure (some closure) db = (ok (projection closure db), db)

-- projectTasks
unfoldable pub project_tasks : List String → Bool → Eff Db Report
project_tasks ids true db = project_closure (collect_closure false db.tasks ids) db
project_tasks ids false db = (ok (projection (known_tasks db.tasks ids) db), db)

abbrev pub found_run : Result RunRecord → Eff Db RunRecord
found_run (ok r) = pure r
found_run (err not_found) = fail run_not_found
found_run (err e) = fail e

abbrev pub found_task : Result TaskRecord → Eff Db TaskRecord
found_task (ok t) = pure t
found_task (err not_found) = fail task_not_found
found_task (err e) = fail e

abbrev pub purged_run : Result PurgeResult → Eff Db PurgeResult
purged_run (ok res) = pure res
purged_run (err not_found) = fail run_not_found
purged_run (err e) = fail e

module _ (remove_all : String → Bool) where
  -- removeWorkingRoots
  unfoldable pub remove_working_roots : List String → Report → Report
  remove_working_roots [] rep = rep
  remove_working_roots (root ∷ roots) rep = remove_working_roots roots (
      if root == ""
      then rep
      else if remove_all root
      then record rep { working_roots_removed = suc rep.working_roots_removed }
      else record rep { filesystem_errors = rep.filesystem_errors ++ root ∷ [] })

  -- The service's purgeTasks
  unfoldable pub purge : List String → Bool → Bool → Eff Db Report
  purge ids dry_run cascade = if dry_run then project_tasks ids cascade else (do
    res ← purge_tasks ids cascade
    pure (remove_working_roots res.working_roots (report_from_purge res)))

  -- DeleteRun
  unfoldable pub delete_run : String → Bool → Bool → Eff Db Report
  delete_run id dry_run cascade = do
    run ← attempt (Runs.get id) found_run
    if dry_run
        then pure (record (empty_report true) {
          run_ids = run.run_id ∷ [];
          working_roots = roots_of (run ∷ []);
        })
        else (do
          res ← attempt (purge_run id cascade) purged_run
          pure (remove_working_roots res.working_roots (report_from_purge res)))

  -- DeleteTask
  unfoldable pub delete_task : String → Bool → Bool → Eff Db Report
  delete_task id dry_run cascade = do
    attempt (Tasks.get id) found_task
    purge (id ∷ []) dry_run cascade

  abbrev pub purge_any : List String → Bool → Bool → Eff Db Report
  purge_any [] dry_run cascade = pure (empty_report dry_run)
  purge_any (id ∷ ids) dry_run cascade = purge (id ∷ ids) dry_run cascade

  -- PurgeStation
  unfoldable pub purge_station : String → Eff Db Report
  purge_station station = do ids ← task_ids_for_station station; purge_any ids false true

  -- Clean
  unfoldable pub clean : CleanFilter → Bool → Bool → Eff Db Report
  clean f dry_run cascade = if eqb f.before 0 && eqb f.after 0 then fail no_cutoff else (do
    ids ← ids_for_cleanup f.before f.after f.basis f.station_id
    purge_any ids dry_run cascade)
