-- ===== src/Examples/Cleanup.antt =====
-- Two tasks, the second a child of the first, with one run each.
use veriproc.Prelude.{String, true, false, some, List, [], ◌∷◌, ◌≡◌, refl}
use veriproc.Prelude.Lists.{All}
use veriproc.Prelude.Errors.{ok, is_ok}
use veriproc.Store.Records.{RunState, TaskRecord}
use veriproc.Store.Db.{Db, empty_db}
use veriproc.Store.Cleanup.{among}
use veriproc.Store.Cleanup.Integrity.{IsReferential}
use veriproc.Store.Cleanup.Integrity.Tasks.{OwnsRecord}
use veriproc.Store.Cleanup.Purge.{purge_tasks, purge_run}
use veriproc.Store.Cleanup.Purged.{purge_tasks-IsReferential, purge_run-IsReferential}
use veriproc.Store.Cleanup.Closure.{collect_closure, seeded, expand, unseen}
use veriproc.Store.Cleanup.Closure.Complete.{collect_closure-some}
use veriproc.Store.Cleanup.Closure.Closed.{IsClosure, collect_closure-IsClosure}
use veriproc.Cleaner.{Report, project_tasks}
use veriproc.Cleaner.DryRun.{Agrees, project_tasks-purge_tasks}
use veriproc.Examples.Inputs.{task, new_run}

abbrev child : TaskRecord
child = record task { task_id = "task-2"; parent_task_id = "task-1" }

abbrev db : Db
db = record empty_db { tasks = task ∷ child ∷ []; runs = new_run "run-1" 0 RunState.ready ∷ [] }

db-IsReferential : IsReferential db
db-IsReferential = record {
  jobs = tt;
  manifests = tt;
  artifacts = tt;
  producers = tt;
  published = tt;
  audit = tt;
  members_runs = tt;
  members_tasks = tt;
  runs = (refl, tt);
  parents = (refl, (refl, tt));
  records = (refl, (refl, tt));
}

db_owned : All (OwnsRecord db.idempotency) db.tasks
db_owned = (refl, (refl, tt))

purge_tasks-IsReferential_example :
    (is_ok (purge_tasks ("task-1" ∷ []) true db).0 ≡ true)
    × IsReferential (purge_tasks ("task-1" ∷ []) true db).1
purge_tasks-IsReferential_example =
    purge_tasks-IsReferential db db-IsReferential db_owned ("task-1" ∷ []) true

purge_run-IsReferential_example :
    (is_ok (purge_run "run-1" false db).0 ≡ true) × IsReferential (purge_run "run-1" false db).1
purge_run-IsReferential_example = purge_run-IsReferential db db-IsReferential db_owned "run-1" false

collect_closure-some_example :
    (closure : List String) × (collect_closure false db.tasks ("task-1" ∷ []) ≡ some closure)
collect_closure-some_example = collect_closure-some db.tasks ("task-1" ∷ [])

found : collect_closure false db.tasks ("task-1" ∷ []) ≡ some ("task-1" ∷ "task-2" ∷ [])
unfolding collect_closure seeded expand unseen among
found = refl

collect_closure-IsClosure_example : IsClosure db.tasks ("task-1" ∷ []) ("task-1" ∷ "task-2" ∷ [])
collect_closure-IsClosure_example =
    collect_closure-IsClosure db.tasks ("task-1" ∷ []) ("task-1" ∷ "task-2" ∷ []) found

project_tasks-purge_tasks_example :
    (rep : Report) × (project_tasks ("task-1" ∷ []) true db ≡ (ok rep, db))
    × Agrees (purge_tasks ("task-1" ∷ []) true db).0 rep
project_tasks-purge_tasks_example =
    project_tasks-purge_tasks db db-IsReferential db_owned ("task-1" ∷ []) true
