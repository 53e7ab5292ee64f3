-- ===== src/Cleaner/DryRun.antt =====
-- A dry run reports what the deletion deletes, and neither fails.
use veriproc.Prelude.{String, Bool, true, false, List, [], ◌∷◌, some, ◌≡◌, refl, subst, ◌∙◌}
use veriproc.Prelude.Errors.{Result, ok}
use veriproc.Store.Table.{select}
use veriproc.Store.Table.Laws.{some_inj}
use veriproc.Store.Db.{Db}
use veriproc.Store.Cleanup.{among}
use veriproc.Prelude.Lists.{All}
use veriproc.Store.Cleanup.Integrity.{IsReferential}
use veriproc.Store.Cleanup.Integrity.Tasks.{OwnsRecord}
use veriproc.Store.Cleanup.Known.{collect_closure-known_tasks}
use veriproc.Store.Cleanup.Commit.Met.{committed-IsReferential}
use veriproc.Store.Cleanup.Purged.{closure-IsReferential, nullified-IsReferential}
use veriproc.Store.Cleanup.Closure.{seeded, collect_closure, expand}
use veriproc.Store.Cleanup.Closure.Complete.{collect_closure-some}
use veriproc.Store.Cleanup.Purge.{
  PurgeResult, purge_tasks, purge_targets, known_tasks, runs_of_tasks, nothing,
}
use veriproc.Cleaner.{Report, project_tasks, projection}

-- A report of a dry run that names what a deletion deleted.
pub record Projects (rep : Report) (res : PurgeResult) : Type 0 where
  pub tasks : rep.task_ids ≡ res.task_ids
  pub runs : rep.run_ids ≡ res.run_ids
  pub roots : rep.working_roots ≡ res.working_roots

-- What the purge returns, and what the dry run of it projects.
abbrev pub Agrees : Result PurgeResult → Report → Type 0
Agrees answer rep = (res : PurgeResult) × (answer ≡ ok res) × Projects rep res

none_of_tasks : (db : Db) → runs_of_tasks [] db ≡ []
unfolding among
none_of_tasks db = nothing_selected db.runs
  where
    nothing_selected : {A : Type 0} (rows : List A) → select (λ r. false) rows ≡ []
    nothing_selected [] = refl
    nothing_selected (r ∷ rows) = nothing_selected rows

module _ (db : Db) (h : IsReferential db) (owns : All (OwnsRecord db.idempotency) db.tasks) where
  projection_empty : Projects (projection [] db) nothing
  projection_empty = rw (none_of_tasks db) (record { tasks = refl; runs = refl; roots = refl })

  cascade-Agrees :
      (known closure : List String)
      → collect_closure true db.tasks known ≡ some closure
      → Agrees (purge_targets true known db).0 (projection closure db)
  cascade-Agrees [] closure e = (
    nothing,
    refl,
    subst (λ c. Projects (projection c db) nothing) (some_inj (empty e)) projection_empty,
  )
    where
      empty : collect_closure true db.tasks [] ≡ some closure → some [] ≡ some closure
      empty e = unfold collect_closure seeded expand in e
  cascade-Agrees (id ∷ ids) closure e =
      rw
        (
          e,
          committed-IsReferential {A = PurgeResult} db _ _
              (closure-IsReferential db h owns (id ∷ ids) closure e),
        )
        (_, refl, record { tasks = refl; runs = refl; roots = refl })

  single-Agrees :
      (known : List String) → Agrees (purge_targets false known db).0 (projection known db)
  single-Agrees [] = (nothing, refl, projection_empty)
  single-Agrees (id ∷ ids) =
      rw
        (committed-IsReferential {A = PurgeResult} db _ _ (nullified-IsReferential (id ∷ ids) db h))
        (_, refl, record { tasks = refl; runs = refl; roots = refl })

  -- Where every foreign key between the purged tables is met and the idempotency record a task
  -- names belongs to that task, a purge of any tasks succeeds, and so does its dry run, which
  -- changes nothing and reports the tasks, the runs and the working roots that the purge reports.
  pub project_tasks-purge_tasks :
      (ids : List String) (cascade : Bool)
      → (rep : Report) × (project_tasks ids cascade db ≡ (ok rep, db))
        × Agrees (purge_tasks ids cascade db).0 rep
  unfolding project_tasks purge_tasks
  project_tasks-purge_tasks ids true =
      let (closure, e) = collect_closure-some db.tasks ids in
      (
        projection closure db,
        rw e refl,
        cascade-Agrees (known_tasks db.tasks ids) closure
            (collect_closure-known_tasks db.tasks ids ∙ e),
      )
  project_tasks-purge_tasks ids false =
      (projection (known_tasks db.tasks ids) db, refl, single-Agrees (known_tasks db.tasks ids))
