-- ===== src/Store/Cleanup/Purged.antt =====
-- A purge of tasks leaves no dangling reference, whether it takes their descendants along or cuts
-- them off.
use veriproc.Prelude.{
  String, Bool, true, false, not, ◌&&◌, ◌||◌, ◌==◌, List, [], ◌∷◌, if◌then◌else◌, ◌≡◌, refl, arith,
  eq_refl, Bool-cases, Option-cases, inl, inr, some,
}
use veriproc.Prelude.Lists.{All}
use veriproc.Prelude.Effects.{◌>>=◌}
use veriproc.Store.Runs
use veriproc.Store.Runs.{has_id}
use veriproc.Store.Table.{find, update}
use veriproc.Store.Records.{TaskRecord}
use veriproc.Store.Db.{Db}
use veriproc.Store.Cleanup.{
  among, delete_run_rows, nullify_run_rows, delete_not_null_for_run, nullify_run_fks,
}
use veriproc.Store.Cleanup.References.{
  RefersAll-without, RefersAll-update, RefersAll-update_parents, RefersAll-null, without-update,
}
use veriproc.Store.Cleanup.Integrity.{
  IsReferential, delete_run_rows-IsReferential, nullify_run_rows-IsReferential,
}
use veriproc.Store.Cleanup.Integrity.Tasks.{
  IsOrphan, OwnsRecord, gone, run_ids-IsTaken, All-IsApart, parents_left, runs_left, members_left,
  delete_task_rows-IsReferential,
}
use veriproc.Prelude.Errors.{Result, is_ok}
use veriproc.Prelude.{is_some}
use veriproc.Store.Cleanup.Commit.{committed}
use veriproc.Store.Cleanup.Commit.Met.{committed-IsReferential}
use veriproc.Store.Cleanup.Purge.{
  PurgeResult, cascaded, nullified, runs_of_tasks, run_ids, started, orphan_children, purge_tasks,
  purge_run, purge_targets, known_tasks,
}
use veriproc.Prelude.{◌∙◌}
use veriproc.Store.Cleanup.Known.{collect_closure-known_tasks}
use veriproc.Store.Cleanup.Closure.Complete.{collect_closure-some}
use veriproc.Store.Cleanup.Closure.{collect_closure}
use veriproc.Store.Cleanup.Closure.Closed.{IsServed, collect_closure-IsServed}

module _ (ids : List String) (db : Db) (h : IsReferential db) where
  abbrev runs : List String
  runs = run_ids (runs_of_tasks ids db)

  served_orphans :
      (tasks : List TaskRecord)
      → All (IsServed ids []) tasks
      → All (λ t. gone ids t ≡ false → IsOrphan ids t) tasks
  unfolding among
  served_orphans [] served = tt
  served_orphans (t ∷ tasks) served = (
    λ kept. orphan (t.parent_task_id == "") (among ids t.parent_task_id) _ served.0 kept,
    served_orphans tasks served.1,
  )
    where
      orphan :
          (b c d : Bool)
          → ((not b && c && not false) ≡ true → d ≡ true)
          → d ≡ false
          → (b || not c) ≡ true
      orphan true c d s k = ground arith
      orphan false true d s k = absurd (ground (arith, s refl))
      orphan false false d s k = ground arith

  cascaded-IsReferential :
      All (OwnsRecord db.idempotency) db.tasks
      → All (IsServed ids []) db.tasks
      → IsReferential (cascaded ids runs db).db
  unfolding cascaded delete_run_rows
  cascaded-IsReferential owns served =
      delete_task_rows-IsReferential ids (delete_run_rows runs (started db))
        (delete_run_rows-IsReferential runs (started db) h)
        (All-IsApart ids runs db.runs (run_ids-IsTaken ids db.runs))
        (served_orphans db.tasks served) owns

  abbrev cut : Db
  cut = (orphan_children ids (started db)).db

  cut-IsReferential : IsReferential cut
  cut-IsReferential = record {
    jobs = h.jobs;
    manifests = h.manifests;
    artifacts = h.artifacts;
    producers = h.producers;
    published = h.published;
    audit = h.audit;
    members_runs = h.members_runs;
    members_tasks =
        RefersAll-update_parents _ (λ t. t.task_id) (λ t. among ids t.parent_task_id)
          (λ t. record t { parent_task_id = "" }) db.members db.tasks (λ t. refl) h.members_tasks;
    runs =
        RefersAll-update_parents _ (λ t. t.task_id) (λ t. among ids t.parent_task_id)
          (λ t. record t { parent_task_id = "" }) db.runs db.tasks (λ t. refl) h.runs;
    parents =
        RefersAll-update_parents _ (λ t. t.task_id) (λ t. among ids t.parent_task_id)
          (λ t. record t { parent_task_id = "" }) cut.tasks db.tasks (λ t. refl)
          (RefersAll-null _ (λ t. t.task_id) (λ t. among ids t.parent_task_id)
            (λ t. record t { parent_task_id = "" }) db.tasks db.tasks (λ t. refl) h.parents);
    records =
        RefersAll-update _ (λ r. r.id) (λ t. among ids t.parent_task_id)
          (λ t. record t { parent_task_id = "" }) db.tasks db.idempotency (λ t. refl) h.records;
  }

  cut_orphans :
      (tasks : List TaskRecord)
      → All
          (λ t. gone ids t ≡ false → IsOrphan ids t)
          (update (λ t. among ids t.parent_task_id) (λ t. record t { parent_task_id = "" }) tasks)
  cut_orphans [] = tt
  cut_orphans (t ∷ tasks) = elim (Bool-cases (among ids t.parent_task_id)) [
    | inl child ↦ rw child (λ kept. ground (arith, eq_refl ""), cut_orphans tasks)
    | inr other ↦ rw other (λ kept. ground arith, cut_orphans tasks)
  ]

  pub nullified-IsReferential : IsReferential (nullified ids runs db).db
  unfolding nullified nullify_run_rows delete_not_null_for_run nullify_run_fks
  nullified-IsReferential =
      let p = nullify_run_rows runs (orphan_children ids (started db)) in
      let k =
        nullify_run_rows-IsReferential runs (orphan_children ids (started db)) cut-IsReferential in
      let apart = All-IsApart ids runs db.runs (run_ids-IsTaken ids db.runs) in
      let orphans = cut_orphans db.tasks in
      rw
        (without-update (gone ids) (λ t. record t { idempotency_record_id = "" }) cut.tasks
          (λ t. refl))
        (record {
          jobs = k.jobs;
          manifests = k.manifests;
          artifacts = k.artifacts;
          producers = k.producers;
          published = k.published;
          audit = k.audit;
          members_runs = RefersAll-without _ _ _ p.db.members p.db.runs k.members_runs;
          members_tasks = members_left ids p k apart orphans;
          runs = runs_left ids p k apart orphans;
          parents = parents_left ids p k apart orphans;
          records = RefersAll-without _ _ (gone ids) p.db.tasks p.db.idempotency k.records;
        })

-- A transaction that commits, and leaves every foreign key met.
abbrev pub Commits : Result PurgeResult × Db → Type 0
Commits outcome = (is_ok outcome.0 ≡ true) × IsReferential outcome.1

committed-Commits :
    (before after : Db) (res : PurgeResult)
    → IsReferential after
    → Commits (committed before res after)
committed-Commits before after res k = rw (committed-IsReferential before after res k) (refl, k)

module _ (db : Db) (h : IsReferential db) (owns : All (OwnsRecord db.idempotency) db.tasks) where
  pub closure-IsReferential :
      (ids closure : List String)
      → collect_closure true db.tasks ids ≡ some closure
      → IsReferential (cascaded closure (run_ids (runs_of_tasks closure db)) db).db
  closure-IsReferential ids closure e =
      cascaded-IsReferential closure db h owns
        (collect_closure-IsServed true db.tasks ids closure e)

  targets-Commits :
      (cascade : Bool) (ids closure : List String)
      → collect_closure true db.tasks ids ≡ some closure
      → Commits (purge_targets cascade ids db)
  targets-Commits cascade [] closure e = (refl, h)
  targets-Commits true (id ∷ ids) closure e =
      rw e (committed-Commits db _ _ (closure-IsReferential (id ∷ ids) closure e))
  targets-Commits false (id ∷ ids) closure e =
      committed-Commits db _ _ (nullified-IsReferential (id ∷ ids) db h)

  -- A purge of any tasks, with their descendants or cutting them off, succeeds, and leaves every
  -- foreign key between the purged tables met, provided that all were met before and that the
  -- idempotency record a task names belongs to that task.
  pub purge_tasks-IsReferential :
      (ids : List String) (cascade : Bool)
      → (is_ok (purge_tasks ids cascade db).0 ≡ true) × IsReferential (purge_tasks ids cascade db).1
  unfolding purge_tasks
  purge_tasks-IsReferential ids cascade =
      let (closure, e) = collect_closure-some db.tasks ids in
      targets-Commits cascade (known_tasks db.tasks ids) closure
        (collect_closure-known_tasks db.tasks ids ∙ e)

  removed-IsReferential :
      (id : String) (cascade : Bool)
      → IsReferential
          (if cascade
            then delete_run_rows (id ∷ []) (started db)
            else nullify_run_rows (id ∷ []) (started db)).db
  removed-IsReferential id true = delete_run_rows-IsReferential (id ∷ []) (started db) h
  removed-IsReferential id false = nullify_run_rows-IsReferential (id ∷ []) (started db) h

  -- A purge of a run, with its child rows or without, succeeds just when the run is in the table,
  -- and leaves every foreign key between the purged tables met, provided that all were met before
  -- and that the idempotency record a task names belongs to that task.
  pub purge_run-IsReferential :
      (id : String) (cascade : Bool)
      → (is_ok (purge_run id cascade db).0 ≡ is_some (find (has_id id) db.runs))
        × IsReferential (purge_run id cascade db).1
  unfolding purge_run ◌>>=◌ Runs.get
  purge_run-IsReferential id cascade = elim (Option-cases (find (has_id id) db.runs)) [
    | inl absent ↦ rw absent (refl, h)
    | inr (r, there) ↦ rw there (committed-Commits db _ _ (removed-IsReferential r.run_id cascade))
  ]
