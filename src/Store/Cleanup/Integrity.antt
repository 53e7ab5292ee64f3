-- ===== src/Store/Cleanup/Integrity.antt =====
-- A purge of a run leaves no reference to a row that it deleted, so that the deferred foreign keys
-- hold when its transaction commits.
pub mod Tasks
use veriproc.Prelude.{
  String, Bool, true, false, not, ◌&&◌, ◌||◌, ◌==◌, List, [], ◌∷◌, if◌then◌else◌, ◌≡◌, ◌≢◌, refl,
  arith, ap, eq_iff, Bool-cases, inl, inr,
}
use veriproc.Prelude.Lists.{All}
use veriproc.Prelude.Errors.{Result, ok, err}
use veriproc.Prelude.Effects.Inversion.{bind-ok}
use veriproc.Store.Table.{exists_row, select, update}
use veriproc.Store.Records.{
  RunRecord, JobRecord, ArtifactRecord, PublicationRecord, ManifestRecord, CanonicalityChange,
  SplitGroupMember, TaskRecord, IdempotencyRecord,
}
use veriproc.Store.Db.{Db}
use veriproc.Store.Cleanup.{
  among, without, Deletion, delete_run_rows, nullify_run_rows, delete_not_null_for_run,
  nullify_run_fks,
}
use veriproc.Store.Cleanup.References.{
  RefersAll, RefersAll-without, RefersAll-update, RefersAll-update_parents, RefersAll-delete,
  RefersAll-nullify, RefersAll-ids, RefersAll-parents, refers,
}

-- The foreign keys of migrations/0001_init.sql between the tables that a purge writes. A task and
-- its idempotency record name each other.
pub record IsReferential (db : Db) : Type 0 where
  pub jobs : RefersAll (λ (j : JobRecord). j.run_id) (λ (r : RunRecord). r.run_id) db.jobs db.runs
  pub manifests :
      RefersAll
        (λ (m : ManifestRecord). m.run_id)
        (λ (r : RunRecord). r.run_id)
        db.manifests
        db.runs
  pub artifacts :
      RefersAll
        (λ (a : ArtifactRecord). a.producing_run_id)
        (λ (r : RunRecord). r.run_id)
        db.artifacts
        db.runs
  pub producers :
      RefersAll
        (λ (p : PublicationRecord). p.producing_run_id)
        (λ (r : RunRecord). r.run_id)
        db.publications
        db.runs
  pub published :
      RefersAll
        (λ (p : PublicationRecord). p.artifact_id)
        (λ (a : ArtifactRecord). a.artifact_id)
        db.publications
        db.artifacts
  pub audit :
      RefersAll
        (λ (c : CanonicalityChange). c.new_run_id)
        (λ (r : RunRecord). r.run_id)
        db.audit
        db.runs
  pub members_runs :
      RefersAll
        (λ (m : SplitGroupMember). m.run_id)
        (λ (r : RunRecord). r.run_id)
        db.members
        db.runs
  pub members_tasks :
      RefersAll
        (λ (m : SplitGroupMember). m.task_id)
        (λ (t : TaskRecord). t.task_id)
        db.members
        db.tasks
  pub runs :
      RefersAll (λ (r : RunRecord). r.task_id) (λ (t : TaskRecord). t.task_id) db.runs db.tasks
  pub parents :
      RefersAll
        (λ (t : TaskRecord). t.parent_task_id)
        (λ (t : TaskRecord). t.task_id)
        db.tasks
        db.tasks
  pub records :
      RefersAll
        (λ (t : TaskRecord). t.idempotency_record_id)
        (λ (r : IdempotencyRecord). r.id)
        db.tasks
        db.idempotency

module _ (ids : List String) where
  -- The publications that stay do not show an artifact that goes.
  published_left :
      (artifacts : List ArtifactRecord) (gone : PublicationRecord → Bool)
      → ((p : PublicationRecord)
          → exists_row
              (λ (a : ArtifactRecord).
                among ids a.producing_run_id && a.artifact_id == p.artifact_id)
              artifacts
            ≡ true
          → gone p ≡ true)
      → (publications : List PublicationRecord)
      → All
          (λ p.
            (p.artifact_id == ""
              || not (
                  exists_row
                    (λ (a : ArtifactRecord).
                      among ids a.producing_run_id && a.artifact_id == p.artifact_id)
                    artifacts))
            ≡ true)
          (without gone publications)
  published_left artifacts gone covers [] = tt
  published_left artifacts gone covers (p ∷ publications) = elim (Bool-cases (gone p)) [
    | inl deleted ↦ rw deleted (published_left artifacts gone covers publications)
    | inr kept ↦
        rw kept (ground (arith, covers p), published_left artifacts gone covers publications)
  ]

  pub delete_run_rows-IsReferential :
      (p : Deletion) → IsReferential p.db → IsReferential (delete_run_rows ids p).db
  unfolding delete_run_rows
  delete_run_rows-IsReferential p h = record {
    jobs = RefersAll-delete _ _ ids _ p.db.jobs p.db.runs (λ j e. e) h.jobs;
    manifests = RefersAll-delete _ _ ids _ p.db.manifests p.db.runs (λ m e. e) h.manifests;
    artifacts = RefersAll-delete _ _ ids _ p.db.artifacts p.db.runs (λ a e. e) h.artifacts;
    producers =
        RefersAll-delete _ _ ids _ p.db.publications p.db.runs (λ r e. ground arith) h.producers;
    published =
        RefersAll-parents _ _ (λ a. among ids a.producing_run_id) _ p.db.artifacts
          (published_left p.db.artifacts _ (λ r e. ground arith) p.db.publications)
          (RefersAll-without _ _ _ p.db.publications p.db.artifacts h.published);
    audit = RefersAll-delete _ _ ids _ p.db.audit p.db.runs (λ c e. ground arith) h.audit;
    members_runs = RefersAll-delete _ _ ids _ p.db.members p.db.runs (λ m e. e) h.members_runs;
    members_tasks = RefersAll-without _ _ _ p.db.members p.db.tasks h.members_tasks;
    runs = RefersAll-without _ _ _ p.db.runs p.db.tasks h.runs;
    parents = h.parents;
    records = h.records;
  }

  pub nullify_run_rows-IsReferential :
      (p : Deletion) → IsReferential p.db → IsReferential (nullify_run_rows ids p).db
  unfolding nullify_run_rows delete_not_null_for_run nullify_run_fks
  nullify_run_rows-IsReferential p h = record {
    jobs = RefersAll-delete _ _ ids _ p.db.jobs p.db.runs (λ j e. e) h.jobs;
    manifests = RefersAll-delete _ _ ids _ p.db.manifests p.db.runs (λ m e. e) h.manifests;
    artifacts = RefersAll-nullify _ _ ids _ p.db.artifacts p.db.runs (λ a. refl) h.artifacts;
    producers = RefersAll-nullify _ _ ids _ p.db.publications p.db.runs (λ r. refl) h.producers;
    published =
        RefersAll-update_parents _ _ (λ a. among ids a.producing_run_id)
          (λ a. record a { producing_run_id = "" }) _ p.db.artifacts (λ a. refl)
          (RefersAll-update _ _ (λ r. among ids r.producing_run_id)
            (λ r. record r { producing_run_id = "" }) p.db.publications p.db.artifacts (λ r. refl)
            h.published);
    audit =
        RefersAll-update {B = RunRecord} (λ c. c.new_run_id) (λ r. r.run_id)
          (λ c. among ids c.previous_run_id) (λ c. record c { previous_run_id = "" }) _
          (without (λ r. among ids r.run_id) p.db.runs) (λ c. refl)
          (RefersAll-delete _ _ ids _ p.db.audit p.db.runs (λ c e. e) h.audit);
    members_runs = RefersAll-delete _ _ ids _ p.db.members p.db.runs (λ m e. e) h.members_runs;
    members_tasks = RefersAll-without _ _ _ p.db.members p.db.tasks h.members_tasks;
    runs = RefersAll-without _ _ _ p.db.runs p.db.tasks h.runs;
    parents = h.parents;
    records = h.records;
  }
