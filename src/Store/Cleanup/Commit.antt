-- ===== src/Store/Cleanup/Commit.antt =====
-- The end of a purge's transaction (Tx.deferForeignKeys of internal/store/cleanup.go, InTx of
-- store.go, migrations/0001_init.sql): the foreign keys are checked when it commits, and a row that
-- refers to none rolls everything back. The tables are taken to meet their keys before a purge, as
-- the connection enforces.
pub mod Met
use veriproc.Prelude.{String, Bool, true, ◌&&◌, List, [], ◌∷◌, if◌then◌else◌}
use veriproc.Prelude.Errors.{Result, ok, err, other}
use veriproc.Store.Records.{
  RunRecord, JobRecord, ArtifactRecord, PublicationRecord, ManifestRecord, CanonicalityChange,
  SplitGroupMember, TaskRecord, IdempotencyRecord,
}
use veriproc.Store.Db.{Db}
use veriproc.Store.Cleanup.References.{refers}

-- FOREIGN KEY (column) REFERENCES parents (key), for every row of a table
abbrev pub all_refer : {A B : Type 0} → (A → String) → (B → String) → List A → List B → Bool
all_refer column key [] parents = true
all_refer column key (a ∷ rest) parents =
    let later = all_refer column key rest parents in refers column key parents a && later

abbrev run_key : RunRecord → String
run_key r = r.run_id

abbrev task_key : TaskRecord → String
task_key t = t.task_id

-- The keys that are deferred: the FOREIGN KEY clauses of migrations/0001_init.sql between the tables
-- that a purge writes.
unfoldable pub keys_met : Db → Bool
keys_met db =
    all_refer (λ (j : JobRecord). j.run_id) run_key db.jobs db.runs
    && all_refer (λ (m : ManifestRecord). m.run_id) run_key db.manifests db.runs
    && all_refer (λ (a : ArtifactRecord). a.producing_run_id) run_key db.artifacts db.runs
    && all_refer (λ (p : PublicationRecord). p.producing_run_id) run_key db.publications db.runs
    && all_refer (λ (p : PublicationRecord). p.artifact_id) (λ (a : ArtifactRecord). a.artifact_id)
        db.publications db.artifacts
    && all_refer (λ (c : CanonicalityChange). c.new_run_id) run_key db.audit db.runs
    && all_refer (λ (m : SplitGroupMember). m.run_id) run_key db.members db.runs
    && all_refer (λ (m : SplitGroupMember). m.task_id) task_key db.members db.tasks
    && all_refer (λ (r : RunRecord). r.task_id) task_key db.runs db.tasks
    && all_refer (λ (t : TaskRecord). t.parent_task_id) task_key db.tasks db.tasks
    && all_refer (λ (t : TaskRecord). t.idempotency_record_id) (λ (r : IdempotencyRecord). r.id)
        db.tasks db.idempotency

-- tx.Commit
abbrev pub committed : {A : Type 0} → Db → A → Db → Result A × Db
committed before a after = if keys_met after then (ok a, after) else (err other, before)
