-- ===== src/Store/Cleanup.antt =====
-- internal/store/cleanup.go: the rows that a purge of runs or tasks removes. A statement changes
-- the database and the counts that are reported. Foreign keys are checked when the transaction
-- commits; task_history_entries and deduplication_records, which nothing in the program fills,
-- are left out, and entries of manifests go with their manifests.
pub mod Closure
pub mod Commit
pub mod Known
pub mod Purge
pub mod Purged
pub mod References
pub mod Integrity
use veriproc.Prelude.{
  ℕ, zero, suc, ◌+◌, String, Bool, true, false, not, ◌&&◌, ◌||◌, ◌==◌, List, [], ◌∷◌, ◌++◌, map,
  Option, none, some, if◌then◌else◌, leb, eqb, is_some,
}
use veriproc.Prelude.Lists.{length}
use veriproc.Prelude.Errors.{Error, Result, ok, err, not_found}
use veriproc.Prelude.Effects.{Eff}
use veriproc.Store.Table.{update, affected, select, exists_row, find}
use veriproc.Store.Records.{
  Time, RunRecord, JobRecord, ArtifactRecord, PublicationRecord, ManifestRecord, CanonicalityChange,
  SplitGroupMember, ProvenanceLink, FingerprintRecord, TaskRecord, IdempotencyRecord,
}
use veriproc.Store.Db.{Db}
use veriproc.Store.Runs.{has_id}
use veriproc.Store.Tasks.{is_task}

-- x IN (ids)
unfoldable pub among : List String → String → Bool
among [] x = false
among (id ∷ ids) x = id == x || among ids x

pub record DeletionCounts : Type 0 where
  pub tasks : ℕ
  pub runs : ℕ
  pub jobs : ℕ
  pub artifacts : ℕ
  pub publications : ℕ
  pub manifests : ℕ
  pub audits : ℕ
  pub members : ℕ
  pub links : ℕ
  pub idempotency : ℕ

abbrev pub no_deletions : DeletionCounts
no_deletions = record {
  tasks = 0;
  runs = 0;
  jobs = 0;
  artifacts = 0;
  publications = 0;
  manifests = 0;
  audits = 0;
  members = 0;
  links = 0;
  idempotency = 0;
}

pub record Deletion : Type 0 where
  pub db : Db
  pub counts : DeletionCounts

-- What is left of a table.
abbrev pub without : {A : Type 0} → (A → Bool) → List A → List A
without gone rows = select (λ r. not (gone r)) rows

module _ (ids : List String) where
  abbrev delete_publications : Deletion → Deletion
  delete_publications p =
      let gone = λ (r : PublicationRecord).
        among ids r.producing_run_id
        || exists_row
            (λ (a : ArtifactRecord). among ids a.producing_run_id && a.artifact_id == r.artifact_id)
            p.db.artifacts in
      record {
        db = record p.db { publications = without gone p.db.publications };
        counts = record p.counts {
          publications = p.counts.publications + affected gone p.db.publications;
        };
      }

  abbrev delete_artifacts : Deletion → Deletion
  delete_artifacts p =
      let gone = λ (r : ArtifactRecord). among ids r.producing_run_id in
      record {
        db = record p.db { artifacts = without gone p.db.artifacts };
        counts = record p.counts { artifacts = p.counts.artifacts + affected gone p.db.artifacts };
      }

  abbrev delete_jobs : Deletion → Deletion
  delete_jobs p =
      let gone = λ (r : JobRecord). among ids r.run_id in
      record {
        db = record p.db { jobs = without gone p.db.jobs };
        counts = record p.counts { jobs = p.counts.jobs + affected gone p.db.jobs };
      }

  abbrev delete_manifests : Deletion → Deletion
  delete_manifests p =
      let gone = λ (r : ManifestRecord). among ids r.run_id in
      record {
        db = record p.db { manifests = without gone p.db.manifests };
        counts = record p.counts { manifests = p.counts.manifests + affected gone p.db.manifests };
      }

  abbrev delete_audit : (CanonicalityChange → Bool) → Deletion → Deletion
  delete_audit gone p = record {
    db = record p.db { audit = without gone p.db.audit };
    counts = record p.counts { audits = p.counts.audits + affected gone p.db.audit };
  }

  abbrev delete_members : (SplitGroupMember → Bool) → Deletion → Deletion
  delete_members gone p = record {
    db = record p.db { members = without gone p.db.members };
    counts = record p.counts { members = p.counts.members + affected gone p.db.members };
  }

  abbrev delete_links : String → Deletion → Deletion
  delete_links kind p =
      let gone = λ (r : ProvenanceLink).
        r.source_type == kind && among ids r.source_id
        || r.target_type == kind && among ids r.target_id in
      record {
        db = record p.db { provenance = without gone p.db.provenance };
        counts = record p.counts { links = p.counts.links + affected gone p.db.provenance };
      }

  abbrev owned_by : Option String → Bool
  owned_by none = false
  owned_by (some owner) = among ids owner

  -- UPDATE processing_fingerprints SET canonical_run_id = NULL
  abbrev disown : Deletion → Deletion
  disown p = record p {
    db = record p.db {
      fingerprints =
          update (λ f. owned_by f.canonical_run_id) (λ f. record f { canonical_run_id = none })
            p.db.fingerprints;
    };
  }

  abbrev delete_runs : Deletion → Deletion
  delete_runs p =
      let gone = λ (r : RunRecord). among ids r.run_id in
      record {
        db = record p.db { runs = without gone p.db.runs };
        counts = record p.counts { runs = p.counts.runs + affected gone p.db.runs };
      }

  -- deleteRunRows
  unfoldable pub delete_run_rows : Deletion → Deletion
  delete_run_rows p = delete_runs (
      disown (
        delete_links "run" (
          delete_members (λ m. among ids m.run_id)
            (delete_audit (λ c. among ids c.new_run_id || among ids c.previous_run_id)
              (delete_manifests (delete_jobs (delete_artifacts (delete_publications p))))))))

  -- deleteNotNullForRun
  unfoldable pub delete_not_null_for_run : Deletion → Deletion
  delete_not_null_for_run p =
      delete_audit (λ c. among ids c.new_run_id)
        (delete_members (λ m. among ids m.run_id) (delete_manifests (delete_jobs p)))

  -- nullifyRunFKs
  unfoldable pub nullify_run_fks : Deletion → Deletion
  nullify_run_fks p = disown (record p {
    db = record p.db {
      artifacts =
          update (λ a. among ids a.producing_run_id) (λ a. record a { producing_run_id = "" })
            p.db.artifacts;
      publications =
          update (λ r. among ids r.producing_run_id) (λ r. record r { producing_run_id = "" })
            p.db.publications;
      audit =
          update (λ c. among ids c.previous_run_id) (λ c. record c { previous_run_id = "" })
            p.db.audit;
    };
  })

  -- nullifyRunRows
  unfoldable pub nullify_run_rows : Deletion → Deletion
  nullify_run_rows p = delete_runs (nullify_run_fks (delete_not_null_for_run p))

  abbrev delete_tasks : Deletion → Deletion
  delete_tasks p =
      let gone = λ (t : TaskRecord). among ids t.task_id in
      record {
        db = record p.db { tasks = without gone p.db.tasks };
        counts = record p.counts { tasks = p.counts.tasks + affected gone p.db.tasks };
      }

  abbrev delete_records : Deletion → Deletion
  delete_records p =
      let gone = λ (r : IdempotencyRecord). among ids r.task_id in
      record {
        db = record p.db { idempotency = without gone p.db.idempotency };
        counts = record p.counts {
          idempotency = p.counts.idempotency + affected gone p.db.idempotency;
        };
      }

  -- deleteTaskRows
  unfoldable pub delete_task_rows : Deletion → Deletion
  delete_task_rows p =
      delete_tasks
        (delete_records (delete_links "task" (delete_members (λ m. among ids m.task_id) p)))
