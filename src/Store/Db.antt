-- ===== src/Store/Db.antt =====
-- The database: one list of rows for each table of migrations/0001_init.sql that the lifecycle
-- reads or writes, and the statements as effects on it.
use veriproc.Prelude.{Option, none, some, ℕ, List, [], Bool}
use veriproc.Prelude.Errors.{Result, ok, err, not_found}
use veriproc.Prelude.Effects.{Eff}
use veriproc.Store.Table.{update, affected}
use veriproc.Store.Records.{
  RunRecord, JobRecord, TaskRecord, FingerprintRecord, CanonicalityChange, SplitGroupRecord,
  SplitGroupMember, ArtifactRecord, PublicationRecord, ProvenanceLink, StationRevisionRecord,
  StationControlRecord, ManifestRecord, IdempotencyRecord,
}

pub record Db : Type 0 where
  pub revisions : List StationRevisionRecord
  pub controls : List StationControlRecord
  pub idempotency : List IdempotencyRecord
  pub tasks : List TaskRecord
  pub runs : List RunRecord
  pub manifests : List ManifestRecord
  pub jobs : List JobRecord
  pub fingerprints : List FingerprintRecord
  pub audit : List CanonicalityChange
  pub groups : List SplitGroupRecord
  pub members : List SplitGroupMember
  pub artifacts : List ArtifactRecord
  pub publications : List PublicationRecord
  pub provenance : List ProvenanceLink

abbrev pub empty_db : Db
empty_db = record {
  revisions = [];
  controls = [];
  idempotency = [];
  tasks = [];
  manifests = [];
  runs = [];
  jobs = [];
  fingerprints = [];
  audit = [];
  groups = [];
  members = [];
  artifacts = [];
  publications = [];
  provenance = [];
}

-- The row that QueryRow scans, or sql.ErrNoRows as ErrNotFound.
abbrev pub or_not_found {ℓ} : {A : Type ℓ} → Option A → Result A
or_not_found none = err not_found
or_not_found (some a) = ok a

-- UPDATE on one table, with the number of rows that it changed
abbrev pub exec_runs : (RunRecord → Bool) → (RunRecord → RunRecord) → Eff Db ℕ
exec_runs p f db = (ok (affected p db.runs), record db { runs = update p f db.runs })

abbrev pub exec_jobs : (JobRecord → Bool) → (JobRecord → JobRecord) → Eff Db ℕ
exec_jobs p f db = (ok (affected p db.jobs), record db { jobs = update p f db.jobs })

abbrev pub exec_tasks : (TaskRecord → Bool) → (TaskRecord → TaskRecord) → Eff Db ℕ
exec_tasks p f db = (ok (affected p db.tasks), record db { tasks = update p f db.tasks })

abbrev pub exec_fingerprints :
    (FingerprintRecord → Bool) → (FingerprintRecord → FingerprintRecord) → Eff Db ℕ
exec_fingerprints p f db =
    (ok (affected p db.fingerprints), record db { fingerprints = update p f db.fingerprints })

abbrev pub exec_groups :
    (SplitGroupRecord → Bool) → (SplitGroupRecord → SplitGroupRecord) → Eff Db ℕ
exec_groups p f db = (ok (affected p db.groups), record db { groups = update p f db.groups })
