-- ===== src/Store/Artifacts.antt =====
-- internal/store/artifacts.go, publications.go and provenance.go: the rows that finalization adds.
use veriproc.Prelude.{String, Bool, ◌==◌, ◌&&◌, ◌||◌, ◌++◌, ◌∷◌, [], not, if◌then◌else◌}
use veriproc.Prelude.Errors.{ok, err, conflict, other}
use veriproc.Prelude.Effects.{Eff}
use veriproc.Store.Table.{exists_row}
use veriproc.Store.Records.{ArtifactRecord, PublicationRecord, ProvenanceLink, RunRecord}
use veriproc.Store.Db.{Db}

abbrev or_default : String → String → String
or_default s d = if s == "" then d else s

-- A nullable reference to a run is met by NULL or by a row.
abbrev run_exists : String → Db → Bool
run_exists id db = id == "" || exists_row (λ (r : RunRecord). r.run_id == id) db.runs

abbrev pub is_artifact : String → ArtifactRecord → Bool
is_artifact id a = a.artifact_id == id

-- ArtifactRepo.Insert: a missing run is a conflict, a reused id an error without a sentinel.
unfoldable pub insert_artifact : ArtifactRecord → Eff Db (Unit {0})
insert_artifact a db =
    if exists_row (is_artifact a.artifact_id) db.artifacts
    then (err other, db)
    else if not (run_exists a.producing_run_id db)
    then (err conflict, db)
    else (
      ok tt,
      record db {
        artifacts =
            db.artifacts
            ++ record a {
              availability = or_default a.availability "available";
              object_kind = or_default a.object_kind "regular_file";
            }
              ∷ [];
      },
    )

-- The UNIQUE constraints of a publication.
abbrev same_publication : PublicationRecord → PublicationRecord → Bool
same_publication p q =
    q.publication_id == p.publication_id
    || (q.artifact_id == p.artifact_id
        && q.archive_id == p.archive_id
        && q.target_path == p.target_path)

-- PublicationRepo.Insert
unfoldable pub insert_publication : PublicationRecord → Eff Db (Unit {0})
insert_publication p db =
    if exists_row (same_publication p) db.publications
    then (err conflict, db)
    else if not
        (exists_row (is_artifact p.artifact_id) db.artifacts && run_exists p.producing_run_id db)
    then (err other, db)
    else (
      ok tt,
      record db {
        publications =
            db.publications
            ++ record p {
              publication_state = or_default p.publication_state "pending";
              publication_mode = or_default p.publication_mode "copy";
              object_kind = or_default p.object_kind "regular_file";
            }
              ∷ [];
      },
    )

-- The UNIQUE constraints of a link.
abbrev pub same_link : ProvenanceLink → ProvenanceLink → Bool
same_link p q =
    q.link_id == p.link_id
    || (q.source_type == p.source_type
        && q.source_id == p.source_id
        && q.target_type == p.target_type
        && q.target_id == p.target_id
        && q.relationship_type == p.relationship_type)

-- ProvenanceRepo.Insert
unfoldable pub insert_link : ProvenanceLink → Eff Db (Unit {0})
insert_link l db =
    if exists_row (same_link l) db.provenance
    then (err conflict, db)
    else (ok tt, record db { provenance = db.provenance ++ l ∷ [] })
