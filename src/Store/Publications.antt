-- ===== src/Store/Publications.antt =====
-- internal/store/publications.go and artifacts.go: the states of publications, and the row of an
-- artifact.
use veriproc.Prelude.{
  ℕ, zero, suc, String, Bool, ◌&&◌, ◌==◌, List, [], ◌∷◌, some, if◌then◌else◌, leb, eqb,
}
use veriproc.Prelude.Errors.{ok, err, not_found}
use veriproc.Prelude.Effects.{Eff}
use veriproc.Store.Table.{update, affected, select, find}
use veriproc.Store.Records.{Time, PublicationRecord, ArtifactRecord}
use veriproc.Store.Db.{Db, or_not_found}
use veriproc.Store.Artifacts.{is_artifact}

abbrev pub has_publication_id : String → PublicationRecord → Bool
has_publication_id id p = p.publication_id == id

abbrev pub is_pending : PublicationRecord → Bool
is_pending p = p.publication_state == "pending"

-- PublicationRepo.MarkPublished
unfoldable pub mark_published : String → Time → Eff Db (Unit {0})
mark_published id at db =
    let which : PublicationRecord → Bool = λ p. has_publication_id id p && is_pending p in
    let after = record db {
      publications =
          update which
            (λ p. record p {
              publication_state = "published";
              published_at = some at;
              failure_reason = "";
            })
            db.publications;
    } in
    if eqb (affected which db.publications) 0 then (err not_found, after) else (ok tt, after)

-- PublicationRepo.MarkFailed
unfoldable pub mark_failed : String → String → Eff Db (Unit {0})
mark_failed id reason db = (
  ok tt,
  record db {
    publications =
        update (has_publication_id id)
          (λ p. record p { publication_state = "failed"; failure_reason = reason }) db.publications;
  },
)

-- ORDER BY created_at
abbrev pub place : PublicationRecord → List PublicationRecord → List PublicationRecord
place p [] = p ∷ []
place p (q ∷ qs) =
    let rest = place p qs in if leb p.created_at q.created_at then p ∷ q ∷ qs else q ∷ rest

abbrev pub oldest_first : List PublicationRecord → List PublicationRecord
oldest_first [] = []
oldest_first (p ∷ ps) = place p (oldest_first ps)

-- LIMIT
abbrev pub first_rows : ℕ → List PublicationRecord → List PublicationRecord
first_rows zero ps = []
first_rows (suc n) [] = []
first_rows (suc n) (p ∷ ps) = p ∷ first_rows n ps

abbrev pub pending_rows : ℕ → Db → List PublicationRecord
pending_rows limit db =
    first_rows (if eqb limit 0 then 50 else limit)
      (oldest_first (select is_pending db.publications))

-- PublicationRepo.ListPending
unfoldable pub list_pending : ℕ → Eff Db (List PublicationRecord)
list_pending limit db = (ok (pending_rows limit db), db)

-- ArtifactRepo.Get
unfoldable pub get_artifact : String → Eff Db ArtifactRecord
get_artifact id db = (or_not_found (find (is_artifact id) db.artifacts), db)
