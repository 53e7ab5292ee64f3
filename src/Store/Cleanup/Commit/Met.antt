-- ===== src/Store/Cleanup/Commit/Met.antt =====
-- A transaction after which every foreign key is met commits.
use veriproc.Prelude.{String, true, List, [], ◌∷◌, ◌≡◌, refl}
use veriproc.Prelude.Errors.{ok}
use veriproc.Store.Db.{Db}
use veriproc.Store.Cleanup.References.{RefersAll}
use veriproc.Store.Cleanup.Integrity.{IsReferential}
use veriproc.Store.Cleanup.Commit.{all_refer, keys_met, committed}

all_refer-RefersAll :
    {A B : Type 0} (column : A → String) (key : B → String) (rows : List A) (parents : List B)
    → RefersAll column key rows parents
    → all_refer column key rows parents ≡ true
all_refer-RefersAll column key [] parents h = refl
all_refer-RefersAll column key (a ∷ rows) parents h =
    rw (h.0, all_refer-RefersAll column key rows parents h.1) refl

pub keys_met-IsReferential : (db : Db) → IsReferential db → keys_met db ≡ true
unfolding keys_met
keys_met-IsReferential db h =
    rw
      (
        all_refer-RefersAll _ _ db.jobs db.runs h.jobs,
        all_refer-RefersAll _ _ db.manifests db.runs h.manifests,
        all_refer-RefersAll _ _ db.artifacts db.runs h.artifacts,
        all_refer-RefersAll _ _ db.publications db.runs h.producers,
        all_refer-RefersAll _ _ db.publications db.artifacts h.published,
        all_refer-RefersAll _ _ db.audit db.runs h.audit,
        all_refer-RefersAll _ _ db.members db.runs h.members_runs,
        all_refer-RefersAll _ _ db.members db.tasks h.members_tasks,
        all_refer-RefersAll _ _ db.runs db.tasks h.runs,
        all_refer-RefersAll _ _ db.tasks db.tasks h.parents,
        all_refer-RefersAll _ _ db.tasks db.idempotency h.records,
      )
      refl

pub committed-IsReferential :
    {A : Type 0} (before after : Db) (a : A)
    → IsReferential after
    → committed before a after ≡ (ok a, after)
committed-IsReferential before after a h = rw (keys_met-IsReferential after h) refl
