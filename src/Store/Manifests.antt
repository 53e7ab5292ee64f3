-- ===== src/Store/Manifests.antt =====
-- internal/store/manifests.go (`ManifestRepo`): the inputs that a run was prepared with. No call
-- changes a manifest once it is stored.
use veriproc.Prelude.{String, Bool, false, ◌==◌, ◌||◌, ◌++◌, ◌∷◌, List, [], not, if◌then◌else◌}
use veriproc.Prelude.Errors.{ok, err, conflict, other}
use veriproc.Prelude.Effects.{Eff}
use veriproc.Store.Table.{exists_row}
use veriproc.Store.Records.{ManifestRecord, ManifestEntry, RunRecord}
use veriproc.Store.Db.{Db}

-- The UNIQUE constraints of a manifest: manifest_id and run_id.
abbrev pub same_manifest : ManifestRecord → ManifestRecord → Bool
same_manifest m n = n.manifest_id == m.manifest_id || n.run_id == m.run_id

abbrev pub has_entry : String → ManifestRecord → Bool
has_entry id m = exists_row (λ (e : ManifestEntry). e.entry_id == id) m.entries

-- Whether an entry id of the new manifest is there already, in it or in the table.
abbrev pub repeats : List ManifestEntry → List ManifestRecord → Bool
repeats [] stored = false
repeats (e ∷ es) stored =
    exists_row (λ (f : ManifestEntry). f.entry_id == e.entry_id) es
    || exists_row (has_entry e.entry_id) stored
    || repeats es stored

-- ManifestRepo.Insert: the header and all its entries, or neither
unfoldable pub insert : ManifestRecord → Eff Db (Unit {0})
insert m db =
    if exists_row (same_manifest m) db.manifests
    then (err conflict, db)
    else if not (exists_row (λ (r : RunRecord). r.run_id == m.run_id) db.runs)
    then (err conflict, db)
    else if repeats m.entries db.manifests
    then (err other, db)
    else (ok tt, record db { manifests = db.manifests ++ m ∷ [] })
