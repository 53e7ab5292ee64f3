-- ===== src/Store/Idempotency.antt =====
-- internal/store/idempotency.go: the operations of `IdempotencyRepo`.
use veriproc.Prelude.{
  ℕ, String, Bool, false, not, ◌==◌, ◌&&◌, ◌||◌, [], ◌∷◌, ◌++◌, Option, none, some, if◌then◌else◌,
  ltb,
}
use veriproc.Prelude.Errors.{ok, err, conflict, other}
use veriproc.Prelude.Effects.{Eff}
use veriproc.Store.Table.{find, exists_row, select, affected}
use veriproc.Store.Records.{Time, IdempotencyRecord}
use veriproc.Store.Db.{Db, or_not_found}

-- UNIQUE (scope, key)
abbrev pub has_key : String → String → IdempotencyRecord → Bool
has_key scope key r = r.scope == scope && r.key == key

-- What a new row must not share with a row that is there.
abbrev pub same_record : IdempotencyRecord → IdempotencyRecord → Bool
same_record r s = r.id == s.id || has_key r.scope r.key s

-- IdempotencyRepo.Insert, of a record with a creation time
unfoldable pub insert : IdempotencyRecord → Eff Db (Unit {0})
insert r db =
    if exists_row (same_record r) db.idempotency
    then (err conflict, db)
    else (ok tt, record db { idempotency = db.idempotency ++ r ∷ [] })

-- IdempotencyRepo.GetByKey
unfoldable pub get_by_key : String → String → Eff Db IdempotencyRecord
get_by_key scope key db = (or_not_found (find (has_key scope key) db.idempotency), db)

abbrev pub expired : Option Time → Time → Bool
expired none before = false
expired (some at) before = ltb at before

-- A foreign key without an action forbids to delete a record that a task refers to.
abbrev pub is_referred : IdempotencyRecord → Db → Bool
is_referred r db = exists_row (λ t. t.idempotency_record_id == r.id) db.tasks

-- IdempotencyRepo.Sweep: DELETE … WHERE expires_at < before, which fails as a whole where a row
-- that it deletes is still referred to.
unfoldable pub sweep : Time → Eff Db ℕ
sweep before db =
    if exists_row (λ r. expired r.expires_at before && is_referred r db) db.idempotency
    then (err other, db)
    else (
      ok (affected (λ r. expired r.expires_at before) db.idempotency),
      record db { idempotency = select (λ r. not (expired r.expires_at before)) db.idempotency },
    )
