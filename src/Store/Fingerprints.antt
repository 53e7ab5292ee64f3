-- ===== src/Store/Fingerprints.antt =====
-- internal/store/manifests.go (`FingerprintRepo`) and canonicality.go (`CanonicalityRepo`): who
-- owns a processing fingerprint, and the record of changes of owner.
pub mod Claim
use veriproc.Prelude.{
  String, Bool, ◌==◌, ◌&&◌, ◌++◌, ◌∷◌, [], not, Option, none, some, if◌then◌else◌, eqb, is_some,
}
use veriproc.Prelude.Errors.{Result, ok, err, not_found, other}
use veriproc.Prelude.Effects.{Eff, pure, ◌>>=◌, ◌>>◌}
use veriproc.Store.Table.{find, exists_row}
use veriproc.Store.Records.{Time, FingerprintRecord, CanonicalityChange, RunRecord}
use veriproc.Store.Db.{Db, or_not_found, exec_fingerprints}

abbrev pub has_value : String → FingerprintRecord → Bool
has_value v f = f.value == v

abbrev pub is_fingerprint : String → FingerprintRecord → Bool
is_fingerprint id f = f.fingerprint_id == id

-- COALESCE(canonical_run_id, '')
abbrev pub owner : FingerprintRecord → String
owner f = elim f.canonical_run_id [ none ↦ "" | some id ↦ id ]

-- FingerprintRepo.GetByValue
unfoldable pub get_by_value : String → Eff Db FingerprintRecord
get_by_value v db = (or_not_found (find (has_value v) db.fingerprints), db)

-- FingerprintRepo.Upsert, with the id that it derives from the value by a hash, `id_of`. The
-- unique violation of another fingerprint's id (a hash collision) reads the value again.
unfoldable pub upsert : (String → String) → String → Time → Eff Db FingerprintRecord
upsert id_of v now db = elim (find (has_value v) db.fingerprints) [
  | some f ↦ (ok f, db)
  | none ↦
      let new : FingerprintRecord = record {
        fingerprint_id = id_of v;
        value = v;
        canonical_run_id = none;
        created_at = now;
      } in
      if exists_row (is_fingerprint (id_of v)) db.fingerprints
      then (err not_found, db)
      else (ok new, record db { fingerprints = db.fingerprints ++ new ∷ [] })
]

-- FingerprintRepo.ClaimCanonical
unfoldable pub claim_canonical : String → String → Eff Db Bool
unfolding ◌>>=◌
claim_canonical id run = do
  n ←
      exec_fingerprints (λ f. is_fingerprint id f && not (is_some f.canonical_run_id))
        (λ f. record f { canonical_run_id = some run })
  pure (eqb n 1)

abbrev previous_owner : Option FingerprintRecord → Result String
previous_owner none = err not_found
previous_owner (some f) = ok (owner f)

-- FingerprintRepo.SetCanonical
unfoldable pub set_canonical : String → String → Eff Db String
unfolding ◌>>=◌
set_canonical id run = do
  prev ← λ db. (previous_owner (find (is_fingerprint id) db.fingerprints), db)
  exec_fingerprints (is_fingerprint id) (λ f. record f { canonical_run_id = some run })
  pure prev

-- The row of an audit, with the foreign keys that it must meet.
abbrev audited : CanonicalityChange → Db → Bool
audited c db =
    exists_row (is_fingerprint c.fingerprint_id) db.fingerprints
    && exists_row (λ (r : RunRecord). r.run_id == c.new_run_id) db.runs

-- CanonicalityRepo.RecordElection and RecordPromotion: one INSERT. The audit id is derived from
-- the other fields by a hash, `audit_id_of`; an election whose id is there already is passed over.
abbrev known_audit : CanonicalityChange → Db → Bool
known_audit c db = exists_row (λ (a : CanonicalityChange). a.audit_id == c.audit_id) db.audit

abbrev append_audit : CanonicalityChange → Eff Db (Unit {0})
append_audit c db = (ok tt, record db { audit = db.audit ++ c ∷ [] })

unfoldable pub record_election : CanonicalityChange → Eff Db (Unit {0})
record_election c db =
    if known_audit c db
    then (ok tt, db)
    else if audited c db
    then append_audit c db
    else (err other, db)

unfoldable pub record_promotion : CanonicalityChange → Eff Db (Unit {0})
record_promotion c db =
    if known_audit c db
    then (err other, db)
    else if audited c db
    then append_audit c db
    else (err other, db)
