-- ===== src/Runs/Promote/Outcome.antt =====
-- What PromoteCanonical does to the old owner of a fingerprint and to the new one
-- (internal/runs/promote.go).
use veriproc.Prelude.{
  ◌≡◌, refl, ◌∙◌, sym, String, Bool, true, false, ◌==◌, List, [], ◌∷◌, ◌++◌, some, arith, is_some,
  eq_iff,
}
use veriproc.Prelude.Errors.{ok}
use veriproc.Prelude.Effects.{◌>>=◌, attempt, in_tx, pure, fail}
use veriproc.Store.Table.{find, update, exists_row}
use veriproc.Store.Table.Laws.{none≢some}
use veriproc.Store.Table.Keys.{find-update_key}
use veriproc.Store.Records.{
  Time, RunRecord, FingerprintRecord, CanonicalityChange, canonical, duplicate,
}
use veriproc.Store.Db.{Db}
use veriproc.Store.Runs
use veriproc.Store.Runs.{has_id, is_complete}
use veriproc.Store.Runs.Owner.{
  ranked, set_canonicality_complete, set_canonicality-other, set_canonicality-elsewhere,
}
use veriproc.Store.Tasks
use veriproc.Store.Fingerprints
use veriproc.Store.Fingerprints.{is_fingerprint, has_value}
use veriproc.Runs.Promote.{
  replace_owner, transfer, reread, promote_eligible, promote_canonical, promotion,
}

exists_row-of_find {ℓ} :
    {A : Type ℓ} (p : A → Bool) (xs : List A) {r : A} → find p xs ≡ some r → exists_row p xs ≡ true
exists_row-of_find p [] h = absurd (none≢some h)
exists_row-of_find p (x ∷ xs) {r} h = ground (arith, exists_row-of_find p xs {r = r})

distinct : (a b : String) → a == b ≡ false → a ≡ b → ⊥
distinct a b h e = ground (arith, eq_iff a b)

module _ (audit_id_of : String → String → String → Time → String) (reason actor : String)
    (now : Time) (db : Db) (r p : RunRecord) (f : FingerprintRecord) (prev : String) where
  abbrev owned_by : FingerprintRecord → FingerprintRecord
  owned_by g = record g { canonical_run_id = some r.run_id }

  -- The database after SetCanonical, and after each SetCanonicality.
  abbrev db1 : Db
  db1 = record db {
    fingerprints = update (is_fingerprint f.fingerprint_id) owned_by db.fingerprints;
  }

  abbrev db2 : Db
  db2 = (Runs.set_canonicality prev duplicate db1).1

  abbrev db3 : Db
  db3 = (Runs.set_canonicality r.run_id canonical db2).1

  abbrev db5 : Db
  db5 =
      let db4 = (Tasks.set_canonical_run r.task_id r.retry_index now db3).1 in
      record db4 { audit = db4.audit ++ promotion audit_id_of f r prev reason actor now ∷ [] }

  -- The transaction.
  transfer-owner :
      find (is_fingerprint f.fingerprint_id) db.fingerprints ≡ some f
      → f.canonical_run_id ≡ some prev
      → prev == "" ≡ false
      → prev == r.run_id ≡ false
      → (Runs.set_canonicality prev duplicate db1).0 ≡ ok tt
      → (Runs.set_canonicality r.run_id canonical db2).0 ≡ ok tt
      → exists_row
          (λ (a : CanonicalityChange). a.audit_id == audit_id_of f.fingerprint_id prev r.run_id now)
          db3.audit
        ≡ false
      → exists_row (is_fingerprint f.fingerprint_id) db3.fingerprints ≡ true
      → exists_row (has_id r.run_id) db3.runs ≡ true
      → transfer audit_id_of f r reason actor now db ≡ (ok prev, db5)
  unfolding transfer replace_owner promotion ◌>>=◌ in_tx pure Fingerprints.set_canonical
      Fingerprints.record_promotion Tasks.set_canonical_run
  transfer-owner by_id owned named other set1 set2 fresh_audit there here =
      rw (by_id, owned, other, named, set1, set2, fresh_audit, there, here) refl

  reread_row :
      (d : Db) {x : RunRecord}
      → find (has_id r.run_id) d.runs ≡ some x
      → reread audit_id_of r d ≡ (ok (some x), d)
  unfolding reread attempt pure Runs.get
  reread_row d found = rw found refl

  -- Promoting a complete run to the owner of a fingerprint that another complete run owns succeeds:
  -- the run becomes canonical, the old owner a duplicate, and the fingerprint belongs to the run.
  -- It is assumed that no reconciliation is going on, that a reason and an actor are given, and that
  -- the id of the audit row is new.
  pub promote_canonical-owner :
      reason == "" ≡ false
      → actor == "" ≡ false
      → find (has_id r.run_id) db.runs ≡ some r
      → is_some r.reconciliation_started_at ≡ false
      → is_complete r.state ≡ true
      → r.processing_fingerprint == "" ≡ false
      → find (has_value r.processing_fingerprint) db.fingerprints ≡ some f
      → find (is_fingerprint f.fingerprint_id) db.fingerprints ≡ some f
      → f.canonical_run_id ≡ some prev
      → prev == "" ≡ false
      → prev == r.run_id ≡ false
      → find (has_id prev) db.runs ≡ some p
      → is_complete p.state ≡ true
      → exists_row
          (λ (a : CanonicalityChange). a.audit_id == audit_id_of f.fingerprint_id prev r.run_id now)
          db.audit
        ≡ false
      → let after = promote_canonical audit_id_of r.run_id reason actor now db in
        (after.0
          ≡ ok (record {
            run = some (ranked canonical r);
            previous_run_id = prev;
            fingerprint_id = f.fingerprint_id;
            already_canonical = false;
          }))
        × (find (has_id r.run_id) after.1.runs ≡ some (ranked canonical r))
        × (find (has_id prev) after.1.runs ≡ some (ranked duplicate p))
        × (find (is_fingerprint f.fingerprint_id) after.1.fingerprints ≡ some (owned_by f))
  unfolding promote_canonical promote_eligible ◌>>=◌ attempt pure fail Runs.get
      Fingerprints.get_by_value Tasks.set_canonical_run
  promote_canonical-owner why who found unmarked done valued by_value by_id owned named other old
        old_done fresh_audit =
      let (set1, old2) = set_canonicality_complete prev duplicate db1 old old_done in
      let found2 =
        set_canonicality-other prev duplicate db1 r.run_id (distinct prev r.run_id other) ∙ found in
      let (set2, new3) = set_canonicality_complete r.run_id canonical db2 found2 done in
      let old3 =
        set_canonicality-other r.run_id canonical db2 prev
          (λ e. distinct prev r.run_id other (sym e))
        ∙ old2 in
      let (fps2, audit2) = set_canonicality-elsewhere prev duplicate db1 in
      let (fps3, audit3) = set_canonicality-elsewhere r.run_id canonical db2 in
      let claimed : find (is_fingerprint f.fingerprint_id) db3.fingerprints ≡ some (owned_by f) =
        rw (fps3, fps2)
          (find-update_key (is_fingerprint f.fingerprint_id) owned_by (λ _. refl) db.fingerprints
            by_id) in
      let moved : transfer audit_id_of f r reason actor now db ≡ (ok prev, db5) =
        transfer-owner by_id owned named other set1 set2 (rw (audit3, audit2) fresh_audit)
          (exists_row-of_find (is_fingerprint f.fingerprint_id) db3.fingerprints claimed)
          (exists_row-of_find (has_id r.run_id) db3.runs new3) in
      let last : reread audit_id_of r db5 ≡ (ok (some (ranked canonical r)), db5) =
        reread_row db5 new3 in
      rw (why, who, found, unmarked, done, valued, by_value, moved, last, other)
        (refl, new3, old3, claimed)
