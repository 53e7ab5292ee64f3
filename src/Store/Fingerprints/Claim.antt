-- ===== src/Store/Fingerprints/Claim.antt =====
-- ClaimCanonical as an election: of all runs that claim one fingerprint, the first one wins.
use veriproc.Prelude.{
  ◌≡◌, refl, String, Bool, true, false, not, none, some, is_some, arith, eq_iff, ◌==◌, ◌&&◌,
}
use veriproc.Prelude.Errors.{ok}
use veriproc.Prelude.Effects.{◌>>=◌}
use veriproc.Store.Table.{find}
use veriproc.Store.Table.Laws.{affected_none, update-of_none}
use veriproc.Store.Table.Keys.{
  NoClash, affected_one, find-update, exists_row_unique, NoClash-update,
}
use veriproc.Store.Records.{FingerprintRecord}
use veriproc.Store.Db.{Db}
use veriproc.Store.Fingerprints.{is_fingerprint, claim_canonical}

-- The primary key of the fingerprints.
abbrev pub same_fingerprint : FingerprintRecord → FingerprintRecord → Bool
same_fingerprint new old = old.fingerprint_id == new.fingerprint_id

key :
    (id : String) (x y : FingerprintRecord)
    → is_fingerprint id x ≡ true
    → is_fingerprint id y ≡ true
    → same_fingerprint x y ≡ true
key id x y h k = ground (
  arith,
  eq_iff x.fingerprint_id id,
  eq_iff y.fingerprint_id id,
  eq_iff y.fingerprint_id x.fingerprint_id,
)

abbrev is_free : FingerprintRecord → Bool
is_free f = not (is_some f.canonical_run_id)

module _ (id run : String) (db : Db) (f : FingerprintRecord) where
  abbrev claimed : FingerprintRecord → FingerprintRecord
  claimed g = record g { canonical_run_id = some run }

  -- A claim of a fingerprint without an owner succeeds, and makes the run its owner.
  claim_free :
      NoClash same_fingerprint db.fingerprints
      → find (is_fingerprint id) db.fingerprints ≡ some f
      → f.canonical_run_id ≡ none
      → ((claim_canonical id run db).0 ≡ ok true)
        × (find (is_fingerprint id) (claim_canonical id run db).1.fingerprints ≡ some (claimed f))
        × NoClash same_fingerprint (claim_canonical id run db).1.fingerprints
  unfolding claim_canonical ◌>>=◌
  claim_free unique found free =
      let one =
        affected_one (is_fingerprint id) is_free same_fingerprint (key id) db.fingerprints unique
          found (rw free refl) in
      let moved =
        find-update (is_fingerprint id) is_free claimed (λ _. refl) db.fingerprints found in
      (
        rw one refl,
        rw free at moved,
        NoClash-update same_fingerprint _ claimed (λ x y. refl) (λ x y. refl) db.fingerprints
            unique,
      )

  -- A claim of a fingerprint with an owner is lost, and changes nothing.
  claim_owned :
      (owner : String)
      → NoClash same_fingerprint db.fingerprints
      → find (is_fingerprint id) db.fingerprints ≡ some f
      → f.canonical_run_id ≡ some owner
      → claim_canonical id run db ≡ (ok false, db)
  unfolding claim_canonical ◌>>=◌
  claim_owned owner unique found owned =
      let gone =
        exists_row_unique (is_fingerprint id) is_free same_fingerprint (key id) db.fingerprints
          unique found (rw owned refl) in
      rw
        (
          affected_none (λ g. is_fingerprint id g && is_free g) db.fingerprints gone,
          update-of_none (λ g. is_fingerprint id g && is_free g) claimed db.fingerprints gone,
        )
        refl

-- Of two runs that claim a fingerprint without an owner, one after the other, the first one wins and
-- owns it from then on; the second one loses, and its claim changes nothing. The ids of the
-- fingerprints are assumed to be unique.
pub claim_canonical-claim_canonical :
    (id first second : String) (db : Db) (f : FingerprintRecord)
    → NoClash same_fingerprint db.fingerprints
    → find (is_fingerprint id) db.fingerprints ≡ some f
    → f.canonical_run_id ≡ none
    → let after = (claim_canonical id first db).1 in
      ((claim_canonical id first db).0 ≡ ok true)
      × (find (is_fingerprint id) after.fingerprints
          ≡ some (record f { canonical_run_id = some first }))
      × (claim_canonical id second after ≡ (ok false, after))
claim_canonical-claim_canonical id first second db f unique found free =
    let (won, owner, still) = claim_free id first db f unique found free in
    (won, owner, claim_owned id second _ _ first still owner refl)
