-- ===== src/Publisher/Settled.antt =====
-- After a tick no publication of its batch is pending.
use veriproc.Prelude.{
  String, Bool, true, false, ◌&&◌, ◌==◌, List, [], ◌∷◌, Option, none, some, ◌≡◌, refl, sym, subst,
  ◌⊎◌, arith, eqb, Bool-cases, inl, inr,
}
use veriproc.Prelude.Lists.{length, All}
use veriproc.Prelude.Errors.{Error, Result, ok, err, not_found, other}
use veriproc.Prelude.Effects.{Eff, pure, fail, lift, attempt, ◌>>=◌, ◌>>◌}
use veriproc.Store.Table.{update, affected, exists_row, find}
use veriproc.Store.Records.{Time, PublicationRecord, ArtifactRecord}
use veriproc.Store.Db.{Db}
use veriproc.Store.Artifacts.{is_artifact}
use veriproc.Store.Publications.{
  has_publication_id, is_pending, mark_published, mark_failed, list_pending, pending_rows,
  get_artifact,
}
use veriproc.Publisher.{Publishing, publish_one, or_mark_failed, publish_all, tick}

-- A row of the publication that is still pending.
abbrev pub is_open : String → PublicationRecord → Bool
is_open id p = has_publication_id id p && is_pending p

-- No row of the publication is pending.
abbrev pub IsSettled : Db → String → Type 0
IsSettled db id = exists_row (is_open id) db.publications ≡ false

-- An update that leaves nothing pending settles what it changes, and unsettles nothing.
module _ (which : PublicationRecord → Bool) (f : PublicationRecord → PublicationRecord)
    (ends : (p : PublicationRecord) → is_pending (f p) ≡ false) where
  ended : (id : String) (p : PublicationRecord) → is_open id (f p) ≡ false
  ended id p = rw (ends p) (ground arith)

  settled-update :
      (id : String) (rows : List PublicationRecord)
      → exists_row (is_open id) rows ≡ false
      → exists_row (is_open id) (update which f rows) ≡ false
  settled-update id [] h = refl
  settled-update id (p ∷ rows) h = ground (arith, ended id p, settled-update id rows)

  settles-update :
      (id : String) (rows : List PublicationRecord)
      → ((p : PublicationRecord) → is_open id p ≡ true → which p ≡ true)
      → exists_row (is_open id) (update which f rows) ≡ false
  settles-update id [] covers = refl
  settles-update id (p ∷ rows) covers =
      ground (arith, ended id p, covers p, settles-update id rows covers)

mark_published-IsSettled :
    (id other : String) (at : Time) (db : Db)
    → IsSettled db other
    → IsSettled (mark_published id at db).1 other
unfolding mark_published
mark_published-IsSettled id kept at db h =
    elim (Bool-cases (eqb (affected (is_open id) db.publications) 0)) [
      | inl none_left ↦
          rw none_left (settled-update (is_open id) _ (λ p. refl) kept db.publications h)
      | inr some_left ↦
          rw some_left (settled-update (is_open id) _ (λ p. refl) kept db.publications h)
    ]

mark_published-settles :
    (id : String) (at : Time) (db : Db) → IsSettled (mark_published id at db).1 id
unfolding mark_published
mark_published-settles id at db =
    elim (Bool-cases (eqb (affected (is_open id) db.publications) 0)) [
      | inl none_left ↦
          rw none_left (settles-update (is_open id) _ (λ p. refl) id db.publications (λ p h. h))
      | inr some_left ↦
          rw some_left (settles-update (is_open id) _ (λ p. refl) id db.publications (λ p h. h))
    ]

mark_failed-IsSettled :
    (id other reason : String) (db : Db)
    → IsSettled db other
    → IsSettled (mark_failed id reason db).1 other
unfolding mark_failed
mark_failed-IsSettled id kept reason db h =
    settled-update (has_publication_id id) _ (λ p. refl) kept db.publications h

mark_failed-settles : (id reason : String) (db : Db) → IsSettled (mark_failed id reason db).1 id
unfolding mark_failed
mark_failed-settles id reason db =
    settles-update (has_publication_id id) _ (λ p. refl) id db.publications
      (λ p h. ground (arith, h))

-- What a publication's step leaves settles it, and unsettles nothing.
abbrev pub Settles : String → Db → Db → Type 0
Settles id before after =
    IsSettled after id × ((other : String) → IsSettled before other → IsSettled after other)

after_ok : (m k : Eff Db (Unit {0})) (db : Db) → (m db).0 ≡ ok tt → (m >> k) db ≡ k (m db).1
unfolding ◌>>=◌
after_ok m k db h = next (m db) refl h
  where
    next : (done : Result (Unit {0}) × Db) → m db ≡ done → done.0 ≡ ok tt → (m >> k) db ≡ k done.1
    next (ok u, t) is h = rw is refl
    next (err e, t) is h = ground (arith, h)

module _ (env : Publishing) (now : Time) where
  -- publishOne writes nothing, or it is MarkPublished.
  publish_one-cases :
      (p : PublicationRecord) (db : Db)
      → (publish_one env p now db ≡ mark_published p.publication_id now db)
        ⊎ ((e : Error) × (publish_one env p now db ≡ (err e, db)))
  unfolding publish_one ◌>>=◌ fail lift get_artifact
  publish_one-cases p db = with_row (find (is_artifact p.artifact_id) db.artifacts) refl
    where
      copied :
          (art : ArtifactRecord) (r : Result (Unit {0}))
          → find (is_artifact p.artifact_id) db.artifacts ≡ some art
          → (art.path == "") ≡ false
          → env.publish_object art.path
              (env.join_path env.archive_base p.target_path)
              p.publication_mode
            ≡ r
          → (publish_one env p now db ≡ mark_published p.publication_id now db)
            ⊎ ((e : Error) × (publish_one env p now db ≡ (err e, db)))
      copied art (ok u) row named done = inl (rw (row, named, done) refl)
      copied art (err e) row named done = inr (e, rw (row, named, done) refl)

      with_row :
          (found : Option ArtifactRecord)
          → find (is_artifact p.artifact_id) db.artifacts ≡ found
          → (publish_one env p now db ≡ mark_published p.publication_id now db)
            ⊎ ((e : Error) × (publish_one env p now db ≡ (err e, db)))
      with_row none row = inr (not_found, rw row refl)
      with_row (some art) row = elim (Bool-cases (art.path == "")) [
        | inl unnamed ↦ inr (other, rw (row, unnamed) refl)
        | inr named ↦
            copied art
              (env.publish_object art.path (env.join_path env.archive_base p.target_path)
                p.publication_mode)
              row named refl
      ]

  abbrev step : PublicationRecord → Eff Db (Unit {0})
  step p = attempt (publish_one env p now) (or_mark_failed env p)

  -- Each step of the loop succeeds and settles its publication.
  abbrev pub Handles : String → Db → Result (Unit {0}) × Db → Type 0
  Handles id db done = (done.0 ≡ ok tt) × Settles id db done.1

  marked_failed :
      (p : PublicationRecord) (e : Error) (db : Db)
      → Handles p.publication_id db (or_mark_failed env p (err e) db)
  unfolding attempt pure mark_failed
  marked_failed p e db = (
    refl,
    (
      mark_failed-settles p.publication_id (env.reason e) db,
      λ id. mark_failed-IsSettled p.publication_id id (env.reason e) db,
    ),
  )

  handled :
      (p : PublicationRecord) (r : Result (Unit {0})) (before after : Db)
      → Settles p.publication_id before after
      → Handles p.publication_id before (or_mark_failed env p r after)
  unfolding pure
  handled p (ok u) before after h = (refl, h)
  handled p (err e) before after h =
      let (done, (settles, settled)) = marked_failed p e after in
      (done, (settles, λ id k. settled id (h.1 id k)))

  step-Handles : (p : PublicationRecord) (db : Db) → Handles p.publication_id db (step p db)
  unfolding attempt
  step-Handles p db = elim (publish_one-cases p db) [
    | inl marked ↦ rw marked (
        handled p (mark_published p.publication_id now db).0 db
          (mark_published p.publication_id now db).1
          (
            mark_published-settles p.publication_id now db,
            λ id. mark_published-IsSettled p.publication_id id now db,
          ))
    | inr (e, failed) ↦ rw failed (marked_failed p e db)
  ]

  -- The rest of the loop, whose first step is done.
  publish_all_cons :
      (p : PublicationRecord) (ps : List PublicationRecord) (db : Db)
      → publish_all env (p ∷ ps) now db ≡ publish_all env ps now (step p db).1
  unfolding publish_all
  publish_all_cons p ps db = after_ok (step p) (publish_all env ps now) db (step-Handles p db).0

  publish_all-IsSettled :
      (id : String) (ps : List PublicationRecord) (db : Db)
      → IsSettled db id
      → IsSettled (publish_all env ps now db).1 id
  publish_all-IsSettled id [] db h = unfold publish_all pure in h
  publish_all-IsSettled id (p ∷ ps) db h =
      rw (publish_all_cons p ps db)
        (publish_all-IsSettled id ps (step p db).1 ((step-Handles p db).1.1 id h))

  publish_all-settles :
      (ps : List PublicationRecord) (db : Db)
      → ((publish_all env ps now db).0 ≡ ok tt)
        × All (λ p. IsSettled (publish_all env ps now db).1 p.publication_id) ps
  publish_all-settles [] db = unfold publish_all pure in (refl, tt)
  publish_all-settles (p ∷ ps) db = rw (publish_all_cons p ps db) (
    (publish_all-settles ps (step p db).1).0,
    (
      publish_all-IsSettled p.publication_id ps (step p db).1 (step-Handles p db).1.0,
      subst (λ t. All (λ q. IsSettled t.1 q.publication_id) ps) (sym (publish_all_cons p ps db))
          (publish_all-settles ps (step p db).1).1,
    ),
  )

  -- A tick of the publisher succeeds and counts the publications of its batch, and after it none
  -- of them is pending, whichever copies fail and whatever rows are missing.
  pub tick-pending_rows :
      (db : Db)
      → ((tick env now db).0 ≡ ok (length (pending_rows env.batch_size db)))
        × All (λ p. IsSettled (tick env now db).1 p.publication_id) (pending_rows env.batch_size db)
  unfolding tick list_pending ◌>>=◌ pure
  tick-pending_rows db = next (publish_all env batch now db) refl (publish_all-settles batch db)
    where
      batch : List PublicationRecord
      batch = pending_rows env.batch_size db

      next :
          (done : Result (Unit {0}) × Db)
          → publish_all env batch now db ≡ done
          → (done.0 ≡ ok tt) × All (λ p. IsSettled done.1 p.publication_id) batch
          → ((tick env now db).0 ≡ ok (length batch))
            × All (λ p. IsSettled (tick env now db).1 p.publication_id) batch
      next (ok u, t) is h = rw is (refl, h.1)
      next (err e, t) is h = ground (arith, h.0)
