-- ===== src/Submission/Answers.antt =====
-- A submission under a key that made a task: what later submissions under the key, and the sweeper
-- of the records, find.
use veriproc.Prelude.{
  ◌∙◌, String, Bool, true, ◌&&◌, ◌==◌, List, [], ◌∷◌, some, ◌≡◌, ◌≢◌, refl, sym, subst, arith,
  Bool-cases, inl, inr, eq_refl,
}
use veriproc.Prelude.Errors.{ok, err, other}
use veriproc.Store.Table.{find, exists_row}
use veriproc.Store.Table.Laws.{some_inj}
use veriproc.Store.Records.{Time, StationRevisionRecord, IdempotencyRecord}
use veriproc.Store.Db.{Db}
use veriproc.Store.Idempotency.{sweep, expired, is_referred, has_key}
use veriproc.Submission.{
  Submitting, SubmitInput, SubmitResult, is_submittable, canonical_routing, submit, scope,
}
use veriproc.Submission.Replay.{Holds, created-Holds, answer, submit-Holds}

exists_row-of_find :
    {A : Type 0} (p q : A → Bool) (xs : List A) {r : A}
    → find p xs ≡ some r
    → q r ≡ true
    → exists_row q xs ≡ true
exists_row-of_find p q [] h e = absurd (ground arith)
exists_row-of_find p q (x ∷ xs) {r} h e = elim (Bool-cases (p x)) [
  | inl here ↦ ground (arith, some_inj (rw here at h))
  | inr later ↦ ground (arith, exists_row-of_find p q xs {r = r} (rw later at h) e)
]

module _ (env : Submitting) (input : SubmitInput) (now : Time) (hex6 : String) (r : SubmitResult)
    (db db' : Db) (keyed : input.idempotency_key ≢ "")
    (submitted : submit env input now hex6 db ≡ (ok r, db')) (new : r.created ≡ true) where
  -- After a submission that made a task under a key, a valid submission under the same key
  -- answers that task where its canonical content has the same hash, and an idempotency conflict
  -- where it has not, and changes nothing, whatever the time and the random suffix are.
  pub submit-submit :
      (again : SubmitInput) (rev : StationRevisionRecord) (content : String) (later : Time)
      (hex : String)
      → again.idempotency_key ≡ input.idempotency_key
      → is_submittable again ≡ true
      → env.resolve again.station_id ≡ ok rev
      → canonical_routing env again rev ≡ ok content
      → submit env again later hex db' ≡ (answer env again rev content r.task, db')
  submit-submit again rev content later hex same valid known rendered =
      submit-Holds env again rev content r.task later hex db' valid known rendered
        (λ e. keyed (sym same ∙ e))
        (subst (λ k. Holds k r.task db') (sym same)
          (created-Holds env input now hex6 r db db' keyed submitted new))

  -- After a submission that made a task under a key, a sweep of the idempotency records at a time
  -- when the record of the key has expired fails and deletes nothing, since the task still refers
  -- to the record.
  pub sweep-submit :
      (before : Time) (kept : IdempotencyRecord)
      → find (has_key scope input.idempotency_key) db'.idempotency ≡ some kept
      → expired kept.expires_at before ≡ true
      → sweep before db' ≡ (err other, db')
  unfolding sweep
  sweep-submit before kept found old =
      let held = created-Holds env input now hex6 r db db' keyed submitted new in
      let same : held.kept ≡ kept = some_inj (sym held.found ∙ found) in
      rw
        (exists_row-of_find (has_key scope input.idempotency_key)
          (λ k. expired k.expires_at before && is_referred k db') db'.idempotency found
          (rw (old, referred held kept same) refl))
        refl
    where
      referred :
          (held : Holds input.idempotency_key r.task db') (kept : IdempotencyRecord)
          → held.kept ≡ kept
          → is_referred kept db' ≡ true
      referred held kept same = exists_row-of_find _ _ db'.tasks held.stored (
          subst (λ k. (r.task.idempotency_record_id == k.id) ≡ true) same
            (rw held.refers (eq_refl held.kept.id)))
