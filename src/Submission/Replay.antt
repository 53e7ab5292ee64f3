-- ===== src/Submission/Replay.antt =====
-- A key that was submitted answers with its task from then on.
use veriproc.Prelude.{
  String, Bool, true, false, ◌==◌, List, [], ◌∷◌, ◌++◌, Option, none, some, if◌then◌else◌, ◌≡◌, ◌≢◌,
  refl, ap, sym, subst, ◌∙◌, arith, Bool-cases, inl, inr, eq_iff, eq_refl,
}
use veriproc.Prelude.Errors.{Error, Result, ok, err, conflict, idempotency_conflict}
use veriproc.Prelude.Effects.{Eff, pure, fail, lift, attempt, in_tx, commit_if_ok, ◌>>=◌}
use veriproc.Prelude.Effects.Inversion.{bind-ok}
use veriproc.Store.Table.{find, exists_row}
use veriproc.Store.Records.{Time, TaskRecord, StationRevisionRecord, IdempotencyRecord}
use veriproc.Policy.{validate_task_id}
use veriproc.Store.Db.{Db, or_not_found}
use veriproc.Store.Tasks
use veriproc.Store.Tasks.{is_task}
use veriproc.Store.Idempotency
use veriproc.Store.Idempotency.{has_key, same_record}
use veriproc.Submission.{
  Submitting, SubmitInput, SubmitResult, scope, is_submittable, validate_submit, canonical_routing,
  sha256, new_record, new_task, new_task_id, store_task, after_store, create, replay, after_lookup,
  submit,
}

-- The row that an INSERT adds is the one that its key finds.
find-snoc :
    {A : Type 0} (p c : A → Bool)
    → ((x : A) → p x ≡ true → c x ≡ true)
    → (xs : List A) (y : A) → exists_row c xs ≡ false
    → p y ≡ true
    → find p (xs ++ y ∷ []) ≡ some y
find-snoc p c imp [] y h e = rw e refl
find-snoc p c imp (x ∷ xs) y h e = ground (arith, imp x, find-snoc p c imp xs y)

-- The key leads to a record with the hash of the task, and the record to the task.
pub record Holds (key : String) (task : TaskRecord) (db : Db) : Type 0 where
  pub kept : IdempotencyRecord
  pub found : find (has_key scope key) db.idempotency ≡ some kept
  pub hash : kept.request_hash ≡ task.routing_content_hash
  pub names : kept.task_id ≡ task.task_id
  pub nonempty : task.task_id ≢ ""
  pub refers : task.idempotency_record_id ≡ kept.id
  pub stored : find (is_task task.task_id) db.tasks ≡ some task

insert_record-ok :
    (r : IdempotencyRecord) (db db' : Db)
    → Idempotency.insert r db ≡ (ok tt, db')
    → (exists_row (same_record r) db.idempotency ≡ false)
      × (db' ≡ record db { idempotency = db.idempotency ++ r ∷ [] })
unfolding Idempotency.insert
insert_record-ok r db db' h = elim (Bool-cases (exists_row (same_record r) db.idempotency)) [
  | inl clash ↦ absurd (refused (rw clash at h))
  | inr fresh ↦ (fresh, sym (ap (λ x. x.1) (rw fresh at h)))
]
  where
    refused : {e : Error} → (◌≢◌ {A = Result (Unit {0}) × Db} (err e, db) (ok tt, db'))
    refused e = absurd (ground arith)

insert_task-ok :
    (t : TaskRecord) (db db' : Db)
    → Tasks.insert t db ≡ (ok tt, db')
    → (exists_row (is_task t.task_id) db.tasks ≡ false)
      × (db' ≡ record db { tasks = db.tasks ++ record t { join_arrival_count = 0 } ∷ [] })
unfolding Tasks.insert
insert_task-ok t db db' h = elim (Bool-cases (exists_row (is_task t.task_id) db.tasks)) [
  | inl clash ↦ absurd (refused (rw clash at h))
  | inr fresh ↦ (fresh, sym (ap (λ x. x.1) (stored _ (rw fresh at h))))
]
  where
    refused : {e : Error} → (◌≢◌ {A = Result (Unit {0}) × Db} (err e, db) (ok tt, db'))
    refused e = absurd (ground arith)

    stored :
        (b : Bool) {more : Db}
        → (◌≡◌ {A = Result (Unit {0}) × Db}
            (if b then (err Error.other, db) else (ok tt, more))
            (ok tt, db'))
        → (◌≡◌ {A = Result (Unit {0}) × Db} (ok tt, more) (ok tt, db'))
    stored true h = absurd (refused h)
    stored false h = h

module _ (env : Submitting) where
  abbrev keyed : String → TaskRecord → TaskRecord
  keyed key t = record t { idempotency_record_id = (new_record env key t).id }

  -- What the three statements of the transaction leave.
  Holds-of_inserts :
      (key : String) (t k : TaskRecord) (db u v db' : Db)
      → t.join_arrival_count ≡ 0
      → t.task_id ≢ ""
      → Idempotency.insert (new_record env key t) db ≡ (ok tt, u)
      → Tasks.insert (keyed key t) u ≡ (ok tt, v)
      → pure (keyed key t) v ≡ (ok k, db')
      → Holds key k db'
  unfolding pure new_record
  Holds-of_inserts key t k db u v db' zero some_id first second last =
      let (fresh, wrote) = insert_record-ok (new_record env key t) db u first in
      let (unused, added) = insert_task-ok (keyed key t) u v second in
      let same : keyed key t ≡ k = ok_inj (ap (λ x. x.0) last) in
      let end : v ≡ db' = ap (λ x. x.1) last in
      subst (λ k. Holds key k db') same
        (subst (Holds key (keyed key t)) end (
          rw (added, wrote)
            (record {
              kept = new_record env key t;
              found =
                  find-snoc (has_key scope key) (same_record (new_record env key t))
                    (λ r e. ground (arith)) db.idempotency (new_record env key t) fresh
                    (rw (eq_refl scope, eq_refl key) refl);
              hash = refl;
              names = refl;
              nonempty = some_id;
              refers = refl;
              stored = stored_task db.tasks (rw wrote at unused);
            })))
    where
      ok_inj : {a b : TaskRecord} → ok a ≡ ok b → a ≡ b
      ok_inj e = cc e

      stored_task :
          (tasks : List TaskRecord)
          → exists_row (is_task t.task_id) tasks ≡ false
          → find (is_task t.task_id) (tasks ++ record (keyed key t) { join_arrival_count = 0 } ∷ [])
            ≡ some (keyed key t)
      stored_task tasks none_yet =
          subst
            (λ n.
              find (is_task t.task_id)
                (tasks ++ record (keyed key t) { join_arrival_count = n } ∷ [])
              ≡ some (keyed key t))
            zero
            (find-snoc (is_task t.task_id) (is_task t.task_id) (λ x e. e) tasks (keyed key t)
              none_yet (eq_refl t.task_id))

  named : {key : String} → key ≢ "" → (key == "") ≡ false
  named {key} ne = ground (arith, eq_iff key "")

  store_task-Holds :
      (key : String) (t k : TaskRecord) (db db' : Db)
      → key ≢ ""
      → t.join_arrival_count ≡ 0
      → t.task_id ≢ ""
      → store_task env key t db ≡ (ok k, db')
      → Holds key k db'
  unfolding store_task
  store_task-Holds key t k db db' ne zero some_id h =
      let (_, u, first, rest) = bind-ok _ _ (rw (named ne) at h) in
      let (_, v, second, last) = bind-ok _ _ rest in
      Holds-of_inserts key t k db u v db' zero some_id first second last

  in_tx-ok :
      (m : Eff Db TaskRecord) (a : TaskRecord) (db db' : Db)
      → in_tx m db ≡ (ok a, db')
      → m db ≡ (ok a, db')
  unfolding in_tx
  in_tx-ok m a db db' h = settle (m db) refl h
    where
      settle :
          (x : Result TaskRecord × Db)
          → m db ≡ x
          → commit_if_ok db x ≡ (ok a, db')
          → m db ≡ (ok a, db')
      settle (ok b, t) e k = e ∙ k
      settle (err x, t) e k = absurd (ground arith)

  after_store-ok :
      (m : Eff Db TaskRecord) (r : SubmitResult) (db db' : Db)
      → attempt m after_store db ≡ (ok r, db')
      → m db ≡ (ok r.task, db')
  unfolding attempt pure fail
  after_store-ok m r db db' h = split (m db) refl h
    where
      split :
          (x : Result TaskRecord × Db)
          → m db ≡ x
          → after_store x.0 x.1 ≡ (ok r, db')
          → m db ≡ (ok r.task, db')
      split (ok t, u) e k = e ∙ cc (ap (λ x. x.1) k, result_inj (ap (λ x. x.0) k))
        where
          result_inj : ok (record { task = t; created = true }) ≡ ok r → t ≡ r.task
          result_inj e = ground arith
      split (err conflict, u) e k = absurd (ground arith)
      split (err _, u) e k = absurd (ground arith)

  create-Holds :
      (input : SubmitInput) (rev : StationRevisionRecord) (content : String) (now : Time)
      (hex6 : String) (r : SubmitResult) (db db' : Db)
      → input.idempotency_key ≢ ""
      → create env input rev content now hex6 db ≡ (ok r, db')
      → Holds input.idempotency_key r.task db'
  unfolding create fail new_task
  create-Holds input rev content now hex6 r db db' ne h =
      elim (Bool-cases (
        validate_task_id (new_task_id env now rev.station_id input.window_start hex6)
          rev.station_id)) [
            | inl valid ↦
                store_task-Holds input.idempotency_key _ r.task db db' ne refl
                  (valid-≢ (new_task_id env now rev.station_id input.window_start hex6) valid)
                  (in_tx-ok _ r.task db db' (after_store-ok _ r db db' (rw valid at h)))
            | inr invalid ↦ absurd (failed (rw invalid at h))
          ]
    where
      valid-≢ : (id : String) → validate_task_id id rev.station_id ≡ true → id ≢ ""
      valid-≢ id h e = unfold validate_task_id in ground (arith, eq_iff id "")

      failed : {e : Error} → (◌≢◌ {A = Result SubmitResult × Db} (err e, db) (ok r, db'))
      failed e = absurd (ground arith)

  replay-created :
      (hash : String) (kept : IdempotencyRecord) (r : SubmitResult) (db db' : Db)
      → replay hash kept db ≡ (ok r, db')
      → r.created ≡ false
  unfolding fail pure
  replay-created hash kept r db db' h = elim (Bool-cases (kept.request_hash == hash)) [
    | inr other ↦ absurd (failed (rw other at h))
    | inl same ↦ elim (Bool-cases (kept.task_id == "")) [
      | inl stranded ↦ absurd (failed (rw (same, stranded) at h))
      | inr named ↦
          let (t, u, read, last) = bind-ok _ _ (rw (same, named) at h) in
          result (ap (λ x. x.0) last)
    ]
  ]
    where
      failed : {e : Error} → (◌≢◌ {A = Result SubmitResult × Db} (err e, db) (ok r, db'))
      failed e = absurd (ground arith)

      result :
          {t : TaskRecord} → ok (record { task = t; created = false }) ≡ ok r → r.created ≡ false
      result e = ground arith

  -- A submission that made a task under a key.
  pub created-Holds :
      (input : SubmitInput) (now : Time) (hex6 : String) (r : SubmitResult) (db db' : Db)
      → input.idempotency_key ≢ ""
      → submit env input now hex6 db ≡ (ok r, db')
      → r.created ≡ true
      → Holds input.idempotency_key r.task db'
  unfolding submit attempt Idempotency.get_by_key
  created-Holds input now hex6 r db db' ne h new =
      let (_, u1, _, h1) = bind-ok _ _ h in
      let (rev, u2, _, h2) = bind-ok _ _ h1 in
      let (content, u3, _, h3) = bind-ok _ _ h2 in opened rev content u3 h3
    where
      both : {b : Bool} → b ≡ false → b ≢ true
      both e k = absurd (ground arith)

      looked :
          (rev : StationRevisionRecord) (content : String) (u : Db) (o : Option IdempotencyRecord)
          → after_lookup
              (sha256 env content)
              (create env input rev content now hex6)
              (or_not_found o)
              u
            ≡ (ok r, db')
          → Holds input.idempotency_key r.task db'
      looked rev content u none k = create-Holds input rev content now hex6 r u db' ne k
      looked rev content u (some kept) k =
          absurd (both (replay-created (sha256 env content) kept r u db' k) new)

      opened :
          (rev : StationRevisionRecord) (content : String) (u : Db)
          → (if input.idempotency_key == ""
                then create env input rev content now hex6
                else attempt
                    (Idempotency.get_by_key scope input.idempotency_key)
                    (after_lookup (sha256 env content) (create env input rev content now hex6)))
              u
            ≡ (ok r, db')
          → Holds input.idempotency_key r.task db'
      opened rev content u k =
          looked rev content u (find (has_key scope input.idempotency_key) u.idempotency)
            (rw (named ne) at k)

  module _ (input : SubmitInput) (rev : StationRevisionRecord) (content : String) where
    -- How Submit goes on, once the input is valid, its station known and its content rendered.
    submit-reads :
        (now : Time) (hex6 : String) (db : Db)
        → is_submittable input ≡ true
        → env.resolve input.station_id ≡ ok rev
        → canonical_routing env input rev ≡ ok content
        → input.idempotency_key ≢ ""
        → submit env input now hex6 db
          ≡ after_lookup
              (sha256 env content)
              (create env input rev content now hex6)
              (or_not_found (find (has_key scope input.idempotency_key) db.idempotency))
              db
    unfolding submit validate_submit lift attempt Idempotency.get_by_key ◌>>=◌
    submit-reads now hex6 db valid known rendered ne = rw (valid, known, rendered, named ne) refl

    -- The answer to a later submission under the key of a task.
    abbrev pub answer : TaskRecord → Result SubmitResult
    answer task =
        if task.routing_content_hash == sha256 env content
        then ok (record { task = task; created = false })
        else err idempotency_conflict

    pub submit-Holds :
        (task : TaskRecord) (now : Time) (hex6 : String) (db : Db)
        → is_submittable input ≡ true
        → env.resolve input.station_id ≡ ok rev
        → canonical_routing env input rev ≡ ok content
        → input.idempotency_key ≢ ""
        → Holds input.idempotency_key task db
        → submit env input now hex6 db ≡ (answer task, db)
    unfolding fail pure ◌>>=◌ Tasks.get
    submit-Holds task now hex6 db valid known rendered ne held =
        submit-reads now hex6 db valid known rendered ne
        ∙ rw held.found (elim (Bool-cases (task.routing_content_hash == sha256 env content)) [
          | inl same ↦ rw (held.hash, same, held.names, id_named held.nonempty, held.stored) refl
          | inr other ↦ rw (held.hash, other) refl
        ])
      where
        id_named : {id : String} → id ≢ "" → (id == "") ≡ false
        id_named {id} e = ground (arith, eq_iff id "")
