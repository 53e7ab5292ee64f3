-- ===== src/Runs/Prepare/Stored.antt =====
-- The rows that PrepareRun leaves (internal/runs/service.go).
use veriproc.Prelude.{
  ◌≡◌, refl, ap, sym, subst, ◌∙◌, String, Bool, true, false, not, ◌&&◌, some, List, [], ◌∷◌, ◌++◌,
  ℕ, arith, Bool-cases, inl, inr, eq_refl,
}
use veriproc.Prelude.Errors.{Result, ok, err, conflict}
use veriproc.Prelude.Effects.{Eff, ◌>>=◌, ◌>>◌, pure, in_tx, commit_if_ok}
use veriproc.Prelude.Effects.Inversion.{bind-ok}
use veriproc.Store.Table.{find, exists_row}
use veriproc.Store.Records.{Time, RunState, RunRecord, TaskRecord, ManifestRecord}
use veriproc.Store.Db.{Db}
use veriproc.Store.Runs
use veriproc.Store.Runs.{max_retry_index, has_id, clashes, fresh, unprepared}
use veriproc.Store.Runs.Transition.{cas_ok}
use veriproc.Store.Tasks
use veriproc.Store.Tasks.{is_task}
use veriproc.Store.Manifests
use veriproc.Store.SplitGroups
use veriproc.Store.Fingerprints
use veriproc.Store.Fingerprints.{has_value}
use veriproc.Groups.{register_run}
use veriproc.Runs.World.{Env}
use veriproc.Runs.Prepare.{store_run, register}

-- The row that MarkPrepared leaves.
abbrev pub prepared : String → Time → RunRecord → RunRecord
prepared fingerprint now r = record r {
  processing_fingerprint = fingerprint;
  prepared_at = some now;
  state = RunState.ready;
}

found_new :
    (new : RunRecord) (rows : List RunRecord)
    → exists_row (clashes new) rows ≡ false
    → find (has_id new.run_id) (rows ++ fresh new ∷ []) ≡ some (fresh new)
found_new new [] h = rw (eq_refl new.run_id) refl
found_new new (r ∷ rows) h = ground (arith, found_new new rows)

insert-row :
    (new : RunRecord) (db : Db) {t : Db}
    → Runs.insert new db ≡ (ok tt, t)
    → find (has_id new.run_id) t.runs ≡ some (fresh new)
unfolding Runs.insert
insert-row new db {t} h = elim (Bool-cases (Runs.insertable new db)) [
  | inl fits ↦
      let answer : Path (Result (Unit {0}) × Db)
          (ok tt, record db { runs = db.runs ++ fresh new ∷ [] }) (ok tt, t) =
        rw fits at h in
      subst (λ d. find (has_id new.run_id) d.runs ≡ some (fresh new)) (ap (λ x. x.1) answer)
        (found_new new db.runs (first_part _ _ _ fits))
  | inr clash ↦
      let answer : Path (Result (Unit {0}) × Db) (err conflict, db) (ok tt, t) = rw clash at h in
      absurd (ground (arith, ap (λ x. x.0) answer))
]
  where
    first_part : (a b c : Bool) → (not a && b && c) ≡ true → a ≡ false
    first_part a b c h = ground arith

manifest_runs : (m : ManifestRecord) (db : Db) → (Manifests.insert m db).1.runs ≡ db.runs
unfolding Manifests.insert
manifest_runs m db = ground arith

upsert_runs :
    (id_of : String → String) (v : String) (now : Time) (db : Db)
    → (Fingerprints.upsert id_of v now db).1.runs ≡ db.runs
unfolding Fingerprints.upsert
upsert_runs id_of v now db = ground arith

latest_runs : (id : String) (i : ℕ) (db : Db) → (Tasks.set_latest_run id i db).1.runs ≡ db.runs
unfolding Tasks.set_latest_run ◌>>=◌ pure
latest_runs id i db = refl

member_runs :
    (group run task role : String) (now : Time) (db : Db)
    → (register_run group run task role now db).1.runs ≡ db.runs
unfolding register_run ◌>>=◌ pure SplitGroups.ensure_group SplitGroups.add_member
member_runs group run task role now db = ground arith

in_tx-ok : {A : Type 0} (m : Eff Db A) {s t : Db} {a : A} → in_tx m s ≡ (ok a, t) → m s ≡ (ok a, t)
unfolding in_tx
in_tx-ok {A = A} m {s} {t} {a} h = split (m s) refl h
  where
    split : (x : Result A × Db) → m s ≡ x → commit_if_ok s x ≡ (ok a, t) → m s ≡ (ok a, t)
    split (ok b, u) e k = e ∙ k
    split (err b, u) e k = absurd (ground (arith, ap (λ x. x.0) k))

-- A step that answers `ok`, in two parts.
pub state_of : {A : Type 0} {m : Result A × Db} {a : A} {t : Db} → m ≡ (ok a, t) → m.1 ≡ t
state_of e = ap (λ x. x.1) e

module _ {S : Type 0} (env : Env S) where
  pub register_runs :
      (task : TaskRecord) (id : String) (now : Time) (db : Db)
      → (register env task id now db).1.runs ≡ db.runs
  unfolding register pure
  register_runs task id now db =
      ground (arith, member_runs task.split_group_id id task.task_id "" now db)

  pub store_run-row :
      (run : RunRecord) (m : ManifestRecord) (fp : String) (now : Time) (db : Db) {t : Db}
      → unprepared run.state ≡ true
      → store_run env run m fp now db ≡ (ok tt, t)
      → find (has_id run.run_id) t.runs ≡ some (prepared fp now (fresh run))
  unfolding store_run Runs.mark_prepared
  store_run-row run m fp now db {t} new h =
      let (_, d1, e1, h1) =
        bind-ok (Runs.insert run) (λ _. with_manifest)
          (in_tx-ok (Runs.insert run >> with_manifest) h) in
      let (_, d2, e2, h2) = bind-ok (Manifests.insert m) (λ _. with_fingerprint) h1 in
      let (_, d3, e3, h3) =
        bind-ok (Fingerprints.upsert env.fingerprint_id fp now) (λ _. marked_then) h2 in
      let (_, d4, e4, h4) = bind-ok (Runs.mark_prepared run.run_id fp now) (λ _. last) h3 in
      let same : d3.runs ≡ d1.runs =
        ap (λ d. d.runs) (sym (state_of e3))
        ∙ upsert_runs env.fingerprint_id fp now d2
        ∙ ap (λ d. d.runs) (sym (state_of e2))
        ∙ manifest_runs m d1 in
      let there : find (has_id run.run_id) d3.runs ≡ some (fresh run) =
        rw same (insert-row run db e1) in
      let marked = (cas_ok unprepared (prepared fp now) run.run_id d3 (λ _. refl) there new).1 in
      rw
        (ap (λ d. d.runs) (sym (state_of h4))
          ∙ latest_runs run.task_id run.retry_index d4
          ∙ ap (λ d. d.runs) (sym (state_of e4)))
        marked
    where
      last : Eff Db (Unit {0})
      last = Tasks.set_latest_run run.task_id run.retry_index

      marked_then : Eff Db (Unit {0})
      marked_then = Runs.mark_prepared run.run_id fp now >> last

      with_fingerprint : Eff Db (Unit {0})
      with_fingerprint = Fingerprints.upsert env.fingerprint_id fp now >> marked_then

      with_manifest : Eff Db (Unit {0})
      with_manifest = Manifests.insert m >> with_fingerprint
