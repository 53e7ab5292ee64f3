-- ===== src/Runs/Prepare/Refusal.antt =====
-- PrepareRun stores no run of inputs that have a canonical run, unless the task is forced
-- (internal/runs/service.go).
use veriproc.Prelude.{
  ◌≡◌, refl, ap, sym, subst, ◌∙◌, String, false, some, ℕ, arith, Bool-cases, inl, inr, Option-cases,
}
use veriproc.Prelude.Errors.{Result, ok, err, fatal_prepare, unknown_station}
use veriproc.Prelude.Effects.{Eff, ◌>>=◌, ◌>>◌, attempt, lift, gets, fail, pure}
use veriproc.Prelude.Effects.Inversion.{bind-ok, lift-ok}
use veriproc.Store.Table.{find}
use veriproc.Store.Table.Laws.{some_inj}
use veriproc.Store.Records.{
  Time, RunState, RunRecord, TaskRecord, StationRevisionRecord, ManifestRecord,
}
use veriproc.Store.Db.{Db}
use veriproc.Store.Runs
use veriproc.Store.Runs.{max_retry_index, has_id, clashes, fresh, unprepared}
use veriproc.Store.Tasks
use veriproc.Store.Tasks.{is_task}
use veriproc.Store.Fingerprints
use veriproc.Store.Fingerprints.{has_value}
use veriproc.Runs.World.{World, Env, on_db}
use veriproc.Runs.Prepare.{
  is_owned, or_error, after_manifest, prepare_task, next_retry, new_run, get_task, refuse_duplicate,
  store_run, register, prepare_with, prepare_run,
}
use veriproc.Runs.Prepare.Stored.{prepared, state_of, register_runs, store_run-row}

module _ {S : Type 0} (env : Env S) where
  refuse_duplicate-ok :
      (task : TaskRecord) (fp : String) (db : Db) {t : Db}
      → task.force ≡ false
      → refuse_duplicate env task fp db ≡ (ok tt, t)
      → (is_owned (Fingerprints.get_by_value fp db).0 ≡ false) × (db ≡ t)
  unfolding refuse_duplicate attempt fail pure Fingerprints.get_by_value
  refuse_duplicate-ok task fp db {t} unforced h =
      elim (Bool-cases (is_owned (Fingerprints.get_by_value fp db).0)) [
        | inl owned ↦
            let answer : Path (Result (Unit {0}) × Db) (err fatal_prepare, db) (ok tt, t) =
              rw (unforced, owned) at h in
            absurd (ground (arith, ap (λ x. x.0) answer))
        | inr free ↦
            let answer : Path (Result (Unit {0}) × Db) (ok tt, db) (ok tt, t) =
              rw (unforced, free) at h in
            (free, ap (λ x. x.1) answer)
      ]

  -- The run is in the table, is ready, and has inputs that no run owned before.
  pub record IsUnowned (id : String) (before after : Db) (run : RunRecord) : Type 0 where
    pub free : is_owned (Fingerprints.get_by_value run.processing_fingerprint before).0 ≡ false
    pub stored : find (has_id id) after.runs ≡ some run
    pub ready : run.state ≡ RunState.ready

  get-ok :
      (id : String) (db : Db) {t : Db} {run : RunRecord}
      → Runs.get id db ≡ (ok run, t)
      → (find (has_id id) db.runs ≡ some run) × (db ≡ t)
  unfolding Runs.get
  get-ok id db h = elim (Option-cases (find (has_id id) db.runs)) [
    | inl missing ↦ absurd (ground (arith, missing, ap (λ x. x.0) h))
    | inr (r, there) ↦
        (there ∙ ap some (ok_inj (ground (arith, there, ap (λ x. x.0) h))), ap (λ x. x.1) h)
  ]
    where
      ok_inj : {a b : RunRecord} → ok a ≡ ok b → a ≡ b
      ok_inj e = cc

  module _ (task : TaskRecord) (rev : StationRevisionRecord) (id : String) (retry : ℕ)
      (now : Time) where
    abbrev new : RunRecord
    new =
        new_run id task.task_id rev.revision_id retry (env.working_root_path rev task id retry now)
          now

    abbrev registered : Eff Db RunRecord
    registered = register env task id now >> Runs.get id

    abbrev stored_then : ManifestRecord → String → Eff Db RunRecord
    stored_then m fp = store_run env new m fp now >> registered

    checked_then-IsUnowned :
        (m : ManifestRecord) (fp : String) (db : Db) {t : Db} {run : RunRecord}
        → task.force ≡ false
        → (refuse_duplicate env task fp >> stored_then m fp) db ≡ (ok run, t)
        → IsUnowned id db t run
    checked_then-IsUnowned m fp db {t} {run} unforced h =
        let (_, d1, e1, h1) = bind-ok (refuse_duplicate env task fp) (λ _. stored_then m fp) h in
        let (_, d2, e2, h2) = bind-ok (store_run env new m fp now) (λ _. registered) h1 in
        let (_, d3, e3, h3) = bind-ok (register env task id now) (λ _. Runs.get id) h2 in
        let (free, same) = refuse_duplicate-ok task fp db unforced e1 in
        let (there, last) = get-ok id d3 h3 in
        let row = store_run-row env new m fp now d1 refl e2 in
        let kept : d3.runs ≡ d2.runs =
          ap (λ d. d.runs) (sym (state_of e3)) ∙ register_runs env task id now d2 in
        let is : prepared fp now (fresh new) ≡ run =
          some_inj (sym row ∙ ap (find (has_id id)) (sym kept) ∙ there) in
        record {
          free =
              subst
                (λ r. is_owned (Fingerprints.get_by_value r.processing_fingerprint db).0 ≡ false) is
                free;
          stored = subst (λ d. find (has_id id) d.runs ≡ some run) last there;
          ready = subst (λ r. r.state ≡ RunState.ready) is refl;
        }

    prepare_with-IsUnowned :
        (db : Db) {t : Db} {run : RunRecord}
        → task.force ≡ false
        → prepare_with env task rev id retry now db ≡ (ok run, t)
        → IsUnowned id db t run
    unfolding prepare_with
    prepare_with-IsUnowned db {t} {run} unforced h =
        let (_, d1, e1, h1) = bind-ok (lift made) (λ _. lift resolved >>= with_manifest) h in
        let (m, d2, e2, h2) = bind-ok (lift resolved) with_manifest h1 in
        let same : db ≡ d2 = (lift-ok made e1).1 ∙ (lift-ok resolved e2).1 in
        subst (λ d. IsUnowned id d t run) (sym same)
          (checked_then-IsUnowned m
            (env.compute_fingerprint rev m task.force task.window_start task.window_end) d2 unforced
            h2)
      where
        root : String
        root = env.working_root_path rev task id retry now

        made : Result (Unit {0})
        made = or_error fatal_prepare (env.make_working_root root)

        resolved : Result ManifestRecord
        resolved =
            after_manifest (env.is_join_task task)
              (env.resolve_manifest id (env.run_ref task.task_id retry) task rev root)

        with_manifest : ManifestRecord → Eff Db RunRecord
        with_manifest m =
            let fp = env.compute_fingerprint rev m task.force task.window_start task.window_end in
            refuse_duplicate env task fp >> stored_then m fp

  get_task_found :
      (id : String) (db : Db) {task : TaskRecord}
      → find (is_task id) db.tasks ≡ some task
      → get_task id db ≡ (ok task, db)
  unfolding attempt pure Tasks.get
  get_task_found id db there = rw there refl

  on_db-ok :
      {A : Type 0} (m : Eff Db A) (w : World S) {t : World S} {a : A}
      → on_db m w ≡ (ok a, t)
      → m w.db ≡ (ok a, t.db)
  unfolding on_db
  on_db-ok {A = A} m w {t} {a} h = split (m w.db) refl h
    where
      split :
          (x : Result A × Db)
          → m w.db ≡ x
          → Path (Result A × World S) (x.0, record w { db = x.1 }) (ok a, t)
          → m w.db ≡ (ok a, t.db)
      split (r, d) e k = e ∙ cc (ap (λ y. y.0) k, ap (λ y. y.1.db) k)

  -- Where the preparation of a run of a task that is not forced succeeds, the run that it answers
  -- is the row in the table and is ready, and no run owned the fingerprint that it carries
  -- before.
  pub prepare_run-IsUnowned :
      (task_id id : String) (now : Time) (w : World S) {task : TaskRecord} {t : World S}
      {run : RunRecord}
      → find (is_task task_id) w.db.tasks ≡ some task
      → task.force ≡ false
      → prepare_run env task_id id now w ≡ (ok run, t)
      → IsUnowned id w.db t.db run
  unfolding prepare_run
  prepare_run-IsUnowned task_id id now w {task} {t} {run} there unforced h =
      let (task2, d1, e1, h1) =
        bind-ok (get_task task_id) (prepare_task env task_id id now) (on_db-ok _ w h) in
      let same : Path (Result TaskRecord × Db) (ok task, w.db) (ok task2, d1) =
        sym (get_task_found task_id w.db there) ∙ e1 in
      let (rev, d2, e2, h2) = bind-ok (lift (station task2)) (with_station task2) h1 in
      let (retry, d3, e3, h3) = bind-ok (gets next) (λ n. prepare_with env task2 rev id n now) h2 in
      let same_task : task ≡ task2 = ok_inj (ap (λ x. x.0) same) in
      let same_db : w.db ≡ d3 = ap (λ x. x.1) same ∙ (lift-ok (station task2) e2).1 ∙ gets_db e3 in
      subst (λ d. IsUnowned id d t.db run) (sym same_db)
        (prepare_with-IsUnowned task2 rev id retry now d3
          (ap (λ k. k.force) (sym same_task) ∙ unforced) h3)
    where
      station : TaskRecord → Result StationRevisionRecord
      station k = or_error unknown_station (env.resolve_station k.destination_station_id)

      next : Db → ℕ
      next db = next_retry (max_retry_index task_id db.runs)

      with_station : TaskRecord → StationRevisionRecord → Eff Db RunRecord
      with_station k rev = gets next >>= λ n. prepare_with env k rev id n now

      ok_inj : {a b : TaskRecord} → ok a ≡ ok b → a ≡ b
      ok_inj e = cc

      gets_db : {a b : Db} {n : ℕ} → gets next a ≡ (ok n, b) → a ≡ b
      gets_db e = unfold gets in ap (λ x. x.1) e
