-- ===== src/Store/Tasks.antt =====
-- internal/store/tasks.go: the operations of `TaskRepo`.
use veriproc.Prelude.{
  ℕ, ◌+◌, String, Bool, true, false, ◌==◌, ◌&&◌, ◌||◌, ◌++◌, ◌∷◌, [], not, Option, none, some,
  if◌then◌else◌, coalesce, eqb,
}
use veriproc.Prelude.Errors.{Result, ok, err, conflict, not_found, other}
use veriproc.Prelude.Effects.{Eff, pure, fail, ◌>>=◌, ◌>>◌}
use veriproc.Store.Table.{find, exists_row}
use veriproc.Store.Records.{
  Time, TaskRecord, IdempotencyRecord, TaskState, accepted, waiting_inputs, running, failed,
  cancelled, completed,
}
use veriproc.Store.Db.{Db, or_not_found, exec_tasks}

abbrev pub is_task : String → TaskRecord → Bool
is_task id t = t.task_id == id

-- The parent task of a row must exist (FOREIGN KEY), where one is named.
abbrev parent_exists : TaskRecord → Db → Bool
parent_exists t db = t.parent_task_id == "" || exists_row (is_task t.parent_task_id) db.tasks

-- So must its idempotency record.
abbrev record_exists : TaskRecord → Db → Bool
record_exists t db =
    t.idempotency_record_id == ""
    || exists_row (λ (r : IdempotencyRecord). r.id == t.idempotency_record_id) db.idempotency

-- TaskRepo.Insert: a reused id is a conflict; a missing parent or record, an error without a
-- sentinel.
-- The statement does not name join_arrival_count, whose default is 0.
unfoldable pub insert : TaskRecord → Eff Db (Unit {0})
insert t db =
    if exists_row (is_task t.task_id) db.tasks
    then (err conflict, db)
    else if not (parent_exists t db && record_exists t db)
    then (err other, db)
    else (ok tt, record db { tasks = db.tasks ++ record t { join_arrival_count = 0 } ∷ [] })

-- TaskRepo.Get
unfoldable pub get : String → Eff Db TaskRecord
get id db = (or_not_found (find (is_task id) db.tasks), db)

-- TaskRepo.SetState
unfoldable pub set_state : String → TaskState → String → Eff Db (Unit {0})
unfolding ◌>>=◌
set_state id state summary = do
  n ← exec_tasks (is_task id) (λ t. record t { state = state; failure_summary = summary })
  if eqb n 0 then fail not_found else pure tt

abbrev pub same_state : TaskState → TaskState → Bool
same_state accepted accepted = true
same_state waiting_inputs waiting_inputs = true
same_state running running = true
same_state failed failed = true
same_state cancelled cancelled = true
same_state completed completed = true
same_state _ _ = false

-- TaskRepo.SetStateIfCurrent
unfoldable pub set_state_if_current : String → TaskState → TaskState → String → Eff Db Bool
unfolding ◌>>=◌
set_state_if_current id current next summary = do
  n ←
      exec_tasks (λ t. is_task id t && same_state t.state current)
        (λ t. record t { state = next; failure_summary = summary })
  pure (not (eqb n 0))

abbrev arrivals : Option TaskRecord → Result ℕ
arrivals none = err other
arrivals (some t) = ok t.join_arrival_count

-- TaskRepo.IncrementJoinArrival; with no row the scan of RETURNING fails
unfoldable pub increment_join_arrival : String → Eff Db ℕ
unfolding ◌>>=◌
increment_join_arrival id = do
  exec_tasks (is_task id) (λ t. record t { join_arrival_count = t.join_arrival_count + 1 })
  λ db. (arrivals (find (is_task id) db.tasks), db)

-- TaskRepo.SetLatestRun
unfoldable pub set_latest_run : String → ℕ → Eff Db (Unit {0})
unfolding ◌>>=◌
set_latest_run id index = do
  exec_tasks (is_task id) (λ t. record t { latest_retry_index = some index })
  pure tt

-- TaskRepo.SetCanonicalRun
unfoldable pub set_canonical_run : String → ℕ → Time → Eff Db (Unit {0})
unfolding ◌>>=◌
set_canonical_run id index at = do
  exec_tasks (is_task id) (λ t. record t {
    canonical_retry_index = some index;
    completed_at = coalesce t.completed_at at;
  })
  pure tt
