-- ===== src/Store/Runs.antt =====
-- internal/store/runs.go and runs_lifecycle.go: the operations of `RunRepo`.
pub mod Owner
pub mod Marks
pub mod Transition
pub mod Diagram
pub mod Ops
pub mod Unique
pub mod Coherence
pub mod Lifecycle
use veriproc.Prelude.{
  ℕ, suc, String, Bool, true, false, ◌&&◌, ◌||◌, ◌==◌, not, Option, none, some, List, [], ◌∷◌, ◌++◌,
  if◌then◌else◌, eqb, ltb, coalesce,
}
use veriproc.Prelude.Errors.{Error, Result, ok, err, not_found, conflict, invalid_transition}
use veriproc.Prelude.Effects.{Eff, pure, fail, ◌>>=◌, ◌>>◌}
use veriproc.Store.Table.{update, affected, find, select, exists_row}
use veriproc.Store.Records.{
  Time, RunState, RunRecord, TaskRecord, StationRevisionRecord, Canonicality, is_terminal, pending,
  preparing, ready, dispatched, running, finalizing, complete, failed, cancelled,
}
use veriproc.Store.Db.{Db, or_not_found, exec_runs}

-- The schema's UNIQUE constraints: run_id, working_root, (task_id, retry_index).
abbrev pub clashes : RunRecord → RunRecord → Bool
clashes new old =
    old.run_id == new.run_id
    || old.working_root == new.working_root
    || (old.task_id == new.task_id && eqb old.retry_index new.retry_index)

-- The schema's UNIQUE and FOREIGN KEY constraints on a new row.
abbrev pub insertable : RunRecord → Db → Bool
insertable rec db =
    not (exists_row (clashes rec) db.runs)
    && exists_row (λ (t : TaskRecord). t.task_id == rec.task_id) db.tasks
    && exists_row (λ (v : StationRevisionRecord). v.revision_id == rec.station_revision_id)
        db.revisions

-- The columns that the INSERT statement does not name are NULL.
abbrev pub fresh : RunRecord → RunRecord
fresh rec = record rec { cancellation_requested_at = none; reconciliation_started_at = none }

-- RunRepo.Insert; `created_at` is never zero here, since its caller sets it from the clock
unfoldable pub insert : RunRecord → Eff Db (Unit {0})
insert rec db =
    if insertable rec db
    then (ok tt, record db { runs = db.runs ++ fresh rec ∷ [] })
    else (err conflict, db)

abbrev pub has_id : String → RunRecord → Bool
has_id id r = r.run_id == id

-- RunRepo.Get
unfoldable pub get : String → Eff Db RunRecord
get id db = (or_not_found (find (has_id id) db.runs), db)

-- RunRepo.MaxRetryIndex; `none` stands for the -1 of a task with no runs
abbrev larger : ℕ → Option ℕ → Option ℕ
larger i none = some i
larger i (some m) = some (if ltb m i then i else m)

unfoldable pub max_retry_index : String → List RunRecord → Option ℕ
max_retry_index task [] = none
max_retry_index task (r ∷ rs) =
    let rest = max_retry_index task rs in
    if r.task_id == task then larger r.retry_index rest else rest

-- mustAffect
pub must_affect : ℕ → Eff Db (Unit {0})
unfolding ◌>>=◌
must_affect n = if eqb n 0 then fail invalid_transition else pure tt

-- The WHERE conditions on the state.
abbrev pub unprepared : RunState → Bool
unprepared pending = true
unprepared preparing = true
unprepared _ = false

abbrev pub is_ready : RunState → Bool
is_ready ready = true
is_ready _ = false

abbrev pub dispatched_or_running : RunState → Bool
dispatched_or_running dispatched = true
dispatched_or_running running = true
dispatched_or_running _ = false

abbrev pub may_finalize : RunState → Bool
may_finalize running = true
may_finalize dispatched = true
may_finalize finalizing = true
may_finalize _ = false

abbrev pub is_finalizing : RunState → Bool
is_finalizing finalizing = true
is_finalizing _ = false

abbrev pub is_complete : RunState → Bool
is_complete complete = true
is_complete _ = false

abbrev pub cancellable : RunState → Bool
cancellable pending = true
cancellable preparing = true
cancellable ready = true
cancellable dispatched = true
cancellable running = true
cancellable finalizing = true
cancellable _ = false

abbrev pub eligible : (RunState → Bool) → String → RunRecord → Bool
eligible guard id r = has_id id r && guard r.state

-- One conditional UPDATE of the run `id`, and the error where no row was eligible.
unfoldable pub transition : (RunState → Bool) → (RunRecord → RunRecord) → String → Eff Db (Unit {0})
unfolding must_affect ◌>>=◌
transition guard set id = do n ← exec_runs (eligible guard id) set; must_affect n

unfoldable pub mark_prepared : String → String → Time → Eff Db (Unit {0})
unfolding transition
mark_prepared id fingerprint at =
    transition unprepared
      (λ r. record r { processing_fingerprint = fingerprint; prepared_at = some at; state = ready })
      id

unfoldable pub mark_dispatched : String → Time → Eff Db (Unit {0})
unfolding transition
mark_dispatched id at =
    transition is_ready (λ r. record r { dispatched_at = some at; state = dispatched }) id

unfoldable pub mark_running : String → Time → Eff Db (Unit {0})
unfolding transition
mark_running id at =
    transition dispatched_or_running
      (λ r. record r { started_at = coalesce r.started_at at; state = running }) id

unfoldable pub mark_ready_for_finalization : String → Eff Db (Unit {0})
unfolding transition
mark_ready_for_finalization id = transition may_finalize (λ r. record r { state = finalizing }) id

unfoldable pub mark_complete : String → Canonicality → Time → Eff Db (Unit {0})
unfolding transition
mark_complete id c at =
    transition is_finalizing
      (λ r. record r { state = complete; canonicality = c; terminal_at = some at }) id

unfoldable pub set_canonicality : String → Canonicality → Eff Db (Unit {0})
unfolding transition
set_canonicality id c = transition is_complete (λ r. record r { canonicality = c }) id

unfoldable pub mark_failed : String → String → Time → Eff Db (Unit {0})
unfolding transition
mark_failed id reason at =
    transition (λ s. not (is_terminal s))
      (λ r. record r { state = failed; failure_reason = reason; terminal_at = some at }) id

unfoldable pub mark_cancellation_requested : String → Time → Eff Db (Unit {0})
unfolding transition
mark_cancellation_requested id at =
    transition cancellable
      (λ r. record r { cancellation_requested_at = coalesce r.cancellation_requested_at at }) id

unfoldable pub mark_cancelled : String → Time → Eff Db (Unit {0})
unfolding transition
mark_cancelled id at =
    transition (λ s. not (is_terminal s))
      (λ r. record r { state = cancelled; failure_reason = "cancelled"; terminal_at = some at }) id

unfoldable pub mark_reconciliation_started : String → Time → Eff Db (Unit {0})
unfolding transition
mark_reconciliation_started id at =
    transition (λ _. true)
      (λ r. record r { reconciliation_started_at = coalesce r.reconciliation_started_at at }) id

unfoldable pub clear_reconciliation : String → Eff Db (Unit {0})
unfolding transition
clear_reconciliation id =
    transition (λ _. true) (λ r. record r { reconciliation_started_at = none }) id
