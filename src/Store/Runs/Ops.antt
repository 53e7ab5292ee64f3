-- ===== src/Store/Runs/Ops.antt =====
-- The operations of `RunRepo` that write (runs.go, runs_lifecycle.go) as one language of calls.
use veriproc.Prelude.{String, List, [], ◌∷◌}
use veriproc.Prelude.Effects.{Eff}
use veriproc.Store.Records.{Time, RunRecord, Canonicality}
use veriproc.Store.Db.{Db}
use veriproc.Store.Runs

-- Every call of `RunRepo` that writes.
pub data RunOp : Type 0 where
  insert : RunRecord → RunOp
  mark_prepared : String → String → Time → RunOp
  mark_dispatched : String → Time → RunOp
  mark_running : String → Time → RunOp
  mark_ready_for_finalization : String → RunOp
  mark_complete : String → Canonicality → Time → RunOp
  set_canonicality : String → Canonicality → RunOp
  mark_failed : String → String → Time → RunOp
  mark_cancellation_requested : String → Time → RunOp
  mark_cancelled : String → Time → RunOp
  mark_reconciliation_started : String → Time → RunOp
  clear_reconciliation : String → RunOp

unfoldable pub perform : RunOp → Eff Db (Unit {0})
perform (insert r) = Runs.insert r
perform (mark_prepared id fp at) = Runs.mark_prepared id fp at
perform (mark_dispatched id at) = Runs.mark_dispatched id at
perform (mark_running id at) = Runs.mark_running id at
perform (mark_ready_for_finalization id) = Runs.mark_ready_for_finalization id
perform (mark_complete id c at) = Runs.mark_complete id c at
perform (set_canonicality id c) = Runs.set_canonicality id c
perform (mark_failed id reason at) = Runs.mark_failed id reason at
perform (mark_cancellation_requested id at) = Runs.mark_cancellation_requested id at
perform (mark_cancelled id at) = Runs.mark_cancelled id at
perform (mark_reconciliation_started id at) = Runs.mark_reconciliation_started id at
perform (clear_reconciliation id) = Runs.clear_reconciliation id

-- A history: calls by any callers, in any order; a call that fails is one of them.
unfoldable pub replay : List RunOp → Db → Db
replay [] db = db
replay (op ∷ ops) db = replay ops (perform op db).1
