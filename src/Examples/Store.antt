-- ===== src/Examples/Store.antt =====
-- The theorems on the store at concrete inputs.
use veriproc.Prelude.{◌≡◌, refl, String, List, [], ◌∷◌, some, All}
use veriproc.Prelude.Errors.{err, invalid_transition}
use veriproc.Store.Table.{find}
use veriproc.Store.Table.Laws.{Grows}
use veriproc.Store.Table.Keys.{NoClash}
use veriproc.Store.Records.{RunRecord, RunState, Canonicality}
use veriproc.Store.Runs
use veriproc.Store.Runs.{has_id, clashes}
use veriproc.Store.Runs.Diagram.{Advances}
use veriproc.Store.Runs.Coherence.{IsCoherent, replay-IsCoherent}
use veriproc.Store.Runs.Unique.{replay-NoClash}
use veriproc.Store.Runs.Lifecycle.{dispatched_once, perform-Advances, replay-terminal}
use veriproc.Store.Runs.Ops.{
  RunOp, insert, mark_dispatched, mark_running, mark_ready_for_finalization, mark_complete,
  mark_failed, replay, perform,
}
use veriproc.Examples.Inputs.{db, new_run, failed_run}
use veriproc.Examples.Service.{rows-IsCoherent}

abbrev ops : List RunOp
ops =
    mark_running "run-1" 50
    ∷ mark_ready_for_finalization "run-1"
    ∷ mark_complete "run-1" Canonicality.canonical 70
    ∷ mark_failed "run-0" "again" 80
    ∷ insert (new_run "run-1" 2 RunState.ready)
    ∷ insert (new_run "run-3" 2 RunState.ready)
    ∷ []

dispatched_once_example :
    Runs.mark_dispatched "run-1" 90 (replay (mark_dispatched "run-1" 40 ∷ ops) db)
    ≡ (err invalid_transition, replay (mark_dispatched "run-1" 40 ∷ ops) db)
unfolding Runs.mark_dispatched
dispatched_once_example = dispatched_once "run-1" 40 90 ops db (refl, (refl, tt)) refl

replay-terminal_example :
    (s : RunRecord) × (find (has_id "run-0") (replay ops db).runs ≡ some s)
    × (s.state ≡ RunState.failed)
    × (s.terminal_at ≡ some 30)
    × (s.failure_reason ≡ "x")
replay-terminal_example = replay-terminal ops db "run-0" {r = failed_run} refl refl

perform-Advances_example : Grows Advances db.runs (perform (mark_dispatched "run-1" 40) db).1.runs
perform-Advances_example = perform-Advances (mark_dispatched "run-1" 40) db

replay-NoClash_example : NoClash clashes (replay ops db).runs
replay-NoClash_example = replay-NoClash ops db (refl, (refl, tt))

inserted-IsCoherent : (id : String) → IsCoherent (Runs.fresh (new_run id 2 RunState.ready))
inserted-IsCoherent id = record {
  ends = refl;
  decided = refl;
  prepared = λ _. refl;
  dispatched_first = λ h. absurd (cc h);
  started = λ h. absurd (cc h);
}

replay-IsCoherent_example : All IsCoherent (replay ops db).runs
replay-IsCoherent_example =
    replay-IsCoherent ops db
      (tt, (tt, (refl, (tt, (inserted-IsCoherent "run-1", (inserted-IsCoherent "run-3", tt))))))
      rows-IsCoherent
