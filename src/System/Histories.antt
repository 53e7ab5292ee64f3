-- ===== src/System/Histories.antt =====
-- What holds of every history of calls, with any executors and any outside code.
use veriproc.Prelude.{◌≤◌, ◌≡◌, String, true, some, List, [], ◌∷◌, All}
use veriproc.Store.Table.{find}
use veriproc.Store.Table.Laws.{Grows-find}
use veriproc.Store.Table.Keys.{NoClash}
use veriproc.Store.Records.{RunRecord, is_terminal}
use veriproc.Store.Legal.{Legal, Legal-preorder}
use veriproc.Store.Runs.{has_id, clashes}
use veriproc.Store.Runs.Lifecycle.{has_id-Later}
use veriproc.Store.Runs.Coherence.{IsCoherent}
use veriproc.Store.Runs.Diagram.{Later, rank}
use veriproc.Runs.World.{World, Env}
use veriproc.Runs.World.Legal.{Within-on_db}
use veriproc.Runs.Prepare.Legal.{prepare_run-Legal, retry-Legal}
use veriproc.Runs.Dispatch.Legal.{dispatch-Legal}
use veriproc.Runs.Dispatcher.Legal
use veriproc.Runs.Cancel.Legal.{cancel-Legal}
use veriproc.Runs.Promote.Legal.{promote_canonical-Legal}
use veriproc.Runs.Poll.Legal.{poll-Legal}
use veriproc.Runs.Finalize.Legal.{finalize-Legal, mark_failed_and_log-Legal}
use veriproc.Reconciler.Marker.{reconcile_one-Legal, tick-Legal}
use veriproc.Submission.Legal.{submit-Legal, sweep-Legal}
use veriproc.Groups.Legal.{register_run-Legal, aggregate-Legal, close-Legal}
use veriproc.System.{
  Call, prepare_run, retry, dispatch, poll, finalize, mark_failed_and_log, cancel,
  promote_canonical, reconcile_one, reconciler_tick, register_run, aggregate, close_group,
  submit_task, sweep_records, dispatcher_tick, call, calls,
}

module _ {S : Type 0} (env : Env S) where
  call-Legal : (c : Call) (w : World S) → Legal w.db (call env c w).db
  unfolding call
  call-Legal (prepare_run task id now) w = (prepare_run-Legal env task id now).at w
  call-Legal (retry task id now) w = (retry-Legal env task id now).at w
  call-Legal (dispatch id now) w = (dispatch-Legal env id now).at w
  call-Legal (poll id now) w = (poll-Legal env id now).at w
  call-Legal (finalize id reason now) w = (finalize-Legal env id reason now).at w
  call-Legal (mark_failed_and_log id reason now) w =
      (mark_failed_and_log-Legal env id reason now).at w
  call-Legal (cancel id now) w = (cancel-Legal env id now).at w
  call-Legal (promote_canonical id reason actor now) w =
      (Within-on_db _ (promote_canonical-Legal env.audit_id id reason actor now)).at w
  call-Legal (reconcile_one id now) w = (reconcile_one-Legal env id now).at w
  call-Legal (reconciler_tick threshold now) w = (tick-Legal env threshold now).at w
  call-Legal (dispatcher_tick ids reason now) w = (Legal.tick-Legal env ids reason now).at w
  call-Legal (register_run group run task role now) w =
      (Within-on_db _ (register_run-Legal group run task role now)).at w
  call-Legal (submit_task given input now hex6) w =
      (Within-on_db _ (submit-Legal given input now hex6)).at w
  call-Legal (sweep_records before) w = (Within-on_db _ (sweep-Legal before)).at w
  call-Legal (aggregate summary_of id now) w =
      (Within-on_db _ (aggregate-Legal summary_of id now)).at w
  call-Legal (close_group summary_of id now) w =
      (Within-on_db _ (close-Legal summary_of id now)).at w

  calls-Legal : (cs : List Call) (w : World S) → Legal w.db (calls env cs w).db
  unfolding calls
  calls-Legal [] w = Legal-preorder.reflexive w.db
  calls-Legal (c ∷ cs) w =
      Legal-preorder.transitive w.db (call env c w).db _ (call-Legal c w)
        (calls-Legal cs (call env c w))

  calls-Later :
      (cs : List Call) (w : World S) (id : String) {r : RunRecord}
      → find (has_id id) w.db.runs ≡ some r
      → (s : RunRecord) × (find (has_id id) (calls env cs w).db.runs ≡ some s) × Later r s
  calls-Later cs w id found =
      Grows-find Later (has_id id) (has_id-Later id) w.db.runs _ (calls-Legal cs w).grows found

  -- Whatever calls of the run service, the task service, the dispatcher, the reconciler and the
  -- groups are made, in any order, a run that has ended stays in the table, and its state, its
  -- end time and its failure reason are final.
  pub calls-is_terminal :
      (cs : List Call) (w : World S) (id : String) {r : RunRecord}
      → find (has_id id) w.db.runs ≡ some r
      → is_terminal r.state ≡ true
      → (s : RunRecord) × (find (has_id id) (calls env cs w).db.runs ≡ some s)
        × (s.state ≡ r.state)
        × (s.terminal_at ≡ r.terminal_at)
        × (s.failure_reason ≡ r.failure_reason)
  calls-is_terminal cs w id found ended =
      let (s, there, later) = calls-Later cs w id found in
      let (a, b, c) = later.ended ended in (s, there, a, b, c)

  -- Whatever calls are made, a run stays in the table and never goes back in its life, which runs
  -- from pending or preparing over ready, dispatched, running and finalizing to its end.
  pub calls-rank :
      (cs : List Call) (w : World S) (id : String) {r : RunRecord}
      → find (has_id id) w.db.runs ≡ some r
      → (s : RunRecord) × (find (has_id id) (calls env cs w).db.runs ≡ some s)
        × (rank r.state ≤ rank s.state)
  calls-rank cs w id found =
      let (s, there, later) = calls-Later cs w id found in (s, there, later.rank_le)

  -- Whatever calls are made, unique keys of the runs stay unique, and coherent rows coherent: a run
  -- has an end time just when it has ended and a decided canonicality just when it is complete, and
  -- it has the preparation, dispatch and start times that its state calls for.
  pub calls-IsCoherent :
      (cs : List Call) (w : World S)
      → NoClash clashes w.db.runs
      → All IsCoherent w.db.runs
      → NoClash clashes (calls env cs w).db.runs × All IsCoherent (calls env cs w).db.runs
  calls-IsCoherent cs w unique coherent =
      ((calls-Legal cs w).unique unique, (calls-Legal cs w).coherent coherent)
