-- ===== src/System.antt =====
-- The calls that the parts of the daemon make, in any order: the HTTP handlers, the dispatcher, the
-- reconciler and the notifier of groups all go through these (internal/runs, internal/tasks,
-- internal/groups, internal/reconciler). Each is one step; what it writes before an error stays.
pub mod Histories
use veriproc.Prelude.{String, List, [], ◌∷◌}
use veriproc.Prelude.Effects.{Eff}
use veriproc.Store.Records.{Time}
use veriproc.Runs.World.{World, Env, on_db}
use veriproc.Runs.Prepare
use veriproc.Runs.Dispatch
use veriproc.Runs.Dispatcher
use veriproc.Runs.Poll
use veriproc.Runs.Finalize
use veriproc.Runs.Cancel
use veriproc.Runs.Promote
use veriproc.Groups
use veriproc.Groups.{Tally}
use veriproc.Reconciler
use veriproc.Submission
use veriproc.Submission.{Submitting, SubmitInput}
use veriproc.Store.Idempotency

pub data Call : Type 0 where
  prepare_run : String → String → Time → Call
  retry : String → String → Time → Call
  dispatch : String → Time → Call
  poll : String → Time → Call
  finalize : String → String → Time → Call
  mark_failed_and_log : String → String → Time → Call
  cancel : String → Time → Call
  promote_canonical : String → String → String → Time → Call
  reconcile_one : String → Time → Call
  reconciler_tick : Time → Time → Call
  register_run : String → String → String → String → Time → Call
  aggregate : (Tally → String) → String → Time → Call
  dispatcher_tick : (String → String) → String → Time → Call
  submit_task : Submitting → SubmitInput → Time → String → Call
  sweep_records : Time → Call
  close_group : (Tally → String) → String → Time → Call

module _ {S : Type 0} (env : Env S) where
  -- The world that a call leaves, whether it returns or fails.
  unfoldable pub call : Call → World S → World S
  call (prepare_run task id now) w = (Prepare.prepare_run env task id now w).1
  call (retry task id now) w = (Prepare.retry env task id now w).1
  call (dispatch id now) w = (Dispatch.dispatch env id now w).1
  call (poll id now) w = (Poll.poll env id now w).1
  call (finalize id reason now) w = (Finalize.finalize env id reason now w).1
  call (mark_failed_and_log id reason now) w = (Finalize.mark_failed_and_log env id reason now w).1
  call (cancel id now) w = (Cancel.cancel env id now w).1
  call (promote_canonical id reason actor now) w =
      (on_db (Promote.promote_canonical env.audit_id id reason actor now) w).1
  call (reconcile_one id now) w = (Reconciler.reconcile_one env id now w).1
  call (reconciler_tick threshold now) w = (Reconciler.tick env threshold now w).1
  call (dispatcher_tick ids reason now) w = (Dispatcher.tick env ids reason now w).1
  call (register_run group run task role now) w =
      (on_db (Groups.register_run group run task role now) w).1
  call (aggregate summary_of id now) w = (on_db (Groups.aggregate summary_of id now) w).1
  call (close_group summary_of id now) w = (on_db (Groups.close summary_of id now) w).1
  call (submit_task given input now hex6) w = (on_db (Submission.submit given input now hex6) w).1
  call (sweep_records before) w = (on_db (Idempotency.sweep before) w).1

  unfoldable pub calls : List Call → World S → World S
  calls [] w = w
  calls (c ∷ cs) w = calls cs (call c w)
