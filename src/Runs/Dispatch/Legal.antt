-- ===== src/Runs/Dispatch/Legal.antt =====
-- Dispatching keeps what every call of the store keeps.
use veriproc.Prelude.{String, Option, none, some}
use veriproc.Prelude.Effects.Within.{Within}
use veriproc.Store.Records.{Time, RunState, RunRecord, JobRecord, ArtifactRecord}
use veriproc.Store.Legal.{Legal}
use veriproc.Runs.Join.Legal.{get_revision-Legal}
use veriproc.Runs.World.{Env}
use veriproc.Runs.World.Legal.{LegalWorld, legal_rules}
use veriproc.Runs.Dispatch.{insert_if_any, record_submission, submit_run, by_state, dispatch}

insert_if_any-Legal : (a : Option ArtifactRecord) → Within Legal (insert_if_any a)
unfolding insert_if_any
insert_if_any-Legal none = search legal_rules
insert_if_any-Legal (some a) = search legal_rules

module _ {S : Type 0} (env : Env S) where
  record_submission-Legal :
      (run : RunRecord) (job : JobRecord) (order history : Option ArtifactRecord) (now : Time)
      → Within Legal (record_submission env run job order history now)
  unfolding record_submission
  record_submission-Legal run job order history now =
      search (legal_rules, insert_if_any-Legal) depth 10

  submit_run-Legal : (run : RunRecord) (now : Time) → Within LegalWorld (submit_run env run now)
  unfolding submit_run
  submit_run-Legal run now =
      search (legal_rules, get_revision-Legal, record_submission-Legal) depth 24

  by_state-Legal :
      (run : RunRecord) (now : Time) (s : RunState) → Within LegalWorld (by_state env run now s)
  unfolding by_state
  by_state-Legal run now RunState.ready = submit_run-Legal run now
  by_state-Legal run now _ = search legal_rules

  pub dispatch-Legal : (id : String) (now : Time) → Within LegalWorld (dispatch env id now)
  unfolding dispatch
  dispatch-Legal id now = search (legal_rules, by_state-Legal)
