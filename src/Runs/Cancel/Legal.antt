-- ===== src/Runs/Cancel/Legal.antt =====
-- Cancellation keeps what every call of the store keeps.
use veriproc.Prelude.{String, Option, none, some}
use veriproc.Prelude.Errors.{
  Result, ok, err, invalid_transition, executor_cancellation_unsupported, unknown_job,
}
use veriproc.Prelude.Effects.{Eff}
use veriproc.Prelude.Effects.Within.{Within}
use veriproc.Store.Records.{Time, RunRecord, JobRecord}
use veriproc.Executor.{Executor, Observation}
use veriproc.Runs.World.{World, Env}
use veriproc.Runs.World.Legal.{LegalWorld, legal_rules}
use veriproc.Runs.Cancel.{
  Progress, mark_ended, after_poll, after_cancel, cancel_job, after_stamp, stamp_then,
  cancel_active, cancel,
}

module _ {S : Type 0} (env : Env S) where
  mark_ended-Legal : (run : RunRecord) (now : Time) → Within LegalWorld (mark_ended env run now)
  unfolding mark_ended
  mark_ended-Legal run now = search legal_rules depth 8

  after_poll-Legal :
      (run : RunRecord) (job : JobRecord) (now : Time) (r : Result Observation)
      → Within LegalWorld (after_poll env run job now r)
  unfolding after_poll
  after_poll-Legal run job now (err e) = search legal_rules
  after_poll-Legal run job now (ok obs) = search (legal_rules, mark_ended-Legal) depth 8

  after_cancel-Legal :
      (run : RunRecord) (job : JobRecord) (exec : Executor S) (now : Time) (r : Result (Unit {0}))
      → Within LegalWorld (after_cancel env run job exec now r)
  unfolding after_cancel
  after_cancel-Legal run job exec now (ok _) = search (legal_rules, after_poll-Legal)
  after_cancel-Legal run job exec now (err executor_cancellation_unsupported) = search legal_rules
  after_cancel-Legal run job exec now (err unknown_job) = search legal_rules
  after_cancel-Legal run job exec now (err e) = search legal_rules

  cancel_job-Legal :
      (run : RunRecord) (job : JobRecord) (exec : Executor S) (now : Time)
      → Within LegalWorld (cancel_job env run job exec now)
  unfolding cancel_job
  cancel_job-Legal run job exec now = search (legal_rules, after_cancel-Legal) depth 8

  after_stamp-Legal :
      (run : RunRecord) (rest : Eff (World S) Progress) (r : Result (Unit {0}))
      → Within LegalWorld rest
      → Within LegalWorld (after_stamp env run rest r)
  unfolding after_stamp
  after_stamp-Legal run rest (ok _) h = search legal_rules
  after_stamp-Legal run rest (err invalid_transition) h = search legal_rules
  after_stamp-Legal run rest (err e) h = search legal_rules

  stamp_then-Legal :
      (run : RunRecord) (now : Time) (rest : Eff (World S) Progress)
      → Within LegalWorld rest
      → Within LegalWorld (stamp_then env run now rest)
  unfolding stamp_then
  stamp_then-Legal run now rest h = search (legal_rules, after_stamp-Legal)

  cancel_active-Legal :
      (run : RunRecord) (now : Time) (job : Option JobRecord)
      → Within LegalWorld (cancel_active env run now job)
  unfolding cancel_active
  cancel_active-Legal run now none = search (stamp_then-Legal, mark_ended-Legal)
  cancel_active-Legal run now (some job) =
      search (legal_rules, stamp_then-Legal, cancel_job-Legal) depth 8

  pub cancel-Legal : (id : String) (now : Time) → Within LegalWorld (cancel env id now)
  unfolding cancel
  cancel-Legal id now = search (legal_rules, cancel_active-Legal) depth 8
