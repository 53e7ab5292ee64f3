-- ===== src/Runs/Poll/Legal.antt =====
-- Polling keeps what every call of the store keeps.
use veriproc.Prelude.{String, List, [], ◌∷◌, Option, none, some}
use veriproc.Prelude.Errors.{Result, ok, err, invalid_transition}
use veriproc.Prelude.Effects.{Eff}
use veriproc.Prelude.Effects.Within.{Within, Within-attempt, Within-lift, Within-pure, Within-bind}
use veriproc.Store.Records.{Time, RunRecord, JobRecord, ArtifactRecord}
use veriproc.Executor.{Observation, Status}
use veriproc.Runs.World.{World, Env}
use veriproc.Runs.World.Legal.{LegalWorld, LegalWorld-preorder, legal_rules}
use veriproc.Runs.Join.Legal.{contribute_to_join_downstream-Legal}
use veriproc.Runs.Poll.{insert_logs, record_logs, after_failed, fail_run, react, poll_job, poll}

module _ {S : Type 0} (env : Env S) where
  insert_logs-Legal : (logs : List ArtifactRecord) → Within LegalWorld (insert_logs env logs)
  unfolding insert_logs
  insert_logs-Legal [] = search legal_rules
  insert_logs-Legal (a ∷ rest) =
      Within-bind LegalWorld-preorder _ _ (search (legal_rules) depth 8)
        (λ _. insert_logs-Legal rest)

  pub record_logs-Legal : (run : RunRecord) → Within LegalWorld (record_logs env run)
  unfolding record_logs
  record_logs-Legal run =
      Within-attempt LegalWorld-preorder _ _ (Within-lift LegalWorld-preorder _)
        (elim [ ok logs ↦ insert_logs-Legal logs | err e ↦ Within-pure LegalWorld-preorder tt ])

  after_failed-Legal :
      (run : RunRecord) (reason : String) (logs : Eff (World S) (Unit {0})) (now : Time)
      (r : Result (Unit {0}))
      → Within LegalWorld logs
      → Within LegalWorld (after_failed env run reason logs now r)
  unfolding after_failed
  after_failed-Legal run reason logs now (ok _) h =
      search (legal_rules, contribute_to_join_downstream-Legal) depth 8
  after_failed-Legal run reason logs now (err invalid_transition) h = search legal_rules depth 8
  after_failed-Legal run reason logs now (err e) h = search legal_rules

  fail_run-Legal :
      (run : RunRecord) (reason : String) (logs : Eff (World S) (Unit {0})) (now : Time)
      → Within LegalWorld logs
      → Within LegalWorld (fail_run env run reason logs now)
  unfolding fail_run
  fail_run-Legal run reason logs now h = search (legal_rules, after_failed-Legal) depth 8

  react-Legal :
      (run : RunRecord) (obs : Observation) (now : Time) (s : Status)
      → Within LegalWorld (react env run obs now s)
  unfolding react
  react-Legal run obs now Status.queued = search legal_rules
  react-Legal run obs now _ = search (legal_rules, fail_run-Legal, record_logs-Legal) depth 9

  poll_job-Legal :
      (run : RunRecord) (now : Time) (job : Option JobRecord)
      → Within LegalWorld (poll_job env run now job)
  unfolding poll_job
  poll_job-Legal run now none = search legal_rules
  poll_job-Legal run now (some job) = search (legal_rules, react-Legal) depth 14

  pub poll-Legal : (id : String) (now : Time) → Within LegalWorld (poll env id now)
  unfolding poll
  poll-Legal id now = search (legal_rules, poll_job-Legal) depth 8
