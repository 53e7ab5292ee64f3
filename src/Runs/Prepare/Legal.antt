-- ===== src/Runs/Prepare/Legal.antt =====
-- Preparing and retrying keep what every call of the store keeps.
use veriproc.Prelude.{ℕ, String, refl}
use veriproc.Prelude.Errors.{Result, ok, err, not_found}
use veriproc.Prelude.Effects.Within.{Within, Within-attempt, Within-pure, Within-fail}
use veriproc.Store.Records.{Time, RunRecord, TaskRecord, StationRevisionRecord, ManifestRecord}
use veriproc.Store.Legal.{Legal, Legal-preorder, get_task-Legal, insert_run-Legal}
use veriproc.Store.Runs.{fresh}
use veriproc.Store.Runs.Coherence.{IsCoherent}
use veriproc.Groups.Legal.{register_run-Legal}
use veriproc.Runs.World.{Env}
use veriproc.Runs.World.Legal.{LegalWorld, legal_rules}
use veriproc.Runs.Prepare.{
  after_get_task, get_task, new_run, store_run, register, refuse_duplicate, prepare_with,
  prepare_run, retry,
}

get_task_or_error-Legal : (id : String) → Within Legal (get_task id)
get_task_or_error-Legal id = Within-attempt Legal-preorder _ _ (get_task-Legal id) rest
  where
    rest : (r : Result TaskRecord) → Within Legal (after_get_task r)
    rest (ok t) = Within-pure Legal-preorder t
    rest (err not_found) = Within-fail Legal-preorder _
    rest (err e) = Within-fail Legal-preorder _

new_run-IsCoherent :
    (id task revision : String) (n : ℕ) (root : String) (now : Time)
    → IsCoherent (fresh (new_run id task revision n root now))
new_run-IsCoherent id task revision n root now = record {
  ends = refl;
  decided = refl;
  prepared = λ h. absurd (cc h);
  dispatched_first = λ h. absurd (cc h);
  started = λ h. absurd (cc h);
}

module _ {S : Type 0} (env : Env S) where
  store_run-Legal :
      (run : RunRecord) (m : ManifestRecord) (fingerprint : String) (now : Time)
      → IsCoherent (fresh run)
      → Within Legal (store_run env run m fingerprint now)
  unfolding store_run
  store_run-Legal run m fingerprint now h = search (legal_rules, insert_run-Legal) depth 12

  register-Legal :
      (task : TaskRecord) (run : String) (now : Time) → Within Legal (register env task run now)
  unfolding register
  register-Legal task run now = search (legal_rules, register_run-Legal)

  refuse_duplicate-Legal :
      (task : TaskRecord) (fingerprint : String)
      → Within Legal (refuse_duplicate env task fingerprint)
  unfolding refuse_duplicate
  refuse_duplicate-Legal task fingerprint = search legal_rules depth 8

  prepare_with-Legal :
      (task : TaskRecord) (rev : StationRevisionRecord) (id : String) (n : ℕ) (now : Time)
      → Within Legal (prepare_with env task rev id n now)
  unfolding prepare_with
  prepare_with-Legal task rev id n now =
      search
        (legal_rules, refuse_duplicate-Legal, store_run-Legal, register-Legal, new_run-IsCoherent)
        depth 14

  pub prepare_run-Legal :
      (task_id id : String) (now : Time) → Within LegalWorld (prepare_run env task_id id now)
  unfolding prepare_run
  prepare_run-Legal task_id id now =
      search (legal_rules, get_task_or_error-Legal, prepare_with-Legal) depth 10

  pub retry-Legal :
      (task_id id : String) (now : Time) → Within LegalWorld (retry env task_id id now)
  unfolding retry
  retry-Legal task_id id now =
      search (legal_rules, get_task_or_error-Legal, prepare_run-Legal) depth 10
