-- ===== src/Runs/Dispatcher/Legal.antt =====
-- A tick of the dispatcher keeps what every call of the store keeps.
use veriproc.Prelude.{String, List, [], ◌∷◌}
use veriproc.Prelude.Errors.{Result, ok, err, waiting_inputs, fatal_prepare, fatal_dispatch}
use veriproc.Prelude.Effects.Within.{Within, Within-bind}
use veriproc.Store.Records.{Time, RunRecord, TaskRecord}
use veriproc.Store.Db.{Db}
use veriproc.Runs.World.{Env}
use veriproc.Runs.World.Legal.{LegalWorld, LegalWorld-preorder, legal_rules}
use veriproc.Runs.Prepare.Legal.{prepare_run-Legal}
use veriproc.Runs.Dispatch.Legal.{dispatch-Legal}
use veriproc.Runs.Poll.Legal.{poll-Legal}
use veriproc.Runs.Finalize.Legal.{finalize-Legal}
use veriproc.Runs.Dispatcher.{
  after_prepare, admit_all, admit_new_tasks, after_dispatch, dispatch_all, dispatch_ready, poll_all,
  poll_active, finalize_all, finalize_ready, tick,
}

module _ {S : Type 0} (env : Env S) (ids : String → String) (reason : String) (now : Time) where
  after_prepare-Legal :
      (t : TaskRecord) (r : Result RunRecord)
      → Within LegalWorld (after_prepare env ids reason now t r)
  unfolding after_prepare
  after_prepare-Legal t (ok r) = search legal_rules
  after_prepare-Legal t (err waiting_inputs) = search legal_rules
  after_prepare-Legal t (err fatal_prepare) = search legal_rules
  after_prepare-Legal t (err e) = search legal_rules

  admit_all-Legal : (ts : List TaskRecord) → Within LegalWorld (admit_all env ids reason now ts)
  unfolding admit_all
  admit_all-Legal [] = search legal_rules
  admit_all-Legal (t ∷ ts) =
      Within-bind LegalWorld-preorder _ _
        (search (legal_rules, prepare_run-Legal, after_prepare-Legal)) (λ _. admit_all-Legal ts)

  after_dispatch-Legal :
      (x : RunRecord) (r : Result RunRecord)
      → Within LegalWorld (after_dispatch env ids reason now x r)
  unfolding after_dispatch
  after_dispatch-Legal x (ok r) = search legal_rules
  after_dispatch-Legal x (err fatal_dispatch) = search legal_rules
  after_dispatch-Legal x (err e) = search legal_rules

  dispatch_all-Legal :
      (before : Db) (rs : List RunRecord)
      → Within LegalWorld (dispatch_all env ids reason now before rs)
  unfolding dispatch_all
  dispatch_all-Legal before [] = search legal_rules
  dispatch_all-Legal before (r ∷ rs) =
      Within-bind LegalWorld-preorder _ _
        (search (legal_rules, dispatch-Legal, after_dispatch-Legal))
        (λ _. dispatch_all-Legal before rs)

  poll_all-Legal : (rs : List RunRecord) → Within LegalWorld (poll_all env ids reason now rs)
  unfolding poll_all
  poll_all-Legal [] = search legal_rules
  poll_all-Legal (r ∷ rs) =
      Within-bind LegalWorld-preorder _ _ (search (legal_rules, poll-Legal))
        (λ _. poll_all-Legal rs)

  finalize_all-Legal :
      (rs : List RunRecord) → Within LegalWorld (finalize_all env ids reason now rs)
  unfolding finalize_all
  finalize_all-Legal [] = search legal_rules
  finalize_all-Legal (r ∷ rs) =
      Within-bind LegalWorld-preorder _ _ (search (legal_rules, finalize-Legal))
        (λ _. finalize_all-Legal rs)

  pub tick-Legal : Within LegalWorld (tick env ids reason now)
  unfolding tick admit_new_tasks dispatch_ready poll_active finalize_ready
  tick-Legal =
      search (legal_rules, admit_all-Legal, dispatch_all-Legal, poll_all-Legal, finalize_all-Legal)
        depth 16
