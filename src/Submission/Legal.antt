-- ===== src/Submission/Legal.antt =====
-- Submitting a task leaves the runs alone.
use veriproc.Prelude.{String, arith}
use veriproc.Prelude.Errors.{Result, ok, err, conflict}
use veriproc.Prelude.Effects.{Eff}
use veriproc.Prelude.Effects.Within.{Within, within_rules, Within-pure, Within-fail, Within-if}
use veriproc.Store.Records.{Time, TaskRecord, StationRevisionRecord, IdempotencyRecord}
use veriproc.Store.Db.{Db}
use veriproc.Store.Legal.{Legal, Legal-preorder, Legal-of_same, insert_task-Legal, get_task-Legal}
use veriproc.Store.Idempotency
use veriproc.Submission.{
  Submitting, SubmitInput, SubmitResult, submit, create, store_task, after_store, after_lookup,
  replay,
}

insert_record-Legal : (r : IdempotencyRecord) → Within Legal (Idempotency.insert r)
unfolding Idempotency.insert
insert_record-Legal r = record { at = λ db. Legal-of_same db _ (ground arith) }

get_by_key-Legal : (scope key : String) → Within Legal (Idempotency.get_by_key scope key)
unfolding Idempotency.get_by_key
get_by_key-Legal scope key = record { at = Legal-preorder.reflexive }

pub sweep-Legal : (before : Time) → Within Legal (Idempotency.sweep before)
unfolding Idempotency.sweep
sweep-Legal before = record { at = λ db. Legal-of_same db _ (ground arith) }

module _ (env : Submitting) where
  store_task-Legal : (key : String) (t : TaskRecord) → Within Legal (store_task env key t)
  unfolding store_task
  store_task-Legal key t =
      search (within_rules, Legal-preorder, insert_record-Legal, insert_task-Legal) depth 12

  after_store-Legal : (r : Result TaskRecord) → Within Legal (after_store r)
  after_store-Legal (ok t) = Within-pure Legal-preorder _
  after_store-Legal (err conflict) = Within-fail Legal-preorder _
  after_store-Legal (err _) = Within-fail Legal-preorder _

  create-Legal :
      (input : SubmitInput) (rev : StationRevisionRecord) (content : String) (now : Time)
      (hex6 : String)
      → Within Legal (create env input rev content now hex6)
  unfolding create
  create-Legal input rev content now hex6 =
      search (within_rules, Legal-preorder, store_task-Legal, after_store-Legal) depth 12

  replay-Legal : (hash : String) (r : IdempotencyRecord) → Within Legal (replay hash r)
  replay-Legal hash r = search (within_rules, Legal-preorder, get_task-Legal) depth 12

  after_lookup-Legal :
      (hash : String) (new : Eff Db SubmitResult) (r : Result IdempotencyRecord)
      → Within Legal new
      → Within Legal (after_lookup hash new r)
  after_lookup-Legal hash new (ok r) h = replay-Legal hash r
  after_lookup-Legal hash new (err e) h =
      Within-if Legal-preorder _ _ _ h (Within-fail Legal-preorder e)

  pub submit-Legal :
      (input : SubmitInput) (now : Time) (hex6 : String) → Within Legal (submit env input now hex6)
  unfolding submit
  submit-Legal input now hex6 =
      search (within_rules, Legal-preorder, create-Legal, get_by_key-Legal, after_lookup-Legal)
        depth 20
