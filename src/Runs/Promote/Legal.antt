-- ===== src/Runs/Promote/Legal.antt =====
-- Promotion keeps what every call of the store keeps.
use veriproc.Prelude.{none, some, String}
use veriproc.Prelude.Errors.{ok, err}
use veriproc.Prelude.Effects.Within.{Within, Within-attempt, Within-pure}
use veriproc.Store.Records.{Time, RunRecord, FingerprintRecord}
use veriproc.Store.Legal.{Legal, Legal-preorder, get_run-Legal}
use veriproc.Runs.World.Legal.{legal_rules}
use veriproc.Runs.Promote.{replace_owner, transfer, reread, promote_eligible, promote_canonical}

module _ (audit_id_of : String → String → String → Time → String) where
  replace_owner-Legal :
      (fp : FingerprintRecord) (run : RunRecord) (prev reason actor : String) (now : Time)
      → Within Legal (replace_owner audit_id_of fp run prev reason actor now)
  unfolding replace_owner
  replace_owner-Legal fp run prev reason actor now = search legal_rules depth 9

  transfer-Legal :
      (fp : FingerprintRecord) (run : RunRecord) (reason actor : String) (now : Time)
      → Within Legal (transfer audit_id_of fp run reason actor now)
  unfolding transfer
  transfer-Legal fp run reason actor now = search (legal_rules, replace_owner-Legal)

  reread-Legal : (run : RunRecord) → Within Legal (reread audit_id_of run)
  unfolding reread
  reread-Legal run = Within-attempt Legal-preorder _ _ (get_run-Legal run.run_id) (elim [
    | ok last ↦ Within-pure Legal-preorder (some last)
    | err e ↦ Within-pure Legal-preorder none
  ])

  promote_eligible-Legal :
      (run : RunRecord) (reason actor : String) (now : Time)
      → Within Legal (promote_eligible audit_id_of run reason actor now)
  unfolding promote_eligible
  promote_eligible-Legal run reason actor now = search (legal_rules, transfer-Legal, reread-Legal)

  pub promote_canonical-Legal :
      (id reason actor : String) (now : Time)
      → Within Legal (promote_canonical audit_id_of id reason actor now)
  unfolding promote_canonical
  promote_canonical-Legal id reason actor now = search (legal_rules, promote_eligible-Legal) depth 9
