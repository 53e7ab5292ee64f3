-- ===== src/Runs/Promote.antt =====
-- internal/runs/promote.go: Service.PromoteCanonical.
pub mod Legal
pub mod Outcome
use veriproc.Prelude.{
  String, Bool, true, false, ◌==◌, not, Option, none, some, if◌then◌else◌, is_some,
}
use veriproc.Prelude.Errors.{Result, ok, err, reconciliation_in_progress, promote_ineligible}
use veriproc.Prelude.Effects.{Eff, pure, fail, ◌>>=◌, ◌>>◌, in_tx, attempt}
use veriproc.Store.Records.{
  Time, RunRecord, FingerprintRecord, CanonicalityChange, elect, promote, canonical, duplicate,
}
use veriproc.Store.Db.{Db}
use veriproc.Store.Runs
use veriproc.Store.Runs.{is_complete}
use veriproc.Store.Tasks
use veriproc.Store.Fingerprints
use veriproc.Runs.World.{map_store_err}

pub record PromoteOutcome : Type 0 where
  pub run : Option RunRecord
  pub previous_run_id : String
  pub fingerprint_id : String
  pub already_canonical : Bool

-- `audit_id_of` hashes the fingerprint, the two runs and the time.
module _ (audit_id_of : String → String → String → Time → String) where
  promotion : FingerprintRecord → RunRecord → String → String → String → Time → CanonicalityChange
  promotion fp run prev reason actor now = record {
    audit_id = audit_id_of fp.fingerprint_id prev run.run_id now;
    fingerprint_id = fp.fingerprint_id;
    previous_run_id = prev;
    new_run_id = run.run_id;
    action = if prev == "" then elect else promote;
    reason = reason;
    actor = actor;
    occurred_at = now;
  }

  -- The body of the transaction, after the fingerprint has its new owner.
  replace_owner :
      FingerprintRecord → RunRecord → String → String → String → Time → Eff Db (Unit {0})
  replace_owner fp run prev reason actor now = if prev == run.run_id then pure tt else do
    if prev == "" then pure tt else Runs.set_canonicality prev duplicate
    Runs.set_canonicality run.run_id canonical
    Tasks.set_canonical_run run.task_id run.retry_index now
    Fingerprints.record_promotion (promotion fp run prev reason actor now)

  -- The transaction, with the previous owner.
  transfer : FingerprintRecord → RunRecord → String → String → Time → Eff Db String
  transfer fp run reason actor now = in_tx (do
    prev ← Fingerprints.set_canonical fp.fingerprint_id run.run_id
    replace_owner fp run prev reason actor now
    pure prev)

  -- The read that follows the transaction; its error is dropped, and with it the row.
  abbrev or_nil : Result RunRecord → Eff Db (Option RunRecord)
  or_nil (ok last) = pure (some last)
  or_nil (err e) = pure none

  reread : RunRecord → Eff Db (Option RunRecord)
  reread run = attempt (Runs.get run.run_id) or_nil

  promote_eligible : RunRecord → String → String → Time → Eff Db PromoteOutcome
  promote_eligible run reason actor now = do
    fp ← Fingerprints.get_by_value run.processing_fingerprint
    prev ← transfer fp run reason actor now
    last ← reread run
    pure (record {
      run = last;
      previous_run_id = prev;
      fingerprint_id = fp.fingerprint_id;
      already_canonical = prev == run.run_id;
    })

  -- Service.PromoteCanonical
  pub promote_canonical : String → String → String → Time → Eff Db PromoteOutcome
  promote_canonical id reason actor now =
      if reason == ""
      then fail promote_ineligible
      else if actor == ""
      then fail promote_ineligible
      else do
        run ← map_store_err (Runs.get id)
        if is_some run.reconciliation_started_at
            then fail reconciliation_in_progress
            else if not (is_complete run.state)
            then fail promote_ineligible
            else if run.processing_fingerprint == ""
            then fail promote_ineligible
            else promote_eligible run reason actor now
