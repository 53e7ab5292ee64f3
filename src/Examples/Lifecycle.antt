-- ===== src/Examples/Lifecycle.antt =====
-- The theorems on preparation, on the claim of a fingerprint and on the dispatcher at concrete inputs.
use veriproc.Prelude.{◌≡◌, refl, true, false, [], ◌∷◌, some, arith}
use veriproc.Prelude.Errors.{ok}
use veriproc.Store.Table.{find}
use veriproc.Store.Fingerprints.{claim_canonical, is_fingerprint}
use veriproc.Store.Fingerprints.Claim.{claim_canonical-claim_canonical}
use veriproc.Store.Records.{Canonicality, RunState, RunRecord}
use veriproc.Store.Runs.{has_id}
use veriproc.Runs.Promote
use veriproc.Runs.Promote.Outcome.{promote_canonical-owner}
use veriproc.Runs.Prepare
use veriproc.Prelude.Effects.{◌>>=◌, attempt, lift, gets, fail, pure, in_tx}
use veriproc.Runs.World.{World, on_db}
use veriproc.Executor.Stub.{Stub}
use veriproc.Store.Runs
use veriproc.Store.Tasks
use veriproc.Store.Manifests
use veriproc.Store.Fingerprints
use veriproc.Runs.Prepare.Refusal.{IsUnowned, prepare_run-IsUnowned}
use veriproc.Runs.Dispatcher.{base_interval, max_interval, interval_after}
use veriproc.Runs.Dispatcher.Interval.{
  InRange, interval_after-InRange, interval_after-idle, capped, doubled, idle,
}
use veriproc.Examples.Inputs.{
  env, world, new_run, task, owned_fingerprint, free_fingerprint, claim_db, rerun_db, complete_run,
}

abbrev second_run : RunRecord
second_run = record (new_run "run-2" 2 RunState.ready) { created_at = 90; prepared_at = some 90 }

abbrev prepared_world : World Stub
prepared_world = (Prepare.prepare_run env "task-1" "run-2" 90 world).1

stored : Prepare.prepare_run env "task-1" "run-2" 90 world ≡ (ok second_run, prepared_world)
unfolding Prepare.prepare_run Prepare.prepare_with Prepare.refuse_duplicate Prepare.store_run
    Prepare.register ◌>>=◌ attempt lift gets fail pure in_tx on_db Tasks.get Runs.get Runs.insert
    Runs.max_retry_index Runs.mark_prepared Manifests.insert Fingerprints.get_by_value
    Fingerprints.upsert Tasks.set_latest_run
stored = refl

prepare_run-IsUnowned_example : IsUnowned env "run-2" world.db prepared_world.db second_run
prepare_run-IsUnowned_example =
    prepare_run-IsUnowned env "task-1" "run-2" 90 world {task = task} refl refl stored

claim_canonical-claim_canonical_example :
    ((claim_canonical "fp-1" "run-1" claim_db).0 ≡ ok true)
    × (find (is_fingerprint "fp-1") (claim_canonical "fp-1" "run-1" claim_db).1.fingerprints
        ≡ some (record free_fingerprint { canonical_run_id = some "run-1" }))
    × (claim_canonical "fp-1" "run-2" (claim_canonical "fp-1" "run-1" claim_db).1
        ≡ (ok false, (claim_canonical "fp-1" "run-1" claim_db).1))
claim_canonical-claim_canonical_example =
    claim_canonical-claim_canonical "fp-1" "run-1" "run-2" claim_db free_fingerprint (refl, tt) refl
      refl

interval_after-idle_example :
    interval_after 250 (false ∷ false ∷ true ∷ idle 3) 250
    ≡ capped (max_interval 250) (doubled 3 (base_interval 250))
interval_after-idle_example = interval_after-idle 250 3 (false ∷ false ∷ []) 250

interval_after-InRange_example :
    InRange 250 (interval_after 250 (false ∷ false ∷ true ∷ false ∷ []) 300)
unfolding base_interval max_interval
interval_after-InRange_example =
    interval_after-InRange 250 (false ∷ false ∷ true ∷ false ∷ []) 300 (omega arith, omega arith)

promote_canonical-owner_example :
    let after =
      Promote.promote_canonical (λ fp old new at. new) "run-1" "better" "operator" 90 rerun_db in
    (after.0
      ≡ ok (record {
        run = some (complete_run "run-1" 1 Canonicality.canonical);
        previous_run_id = "run-0";
        fingerprint_id = "fp-1";
        already_canonical = false;
      }))
    × (find (has_id "run-1") after.1.runs ≡ some (complete_run "run-1" 1 Canonicality.canonical))
    × (find (has_id "run-0") after.1.runs ≡ some (complete_run "run-0" 0 Canonicality.duplicate))
    × (find (is_fingerprint "fp-1") after.1.fingerprints
        ≡ some (record owned_fingerprint { canonical_run_id = some "run-1" }))
promote_canonical-owner_example =
    promote_canonical-owner (λ fp old new at. new) "better" "operator" 90 rerun_db
      (complete_run "run-1" 1 Canonicality.duplicate)
      (complete_run "run-0" 0 Canonicality.canonical) owned_fingerprint "run-0" refl refl refl refl
      refl refl refl refl refl refl refl refl refl refl
