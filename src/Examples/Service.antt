-- ===== src/Examples/Service.antt =====
-- The theorems on the services at concrete inputs.
use veriproc.Prelude.{◌≤◌, ◌≡◌, refl, true, false, some, none, List, [], ◌∷◌, All}
use veriproc.Prelude.Errors.{ok}
use veriproc.Store.Table.{find}
use veriproc.Store.Table.Keys.{NoClash}
use veriproc.Store.Records.{RunRecord, RunState}
use veriproc.Store.Runs.{has_id, clashes}
use veriproc.Store.Runs.Coherence.{IsCoherent}
use veriproc.Store.Runs.Diagram.{rank}
use veriproc.Store.Runs.Marks.{IsUnmarked}
use veriproc.Runs.Cancel
use veriproc.Runs.Cancel.Outcome.{cancel-cancel, cancel-without_job, ended, requested}
use veriproc.Reconciler
use veriproc.Reconciler.Stale.{find_stale-IsStale, SomeRow, IsStale, at_most}
use veriproc.Store.Table.{affected}
use veriproc.Store.Db.{Db}
use veriproc.Prelude.{length}
use veriproc.Reconciler.Marker.{reconcile_one-IsUnmarked}
use veriproc.System.{Call, dispatch, poll, finalize, cancel, reconcile_one, retry, calls}
use veriproc.System.Histories.{calls-is_terminal, calls-rank, calls-IsCoherent}
use veriproc.Examples.Inputs.{env, world, db, ready_run, failed_run, new_run}

abbrev history : List Call
history =
    dispatch "run-1" 40
    ∷ poll "run-1" 50
    ∷ reconcile_one "run-1" 55
    ∷ cancel "run-1" 60
    ∷ finalize "run-1" "x" 70
    ∷ retry "task-1" "run-2" 80
    ∷ []

calls-is_terminal_example :
    (s : RunRecord) × (find (has_id "run-0") (calls env history world).db.runs ≡ some s)
    × (s.state ≡ RunState.failed)
    × (s.terminal_at ≡ some 30)
    × (s.failure_reason ≡ "x")
calls-is_terminal_example = calls-is_terminal env history world "run-0" {r = failed_run} refl refl

calls-rank_example :
    (s : RunRecord) × (find (has_id "run-1") (calls env history world).db.runs ≡ some s)
    × (1 ≤ rank s.state)
calls-rank_example = calls-rank env history world "run-1" {r = ready_run} refl

pub rows-IsCoherent : All IsCoherent db.runs
rows-IsCoherent = (
  record {
    ends = refl;
    decided = refl;
    prepared = λ _. refl;
    dispatched_first = λ h. absurd (cc h);
    started = λ h. absurd (cc h);
  },
  (
    record {
      ends = refl;
      decided = refl;
      prepared = λ h. absurd (cc h);
      dispatched_first = λ h. absurd (cc h);
      started = λ h. absurd (cc h);
    },
    tt,
  ),
)

calls-IsCoherent_example :
    NoClash clashes (calls env history world).db.runs
    × All IsCoherent (calls env history world).db.runs
calls-IsCoherent_example = calls-IsCoherent env history world (refl, (refl, tt)) rows-IsCoherent

cancel-without_job_example :
    ((Cancel.cancel env "run-1" 60 world).0
      ≡ ok (record {
        run = ended 60 (requested 60 ready_run);
        accepted = true;
        already_terminal = false;
        cancellation_complete = true;
        executor_err = none;
      }))
    × (find (has_id "run-1") (Cancel.cancel env "run-1" 60 world).1.db.runs
        ≡ some (ended 60 (requested 60 ready_run)))
cancel-without_job_example = cancel-without_job env 60 world ready_run refl refl refl refl

cancel-cancel_example :
    let after = (Cancel.cancel env "run-1" 60 world).1 in
    Cancel.cancel env "run-1" 70 after
    ≡ (ok (Cancel.finished_already (ended 60 (requested 60 ready_run))), after)
cancel-cancel_example = cancel-cancel env 60 world ready_run refl refl refl refl 70

reconcile_one-IsUnmarked_example :
    All (IsUnmarked "run-1") (Reconciler.reconcile_one env "run-1" 55 world).1.db.runs
reconcile_one-IsUnmarked_example = reconcile_one-IsUnmarked env "run-1" 55 world

abbrev stale_db : Db
stale_db = record db {
  runs =
      record (new_run "run-1" 0 RunState.dispatched) { dispatched_at = some 40 } ∷ failed_run ∷ [];
}

find_stale-IsStale_example :
    All
      (λ id. SomeRow (λ r. (r.run_id ≡ id) × IsStale 380 500 stale_db.jobs r) stale_db.runs)
      (Reconciler.find_stale 30 500 stale_db)
    × (length (Reconciler.find_stale 30 500 stale_db)
        ≡ at_most 50 (affected (Reconciler.is_stale 380 500 stale_db) stale_db.runs))
find_stale-IsStale_example = find_stale-IsStale 30 500 stale_db
