-- ===== src/Examples/Parts.antt =====
-- The theorems on groups and on the stub executor at concrete inputs.
use veriproc.Prelude.{◌≡◌, refl, List, [], ◌∷◌, some}
use veriproc.Prelude.Errors.{ok}
use veriproc.Prelude.Maps.{lookup}
use veriproc.Store.Table.{find}
use veriproc.Store.Records.{SplitGroupRecord}
use veriproc.Store.SplitGroups.{is_group}
use veriproc.Groups.{tally_members, aggregate, derived}
use veriproc.Groups.Aggregate.{aggregate-derived}
use veriproc.Executor.{queued, running, succeeded, cancelled}
use veriproc.Executor.Stub.{cancel}
use veriproc.Executor.Stub.Interleaved.{Call, poll_of, cancel_of, watch, watch-expected}
use veriproc.Executor.Stub.Laws.{
  polls, expected, polls-expected, polls-cancel, polls-cancel_finished,
}
use veriproc.Examples.Inputs.{group, group_db, job, busy_stub, finished_job, finished_stub}

aggregate-derived_example :
    ((aggregate (λ t. "s") "g" 90 group_db).0 ≡ ok (derived "g" group group_db))
    × ((h : SplitGroupRecord) × (find (is_group "g") (aggregate (λ t. "s") "g" 90 group_db).1.groups
          ≡ some h)
        × (h.state ≡ derived "g" group group_db)
        × (h.canonical_count ≡ 0)
        × (h.failed_count ≡ 1))
unfolding tally_members
aggregate-derived_example = aggregate-derived (λ t. "s") "g" 90 group_db {g = group} refl

polls-expected_example :
    polls 4 "stub-run-1" 50 busy_stub ≡ expected 4 (queued ∷ running ∷ succeeded ∷ [])
unfolding lookup
polls-expected_example =
    polls-expected 4 "stub-run-1" 50 busy_stub (queued ∷ running ∷ succeeded ∷ []) {j = job} refl
      (refl, refl) refl

polls-cancel_example :
    ((cancel "stub-run-1" busy_stub).0 ≡ ok tt)
    × (polls 2 "stub-run-1" 50 (cancel "stub-run-1" busy_stub).1 ≡ expected 2 (cancelled ∷ []))
unfolding lookup
polls-cancel_example = polls-cancel 2 "stub-run-1" 50 busy_stub {j = job} refl (refl, refl)

polls-cancel_finished_example :
    ((cancel "stub-run-1" finished_stub).0 ≡ ok tt)
    × (polls 2 "stub-run-1" 50 (cancel "stub-run-1" finished_stub).1 ≡ expected 2 (succeeded ∷ []))
unfolding lookup
polls-cancel_finished_example =
    polls-cancel_finished 2 "stub-run-1" 50 finished_stub {j = finished_job} succeeded refl refl
      refl refl

abbrev calls : List Call
calls =
    poll_of "stub-run-1" 50
    ∷ cancel_of "other"
    ∷ poll_of "other" 55
    ∷ poll_of "stub-run-1" 60
    ∷ poll_of "stub-run-1" 70
    ∷ []

watch-expected_example :
    watch "stub-run-1" calls busy_stub ≡ expected 3 (queued ∷ running ∷ succeeded ∷ [])
unfolding lookup
watch-expected_example =
    watch-expected "stub-run-1" calls busy_stub (queued ∷ running ∷ succeeded ∷ []) {j = job}
      (refl, tt) refl (refl, refl) refl
