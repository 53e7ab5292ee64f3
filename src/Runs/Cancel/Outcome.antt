-- ===== src/Runs/Cancel/Outcome.antt =====
-- What Cancel answers, and what it leaves of the run (internal/runs/cancel.go).
use veriproc.Prelude.{
  ◌≡◌, refl, String, true, false, none, some, [], is_some, arith, ◌||◌, Bool-cases, inl, inr,
  if◌then◌else◌, coalesce, ap, not, ◌∙◌,
}
use veriproc.Prelude.Errors.{ok, err, reconciliation_in_progress}
use veriproc.Prelude.Effects.{◌>>=◌, attempt, pure, fail, gets}
use veriproc.Store.Table.{find}
use veriproc.Store.Records.{Time, RunState, RunRecord, TaskState, is_terminal}
use veriproc.Store.Db.{Db}
use veriproc.Store.Runs
use veriproc.Store.Runs.{has_id, cancellable, eligible}
use veriproc.Store.Runs.Transition.{cas_ok}
use veriproc.Store.Tasks
use veriproc.Store.Jobs.{jobs_of_run}
use veriproc.Runs.World.{World, Env, on_db}
use veriproc.Runs.Cancel.{
  finished_already, mark_ended, after_stamp, stamp_then, cancel_active, cancel,
}

module _ {S : Type 0} (env : Env S) (now : Time) (w : World S) (r : RunRecord) where
  -- The two early answers, which change nothing.
  cancel-refused :
      find (has_id r.run_id) w.db.runs ≡ some r
      → is_some r.reconciliation_started_at || is_terminal r.state ≡ true
      → cancel env r.run_id now w ≡ (
          if is_some r.reconciliation_started_at
          then (err reconciliation_in_progress, w)
          else (ok (finished_already r), w))
  unfolding cancel ◌>>=◌ attempt on_db Runs.get pure fail
  cancel-refused found refused = elim (Bool-cases (is_some r.reconciliation_started_at)) [
    | inl m ↦ rw (found, m) refl
    | inr m ↦ let ended : is_terminal r.state ≡ true = rw m at refused in rw (found, m, ended) refl
  ]

-- The row that the request leaves, and the row that the cancellation leaves.
abbrev pub requested : Time → RunRecord → RunRecord
requested now r = record r { cancellation_requested_at = coalesce r.cancellation_requested_at now }

abbrev pub ended : Time → RunRecord → RunRecord
ended now r = record r {
  state = RunState.cancelled;
  failure_reason = "cancelled";
  terminal_at = some now;
}

cancellable_of_live : (s : RunState) → is_terminal s ≡ false → cancellable s ≡ true
cancellable_of_live s h = ground arith

-- MarkCancellationRequested and then MarkCancelled, on a run that has not ended.
request_and_end :
    (now : Time) (db : Db) (r : RunRecord)
    → find (has_id r.run_id) db.runs ≡ some r
    → is_terminal r.state ≡ false
    → ((Runs.mark_cancellation_requested r.run_id now db).0 ≡ ok tt)
      × (find (has_id r.run_id) (Runs.mark_cancellation_requested r.run_id now db).1.runs
          ≡ some (requested now r))
      × ((Runs.mark_cancelled r.run_id now (Runs.mark_cancellation_requested r.run_id now db).1).0
          ≡ ok tt)
      × (find
            (has_id r.run_id)
            (Runs.mark_cancelled r.run_id now
              (Runs.mark_cancellation_requested r.run_id now db).1).1.runs
          ≡ some (ended now (requested now r)))
unfolding Runs.mark_cancellation_requested Runs.mark_cancelled
request_and_end now db r found live =
    let first =
      cas_ok cancellable (requested now) r.run_id db (λ _. refl) found
        (cancellable_of_live r.state live) in
    let second =
      cas_ok (λ s. not (is_terminal s)) (ended now) r.run_id _ (λ _. refl) first.1 (rw live refl) in
    (ap (λ x. x.0) first.0, first.1, ap (λ x. x.0) second.0, second.1)

set_state_runs :
    (id : String) (s : TaskState) (summary : String) (db : Db)
    → (Tasks.set_state id s summary db).1.runs ≡ db.runs
unfolding Tasks.set_state
set_state_runs id s summary db = ground arith

module _ {S : Type 0} (env : Env S) (now : Time) (w : World S) (r : RunRecord) where
  -- A live run that has no job yet ends at once: the call succeeds, and the run it returns, which is
  -- the row in the table, is cancelled at that time.
  pub cancel-without_job :
      find (has_id r.run_id) w.db.runs ≡ some r
      → is_some r.reconciliation_started_at ≡ false
      → is_terminal r.state ≡ false
      → jobs_of_run r.run_id w.db ≡ []
      → let last = ended now (requested now r) in
        ((cancel env r.run_id now w).0
          ≡ ok (record {
            run = last;
            accepted = true;
            already_terminal = false;
            cancellation_complete = true;
            executor_err = none;
          }))
        × (find (has_id r.run_id) (cancel env r.run_id now w).1.db.runs ≡ some last)
  unfolding cancel cancel_active stamp_then after_stamp mark_ended ◌>>=◌ attempt on_db Runs.get pure
      fail gets
  cancel-without_job found unmarked live jobless =
      let (a, b, c, d) = request_and_end now w.db r found live in
      rw (found, unmarked, live, jobless, a, c, set_state_runs, d)
        (refl, rw (set_state_runs r.task_id TaskState.failed "cancelled") d)

  -- Cancelling is idempotent for a live run that has no job and no marker: after its cancellation
  -- a second one, at any time, answers that the run has ended already, with the row that the
  -- first one left, and changes nothing.
  pub cancel-cancel :
      find (has_id r.run_id) w.db.runs ≡ some r
      → is_some r.reconciliation_started_at ≡ false
      → is_terminal r.state ≡ false
      → jobs_of_run r.run_id w.db ≡ []
      → (later : Time)
      → let after = (cancel env r.run_id now w).1 in
        cancel env r.run_id later after
        ≡ (ok (finished_already (ended now (requested now r))), after)
  cancel-cancel found unmarked live jobless later =
      let (answer, row) = cancel-without_job found unmarked live jobless in
      cancel-refused env later (cancel env r.run_id now w).1 (ended now (requested now r)) row
        (rw unmarked refl)
      ∙ rw unmarked refl
