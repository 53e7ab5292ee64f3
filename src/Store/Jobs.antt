-- ===== src/Store/Jobs.antt =====
-- internal/store/jobs.go: the operations of `JobRepo`.
use veriproc.Prelude.{
  String, Bool, ◌==◌, ◌++◌, ◌∷◌, [], not, List, some, if◌then◌else◌, coalesce, ltb, eqb,
}
use veriproc.Prelude.Errors.{ok, err, conflict, other}
use veriproc.Prelude.Effects.{Eff, pure, ◌>>=◌, ◌>>◌}
use veriproc.Store.Table.{exists_row, select}
use veriproc.Store.Records.{Time, JobRecord, RunRecord}
use veriproc.Store.Db.{Db, exec_jobs}

abbrev is_job : String → JobRecord → Bool
is_job id j = j.job_id == id

abbrev stored : JobRecord → JobRecord
stored j = record j {
  submission_attempt = if eqb j.submission_attempt 0 then 1 else j.submission_attempt;
  node = "";
  elapsed_time = "";
}

-- JobRepo.Insert: a missing run is a conflict, a reused job id an error without a sentinel.
unfoldable pub insert : JobRecord → Eff Db (Unit {0})
insert j db =
    if exists_row (is_job j.job_id) db.jobs
    then (err other, db)
    else if not (exists_row (λ (r : RunRecord). r.run_id == j.run_id) db.runs)
    then (err conflict, db)
    else (ok tt, record db { jobs = db.jobs ++ stored j ∷ [] })

-- JobRepo.UpdateState
unfoldable pub update_state : String → String → Time → Bool → Eff Db (Unit {0})
unfolding ◌>>=◌
update_state id state at terminal = do
  exec_jobs (is_job id) (
      if terminal
      then (λ j. record j {
        scheduler_state = state;
        last_observed_at = some at;
        terminal_at = coalesce j.terminal_at at;
      })
      else (λ j. record j { scheduler_state = state; last_observed_at = some at }))
  pure tt

-- JobRepo.StampCancellationRequested
unfoldable pub stamp_cancellation_requested : String → Time → Eff Db (Unit {0})
unfolding ◌>>=◌
stamp_cancellation_requested id at = do
  exec_jobs (is_job id)
      (λ j. record j { cancellation_requested_at = coalesce j.cancellation_requested_at at })
  pure tt

-- JobRepo.SetNode
unfoldable pub set_node : String → String → Eff Db (Unit {0})
unfolding ◌>>=◌
set_node id node =
    if node == ""
    then pure tt
    else do exec_jobs (is_job id) (λ j. record j { node = node }); pure tt

-- JobRepo.SetElapsedTime
unfoldable pub set_elapsed_time : String → String → Eff Db (Unit {0})
unfolding ◌>>=◌
set_elapsed_time id elapsed =
    if elapsed == ""
    then pure tt
    else do exec_jobs (is_job id) (λ j. record j { elapsed_time = elapsed }); pure tt

-- `ORDER BY submission_attempt ASC`, stable in the order of insertion
abbrev place : JobRecord → List JobRecord → List JobRecord
place j [] = j ∷ []
place j (k ∷ ks) =
    if ltb k.submission_attempt j.submission_attempt then k ∷ place j ks else j ∷ k ∷ ks

abbrev by_attempt : List JobRecord → List JobRecord
by_attempt [] = []
by_attempt (j ∷ js) = place j (by_attempt js)

-- JobRepo.ListByRun
abbrev pub jobs_of_run : String → Db → List JobRecord
jobs_of_run run db = by_attempt (select (λ j. j.run_id == run) db.jobs)
