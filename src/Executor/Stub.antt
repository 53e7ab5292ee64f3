-- ===== src/Executor/Stub.antt =====
-- StubExecutor of internal/executor/executor.go. The mutex makes each call one step; the clock is
-- read at each poll, so its reading is an argument.
pub mod Laws
pub mod Interleaved
use Prim.Native.String.{String, ◌++◌}
use veriproc.Prelude.{
  ℕ, suc, ◌+◌, Bool, true, false, Option, none, some, List, [], ◌∷◌, is_some, if◌then◌else◌,
}
use veriproc.Prelude.Errors.{Result, ok, err, unknown_job}
use veriproc.Prelude.Effects.{Eff}
use veriproc.Prelude.Maps.{Assoc, lookup, insert}
use veriproc.Store.Records.{Time}
use veriproc.Executor.{
  Status, queued, running, succeeded, failed, cancelled, is_terminal, status_text, JobDescription,
  Submission, Observation,
}

pub record StubJob : Type 0 where
  pub id : String
  pub poll_count : ℕ
  pub transitions : List Status
  pub terminal : Option Status
  pub fail_msg : String
  pub exit_code : ℕ
  pub is_cancelled : Bool

pub record Stub : Type 0 where
  pub counter : ℕ
  pub jobs : Assoc StubJob

-- NewStubExecutor
abbrev pub new_stub : Stub
new_stub = record { counter = 0; jobs = [] }

abbrev pub default_job : String → StubJob
default_job id = record {
  id = id;
  poll_count = 0;
  transitions = queued ∷ running ∷ succeeded ∷ [];
  terminal = none;
  fail_msg = "";
  exit_code = 0;
  is_cancelled = false;
}

-- A SubmitOption.
abbrev pub with_transitions : List Status → StubJob → StubJob
with_transitions states j = record j { transitions = states }

abbrev pub with_failure : String → ℕ → StubJob → StubJob
with_failure msg code j = record j {
  transitions = queued ∷ running ∷ failed ∷ [];
  fail_msg = msg;
  exit_code = code;
}

abbrev pub apply_options : List (StubJob → StubJob) → StubJob → StubJob
apply_options [] j = j
apply_options (o ∷ os) j = apply_options os (o j)

-- The id of a new job: a second submission of a run gets another.
abbrev pub new_id : String → Assoc StubJob → String
new_id run jobs = let id = "stub-" ++ run in if is_some (lookup id jobs) then id ++ "-retry" else id

unfoldable pub submit_with : JobDescription → List (StubJob → StubJob) → Eff Stub String
submit_with desc opts e =
    let id = new_id desc.run_id e.jobs in
    (
      ok id,
      record {
        counter = e.counter + 1;
        jobs = insert id (apply_options opts (default_job id)) e.jobs;
      },
    )

-- Submit
unfoldable pub submit : JobDescription → Eff Stub Submission
unfolding submit_with
submit desc e =
    let id = new_id desc.run_id e.jobs in
    (ok (record { scheduler_id = id; executor_type = "stub" }), (submit_with desc [] e).1)

-- The job a call names, or ErrUnknownJob.
abbrev on_job {ℓ} :
    {A : Type ℓ} → String → (StubJob → Result A × StubJob) → Option StubJob → Eff Stub A
on_job id f none e = (err unknown_job, e)
on_job id f (some j) e = let (r, j') = f j in (r, record e { jobs = insert id j' e.jobs })

unfoldable pub set_outcome : String → List Status → Eff Stub (Unit {0})
set_outcome id states e =
    on_job id (λ j. (ok tt, record j { transitions = states; terminal = none })) (lookup id e.jobs)
      e

abbrev observe : StubJob → Status → Time → Observation
observe j s at = record {
  status = s;
  observed_at = at;
  exit_code = j.exit_code;
  failure_msg = j.fail_msg;
  native_state = status_text s;
  node = "";
  elapsed = "";
}

-- The next planned status, and the job that reporting it leaves.
abbrev advance : Status → List Status → StubJob → StubJob
advance next rest j = record j {
  transitions = rest;
  poll_count = j.poll_count + 1;
  terminal = if is_terminal next then some next else j.terminal;
}

abbrev poll_planned : List Status → Time → StubJob → Result Observation × StubJob
poll_planned [] at j = (ok (observe j succeeded at), advance succeeded [] j)
poll_planned (next ∷ rest) at j = (ok (observe j next at), advance next rest j)

abbrev poll_terminal : Option Status → Time → StubJob → Result Observation × StubJob
poll_terminal (some s) at j = (ok (observe j s at), j)
poll_terminal none at j = poll_planned j.transitions at j

abbrev pub poll_job : Time → StubJob → Result Observation × StubJob
poll_job at j =
    if j.is_cancelled
    then (
      ok (record {
        status = cancelled;
        observed_at = at;
        exit_code = 0;
        failure_msg = "";
        native_state = "CANCELLED";
        node = "";
        elapsed = "";
      }),
      j,
    )
    else poll_terminal j.terminal at j

unfoldable pub poll : String → Time → Eff Stub Observation
poll id at e = on_job id (poll_job at) (lookup id e.jobs) e

abbrev cancel_job : Option Status → StubJob → Result (Unit {0}) × StubJob
cancel_job (some s) j = (ok tt, j)
cancel_job none j = (ok tt, record j { is_cancelled = true; terminal = some cancelled })

unfoldable pub cancel : String → Eff Stub (Unit {0})
cancel id e = on_job id (λ j. cancel_job j.terminal j) (lookup id e.jobs) e
