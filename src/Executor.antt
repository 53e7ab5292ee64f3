-- ===== src/Executor.antt =====
-- internal/executor: what the run lifecycle hands to a scheduler and observes of it.
pub mod Stub
pub mod Registry
pub mod Slurm
use veriproc.Prelude.{ℕ, String, Bool, true, false, List}
use veriproc.Prelude.Effects.{Eff}
use veriproc.Store.Records.{Time}

pub data Status : Type 0 where
  unknown queued running succeeded failed cancelled : Status

-- Status.IsTerminal
abbrev pub is_terminal : Status → Bool
is_terminal succeeded = true
is_terminal failed = true
is_terminal cancelled = true
is_terminal _ = false

-- string(status)
abbrev pub status_text : Status → String
status_text unknown = "unknown"
status_text queued = "queued"
status_text running = "running"
status_text succeeded = "succeeded"
status_text failed = "failed"
status_text cancelled = "cancelled"

pub record JobDescription : Type 0 where
  pub run_id : String
  pub task_id : String
  pub retry_index : ℕ
  pub run_ref : String
  pub station_id : String
  pub working_root : String
  pub joborder_path : String
  pub executable : String
  pub args : List String
  pub window_start : Time
  pub window_end : Time
  pub mode : String
  pub split_group_id : String

pub record Submission : Type 0 where
  pub scheduler_id : String
  pub executor_type : String

pub record Observation : Type 0 where
  pub status : Status
  pub observed_at : Time
  pub exit_code : ℕ
  pub failure_msg : String
  pub native_state : String
  pub node : String
  pub elapsed : String

-- The Executor interface, over the state `S` of whatever stands behind it.
pub record Executor (S : Type 0) : Type 0 where
  pub kind : String
  pub supports_cancellation : Bool
  pub submit : JobDescription → Eff S Submission
  pub poll : String → Eff S Observation
  pub cancel : String → Eff S (Unit {0})
