-- ===== src/Prelude/Errors.antt =====
-- Go's `error` as values. A wrapped error (`fmt.Errorf("%w: …", sentinel)`) is the sentinel that
-- `errors.Is` finds in it; its message is left out.
use mathlib.Core.Bool.{Bool, true, false}

pub data Error : Type 0 where
  -- internal/store
  not_found conflict invalid_transition : Error
  -- internal/runs
  run_not_found invalid_state_transition task_not_found unknown_station job_not_found : Error
  reconciliation_in_progress fatal_prepare waiting_inputs fatal_dispatch : Error
  cancellation_unsupported retry_ineligible promote_ineligible : Error
  missing_mandatory_input : Error
  -- internal/executor
  unknown_job fatal_submit command_not_found executor_cancellation_unsupported no_executor : Error
  -- internal/groups
  group_not_found : Error
  -- internal/tasks
  invalid_request submit_unknown_station idempotency_conflict : Error
  -- internal/cleaner
  no_cutoff : Error
  -- an error with no sentinel
  other : Error

pub data Result {ℓ} (A : Type ℓ) : Type ℓ where
  ok : A → Result A
  err : Error → Result A

-- errors.Is(err, store.ErrInvalidTransition), and so for the other sentinels that the code tests
abbrev pub is_invalid_transition : Error → Bool
is_invalid_transition invalid_transition = true
is_invalid_transition _ = false

abbrev pub is_not_found : Error → Bool
is_not_found not_found = true
is_not_found _ = false

abbrev pub is_ok {ℓ} : {A : Type ℓ} → Result A → Bool
is_ok (ok _) = true
is_ok (err _) = false
