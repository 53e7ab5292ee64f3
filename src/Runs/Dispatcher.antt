-- ===== src/Runs/Dispatcher.antt =====
-- internal/runs/dispatcher.go: one tick of the loop that moves runs along, and the interval until
-- the next one. The queries of a tick do not fail, so each phase only answers whether it found work.
pub mod Legal
pub mod Interval
use veriproc.Prelude.{
  ℕ, zero, suc, ◌*◌, String, Bool, true, false, ◌==◌, ◌&&◌, ◌||◌, not, List, [], ◌∷◌, Option, none,
  some, if◌then◌else◌, is_some, ltb, eqb,
}
use veriproc.Prelude.Text.{codes}
use veriproc.Prelude.Text.Order.{text_less}
use veriproc.Prelude.Errors.{Result, ok, err, waiting_inputs, fatal_prepare, fatal_dispatch}
use veriproc.Prelude.Effects.{Eff, pure, gets, ◌>>=◌, ◌>>◌, attempt, ignore}
use veriproc.Store.Table.{select, exists_row, find}
use veriproc.Store.Records.{
  Time, RunState, RunRecord, TaskState, TaskRecord, StationRevisionRecord, StationControlRecord,
}
use veriproc.Store.Db.{Db}
use veriproc.Store.Runs
use veriproc.Store.Runs.{is_ready, dispatched_or_running, is_finalizing}
use veriproc.Store.Tasks
use veriproc.Runs.World.{World, Env, on_db}
use veriproc.Runs.Prepare
use veriproc.Runs.Dispatch
use veriproc.Runs.Poll
use veriproc.Runs.Finalize

abbrev is_accepted : TaskState → Bool
is_accepted TaskState.accepted = true
is_accepted _ = false

-- ORDER BY created_at DESC, task_id DESC
abbrev is_older : TaskRecord → TaskRecord → Bool
is_older t u =
    ltb t.created_at u.created_at
    || eqb t.created_at u.created_at && text_less (codes t.task_id) (codes u.task_id)

abbrev place_task : TaskRecord → List TaskRecord → List TaskRecord
place_task t [] = t ∷ []
place_task t (u ∷ us) = if is_older t u then u ∷ place_task t us else t ∷ u ∷ us

abbrev newest_first : List TaskRecord → List TaskRecord
newest_first [] = []
newest_first (t ∷ ts) = place_task t (newest_first ts)

abbrev first_tasks : ℕ → List TaskRecord → List TaskRecord
first_tasks n [] = []
first_tasks zero (t ∷ ts) = []
first_tasks (suc n) (t ∷ ts) = t ∷ first_tasks n ts

-- TaskRepo.List with the filter of admitNewTasks
unfoldable pub unprepared_tasks : Db → List TaskRecord
unprepared_tasks db = first_tasks 100 (
    newest_first (select (λ t. is_accepted t.state && not (is_some t.latest_retry_index)) db.tasks))

-- ORDER BY created_at ASC, run_id ASC
abbrev is_earlier : RunRecord → RunRecord → Bool
is_earlier s r =
    ltb s.created_at r.created_at
    || eqb s.created_at r.created_at && text_less (codes s.run_id) (codes r.run_id)

abbrev place_run : RunRecord → List RunRecord → List RunRecord
place_run r [] = r ∷ []
place_run r (s ∷ ss) = if is_earlier s r then s ∷ place_run r ss else r ∷ s ∷ ss

abbrev oldest_first : List RunRecord → List RunRecord
oldest_first [] = []
oldest_first (r ∷ rs) = place_run r (oldest_first rs)

-- RunRepo.ListByStates
unfoldable pub runs_by_states : (RunState → Bool) → Db → List RunRecord
runs_by_states wanted db = oldest_first (select (λ (r : RunRecord). wanted r.state) db.runs)

-- ListPaused at the station of a revision (StationIDsForRevisions)
abbrev pub station_paused : String → Db → Bool
station_paused station db =
    exists_row (λ (c : StationControlRecord). c.station_id == station && c.paused) db.controls

abbrev pub paused_for : Option StationRevisionRecord → Db → Bool
paused_for none db = false
paused_for (some rev) db = station_paused rev.station_id db

abbrev pub is_paused : RunRecord → Db → Bool
is_paused r db =
    paused_for
      (find (λ (v : StationRevisionRecord). v.revision_id == r.station_revision_id) db.revisions) db

abbrev found_any {ℓ} : {A : Type ℓ} → List A → Bool
found_any [] = false
found_any (x ∷ xs) = true

-- `ids` is the id that the factory gives the run of a task, `reason` the text of an error.
module _ {S : Type 0} (env : Env S) (ids : String → String) (reason : String) (now : Time) where
  -- What becomes of a task whose run could not be prepared.
  after_prepare : TaskRecord → Result RunRecord → Eff (World S) (Unit {0})
  after_prepare t (ok r) = pure tt
  after_prepare t (err waiting_inputs) = ignore (
      on_db
        (Tasks.set_state_if_current t.task_id TaskState.accepted TaskState.waiting_inputs reason))
  after_prepare t (err fatal_prepare) =
      ignore (on_db (Tasks.set_state t.task_id TaskState.failed reason))
  after_prepare t (err e) = pure tt

  admit_all : List TaskRecord → Eff (World S) (Unit {0})
  admit_all [] = pure tt
  admit_all (t ∷ ts) = do
    attempt (Prepare.prepare_run env t.task_id (ids t.task_id) now) (after_prepare t)
    admit_all ts

  -- admitNewTasks
  admit_new_tasks : Eff (World S) Bool
  admit_new_tasks = do ts ← gets (λ w. unprepared_tasks w.db); admit_all ts; pure (found_any ts)

  after_dispatch : RunRecord → Result RunRecord → Eff (World S) (Unit {0})
  after_dispatch r (ok _) = pure tt
  after_dispatch r (err fatal_dispatch) = do
    ignore (on_db (Runs.mark_failed r.run_id reason now))
    ignore (on_db (Tasks.set_state r.task_id TaskState.failed reason))
  after_dispatch r (err e) = pure tt

  -- The pause of every station is read before the loop: `before` is the database of that moment.
  dispatch_all : Db → List RunRecord → Eff (World S) (Unit {0})
  dispatch_all before [] = pure tt
  dispatch_all before (r ∷ rs) = do
    if is_paused r before
        then pure tt
        else attempt (Dispatch.dispatch env r.run_id now) (after_dispatch r)
    dispatch_all before rs

  -- dispatchReady
  dispatch_ready : Eff (World S) Bool
  dispatch_ready = do
    before ← gets (λ w. w.db)
    dispatch_all before (runs_by_states is_ready before)
    pure (found_any (runs_by_states is_ready before))

  poll_all : List RunRecord → Eff (World S) (Unit {0})
  poll_all [] = pure tt
  poll_all (r ∷ rs) = do ignore (Poll.poll env r.run_id now); poll_all rs

  -- pollActive
  poll_active : Eff (World S) Bool
  poll_active = do
    rs ← gets (λ w. runs_by_states dispatched_or_running w.db)
    poll_all rs
    pure (found_any rs)

  finalize_all : List RunRecord → Eff (World S) (Unit {0})
  finalize_all [] = pure tt
  finalize_all (r ∷ rs) = do ignore (Finalize.finalize env r.run_id reason now); finalize_all rs

  -- finalizeReady
  finalize_ready : Eff (World S) Bool
  finalize_ready = do
    rs ← gets (λ w. runs_by_states is_finalizing w.db)
    finalize_all rs
    pure (found_any rs)

  -- Dispatcher.Tick
  pub tick : Eff (World S) Bool
  tick = do
    admitted ← admit_new_tasks
    dispatched ← dispatch_ready
    polled ← poll_active
    finalized ← finalize_ready
    pure (admitted || dispatched || polled || finalized)

-- NewDispatcher: an interval that is not positive is 250 ms, and the ceiling is 20 intervals
unfoldable pub base_interval : ℕ → ℕ
base_interval interval = if eqb interval 0 then 250000000 else interval

unfoldable pub max_interval : ℕ → ℕ
max_interval interval = 20 * base_interval interval

-- The interval that Run sets after a tick; times are nanoseconds, and are too small to overflow
unfoldable pub next_interval : ℕ → Bool → ℕ → ℕ
next_interval interval true current = base_interval interval
next_interval interval false current =
    if ltb (max_interval interval) (current * 2) then max_interval interval else current * 2

-- The interval after a series of ticks, each busy or idle.
unfoldable pub interval_after : ℕ → List Bool → ℕ → ℕ
interval_after interval [] current = current
interval_after interval (busy ∷ rest) current =
    interval_after interval rest (next_interval interval busy current)
