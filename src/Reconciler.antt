-- ===== src/Reconciler.antt =====
-- internal/reconciler/reconciler.go: the worker that polls the runs whose last observation is old.
pub mod Marker
pub mod Stale
use veriproc.Prelude.{
  ℕ, zero, suc, ◌-◌, ◌*◌, String, Bool, true, false, ◌==◌, ◌&&◌, List, [], ◌∷◌, Option, none, some,
  map, if◌then◌else◌, ltb, length,
}
use veriproc.Prelude.Errors.{Result, ok, err, job_not_found, run_not_found}
use veriproc.Prelude.Effects.{Eff, pure, fail, gets, ◌>>=◌, ◌>>◌, attempt, ignore}
use veriproc.Store.Table.{select}
use veriproc.Store.Records.{Time, RunRecord, JobRecord}
use veriproc.Store.Db.{Db}
use veriproc.Store.Runs
use veriproc.Store.Runs.{dispatched_or_running}
use veriproc.Runs.World.{World, Env, on_db}
use veriproc.Runs.Poll

-- COALESCE(last_observed_at, submitted_at)
abbrev pub observed : JobRecord → Option Time
observed j = elim j.last_observed_at [ none ↦ j.submitted_at | some t ↦ some t ]

-- MAX of a column, which passes over NULL.
abbrev pub later_of : Option Time → Option Time → Option Time
later_of none b = b
later_of (some a) none = some a
later_of (some a) (some b) = some (if ltb a b then b else a)

abbrev pub observed_at : List JobRecord → Option Time
observed_at [] = none
observed_at (j ∷ js) = later_of (observed j) (observed_at js)

-- `column IS NULL OR column < limit`
abbrev pub is_before : Option Time → Time → Bool
is_before none limit = true
is_before (some t) limit = ltb t limit

-- The WHERE condition of findStale.
abbrev pub is_stale : Time → Time → Db → RunRecord → Bool
is_stale lock_timeout cutoff db r =
    dispatched_or_running r.state
    && is_before r.reconciliation_started_at lock_timeout
    && is_before (observed_at (select (λ (j : JobRecord). j.run_id == r.run_id) db.jobs)) cutoff

-- ORDER BY created_at ASC
abbrev place : RunRecord → List RunRecord → List RunRecord
place r [] = r ∷ []
place r (s ∷ ss) = if ltb s.created_at r.created_at then s ∷ place r ss else r ∷ s ∷ ss

abbrev by_created : List RunRecord → List RunRecord
by_created [] = []
by_created (r ∷ rs) = place r (by_created rs)

-- LIMIT
abbrev first_rows : ℕ → List RunRecord → List RunRecord
first_rows n [] = []
first_rows zero (r ∷ rs) = []
first_rows (suc n) (r ∷ rs) = r ∷ first_rows n rs

abbrev run_ids : List RunRecord → List String
run_ids [] = []
run_ids (r ∷ rs) = r.run_id ∷ run_ids rs

-- findStale; a time that would be before the zero of the clock is 0 here
unfoldable pub find_stale : Time → Time → Db → List String
find_stale threshold cutoff db =
    run_ids
      (first_rows 50 (by_created (select (is_stale (cutoff - 4 * threshold) cutoff db) db.runs)))

module _ {S : Type 0} (env : Env S) where
  -- A run or a job that is gone is fine.
  after_poll : Result RunRecord → Eff (World S) (Unit {0})
  after_poll (ok r) = pure tt
  after_poll (err job_not_found) = pure tt
  after_poll (err run_not_found) = pure tt
  after_poll (err e) = fail e

  -- reconcileOne: the deferred call that clears the marker runs on every path after the stamp
  pub reconcile_one : String → Time → Eff (World S) (Unit {0})
  reconcile_one id now = do
    on_db (Runs.mark_reconciliation_started id now)
    attempt (Poll.poll env id now)
        (λ r. do ignore (on_db (Runs.clear_reconciliation id)); after_poll r)

  reconcile_all : List String → Time → Eff (World S) (Unit {0})
  reconcile_all [] now = pure tt
  reconcile_all (id ∷ ids) now = do ignore (reconcile_one id now); reconcile_all ids now

  -- Service.Tick, for one reading of the clock; the answer is the number of runs it went through
  pub tick : Time → Time → Eff (World S) ℕ
  tick threshold now = do
    stale ← gets (λ w. find_stale threshold (now - threshold) w.db)
    reconcile_all stale now
    pure (length stale)
