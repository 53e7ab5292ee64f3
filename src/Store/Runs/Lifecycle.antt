-- ===== src/Store/Runs/Lifecycle.antt =====
-- What no history of calls of `RunRepo` can undo (runs.go, runs_lifecycle.go).
use veriproc.Prelude.{
  ◌≤◌, ◌≡◌, refl, String, true, false, none, some, List, [], ◌∷◌, arith, Bool-cases, Option-cases,
  inl, inr,
}
use veriproc.Prelude.Errors.{ok, err, invalid_transition}
use veriproc.Store.Table.Keys.{NoClash}
use veriproc.Store.Table.{find}
use veriproc.Store.Table.Laws.{Grows, Grows-refl, Grows-append, Grows-trans, Grows-map, Grows-find}
use veriproc.Store.Records.{Time, RunState, RunRecord, is_terminal, ready, dispatched}
use veriproc.Store.Db.{Db}
use veriproc.Store.Runs.{has_id, insertable, clashes, is_ready}
use veriproc.Store.Runs.Transition.{transition-Grows, cas_ok, cas_err, cas_missing}
use veriproc.Store.Runs.Unique.{replay-NoClash}
use veriproc.Store.Runs.Diagram.{
  Advances, Advances-refl, Advances-prepared, Advances-dispatched, Advances-running,
  Advances-finalizing, Advances-complete, Advances-canonicality, Advances-failed,
  Advances-cancellation_requested, Advances-cancelled, Advances-reconciliation, rank, Later,
  Later-of_Advances, Later-refl, Later-trans,
}
use veriproc.Store.Runs.Ops.{
  RunOp, perform, replay, insert, mark_prepared, mark_dispatched, mark_running,
  mark_ready_for_finalization, mark_complete, set_canonicality, mark_failed,
  mark_cancellation_requested, mark_cancelled, mark_reconciliation_started, clear_reconciliation,
}
use veriproc.Store.Runs

insert-Advances : (r : RunRecord) (db : Db) → Grows Advances db.runs (Runs.insert r db).1.runs
unfolding Runs.insert
insert-Advances r db = elim (Bool-cases (insertable r db)) [
  | inl e ↦ rw e (Grows-append Advances Advances-refl db.runs _)
  | inr e ↦ rw e (Grows-refl Advances Advances-refl db.runs)
]

-- One call that writes runs moves every row along one edge of the diagram of states at most, and
-- keeps its id, its task, its retry index and its working root; a row that has ended keeps its
-- state, its end time and its failure reason. No row is lost.
pub perform-Advances : (op : RunOp) (db : Db) → Grows Advances db.runs (perform op db).1.runs
unfolding perform Runs.mark_prepared Runs.mark_dispatched Runs.mark_running
    Runs.mark_ready_for_finalization Runs.mark_complete Runs.set_canonicality Runs.mark_failed
    Runs.mark_cancellation_requested Runs.mark_cancelled Runs.mark_reconciliation_started
    Runs.clear_reconciliation
perform-Advances (insert r) db = insert-Advances r db
perform-Advances (mark_prepared id fp at) db =
    transition-Grows Advances Advances-refl _ _ id db (λ r h. Advances-prepared r fp at h)
perform-Advances (mark_dispatched id at) db =
    transition-Grows Advances Advances-refl _ _ id db (λ r h. Advances-dispatched r at h)
perform-Advances (mark_running id at) db =
    transition-Grows Advances Advances-refl _ _ id db (λ r h. Advances-running r at h)
perform-Advances (mark_ready_for_finalization id) db =
    transition-Grows Advances Advances-refl _ _ id db (λ r h. Advances-finalizing r h)
perform-Advances (mark_complete id c at) db =
    transition-Grows Advances Advances-refl _ _ id db (λ r h. Advances-complete r c at h)
perform-Advances (set_canonicality id c) db =
    transition-Grows Advances Advances-refl _ _ id db (λ r _. Advances-canonicality r c)
perform-Advances (mark_failed id reason at) db =
    transition-Grows Advances Advances-refl _ _ id db (λ r h. Advances-failed r reason at h)
perform-Advances (mark_cancellation_requested id at) db =
    transition-Grows Advances Advances-refl _ _ id db (λ r _. Advances-cancellation_requested r at)
perform-Advances (mark_cancelled id at) db =
    transition-Grows Advances Advances-refl _ _ id db (λ r h. Advances-cancelled r at h)
perform-Advances (mark_reconciliation_started id at) db =
    transition-Grows Advances Advances-refl _ _ id db (λ r _. Advances-reconciliation r _)
perform-Advances (clear_reconciliation id) db =
    transition-Grows Advances Advances-refl _ _ id db (λ r _. Advances-reconciliation r none)

replay-Later : (ops : List RunOp) (db : Db) → Grows Later db.runs (replay ops db).runs
unfolding replay
replay-Later [] db = Grows-refl Later Later-refl db.runs
replay-Later (op ∷ ops) db =
    Grows-trans Later Later-trans db.runs (perform op db).1.runs _
      (Grows-map Advances Later Later-of_Advances db.runs _ (perform-Advances op db))
      (replay-Later ops (perform op db).1)

pub has_id-Later : (id : String) (r s : RunRecord) → Later r s → has_id id r ≡ has_id id s
has_id-Later id r s l = rw l.same_run_id

-- After any calls that write runs, a run that had ended is still there with the same state, end time
-- and failure reason.
pub replay-terminal :
    (ops : List RunOp) (db : Db) (id : String) {r : RunRecord}
    → find (has_id id) db.runs ≡ some r
    → is_terminal r.state ≡ true
    → (s : RunRecord) × (find (has_id id) (replay ops db).runs ≡ some s)
      × (s.state ≡ r.state)
      × (s.terminal_at ≡ r.terminal_at)
      × (s.failure_reason ≡ r.failure_reason)
replay-terminal ops db id {r} found ended =
    let (s, found', later) =
      Grows-find Later (has_id id) (has_id-Later id) db.runs _ (replay-Later ops db) found in
    let (a, b, c) = later.ended ended in (s, found', a, b, c)

-- The row that a successful MarkDispatched leaves.
dispatched_row :
    (id : String) (at : Time) (db : Db)
    → NoClash clashes db.runs
    → (Runs.mark_dispatched id at db).0 ≡ ok tt
    → (s : RunRecord) × (find (has_id id) (Runs.mark_dispatched id at db).1.runs ≡ some s)
      × (s.state ≡ dispatched)
unfolding Runs.mark_dispatched
dispatched_row id at db unique done = elim (Option-cases (find (has_id id) db.runs)) [
  | inl e ↦ absurd (cc (cas_missing is_ready set id db (λ _. refl) e, done))
  | inr (r, e) ↦ elim (Bool-cases (is_ready r.state)) [
    | inl t ↦ (set r, (cas_ok is_ready set id db (λ _. refl) e t).1, refl)
    | inr t ↦ absurd (cc (cas_err is_ready set id db (λ _. refl) unique e t, done))
  ]
]
  where
    set : RunRecord → RunRecord
    set r = record r { dispatched_at = some at; state = dispatched }

not_ready : (s : RunState) → 2 ≤ rank s → is_ready s ≡ false
not_ready ready h = absurd (omega arith)
not_ready _ h = refl

mark_dispatched_refused :
    (id : String) (at : Time) (db : Db) {r : RunRecord}
    → NoClash clashes db.runs
    → find (has_id id) db.runs ≡ some r
    → 2 ≤ rank r.state
    → Runs.mark_dispatched id at db ≡ (err invalid_transition, db)
unfolding Runs.mark_dispatched
mark_dispatched_refused id at db {r} unique found late =
    cas_err is_ready _ id db (λ _. refl) unique found (not_ready r.state late)

-- Once a MarkDispatched of a run has succeeded, no later one of that run does, whatever calls of
-- the repository come between, provided that the keys of the table are unique at the start.
pub dispatched_once :
    (id : String) (at again : Time) (ops : List RunOp) (db : Db)
    → NoClash clashes db.runs
    → (Runs.mark_dispatched id at db).0 ≡ ok tt
    → let after = replay (mark_dispatched id at ∷ ops) db in
      Runs.mark_dispatched id again after ≡ (err invalid_transition, after)
unfolding replay perform
dispatched_once id at again ops db unique done =
    let db' : Db = (Runs.mark_dispatched id at db).1 in
    let (r, found, state) = dispatched_row id at db unique done in
    let (s, found', later) =
      Grows-find Later (has_id id) (has_id-Later id) db'.runs _ (replay-Later ops db') found in
    mark_dispatched_refused id again (replay ops db')
      (replay-NoClash (mark_dispatched id at ∷ ops) db unique) found'
      (ground (arith, later.rank_le))
