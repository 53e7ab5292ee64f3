-- ===== src/Store/Runs/Unique.antt =====
-- The keys of the runs table stay unique (runs.go, migrations/0001_init.sql).
use veriproc.Prelude.{◌≡◌, refl, String, Bool, List, [], ◌∷◌, arith, eq_iff, Bool-cases, inl, inr}
use veriproc.Store.Table.Keys.{NoClash, NoClash-update, NoClash-append}
use veriproc.Store.Records.{RunState, RunRecord}
use veriproc.Store.Db.{Db}
use veriproc.Store.Runs.{clashes, insertable, fresh, eligible, transition}
use veriproc.Store.Runs.Transition.{transition_state}
use veriproc.Store.Runs.Ops.{
  RunOp, perform, replay, insert, mark_prepared, mark_dispatched, mark_running,
  mark_ready_for_finalization, mark_complete, set_canonicality, mark_failed,
  mark_cancellation_requested, mark_cancelled, mark_reconciliation_started, clear_reconciliation,
}
use veriproc.Store.Runs

clashes_comm : (r s : RunRecord) → clashes r s ≡ clashes s r
clashes_comm r s = ground (
  arith,
  eq_iff r.run_id s.run_id,
  eq_iff s.run_id r.run_id,
  eq_iff r.working_root s.working_root,
  eq_iff s.working_root r.working_root,
  eq_iff r.task_id s.task_id,
  eq_iff s.task_id r.task_id,
)

insert-NoClash :
    (r : RunRecord) (db : Db) → NoClash clashes db.runs → NoClash clashes (Runs.insert r db).1.runs
unfolding Runs.insert
insert-NoClash r db h = elim (Bool-cases (insertable r db)) [
  | inl e ↦ rw e (NoClash-append clashes clashes_comm db.runs (fresh r) h (ground arith))
  | inr e ↦ rw e h
]

transition-NoClash :
    (guard : RunState → Bool) (set : RunRecord → RunRecord) (id : String) (db : Db)
    → ((r s : RunRecord) → clashes r (set s) ≡ clashes r s)
    → ((r s : RunRecord) → clashes (set r) s ≡ clashes r s)
    → NoClash clashes db.runs
    → NoClash clashes (transition guard set id db).1.runs
transition-NoClash guard set id db right left h =
    rw (transition_state guard set id db)
      (NoClash-update clashes (eligible guard id) set right left db.runs h)

pub perform-NoClash :
    (op : RunOp) (db : Db) → NoClash clashes db.runs → NoClash clashes (perform op db).1.runs
unfolding perform Runs.mark_prepared Runs.mark_dispatched Runs.mark_running
    Runs.mark_ready_for_finalization Runs.mark_complete Runs.set_canonicality Runs.mark_failed
    Runs.mark_cancellation_requested Runs.mark_cancelled Runs.mark_reconciliation_started
    Runs.clear_reconciliation
perform-NoClash (insert r) db h = insert-NoClash r db h
perform-NoClash (mark_prepared id _ _) db h =
    transition-NoClash _ _ id db (λ r s. refl) (λ r s. refl) h
perform-NoClash (mark_dispatched id _) db h =
    transition-NoClash _ _ id db (λ r s. refl) (λ r s. refl) h
perform-NoClash (mark_running id _) db h =
    transition-NoClash _ _ id db (λ r s. refl) (λ r s. refl) h
perform-NoClash (mark_ready_for_finalization id) db h =
    transition-NoClash _ _ id db (λ r s. refl) (λ r s. refl) h
perform-NoClash (mark_complete id _ _) db h =
    transition-NoClash _ _ id db (λ r s. refl) (λ r s. refl) h
perform-NoClash (set_canonicality id _) db h =
    transition-NoClash _ _ id db (λ r s. refl) (λ r s. refl) h
perform-NoClash (mark_failed id _ _) db h =
    transition-NoClash _ _ id db (λ r s. refl) (λ r s. refl) h
perform-NoClash (mark_cancellation_requested id _) db h =
    transition-NoClash _ _ id db (λ r s. refl) (λ r s. refl) h
perform-NoClash (mark_cancelled id _) db h =
    transition-NoClash _ _ id db (λ r s. refl) (λ r s. refl) h
perform-NoClash (mark_reconciliation_started id _) db h =
    transition-NoClash _ _ id db (λ r s. refl) (λ r s. refl) h
perform-NoClash (clear_reconciliation id) db h =
    transition-NoClash _ _ id db (λ r s. refl) (λ r s. refl) h

-- After any calls that write runs, no two rows share a run id, a working root, or a task and a
-- retry index, if none did before.
pub replay-NoClash :
    (ops : List RunOp) (db : Db) → NoClash clashes db.runs → NoClash clashes (replay ops db).runs
unfolding replay
replay-NoClash [] db h = h
replay-NoClash (op ∷ ops) db h = replay-NoClash ops (perform op db).1 (perform-NoClash op db h)
