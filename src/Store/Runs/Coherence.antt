-- ===== src/Store/Runs/Coherence.antt =====
-- What holds of every row of the runs table between two calls (runs.go, runs_lifecycle.go).
use veriproc.Prelude.{
  ◌≡◌, Bool, true, false, List, [], ◌∷◌, arith, All, All-append, is_some, Bool-cases, inl, inr,
}
use veriproc.Store.Records.{
  RunState, RunRecord, Canonicality, is_terminal, ready, dispatched, running, finalizing, complete,
  undecided,
}
use veriproc.Store.Db.{Db}
use veriproc.Store.Runs.{is_complete, insertable, fresh}
use veriproc.Store.Runs.Transition.{transition-All}
use veriproc.Store.Runs.Ops.{
  RunOp, perform, replay, insert, mark_prepared, mark_dispatched, mark_running,
  mark_ready_for_finalization, mark_complete, set_canonicality, mark_failed,
  mark_cancellation_requested, mark_cancelled, mark_reconciliation_started, clear_reconciliation,
}
use veriproc.Store.Runs

abbrev pub is_decided : Canonicality → Bool
is_decided undecided = false
is_decided _ = true

abbrev pub past_preparation : RunState → Bool
past_preparation ready = true
past_preparation dispatched = true
past_preparation running = true
past_preparation finalizing = true
past_preparation complete = true
past_preparation _ = false

abbrev pub past_dispatch : RunState → Bool
past_dispatch dispatched = true
past_dispatch running = true
past_dispatch finalizing = true
past_dispatch complete = true
past_dispatch _ = false

abbrev pub is_running : RunState → Bool
is_running running = true
is_running _ = false

pub record IsCoherent (r : RunRecord) : Type 0 where
  pub ends : is_terminal r.state ≡ is_some r.terminal_at
  pub decided : is_complete r.state ≡ is_decided r.canonicality
  pub prepared : past_preparation r.state ≡ true → is_some r.prepared_at ≡ true
  pub dispatched_first : past_dispatch r.state ≡ true → is_some r.dispatched_at ≡ true
  pub started : is_running r.state ≡ true → is_some r.started_at ≡ true

-- A new run is coherent, and a run is only ever given a decided canonicality.
abbrev pub IsLawful : RunOp → Type 0
IsLawful (insert r) = IsCoherent (fresh r)
IsLawful (mark_complete id c at) = is_decided c ≡ true
IsLawful (set_canonicality id c) = is_decided c ≡ true
IsLawful _ = Unit

insert-IsCoherent :
    (r : RunRecord) (db : Db)
    → IsCoherent (fresh r)
    → All IsCoherent db.runs
    → All IsCoherent (Runs.insert r db).1.runs
unfolding Runs.insert
insert-IsCoherent r db new h = elim (Bool-cases (insertable r db)) [
  | inl e ↦ rw e (All-append IsCoherent db.runs (fresh r ∷ []) h (new, tt))
  | inr e ↦ rw e h
]

pub perform-IsCoherent :
    (op : RunOp) (db : Db)
    → IsLawful op
    → All IsCoherent db.runs
    → All IsCoherent (perform op db).1.runs
unfolding perform Runs.mark_prepared Runs.mark_dispatched Runs.mark_running
    Runs.mark_ready_for_finalization Runs.mark_complete Runs.set_canonicality Runs.mark_failed
    Runs.mark_cancellation_requested Runs.mark_cancelled Runs.mark_reconciliation_started
    Runs.clear_reconciliation
perform-IsCoherent (insert r) db l h = insert-IsCoherent r db l h
perform-IsCoherent (mark_prepared id fp at) db l h =
    transition-All IsCoherent _ _ id db (λ r g c. ground arith) h
perform-IsCoherent (mark_dispatched id at) db l h =
    transition-All IsCoherent _ _ id db (λ r g c. ground arith) h
perform-IsCoherent (mark_running id at) db l h =
    transition-All IsCoherent _ _ id db (λ r g c. ground arith) h
perform-IsCoherent (mark_ready_for_finalization id) db l h =
    transition-All IsCoherent _ _ id db (λ r g c. ground arith) h
perform-IsCoherent (mark_complete id k at) db l h =
    transition-All IsCoherent _ _ id db (λ r g c. ground arith) h
perform-IsCoherent (set_canonicality id k) db l h =
    transition-All IsCoherent _ _ id db (λ r g c. ground arith) h
perform-IsCoherent (mark_failed id reason at) db l h =
    transition-All IsCoherent _ _ id db (λ r g c. ground arith) h
perform-IsCoherent (mark_cancellation_requested id at) db l h =
    transition-All IsCoherent _ _ id db (λ r g c. ground arith) h
perform-IsCoherent (mark_cancelled id at) db l h =
    transition-All IsCoherent _ _ id db (λ r g c. ground arith) h
perform-IsCoherent (mark_reconciliation_started id at) db l h =
    transition-All IsCoherent _ _ id db (λ r g c. ground arith) h
perform-IsCoherent (clear_reconciliation id) db l h =
    transition-All IsCoherent _ _ id db (λ r g c. ground arith) h

-- Whatever calls are made, in whatever order, every run stays coherent: it has a terminal time
-- just in a terminal state, a canonicality other than the initial one just when it is complete,
-- and the preparation, dispatch and start times that its state calls for. It is assumed that the
-- rows at the start and the inserted ones are coherent, and that no call writes the initial
-- canonicality back.
pub replay-IsCoherent :
    (ops : List RunOp) (db : Db)
    → All IsLawful ops
    → All IsCoherent db.runs
    → All IsCoherent (replay ops db).runs
unfolding replay
replay-IsCoherent [] db l h = h
replay-IsCoherent (op ∷ ops) db l h =
    replay-IsCoherent ops (perform op db).1 l.1 (perform-IsCoherent op db l.0 h)
