-- ===== src/Store/Runs/Marks.antt =====
-- The marker of the reconciler on a run: MarkReconciliationStarted and ClearReconciliation of
-- runs_lifecycle.go.
use veriproc.Prelude.{
  ◌≡◌, refl, String, true, false, List, [], ◌∷◌, none, All, arith, Bool-cases, inl, inr,
}
use veriproc.Prelude.Errors.{Error, err}
use veriproc.Store.Table.{update, exists_row}
use veriproc.Store.Records.{Time, RunRecord}
use veriproc.Store.Db.{Db}
use veriproc.Store.Runs.{has_id, eligible, clear_reconciliation, mark_reconciliation_started}
use veriproc.Store.Runs.Transition.{transition_state, transition_ok, transition_err}

-- No marker, where the row is one of the run `id`.
abbrev pub IsUnmarked : String → RunRecord → Type 0
IsUnmarked id r = has_id id r ≡ true → r.reconciliation_started_at ≡ none

cleared :
    (id : String) (rs : List RunRecord)
    → All
        (IsUnmarked id)
        (update (eligible (λ _. true) id) (λ r. record r { reconciliation_started_at = none }) rs)
cleared id [] = tt
cleared id (r ∷ rs) = elim (Bool-cases (has_id id r)) [
  | inl e ↦ rw e ((λ _. refl), cleared id rs)
  | inr e ↦ rw e ((λ t. absurd (cc (e, t))), cleared id rs)
]

pub clear_reconciliation-IsUnmarked :
    (id : String) (db : Db) → All (IsUnmarked id) (clear_reconciliation id db).1.runs
unfolding clear_reconciliation
clear_reconciliation-IsUnmarked id db = rw (transition_state _ _ id db) (cleared id db.runs)

absent :
    (id : String) (rs : List RunRecord)
    → exists_row (eligible (λ _. true) id) rs ≡ false
    → All (IsUnmarked id) rs
absent id [] h = tt
absent id (r ∷ rs) h = ((λ t. ground arith), absent id rs (ground arith))

-- A run that could not be marked is not in the table.
pub mark_reconciliation_started-IsUnmarked :
    (id : String) (at : Time) (db : Db) {e : Error}
    → (mark_reconciliation_started id at db).0 ≡ err e
    → All (IsUnmarked id) (mark_reconciliation_started id at db).1.runs
unfolding mark_reconciliation_started
mark_reconciliation_started-IsUnmarked id at db {e} h =
    elim (Bool-cases (exists_row (eligible (λ _. true) id) db.runs)) [
      | inl t ↦ absurd (cc (transition_ok _ _ id db t, h))
      | inr t ↦ rw (transition_err _ _ id db t) (absent id db.runs t)
    ]
