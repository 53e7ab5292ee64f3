-- ===== src/Reconciler/Marker.antt =====
-- The marker of the reconciler, and what its calls keep.
use veriproc.Prelude.{◌≡◌, refl, String, List, [], ◌∷◌, All}
use veriproc.Prelude.Errors.{Error, Result, ok, err, job_not_found, run_not_found}
use veriproc.Prelude.Effects.{◌>>=◌, ◌>>◌, attempt, fail, pure, proceed, ignore, Eff}
use veriproc.Prelude.Effects.Within.{Within, Within-bind}
use veriproc.Store.Records.{Time, RunRecord}
use veriproc.Store.Runs
use veriproc.Store.Runs.{has_id}
use veriproc.Store.Runs.Marks.{
  clear_reconciliation-IsUnmarked, mark_reconciliation_started-IsUnmarked, IsUnmarked,
}
use veriproc.Runs.World.{World, Env, on_db}
use veriproc.Runs.World.Legal.{LegalWorld, LegalWorld-preorder, legal_rules}
use veriproc.Runs.Poll
use veriproc.Runs.Poll.Legal.{poll-Legal}
use veriproc.Reconciler.{after_poll, reconcile_one, reconcile_all, tick}

module _ {S : Type 0} (env : Env S) where
  after_poll-Legal : (r : Result RunRecord) → Within LegalWorld (after_poll env r)
  unfolding after_poll
  after_poll-Legal (ok r) = search legal_rules
  after_poll-Legal (err job_not_found) = search legal_rules
  after_poll-Legal (err run_not_found) = search legal_rules
  after_poll-Legal (err e) = search legal_rules

  pub reconcile_one-Legal :
      (id : String) (now : Time) → Within LegalWorld (reconcile_one env id now)
  unfolding reconcile_one
  reconcile_one-Legal id now = search (legal_rules, poll-Legal, after_poll-Legal) depth 10

  reconcile_all-Legal :
      (ids : List String) (now : Time) → Within LegalWorld (reconcile_all env ids now)
  unfolding reconcile_all
  reconcile_all-Legal [] now = search legal_rules
  reconcile_all-Legal (id ∷ ids) now =
      Within-bind LegalWorld-preorder _ _ (search (legal_rules, reconcile_one-Legal))
        (λ _. reconcile_all-Legal ids now)

  pub tick-Legal : (threshold now : Time) → Within LegalWorld (tick env threshold now)
  unfolding tick
  tick-Legal threshold now = search (legal_rules, reconcile_all-Legal)

  after_poll_state : (r : Result RunRecord) (w : World S) → (after_poll env r w).1 ≡ w
  unfolding after_poll pure fail
  after_poll_state (ok r) w = refl
  after_poll_state (err job_not_found) w = refl
  after_poll_state (err run_not_found) w = refl
  after_poll_state (err e) w = refl

  polled_and_cleared : String → Time → Eff (World S) (Unit {0})
  polled_and_cleared id now =
      attempt (Poll.poll env id now)
        (λ r. do ignore (on_db (Runs.clear_reconciliation id)); after_poll env r)

  polled_and_cleared-IsUnmarked :
      (id : String) (now : Time) (w : World S)
      → All (IsUnmarked id) (polled_and_cleared id now w).1.db.runs
  unfolding polled_and_cleared ◌>>=◌ attempt on_db pure
  polled_and_cleared-IsUnmarked id now w =
      let (r, v) = Poll.poll env id now w in
      rw (after_poll_state r _) (clear_reconciliation-IsUnmarked id v.db)

  after_mark :
      (id : String) (now : Time) (w : World S) (r : Result (Unit {0}))
      → ((e : Error) → r ≡ err e → All (IsUnmarked id) w.db.runs)
      → All (IsUnmarked id) (proceed (λ _. polled_and_cleared id now) r w).1.db.runs
  after_mark id now w (ok _) h = polled_and_cleared-IsUnmarked id now w
  after_mark id now w (err e) h = h e refl

  -- Once a run has been reconciled, whether the poll succeeded or failed, no row of that run
  -- carries the marker that blocks its cancellation and its promotion.
  pub reconcile_one-IsUnmarked :
      (id : String) (now : Time) (w : World S)
      → All (IsUnmarked id) (reconcile_one env id now w).1.db.runs
  unfolding reconcile_one polled_and_cleared ◌>>=◌ on_db
  reconcile_one-IsUnmarked id now w =
      after_mark id now _ (Runs.mark_reconciliation_started id now w.db).0
        (λ e h. mark_reconciliation_started-IsUnmarked id now w.db h)
