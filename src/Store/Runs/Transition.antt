-- ===== src/Store/Runs/Transition.antt =====
-- What one conditional UPDATE of a run does: to every row, and to its caller.
use veriproc.Prelude.{
  ◌≡◌, String, Bool, true, false, arith, eqb, Bool-cases, ℕ, none, some, eq_iff, inl, inr, All,
}
use veriproc.Prelude.Errors.{ok, err, invalid_transition}
use veriproc.Store.Table.{update, affected, find, exists_row}
use veriproc.Store.Table.Keys.{
  NoClash, find-update, exists_row-find, exists_row_unique, exists_row-of_find-none,
}
use veriproc.Store.Table.Laws.{
  Grows, update-Grows, All-update, affected-exists_row, exists_row-affected, update-of_none,
}
use veriproc.Store.Records.{RunState, RunRecord}
use veriproc.Store.Db.{Db}
use veriproc.Store.Runs.{transition, must_affect, eligible, has_id, clashes}

must_affect_state : (n : ℕ) (db : Db) → (must_affect n db).1 ≡ db
unfolding must_affect
must_affect_state n db = elim (Bool-cases (eqb n 0)) [ inl e ↦ rw e | inr e ↦ rw e ]

module _ (guard : RunState → Bool) (set : RunRecord → RunRecord) (id : String) (db : Db) where
  -- The tables afterwards, whatever the outcome.
  pub transition_state :
      (transition guard set id db).1 ≡ record db { runs = update (eligible guard id) set db.runs }
  unfolding transition
  transition_state = must_affect_state _ _

  -- With an eligible row the call succeeds.
  pub transition_ok :
      exists_row (eligible guard id) db.runs ≡ true
      → transition guard set id db
        ≡ (ok tt, record db { runs = update (eligible guard id) set db.runs })
  unfolding transition must_affect
  transition_ok h = elim (Bool-cases (eqb (affected (eligible guard id) db.runs) 0)) [
    | inl e ↦ absurd (cc (affected-exists_row (eligible guard id) db.runs e, h))
    | inr e ↦ rw e
  ]

  -- With none it fails, and changes nothing.
  pub transition_err :
      exists_row (eligible guard id) db.runs ≡ false
      → transition guard set id db ≡ (err invalid_transition, db)
  unfolding transition must_affect
  transition_err h = elim (Bool-cases (eqb (affected (eligible guard id) db.runs) 0)) [
    | inl e ↦ rw (e, update-of_none (eligible guard id) set db.runs h)
    | inr e ↦ absurd (cc (exists_row-affected (eligible guard id) db.runs e, h))
  ]

guard_of_eligible :
    (guard : RunState → Bool) (id : String) (r : RunRecord)
    → eligible guard id r ≡ true
    → guard r.state ≡ true
guard_of_eligible guard id r h = ground arith

pub transition-Grows :
    (R : RunRecord → RunRecord → Type 0)
    → ((r : RunRecord) → R r r)
    → (guard : RunState → Bool) (set : RunRecord → RunRecord) (id : String) (db : Db)
    → ((r : RunRecord) → guard r.state ≡ true → R r (set r))
    → Grows R db.runs (transition guard set id db).1.runs
transition-Grows R same guard set id db step = rw (transition_state guard set id db) (
    update-Grows R (eligible guard id) set same (λ r h. step r (guard_of_eligible guard id r h))
      db.runs)

pub transition-All :
    (P : RunRecord → Type 0) (guard : RunState → Bool) (set : RunRecord → RunRecord) (id : String)
    (db : Db)
    → ((r : RunRecord) → guard r.state ≡ true → P r → P (set r))
    → All P db.runs
    → All P (transition guard set id db).1.runs
transition-All P guard set id db step h = rw (transition_state guard set id db) (
    All-update P (eligible guard id) set (λ r e p. step r (guard_of_eligible guard id r e) p)
      db.runs h)

clashes_of_id :
    (id : String) (r s : RunRecord) → has_id id r ≡ true → has_id id s ≡ true → clashes r s ≡ true
clashes_of_id id r s h k =
    ground (arith, eq_iff r.run_id id, eq_iff s.run_id id, eq_iff s.run_id r.run_id)

-- A conditional UPDATE is a compare-and-set on the run that `RunRepo.Get` finds.
module _ (guard : RunState → Bool) (set : RunRecord → RunRecord) (id : String) (db : Db)
    (same : (r : RunRecord) → has_id id (set r) ≡ has_id id r) where
  pub cas_ok :
      {r : RunRecord}
      → find (has_id id) db.runs ≡ some r
      → guard r.state ≡ true
      → (transition guard set id db
          ≡ (ok tt, record db { runs = update (eligible guard id) set db.runs }))
        × (find (has_id id) (transition guard set id db).1.runs ≡ some (set r))
  cas_ok {r} found may =
      let moved =
        find-update (has_id id) (λ (s : RunRecord). guard s.state) set same db.runs found in
      (
        transition_ok guard set id db
            (exists_row-find (has_id id) (λ s. guard s.state) db.runs found may),
        rw (transition_state guard set id db) (rw may at moved),
      )

  pub cas_err :
      {r : RunRecord}
      → NoClash clashes db.runs
      → find (has_id id) db.runs ≡ some r
      → guard r.state ≡ false
      → transition guard set id db ≡ (err invalid_transition, db)
  cas_err unique found no_longer = transition_err guard set id db (
      exists_row_unique (has_id id) (λ s. guard s.state) clashes (clashes_of_id id) db.runs unique
        found no_longer)

  pub cas_missing :
      find (has_id id) db.runs ≡ none → transition guard set id db ≡ (err invalid_transition, db)
  cas_missing absent =
      transition_err guard set id db
        (exists_row-of_find-none (has_id id) (λ s. guard s.state) db.runs absent)
