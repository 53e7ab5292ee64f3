-- ===== src/Store/Runs/Owner.antt =====
-- SetCanonicality of runs_lifecycle.go on two runs: the old owner of a fingerprint and the new one.
use veriproc.Prelude.{
  ◌≡◌, refl, ap, String, true, false, List, [], ◌∷◌, some, arith, Bool-cases, inl, inr, eq_iff,
}
use veriproc.Prelude.Errors.{ok}
use veriproc.Store.Table.{find, update}
use veriproc.Store.Records.{RunRecord, Canonicality}
use veriproc.Store.Db.{Db}
use veriproc.Store.Runs.{has_id, eligible, is_complete, set_canonicality}
use veriproc.Store.Runs.Transition.{cas_ok, transition_state}

abbrev pub ranked : Canonicality → RunRecord → RunRecord
ranked c r = record r { canonicality = c }

other_row :
    (id other : String) (c : Canonicality) (rs : List RunRecord)
    → (id ≡ other → ⊥)
    → find (has_id other) (update (eligible is_complete id) (ranked c) rs) ≡ find (has_id other) rs
other_row id other c [] ne = refl
other_row id other c (r ∷ rs) ne = elim (Bool-cases (eligible is_complete id r)) [
  | inl e ↦
      let apart : has_id other r ≡ false =
        ground (arith, eq_iff r.run_id id, eq_iff r.run_id other, eq_iff id other) in
      rw (e, apart) (other_row id other c rs ne)
  | inr e ↦ rw (e, other_row id other c rs ne) refl
]

module _ (id : String) (c : Canonicality) (db : Db) where
  -- A complete run gets the canonicality, and the call succeeds.
  pub set_canonicality_complete :
      {r : RunRecord}
      → find (has_id id) db.runs ≡ some r
      → is_complete r.state ≡ true
      → ((set_canonicality id c db).0 ≡ ok tt)
        × (find (has_id id) (set_canonicality id c db).1.runs ≡ some (ranked c r))
  unfolding set_canonicality
  set_canonicality_complete found done =
      let (result, row) = cas_ok is_complete (ranked c) id db (λ _. refl) found done in
      (ap (λ x. x.0) result, row)

  -- Other runs keep theirs.
  pub set_canonicality-other :
      (other : String)
      → (id ≡ other → ⊥)
      → find (has_id other) (set_canonicality id c db).1.runs ≡ find (has_id other) db.runs
  unfolding set_canonicality
  set_canonicality-other other ne =
      rw (transition_state is_complete (ranked c) id db) (other_row id other c db.runs ne)

  -- Nothing but the runs changes.
  pub set_canonicality-elsewhere :
      ((set_canonicality id c db).1.fingerprints ≡ db.fingerprints)
      × ((set_canonicality id c db).1.audit ≡ db.audit)
  unfolding set_canonicality
  set_canonicality-elsewhere = rw (transition_state is_complete (ranked c) id db) (refl, refl)
