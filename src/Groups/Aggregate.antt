-- ===== src/Groups/Aggregate.antt =====
-- Service.Aggregate as a whole: what it answers and what it leaves in the tables.
use veriproc.Prelude.{◌≡◌, refl, sym, List, String, true, some, Bool-cases, inl, inr, arith}
use veriproc.Prelude.Errors.{ok}
use veriproc.Prelude.Effects.{◌>>=◌, attempt}
use veriproc.Store.Table.{find, update}
use veriproc.Store.Table.Keys.{find-update_key}
use veriproc.Store.Records.{Time, SplitGroupRecord, SplitGroupState}
use veriproc.Store.Db.{Db}
use veriproc.Store.SplitGroups
use veriproc.Store.SplitGroups.{is_group, members_of, with_state}
use veriproc.Groups.{Tally, tally_members, aggregate, derived, same_state}

same_state_eq : (s t : SplitGroupState) → same_state s t ≡ true → s ≡ t
same_state_eq s t h = ground arith

with_state_id :
    (id : String) (s : SplitGroupState) (at : Time) (g : SplitGroupRecord)
    → is_group id (with_state s at g) ≡ is_group id g
with_state_id id SplitGroupState.open_group at g = refl
with_state_id id SplitGroupState.aggregating at g = refl
with_state_id id SplitGroupState.complete at g = refl
with_state_id id SplitGroupState.failed at g = refl

with_state_state :
    (s : SplitGroupState) (at : Time) (g : SplitGroupRecord) → (with_state s at g).state ≡ s
with_state_state SplitGroupState.open_group at g = refl
with_state_state SplitGroupState.aggregating at g = refl
with_state_state SplitGroupState.complete at g = refl
with_state_state SplitGroupState.failed at g = refl

with_state_counts :
    (s : SplitGroupState) (at : Time) (g : SplitGroupRecord)
    → ((with_state s at g).canonical_count ≡ g.canonical_count)
      × ((with_state s at g).failed_count ≡ g.failed_count)
with_state_counts SplitGroupState.open_group at g = (refl, refl)
with_state_counts SplitGroupState.aggregating at g = (refl, refl)
with_state_counts SplitGroupState.complete at g = (refl, refl)
with_state_counts SplitGroupState.failed at g = (refl, refl)

-- What SetState does to the row of a group.
set_state-find :
    (id : String) (s : SplitGroupState) (at : Time) (gs : List SplitGroupRecord)
    → {g : SplitGroupRecord} → find (is_group id) gs ≡ some g
    → (h : SplitGroupRecord) × (find (is_group id) (update (is_group id) (with_state s at) gs)
        ≡ some h)
      × (h.state ≡ s)
      × (h.canonical_count ≡ g.canonical_count)
      × (h.failed_count ≡ g.failed_count)
set_state-find id s at gs {g} found =
    let (a, b) = with_state_counts s at g in
    (
      with_state s at g,
      find-update_key (is_group id) (with_state s at) (with_state_id id s at) gs found,
      with_state_state s at g,
      a,
      b,
    )

module _ (summary_of : Tally → String) (id : String) (now : Time) (db : Db) where
  -- The rows after SetAggregation.
  abbrev counted : Tally → SplitGroupRecord → SplitGroupRecord
  counted t g = record g {
    canonical_count = t.canonical;
    failed_count = t.failed;
    summary = summary_of t;
  }

  -- Aggregate of a group in the table answers the derived state, and leaves that state and the
  -- counts that it is derived from in the group's row.
  pub aggregate-derived :
      {g : SplitGroupRecord}
      → find (is_group id) db.groups ≡ some g
      → let t = tally_members (members_of id db) db in
        ((aggregate summary_of id now db).0 ≡ ok (derived id g db))
        × ((h : SplitGroupRecord) × (find (is_group id) (aggregate summary_of id now db).1.groups
              ≡ some h)
            × (h.state ≡ derived id g db)
            × (h.canonical_count ≡ t.canonical)
            × (h.failed_count ≡ t.failed))
  unfolding aggregate ◌>>=◌ attempt SplitGroups.get SplitGroups.set_aggregation
      SplitGroups.set_state
  aggregate-derived {g} found =
      let t : Tally = tally_members (members_of id db) db in
      let first = find-update_key (is_group id) (counted t) (λ _. refl) db.groups found in
      elim (Bool-cases (same_state (derived id g db) g.state)) [
        | inl e ↦ rw (found, e) (refl, (counted t g, first, sym (same_state_eq _ _ e), refl, refl))
        | inr e ↦ rw (found, e) (refl, set_state-find id _ now _ first)
      ]
