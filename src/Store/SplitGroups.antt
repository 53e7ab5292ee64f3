-- ===== src/Store/SplitGroups.antt =====
-- internal/store/split_groups.go: the operations of `SplitGroupRepo`.
use veriproc.Prelude.{
  ℕ, String, Bool, ◌==◌, ◌&&◌, ◌++◌, ◌∷◌, [], not, List, none, some, if◌then◌else◌, coalesce, ltb,
}
use veriproc.Prelude.Errors.{ok, err, conflict}
use veriproc.Prelude.Effects.{Eff, pure, ◌>>=◌, ◌>>◌}
use veriproc.Store.Table.{find, select, exists_row}
use veriproc.Store.Records.{
  Time, SplitGroupRecord, SplitGroupMember, SplitGroupState, RunRecord, TaskRecord,
}
use veriproc.Store.Db.{Db, or_not_found, exec_groups}

abbrev pub is_group : String → SplitGroupRecord → Bool
is_group id g = g.split_group_id == id

-- SplitGroupRepo.Get
unfoldable pub get : String → Eff Db SplitGroupRecord
get id db = (or_not_found (find (is_group id) db.groups), db)

abbrev new_group : String → String → String → ℕ → Time → SplitGroupRecord
new_group id label description expected at = record {
  split_group_id = id;
  label = label;
  description = description;
  state = SplitGroupState.open_group;
  expected_members = if ltb 0 expected then some expected else none;
  canonical_count = 0;
  failed_count = 0;
  summary = "";
  created_at = at;
  closed_at = none;
  aggregated_at = none;
}

-- SplitGroupRepo.EnsureGroup; an `expected` that is not positive is 0 here
unfoldable pub ensure_group : String → String → String → ℕ → Time → Eff Db SplitGroupRecord
ensure_group id label description expected at db = elim (find (is_group id) db.groups) [
  | some g ↦ (ok g, db)
  | none ↦
      let g = new_group id label description expected at in
      (ok g, record db { groups = db.groups ++ g ∷ [] })
]

abbrev same_member : SplitGroupMember → SplitGroupMember → Bool
same_member m n = n.split_group_id == m.split_group_id && n.run_id == m.run_id

-- SplitGroupRepo.AddMember
unfoldable pub add_member : SplitGroupMember → Eff Db (Unit {0})
add_member m db =
    if exists_row (same_member m) db.members
    then (ok tt, db)
    else if not (
        exists_row (is_group m.split_group_id) db.groups
        && exists_row (λ (r : RunRecord). r.run_id == m.run_id) db.runs
        && exists_row (λ (t : TaskRecord). t.task_id == m.task_id) db.tasks)
    then (err conflict, db)
    else (ok tt, record db { members = db.members ++ m ∷ [] })

-- `ORDER BY added_at ASC`; the tie-break on run_id is left out, since its order of texts decides
-- nothing that follows
abbrev place : SplitGroupMember → List SplitGroupMember → List SplitGroupMember
place m [] = m ∷ []
place m (n ∷ ns) = if ltb n.added_at m.added_at then n ∷ place m ns else m ∷ n ∷ ns

abbrev by_time : List SplitGroupMember → List SplitGroupMember
by_time [] = []
by_time (m ∷ ms) = place m (by_time ms)

-- SplitGroupRepo.ListMembers
abbrev pub members_of : String → Db → List SplitGroupMember
members_of id db = by_time (select (λ m. m.split_group_id == id) db.members)

-- The columns that SetState writes for each target state.
abbrev pub with_state : SplitGroupState → Time → SplitGroupRecord → SplitGroupRecord
with_state SplitGroupState.aggregating at g = record g {
  state = SplitGroupState.aggregating;
  closed_at = coalesce g.closed_at at;
}
with_state SplitGroupState.complete at g = record g {
  state = SplitGroupState.complete;
  closed_at = coalesce g.closed_at at;
  aggregated_at = some at;
}
with_state SplitGroupState.failed at g = record g {
  state = SplitGroupState.failed;
  closed_at = coalesce g.closed_at at;
  aggregated_at = some at;
}
with_state SplitGroupState.open_group at g = record g { state = SplitGroupState.open_group }

-- SplitGroupRepo.SetState
unfoldable pub set_state : String → SplitGroupState → Time → Eff Db (Unit {0})
unfolding ◌>>=◌
set_state id state at = do exec_groups (is_group id) (with_state state at); pure tt

-- SplitGroupRepo.SetAggregation
unfoldable pub set_aggregation : String → ℕ → ℕ → String → Eff Db (Unit {0})
unfolding ◌>>=◌
set_aggregation id canonical failed summary = do
  exec_groups (is_group id)
      (λ g. record g { canonical_count = canonical; failed_count = failed; summary = summary })
  pure tt
