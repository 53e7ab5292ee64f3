-- ===== src/Groups.antt =====
-- internal/groups/service.go: split groups, whose state is derived from the states of their runs.
pub mod Derived
pub mod Aggregate
pub mod Legal
use veriproc.Prelude.{
  ℕ, ◌+◌, String, Bool, true, false, ◌==◌, ◌&&◌, ◌||◌, ◌++◌, List, [], ◌∷◌, Option, none, some,
  if◌then◌else◌, ltb, eqb, length, get_last?, All,
}
use veriproc.Prelude.Errors.{Error, Result, ok, err, not_found, group_not_found, other}
use veriproc.Prelude.Effects.{Eff, pure, fail, gets, ◌>>=◌, ◌>>◌, attempt}
use veriproc.Store.Table.{find}
use veriproc.Store.Records.{
  Time, RunState, RunRecord, Canonicality, SplitGroupState, SplitGroupRecord, SplitGroupMember,
  is_terminal,
}
use veriproc.Store.Db.{Db}
use veriproc.Store.Runs.{has_id}
use veriproc.Store.SplitGroups
use veriproc.Store.SplitGroups.{members_of}

-- Service.EnsureGroup
abbrev pub ensure_group : String → String → String → ℕ → Time → Eff Db SplitGroupRecord
ensure_group id label description expected now =
    if id == "" then fail other else SplitGroups.ensure_group id label description expected now

-- Service.RegisterRun
unfoldable pub register_run : String → String → String → String → Time → Eff Db (Unit {0})
unfolding ◌>>=◌
register_run group run task role now = if group == "" then pure tt else do
  ensure_group group "" "" 0 now
  SplitGroups.add_member
      (record { split_group_id = group; run_id = run; task_id = task; role = role; added_at = now })

pub record Tally : Type 0 where
  pub canonical : ℕ
  pub failed : ℕ
  pub terminal : ℕ
  pub total : ℕ

abbrev pub one_if : Bool → ℕ
one_if true = 1
one_if false = 0

abbrev pub is_failed : RunState → Bool
is_failed RunState.failed = true
is_failed _ = false

abbrev pub counts_as_canonical : Canonicality → Bool
counts_as_canonical Canonicality.canonical = true
counts_as_canonical Canonicality.forced = true
counts_as_canonical _ = false

-- One turn of the loop of tallyMembers; a member whose run is not found is counted in `total`.
abbrev pub count_run : Option RunRecord → Tally → Tally
count_run none t = record t { total = t.total + 1 }
count_run (some r) t = record {
  canonical = t.canonical + one_if (counts_as_canonical r.canonicality);
  failed = t.failed + one_if (is_failed r.state);
  terminal = t.terminal + one_if (is_terminal r.state);
  total = t.total + 1;
}

-- tallyMembers; the sums do not depend on the order of the loop
unfoldable pub tally_members : List SplitGroupMember → Db → Tally
tally_members [] db = record { canonical = 0; failed = 0; terminal = 0; total = 0 }
tally_members (m ∷ ms) db = count_run (find (has_id m.run_id) db.runs) (tally_members ms db)

abbrev pub is_open : SplitGroupState → Bool
is_open SplitGroupState.open_group = true
is_open _ = false

unfoldable pub derived_state : SplitGroupState → Tally → ℕ → SplitGroupState
derived_state current t expected =
    if ltb 0 expected && ltb t.total expected
    then (if is_open current then SplitGroupState.open_group else SplitGroupState.aggregating)
    else if is_open current && ltb t.terminal t.total
    then SplitGroupState.open_group
    else if eqb t.total 0
    then current
    else if ltb t.terminal t.total
    then SplitGroupState.aggregating
    else if eqb t.canonical 0 && ltb 0 t.failed
    then SplitGroupState.failed
    else if ltb 0 t.canonical
    then SplitGroupState.complete
    else if ltb 0 t.failed
    then SplitGroupState.failed
    else SplitGroupState.aggregating

abbrev expected_or_zero : Option ℕ → ℕ
expected_or_zero none = 0
expected_or_zero (some n) = n

abbrev pub same_state : SplitGroupState → SplitGroupState → Bool
same_state SplitGroupState.open_group SplitGroupState.open_group = true
same_state SplitGroupState.aggregating SplitGroupState.aggregating = true
same_state SplitGroupState.complete SplitGroupState.complete = true
same_state SplitGroupState.failed SplitGroupState.failed = true
same_state _ _ = false

-- ErrNotFound of the store is ErrGroupNotFound here.
abbrev group_error : Error → Error
group_error not_found = group_not_found
group_error e = e

abbrev after_get : Result SplitGroupRecord → Eff Db SplitGroupRecord
after_get (ok g) = pure g
after_get (err e) = fail (group_error e)

abbrev get_group : String → Eff Db SplitGroupRecord
get_group id = attempt (SplitGroups.get id) after_get

-- The state that Aggregate derives for a group from the tables as they stand.
abbrev pub derived : String → SplitGroupRecord → Db → SplitGroupState
derived id g db =
    derived_state g.state (tally_members (members_of id db) db)
      (expected_or_zero g.expected_members)

-- Service.Aggregate; `summary_of` is the fmt.Sprintf of the summary line
unfoldable pub aggregate : (Tally → String) → String → Time → Eff Db SplitGroupState
unfolding ◌>>=◌
aggregate summary_of id now = do
  g ← get_group id
  t ← gets (λ db. tally_members (members_of id db) db)
  let next = derived_state g.state t (expected_or_zero g.expected_members) in
      (do
        SplitGroups.set_aggregation id t.canonical t.failed (summary_of t)
        if same_state next g.state then pure tt else SplitGroups.set_state id next now
        pure next)

-- Service.Close; the materialized view that it returns is left out
unfoldable pub close : (Tally → String) → String → Time → Eff Db SplitGroupRecord
unfolding ◌>>=◌
close summary_of id now = do
  g ← get_group id
  if is_open g.state then SplitGroups.set_state id SplitGroupState.aggregating now else pure tt
  aggregate summary_of id now
  get_group id
